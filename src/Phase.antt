-- ===== src/Phase.antt =====
-- packages/core/src/phase.ts: the reduction of a tunnel's status and the evidence on its egress path
-- to the phase that a client shows.
pub mod Vpn
mod Examples
use warren_sdk_ts.Prelude.{
  ◌≡◌, ◌↔◌, ◌⊎◌, inl, inr, Bool, true, false, not, ◌&&◌, if◌then◌else◌, Bool-cases, arith,
}

pub data ConnectionPhase : Type 0 where
  exposed : ConnectionPhase
  connecting : ConnectionPhase
  protected : ConnectionPhase
  interrupted : ConnectionPhase
  blocked : ConnectionPhase

pub data TunnelStatus : Type 0 where
  connected : TunnelStatus
  opening : TunnelStatus
  disconnecting : TunnelStatus
  draining : TunnelStatus
  reconnecting : TunnelStatus
  disconnected : (locked_down : Bool) → TunnelStatus
  error : (blocking_error : Bool) → TunnelStatus

pub record EgressEvidence : Type 0 where
  pub host_offline : Bool
  pub exit_egress_dead : Bool

abbrev pub verified_egress : EgressEvidence
verified_egress = record { host_offline = false; exit_egress_dead = false }

unfoldable pub egress_verified : EgressEvidence → Bool
egress_verified evidence = not evidence.host_offline && not evidence.exit_egress_dead

-- The source's status `connecting` is `opening` here, since the phase has that word too.
unfoldable pub reduce_phase : TunnelStatus → EgressEvidence → ConnectionPhase
reduce_phase connected evidence = if egress_verified evidence then protected else interrupted
reduce_phase opening evidence = connecting
reduce_phase disconnecting evidence = connecting
reduce_phase draining evidence = connecting
reduce_phase reconnecting evidence = interrupted
reduce_phase (disconnected locked_down) evidence = if locked_down then blocked else exposed
reduce_phase (error blocking_error) evidence = if blocking_error then exposed else blocked

-- Traffic flows: a connected tunnel, its host and its exit both up.
abbrev pub Flows : TunnelStatus → EgressEvidence → Type 0
Flows status evidence =
    (status ≡ connected) × (evidence.host_offline ≡ false) × (evidence.exit_egress_dead ≡ false)

-- Nothing is let out although no tunnel carries traffic.
abbrev pub Holds : TunnelStatus → Type 0
Holds status = (status ≡ disconnected true) ⊎ (status ≡ error false)

-- Traffic leaves outside a tunnel.
abbrev pub Leaks : TunnelStatus → Type 0
Leaks status = (status ≡ disconnected false) ⊎ (status ≡ error true)

-- The phase is `protected` exactly when the tunnel is connected with its host online and its exit
-- forwarding, `blocked` exactly when a lockdown or a blocking error holds the traffic, and `exposed`
-- exactly when a disconnected tunnel is not locked down or an error failed to block.
pub reduce_phase_iff :
    (status : TunnelStatus) (evidence : EgressEvidence)
    → ((reduce_phase status evidence ≡ protected) ↔ Flows status evidence)
      × ((reduce_phase status evidence ≡ blocked) ↔ Holds status)
      × ((reduce_phase status evidence ≡ exposed) ↔ Leaks status)
unfolding reduce_phase egress_verified
reduce_phase_iff connected evidence = elim (Bool-cases evidence.host_offline) [
  | inl e ↦ ground arith
  | inr e ↦ elim (Bool-cases evidence.exit_egress_dead) [
    | inl f ↦ ground arith
    | inr f ↦ ground arith
  ]
]
reduce_phase_iff opening evidence = ground arith
reduce_phase_iff disconnecting evidence = ground arith
reduce_phase_iff draining evidence = ground arith
reduce_phase_iff reconnecting evidence = ground arith
reduce_phase_iff (disconnected true) evidence = ground arith
reduce_phase_iff (disconnected false) evidence = ground arith
reduce_phase_iff (error true) evidence = ground arith
reduce_phase_iff (error false) evidence = ground arith
