-- ===== src/Phase/Vpn.antt =====
-- packages/extension/src/phase.ts: the phase of the extension, from the state that its host relays and
-- from whether the browser's proxy still points at the tunnel.
use warren_sdk_ts.Prelude.{
  ◌≡◌, ◌↔◌, ◌⊎◌, inl, inr, refl, Option, none, some, Bool, true, false, not, arith,
}
use warren_sdk_ts.Phase.{
  ConnectionPhase, exposed, protected, blocked, TunnelStatus, EgressEvidence, verified_egress,
  reduce_phase, Holds, Leaks, reduce_phase_iff,
}

-- `ExtensionVpnState`
pub data ExtensionVpnState : Type 0 where
  connecting : ExtensionVpnState
  connected : ExtensionVpnState
  reconnecting : ExtensionVpnState
  draining : ExtensionVpnState
  failed : ExtensionVpnState
  disconnected : ExtensionVpnState

unfoldable pub tunnel_status_of_vpn_state : ExtensionVpnState → Bool → TunnelStatus
tunnel_status_of_vpn_state connecting proxied = TunnelStatus.opening
tunnel_status_of_vpn_state connected proxied = TunnelStatus.connected
tunnel_status_of_vpn_state reconnecting proxied = TunnelStatus.reconnecting
tunnel_status_of_vpn_state draining proxied = TunnelStatus.draining
tunnel_status_of_vpn_state failed proxied = TunnelStatus.error (not proxied)
tunnel_status_of_vpn_state disconnected proxied = TunnelStatus.disconnected proxied

pub record VpnPhaseInputs : Type 0 where
  pub proxied : Bool
  pub egress : Option EgressEvidence

abbrev pub egress_or_verified : Option EgressEvidence → EgressEvidence
egress_or_verified none = verified_egress
egress_or_verified (some evidence) = evidence

unfoldable pub phase_of_vpn_state : ExtensionVpnState → VpnPhaseInputs → ConnectionPhase
phase_of_vpn_state state inputs =
    reduce_phase (tunnel_status_of_vpn_state state inputs.proxied)
      (egress_or_verified inputs.egress)

-- The host has given up the tunnel.
abbrev pub IsDown : ExtensionVpnState → Type 0
IsDown state = (state ≡ failed) ⊎ (state ≡ disconnected)

alive :
    (state : ExtensionVpnState) (proxied : Bool)
    → tunnel_status_of_vpn_state state proxied ≡ TunnelStatus.connected
    → state ≡ connected
unfolding tunnel_status_of_vpn_state
alive connected proxied e = refl
alive connecting proxied e = cc
alive reconnecting proxied e = cc
alive draining proxied e = cc
alive failed proxied e = cc
alive disconnected proxied e = cc

up :
    (state : ExtensionVpnState) (proxied : Bool)
    → state ≡ connected
    → tunnel_status_of_vpn_state state proxied ≡ TunnelStatus.connected
unfolding tunnel_status_of_vpn_state
up state proxied e = rw e refl

holds :
    (state : ExtensionVpnState) (proxied : Bool)
    → Holds (tunnel_status_of_vpn_state state proxied)
    → IsDown state × (proxied ≡ true)
unfolding tunnel_status_of_vpn_state
holds state true h = ground arith
holds state false h = ground arith

holding :
    (state : ExtensionVpnState) (proxied : Bool)
    → IsDown state
    → proxied ≡ true
    → Holds (tunnel_status_of_vpn_state state proxied)
unfolding tunnel_status_of_vpn_state
holding state proxied (inl d) p = rw (d, p) (inr refl)
holding state proxied (inr d) p = rw (d, p) (inl refl)

leaks :
    (state : ExtensionVpnState) (proxied : Bool)
    → Leaks (tunnel_status_of_vpn_state state proxied)
    → IsDown state × (proxied ≡ false)
unfolding tunnel_status_of_vpn_state
leaks state true h = ground arith
leaks state false h = ground arith

leaking :
    (state : ExtensionVpnState) (proxied : Bool)
    → IsDown state
    → proxied ≡ false
    → Leaks (tunnel_status_of_vpn_state state proxied)
unfolding tunnel_status_of_vpn_state
leaking state proxied (inl d) p = rw (d, p) (inr refl)
leaking state proxied (inr d) p = rw (d, p) (inl refl)

-- On the extension the phase is `protected` exactly when the host is connected with no evidence against
-- its egress, and when the tunnel is down it is `blocked` exactly with the proxy still installed and
-- `exposed` exactly without it: an installed proxy never lets traffic out in the clear.
pub phase_of_vpn_state_iff :
    (state : ExtensionVpnState) (inputs : VpnPhaseInputs)
    → ((phase_of_vpn_state state inputs ≡ protected) ↔ (
        (state ≡ connected)
        × ((egress_or_verified inputs.egress).host_offline ≡ false)
        × ((egress_or_verified inputs.egress).exit_egress_dead ≡ false)))
      × ((phase_of_vpn_state state inputs ≡ blocked) ↔ (IsDown state × (inputs.proxied ≡ true)))
      × ((phase_of_vpn_state state inputs ≡ exposed) ↔ (IsDown state × (inputs.proxied ≡ false)))
unfolding phase_of_vpn_state tunnel_status_of_vpn_state
phase_of_vpn_state_iff state inputs =
    let (green, held, clear) =
      reduce_phase_iff (tunnel_status_of_vpn_state state inputs.proxied)
        (egress_or_verified inputs.egress) in
    (
      (
        (λ e. let (a, b, c) = green.0 e in (alive state inputs.proxied a, b, c)),
        (λ h. green.1 (up state inputs.proxied h.0, h.1, h.2)),
      ),
      (
        (λ e. holds state inputs.proxied (held.0 e)),
        (λ h. held.1 (holding state inputs.proxied h.0 h.1)),
      ),
      (
        (λ e. leaks state inputs.proxied (clear.0 e)),
        (λ h. clear.1 (leaking state inputs.proxied h.0 h.1)),
      ),
    )
