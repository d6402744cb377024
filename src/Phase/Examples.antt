-- ===== src/Phase/Examples.antt =====
-- The phase at concrete inputs.
use warren_sdk_ts.Prelude.{◌≡◌, refl, none, true, false}
use warren_sdk_ts.Phase.{
  interrupted, blocked, connected, disconnected, verified_egress, egress_verified, reduce_phase,
}
use warren_sdk_ts.Phase.Vpn.{
  failed, tunnel_status_of_vpn_state, phase_of_vpn_state, egress_or_verified,
}

locked : reduce_phase (disconnected true) verified_egress ≡ blocked
unfolding reduce_phase
locked = refl

dead_exit :
    reduce_phase connected (record { host_offline = false; exit_egress_dead = true }) ≡ interrupted
unfolding reduce_phase egress_verified
dead_exit = refl

-- A failed host behind the proxy still blocks.
held : phase_of_vpn_state failed (record { proxied = true; egress = none }) ≡ blocked
unfolding phase_of_vpn_state tunnel_status_of_vpn_state egress_or_verified reduce_phase
held = refl
