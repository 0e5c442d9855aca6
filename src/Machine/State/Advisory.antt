-- ===== src/Machine/State/Advisory.antt =====
-- The advice to clients, `client_advisory` of ibctl/src/state_machine/types.rs.
use ibctl.Base.{◌≡◌, refl, not, ◌||◌, is_some, ◌==◌}
use ibctl.Base.Text.{text_eq}
use ibctl.Machine.State.{
  State, error, waiting_for_launch, init, launching, waiting_for_agent, waiting_for_login,
  authenticating, waiting_for2fa, handling_session_conflict, dismissing_popups,
  waiting_for_api_ready, configuring_api, connected, reconnecting_session, restarting,
  waiting_for_ib, waiting_for_hitl2fa, shutdown, state_eq, variant, client_advisory,
}

-- A client should connect exactly in Connected. It should wait, and never at once connect, exactly
-- outside of Connected, standby, shutdown and an error. It gets a reason exactly if it should wait
-- or in standby. Its client id is likely stale exactly in Restarting.
pub client_advisory_iff :
    (s : State)
    → let (should_connect, should_wait, reason, stale) = client_advisory s in
      (should_connect ≡ state_eq s connected)
      × (should_wait
          ≡ not (
              state_eq s connected
              || (state_eq s waiting_for_launch || (state_eq s shutdown || variant s == 17))))
      × (is_some reason ≡ (should_wait || state_eq s waiting_for_launch))
      × (stale ≡ state_eq s restarting)
unfolding client_advisory state_eq text_eq
client_advisory_iff waiting_for_launch = (refl, refl, refl, refl)
client_advisory_iff init = (refl, refl, refl, refl)
client_advisory_iff launching = (refl, refl, refl, refl)
client_advisory_iff waiting_for_agent = (refl, refl, refl, refl)
client_advisory_iff waiting_for_login = (refl, refl, refl, refl)
client_advisory_iff authenticating = (refl, refl, refl, refl)
client_advisory_iff waiting_for2fa = (refl, refl, refl, refl)
client_advisory_iff handling_session_conflict = (refl, refl, refl, refl)
client_advisory_iff dismissing_popups = (refl, refl, refl, refl)
client_advisory_iff waiting_for_api_ready = (refl, refl, refl, refl)
client_advisory_iff configuring_api = (refl, refl, refl, refl)
client_advisory_iff connected = (refl, refl, refl, refl)
client_advisory_iff reconnecting_session = (refl, refl, refl, refl)
client_advisory_iff restarting = (refl, refl, refl, refl)
client_advisory_iff waiting_for_ib = (refl, refl, refl, refl)
client_advisory_iff waiting_for_hitl2fa = (refl, refl, refl, refl)
client_advisory_iff shutdown = (refl, refl, refl, refl)
client_advisory_iff (error _) = (refl, refl, refl, refl)
