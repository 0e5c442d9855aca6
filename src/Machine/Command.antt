-- ===== src/Machine/Command.antt =====
-- `Command` of ibctl/src/types.rs, what the command server sends to the state machine.
use ibctl.Base.Text.{Text}

pub data Command : Type 0 where
  stop start restart reconnect_data reconnect_account enable_api exit : Command
  restart_socat pause resume save_settings hitl_resume : Command
  pause_at set_state set_restart_time resume_reconnect : Text → Command
  ib_status : Text → Text → Command
