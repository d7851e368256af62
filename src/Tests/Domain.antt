-- ===== src/Tests/Domain.antt =====
-- The life cycles at concrete histories.
use swar.Prelude.{refl, ◌≤◌}
use swar.Domain.{
  CallStatus, call_transitions, assert_transition, call_status_eq, analysis_session_status_eq,
}
use swar.Domain.Runs.{Run, stay, change, lifecycles_end}

connected : Run call_transitions 2 CallStatus.requested CallStatus.active
unfolding assert_transition
connected = change {t = CallStatus.authorized} "Call" refl (change "Call" refl stay)

lifecycles_end_example : ◌≤◌ 2 4
lifecycles_end_example = (lifecycles_end 2).0 CallStatus.requested CallStatus.active connected
