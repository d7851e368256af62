-- ===== src/Calls/History.antt =====
-- Whatever is asked, in any order: at most one analysis on each call.
use swar.Prelude.{ℕ, List, [], ◌∷◌}
use swar.Calls.Rows.{CallTables}
use swar.Calls.Outside.{Outside}
use swar.Calls.Exclusive.{IsExclusive}
use swar.Calls.OneAnalysis.{end-Preserves}
use swar.Calls.Requests.{
  CallRequest, create_it, invite_it, answer_it, end_it, end_all, start_it, stop_it, event_it,
  tables_after, TimedRequest, serve,
}
use swar.Calls.Kept.{
  create-Kept, invite-Kept, answer-Kept, end-Kept, start-Kept, stop-Kept, lifecycle-Kept,
}

tables_after-IsExclusive :
    (outside : Outside) (now : ℕ) (r : CallRequest) (s : CallTables)
    → IsExclusive s
    → IsExclusive (tables_after outside now r s)
unfolding tables_after
tables_after-IsExclusive outside now (create_it p command) s =
    (create-Kept outside p now command).holds s
tables_after-IsExclusive outside now (invite_it p command) s =
    (invite-Kept outside p now command).holds s
tables_after-IsExclusive outside now (answer_it p call participant) s =
    (answer-Kept outside p now call participant).holds s
tables_after-IsExclusive outside now (end_it p call) s = (end-Kept outside p now call).holds s
tables_after-IsExclusive outside now (end_all organization call) s =
    (end-Preserves organization call now).holds s
tables_after-IsExclusive outside now (start_it organization session) s =
    (start-Kept outside organization now session).holds s
tables_after-IsExclusive outside now (stop_it organization session) s =
    (stop-Kept outside organization now session).holds s
tables_after-IsExclusive outside now (event_it ttl mode event) s =
    (lifecycle-Kept outside ttl mode now event).holds s

-- Whatever requests and events are served, in whatever order, with whatever answers of the services
-- outside and whether they succeed or not: if at first no call has two active track bindings or two
-- running analysis sessions, none has them afterwards.
pub one_analysis_per_call :
    (requests : List TimedRequest) (s : CallTables) → IsExclusive s → IsExclusive (serve requests s)
unfolding serve
one_analysis_per_call [] s h = h
one_analysis_per_call ((outside, now, request) ∷ requests) s h =
    one_analysis_per_call requests (tables_after outside now request s)
      (tables_after-IsExclusive outside now request s h)
