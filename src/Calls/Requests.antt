-- ===== src/Calls/Requests.antt =====
-- The requests and events that the services of calls, analysis and media answer, in any order, each
-- with the answers of the services outside and with its time.
use swar.Prelude.{ℕ, List, [], ◌∷◌, Option}
use swar.Risk.Types.{EvidenceMode}
use swar.Auth.Accounts.{AuthPrincipal}
use swar.Calls.Rows.{CallTables}
use swar.Calls.Changes.{end_call}
use swar.Calls.Outside.{Outside}
use swar.Calls.Service.{CreateCallCommand, InviteCommand, create_call, invite, answer_call, end}
use swar.Calls.Analysis.{start_analysis, stop_analysis}
use swar.Calls.Lifecycle.{LifecycleEvent, handle_verified_lifecycle}

pub data CallRequest : Type 0 where
  create_it : AuthPrincipal → CreateCallCommand → CallRequest
  invite_it : AuthPrincipal → InviteCommand → CallRequest
  answer_it : AuthPrincipal → ℕ → ℕ → CallRequest
  end_it : AuthPrincipal → ℕ → CallRequest
  end_all : ℕ → ℕ → CallRequest
  start_it : ℕ → ℕ → CallRequest
  stop_it : ℕ → ℕ → CallRequest
  event_it : ℕ → Option EvidenceMode → LifecycleEvent → CallRequest

-- The tables after a request; what it answers is left aside.
unfoldable pub tables_after : Outside → ℕ → CallRequest → CallTables → CallTables
unfolding create_call invite answer_call end end_call start_analysis stop_analysis
    handle_verified_lifecycle
tables_after outside now (create_it p command) s = (create_call outside p now command s).1
tables_after outside now (invite_it p command) s = (invite outside p now command s).1
tables_after outside now (answer_it p call participant) s =
    (answer_call outside p now call participant s).1
tables_after outside now (end_it p call) s = (end outside p now call s).1
tables_after outside now (end_all organization call) s = (end_call organization call now s).1
tables_after outside now (start_it organization session) s =
    (start_analysis outside organization now session s).1
tables_after outside now (stop_it organization session) s =
    (stop_analysis outside organization now session s).1
tables_after outside now (event_it ttl mode event) s =
    (handle_verified_lifecycle outside ttl mode now event s).1

abbrev pub TimedRequest : Type 0
TimedRequest = Outside × ℕ × CallRequest

unfoldable pub serve : List TimedRequest → CallTables → CallTables
unfolding tables_after
serve [] s = s
serve ((outside, now, request) ∷ requests) s = serve requests (tables_after outside now request s)
