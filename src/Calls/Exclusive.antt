-- ===== src/Calls/Exclusive.antt =====
-- At most one analysis runs on a call, and at most one track is bound to it.
use swar.Prelude.{
  ℕ, Bool, true, false, List, [], ◌∷◌, ◌&&◌, ◌≤◌, Option, none, some, String, ◌==◌, ◌===◌, includes,
  update_many, count_many, ◌≡◌, arith, inl, inr, Bool-cases, count_many_unraised,
  count_many_emptied, count_many_lowered, count_many_cleared, count_many-append, keys_of_passing,
  sym, nat_eq,
}
use swar.Domain.{AnalysisSessionStatus, track_binding_status_eq, analysis_session_status_eq}
use swar.Calls.Rows.{MediaTrack, TrackBinding, AnalysisSession, CallTables, is_running}
use swar.Calls.Changes.{
  active_binding, revoke_binding, session_in_status, session_with_status, session_in_call,
  open_in_call, stop_session, end_tables,
}
use swar.Calls.Tracks.{
  running_in_call, BindInput, superseded_of, revoke_sessions, revoke_session, bound_tables,
  supersede, new_binding_row, new_session_row, next_revision,
}
use swar.Calls.Closing.{closed_tables, closed_sessions, revoke_if_active, is_binding}

-- The track bindings of a call that are active, and the analysis sessions that run on it.
unfoldable pub bound_tracks : ℕ → ℕ → CallTables → ℕ
bound_tracks organization_id call_id s =
    count_many (active_binding organization_id call_id) s.bindings

unfoldable pub running_sessions : ℕ → ℕ → CallTables → ℕ
running_sessions organization_id call_id s =
    count_many (running_in_call organization_id call_id) s.sessions

abbrev pub IsExclusive : CallTables → Type 0
IsExclusive s =
    (organization_id call_id : ℕ)
    → (bound_tracks organization_id call_id s ≤ 1)
      × (running_sessions organization_id call_id s ≤ 1)

-- Tables with the same bindings and sessions.
pub IsExclusive-same :
    (s t : CallTables)
    → t.bindings ≡ s.bindings
    → t.sessions ≡ s.sessions
    → IsExclusive s
    → IsExclusive t
unfolding bound_tracks running_sessions
IsExclusive-same s t b x h o c = ground (arith, h o c, b, x)

module _ (o c now : ℕ) (ids : List ℕ) (xs : List AnalysisSession) where
  pub revoke_sessions_lowers :
      count_many (running_in_call o c) (revoke_sessions ids now xs)
      ≤ count_many (running_in_call o c) xs
  unfolding revoke_sessions revoke_session running_in_call is_running
  revoke_sessions_lowers =
      count_many_lowered (running_in_call o c) (λ x. includes x.session_key ids)
        (revoke_session now) (λ x h. ground arith) xs

pub superseded_gone :
    (o c now : ℕ) (s : CallTables)
    → count_many (running_in_call o c) (revoke_sessions (superseded_of o c s) now s.sessions) ≡ 0
unfolding revoke_sessions revoke_session running_in_call is_running superseded_of
superseded_gone o c now s =
    count_many_emptied (running_in_call o c) (λ x. includes x.session_key (superseded_of o c s))
      (revoke_session now) (λ x h. ground arith) s.sessions
      (keys_of_passing (λ x. x.session_key) (running_in_call o c) s.sessions)

supersede_lowers :
    (o c o' c' now : ℕ) (bs : List TrackBinding)
    → count_many (active_binding o c) (update_many (active_binding o' c') (supersede now) bs)
      ≤ count_many (active_binding o c) bs
unfolding active_binding supersede
supersede_lowers o c o' c' now bs =
    count_many_lowered (active_binding o c) (active_binding o' c') (supersede now)
      (λ x h. ground arith) bs

pub supersede_ends :
    (o c now : ℕ) (bs : List TrackBinding)
    → count_many (active_binding o c) (update_many (active_binding o c) (supersede now) bs) ≡ 0
unfolding active_binding supersede
supersede_ends o c now bs =
    count_many_cleared (active_binding o c) (supersede now) (λ x h. ground arith) bs

other_binding-count :
    (o o' c' now revision : ℕ) (input : BindInput)
    → (o == o' && input.bind_call == c') ≡ false
    → count_many (active_binding o' c') (new_binding_row o now input revision ∷ []) ≡ 0
unfolding count_many active_binding new_binding_row
other_binding-count o o' c' now revision input e = ground arith

other_session-count :
    (o o' c' now revision : ℕ) (input : BindInput)
    → (o == o' && input.bind_call == c') ≡ false
    → count_many (running_in_call o' c') (new_session_row o now input revision ∷ []) ≡ 0
unfolding count_many running_in_call is_running new_session_row
other_session-count o o' c' now revision input e = ground arith

one_at_most : {A : Type 0} (q : A → Bool) (x : A) → count_many q (x ∷ []) ≤ 1
unfolding count_many
one_at_most q x = ground arith

same_call : (o o' c c' : ℕ) → (o == o' && c == c') ≡ true → (o ≡ o') × (c ≡ c')
same_call o o' c c' t = (ground arith, ground arith)

-- A new track takes the place of what was bound and ran before.
pub bound_tables-IsExclusive :
    (o now : ℕ) (input : BindInput) (s : CallTables)
    → IsExclusive s
    → IsExclusive (bound_tables o now input s)
unfolding bound_tables bound_tracks running_sessions
bound_tables-IsExclusive o now input s h o' c' =
    rw
      (
        count_many-append (active_binding o' c')
            (update_many (active_binding o input.bind_call) (supersede now) s.bindings)
            (new_binding_row o now input (next_revision o input.bind_call s) ∷ []),
        count_many-append (running_in_call o' c')
            (revoke_sessions (superseded_of o input.bind_call s) now s.sessions)
            (new_session_row o now input (next_revision o input.bind_call s) ∷ []),
      )
      (elim (Bool-cases (o == o' && input.bind_call == c')) [
        | inl t ↦
            (let same = same_call o o' input.bind_call c' t in
              rw (sym same.0, sym same.1)
                (
                  omega (
                    arith,
                    supersede_ends o input.bind_call now s.bindings,
                    one_at_most (active_binding o input.bind_call)
                        (new_binding_row o now input (next_revision o input.bind_call s)),
                  ),
                  omega (
                    arith,
                    superseded_gone o input.bind_call now s,
                    one_at_most (running_in_call o input.bind_call)
                        (new_session_row o now input (next_revision o input.bind_call s)),
                  ),
                ))
        | inr e ↦ (
          omega (
            arith,
            h o' c',
            supersede_lowers o' c' o input.bind_call now s.bindings,
            other_binding-count o o' c' now (next_revision o input.bind_call s) input e,
          ),
          omega (
            arith,
            h o' c',
            revoke_sessions_lowers o' c' now (superseded_of o input.bind_call s) s.sessions,
            other_session-count o o' c' now (next_revision o input.bind_call s) input e,
          ),
        )
      ])

revoke_if_active_lowers :
    (o c o' now : ℕ) (b : Option TrackBinding) (bs : List TrackBinding)
    → count_many (active_binding o c) (revoke_if_active o' now b bs)
      ≤ count_many (active_binding o c) bs
unfolding revoke_if_active active_binding revoke_binding
revoke_if_active_lowers o c o' now none bs = omega arith
revoke_if_active_lowers o c o' now (some b) bs = ground (
  arith,
  count_many_lowered (active_binding o c) (is_binding o' b.binding_key) (revoke_binding now)
      (λ x h. ground arith) bs,
)

pub closed_tables-IsExclusive :
    (o now : ℕ) (track : MediaTrack) (b : Option TrackBinding) (s : CallTables)
    → IsExclusive s
    → IsExclusive (closed_tables o now track b s)
unfolding closed_tables bound_tracks running_sessions
closed_tables-IsExclusive o now track b s h o' c' = (
  omega (arith, h o' c', revoke_if_active_lowers o' c' o now b s.bindings),
  omega (arith, h o' c', revoke_sessions_lowers o' c' now (closed_sessions o b s) s.sessions),
)

pub end_tables-IsExclusive :
    (o id now : ℕ) (s : CallTables) → IsExclusive s → IsExclusive (end_tables o id now s)
unfolding end_tables bound_tracks running_sessions active_binding revoke_binding running_in_call
    is_running stop_session
end_tables-IsExclusive o id now s h o' c' = (
  omega (
    arith,
    h o' c',
    count_many_lowered (active_binding o' c') (active_binding o id) (revoke_binding now)
        (λ x k. ground arith) s.bindings,
  ),
  omega (
    arith,
    h o' c',
    count_many_lowered (running_in_call o' c') (open_in_call o id) (stop_session now)
        (λ x k. ground arith) s.sessions,
  ),
)

running_status : (a b : AnalysisSessionStatus) → (b === a) ≡ true → is_running b ≡ is_running a
unfolding is_running
running_status a b h = ground arith

-- A session that is set to a running status was running before.
pub session_with_status_unraised :
    (o c o' id now : ℕ) (from to : AnalysisSessionStatus) (code : Option String)
    (xs : List AnalysisSession)
    → (is_running to ≡ true → is_running from ≡ true)
    → count_many
        (running_in_call o c)
        (update_many (session_in_status o' id from) (session_with_status now to code) xs)
      ≤ count_many (running_in_call o c) xs
unfolding running_in_call session_in_call session_in_status session_with_status
session_with_status_unraised o c o' id now from to code xs h =
    count_many_unraised (running_in_call o c) (session_in_status o' id from)
      (session_with_status now to code)
      (λ x k l.
        ground (arith, h (ground arith), running_status from x.session_status (ground arith)))
      xs
