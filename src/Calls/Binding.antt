-- ===== src/Calls/Binding.antt =====
-- What a published track leads to.
use swar.Prelude.{
  ℕ, true, false, List, [], ◌∷◌, ◌&&◌, ◌||◌, ◌≤◌, ◌<◌, not, none, some, ◌==◌, leb, find, any, keep,
  includes, All, All-map, update_many, ok, ◌≡◌, refl, arith, inl, inr, Bool-cases, keep_only,
  find-append, find-update_none, find-updated, find-none_passes, >>-elim, ok-injective, sym, ap,
  nat_eq, Option-cases, find-passes,
}
use swar.Calls.Rows.{TrackBinding, CallTables, is_running}
use swar.Calls.Repository.{is_call}
use swar.Calls.Changes.{active_binding, session_in_call}
use swar.Calls.Tracks.{
  BindInput, BindTrackResult, bind_transaction, bind_track_of, bind_new, rebind, bound_tables,
  track_of_sid, participant_in_call, accepts, binding_of_track, binding_in_call, max_revision,
  next_revision, running_in_call, new_binding_row, new_session_row, new_track_row, supersede,
  superseded_of, revoke_sessions, revoke_session, activate_call,
}
use swar.Calls.Exclusive.{superseded_gone, supersede_ends}
use swar.Calls.OneAnalysis.{err-not-ok}

revisions_below :
    (o c : ℕ) (bs : List TrackBinding)
    → All (λ b. binding_in_call o c b ≡ true → b.revision ≤ max_revision o c bs) bs
unfolding max_revision
revisions_below o c [] = tt
revisions_below o c (b ∷ bs) = (
  (λ h. rw h (grind arith)),
  All-map
      (λ x k h. elim (Bool-cases (binding_in_call o c b)) [
        | inl t ↦ rw t (grind (arith, k h))
        | inr e ↦ rw e (k h)
      ])
      bs (revisions_below o c bs),
)

-- What a successful request for a track that is not on record met and did.
pub record Bound (o now : ℕ) (input : BindInput) (s : CallTables) (r : BindTrackResult)
    (t : CallTables) : Type 0 where
  pub in_time : leb input.analysis_expires_at now ≡ false
  pub present :
      any (participant_in_call o input.bind_call input.bind_participant) s.participants ≡ true
  pub open_call : accepts (find (is_call o input.bind_call) s.calls) ≡ true
  pub new_key :
      any
        (λ x. x.session_organization == o && x.session_idempotency_key == input.analysis_key)
        s.sessions
      ≡ false
  pub result :
      (r.binding ≡ new_binding_row o now input (next_revision o input.bind_call s))
      × (r.analysis_session ≡ new_session_row o now input (next_revision o input.bind_call s))
      × (r.media_track ≡ new_track_row o now input)
  pub tables : t ≡ bound_tables o now input s

bind_new-Bound :
    (o now : ℕ) (input : BindInput) (s : CallTables) (r : BindTrackResult) (t : CallTables)
    → leb input.analysis_expires_at now ≡ false
    → any (participant_in_call o input.bind_call input.bind_participant) s.participants ≡ true
    → accepts (find (is_call o input.bind_call) s.calls) ≡ true
    → bind_new o now input s ≡ ok (r, t)
    → Bound o now input s r t
unfolding bind_new
bind_new-Bound o now input s r t x p c e =
    elim (Bool-cases (
      any (λ x. x.session_organization == o && x.session_idempotency_key == input.analysis_key)
        s.sessions)) [
          | inl k ↦ elim (err-not-ok (rw k at e)) [ ]
          | inr k ↦
              (let q = ok-injective (rw k at e) in
                record {
                  in_time = x;
                  present = p;
                  open_call = c;
                  new_key = k;
                  result = (
                    ap (λ z. z.0.binding) (sym q),
                    ap (λ z. z.0.analysis_session) (sym q),
                    ap (λ z. z.0.media_track) (sym q),
                  );
                  tables = ap (λ z. z.1) (sym q);
                })
        ]

pub bind_transaction-Bound :
    (o now : ℕ) (input : BindInput) (s : CallTables) (r : BindTrackResult) (t : CallTables)
    → track_of_sid o input.bind_track_sid s ≡ none
    → bind_transaction o now input s ≡ ok (r, t)
    → Bound o now input s r t
unfolding bind_transaction bind_track_of
bind_transaction-Bound o now input s r t n e =
    >>-elim (leb input.analysis_expires_at now) _ _ e (λ x e1.
      >>-elim
        (not (any (participant_in_call o input.bind_call input.bind_participant) s.participants)
          || not (accepts (find (is_call o input.bind_call) s.calls)))
        _ _ e1
        (λ p e2.
          bind_new-Bound o now input s r t x (ground (arith, p)) (ground (arith, p)) (rw n at e2)))

new_binding_passes :
    (o now : ℕ) (input : BindInput) (revision : ℕ)
    → active_binding o input.bind_call (new_binding_row o now input revision) ≡ true
unfolding active_binding new_binding_row
new_binding_passes o now input revision = ground arith

new_session_passes :
    (o now : ℕ) (input : BindInput) (revision : ℕ)
    → running_in_call o input.bind_call (new_session_row o now input revision) ≡ true
unfolding running_in_call session_in_call is_running new_session_row
new_session_passes o now input revision = ground arith

-- If a request for a track that is not on record succeeds, its binding has a higher revision than
-- every binding of the call had before, it is the only active binding of the call, and its analysis
-- session is the only one that runs on the call.
pub bind_latest :
    (organization_id now : ℕ) (input : BindInput) (s : CallTables) (r : BindTrackResult)
    (t : CallTables)
    → track_of_sid organization_id input.bind_track_sid s ≡ none
    → bind_transaction organization_id now input s ≡ ok (r, t)
    → All
        (λ b.
          binding_in_call organization_id input.bind_call b ≡ true
          → b.revision < r.binding.revision)
        s.bindings
      × (keep (active_binding organization_id input.bind_call) t.bindings ≡ r.binding ∷ [])
      × (keep (running_in_call organization_id input.bind_call) t.sessions
          ≡ r.analysis_session ∷ [])
unfolding bound_tables next_revision new_binding_row new_session_row
bind_latest o now input s r t n e =
    let b = bind_transaction-Bound o now input s r t n e in
    (
      rw b.result.0 (
          All-map (λ x k h. omega (arith, k h)) s.bindings
            (revisions_below o input.bind_call s.bindings)),
      rw (b.tables, b.result.0)
          (keep_only (active_binding o input.bind_call)
            (new_binding_row o now input (next_revision o input.bind_call s))
            (update_many (active_binding o input.bind_call) (supersede now) s.bindings)
            (supersede_ends o input.bind_call now s.bindings)
            (new_binding_passes o now input (next_revision o input.bind_call s))),
      rw (b.tables, b.result.1)
          (keep_only (running_in_call o input.bind_call)
            (new_session_row o now input (next_revision o input.bind_call s))
            (revoke_sessions (superseded_of o input.bind_call s) now s.sessions)
            (superseded_gone o input.bind_call now s)
            (new_session_passes o now input (next_revision o input.bind_call s))),
    )

module _ (o now : ℕ) (input : BindInput) (s : CallTables) where
  call_again :
      accepts (find (is_call o input.bind_call) s.calls) ≡ true
      → accepts (find (is_call o input.bind_call) (bound_tables o now input s).calls) ≡ true
  unfolding bound_tables
  call_again h = elim (Option-cases (find (is_call o input.bind_call) s.calls)) [
    | inl n ↦ ground (arith, n)
    | inr c ↦
        rw
          (find-updated (is_call o input.bind_call) (is_call o input.bind_call) (activate_call now)
            c.0 (λ x. refl) (find-passes (is_call o input.bind_call) s.calls c.0 c.1) s.calls c.1)
          (ground (arith, h, c.1))
  ]

  participants_again : (bound_tables o now input s).participants ≡ s.participants
  unfolding bound_tables
  participants_again = refl

  track_again :
      track_of_sid o input.bind_track_sid s ≡ none
      → track_of_sid o input.bind_track_sid (bound_tables o now input s)
        ≡ some (new_track_row o now input)
  unfolding bound_tables track_of_sid new_track_row
  track_again n = find-append _ (new_track_row o now input) s.tracks n (ground arith)

  binding_again :
      binding_of_track o input.new_track s ≡ none
      → binding_of_track o input.new_track (bound_tables o now input s)
        ≡ some (new_binding_row o now input (next_revision o input.bind_call s))
  unfolding bound_tables binding_of_track new_binding_row supersede
  binding_again n =
      find-append (λ b. b.binding_organization == o && b.media_track_id == input.new_track)
        (new_binding_row o now input (next_revision o input.bind_call s)) _
        (find-update_none _ (active_binding o input.bind_call) (supersede now) (λ x. refl)
          s.bindings n)
        (ground arith)

  session_again :
      any
          (λ x. x.session_organization == o && x.session_idempotency_key == input.analysis_key)
          s.sessions
        ≡ false
      → find
          (λ x. x.session_organization == o && x.session_idempotency_key == input.analysis_key)
          (bound_tables o now input s).sessions
        ≡ some (new_session_row o now input (next_revision o input.bind_call s))
  unfolding bound_tables new_session_row revoke_sessions revoke_session
  session_again n =
      find-append
        (λ x. x.session_organization == o && x.session_idempotency_key == input.analysis_key)
        (new_session_row o now input (next_revision o input.bind_call s)) _
        (find-update_none _ (λ x. includes x.session_key (superseded_of o input.bind_call s))
          (revoke_session now) (λ x. refl) s.sessions (find-none_passes _ s.sessions n))
        (ground arith)

later_expiry : (a b : ℕ) → b < a → leb a b ≡ false
later_expiry a b h = ground (arith, h)

-- If a request for a track that is not on record succeeds, with an identifier for the track that no
-- binding has, the same request once more, at any time before the expiry of its analysis, returns the
-- rows of the first, ends nothing and changes no table.
pub bind_again :
    (organization_id now later : ℕ) (input : BindInput) (s : CallTables) (r : BindTrackResult)
    (t : CallTables)
    → track_of_sid organization_id input.bind_track_sid s ≡ none
    → binding_of_track organization_id input.new_track s ≡ none
    → later < input.analysis_expires_at
    → bind_transaction organization_id now input s ≡ ok (r, t)
    → bind_transaction organization_id later input t ≡ ok (record r { superseded_sessions = [] }, t)
unfolding bind_transaction bind_track_of rebind new_track_row new_session_row new_binding_row
bind_again o now later input s r t n f l e =
    let b = bind_transaction-Bound o now input s r t n e in
    rw
      (
        b.tables,
        later_expiry input.analysis_expires_at later l,
        participants_again o now input s,
        b.present,
        call_again o now input s b.open_call,
        track_again o now input s n,
        binding_again o now input s f,
        session_again o now input s b.new_key,
        b.result.0,
        b.result.1,
        b.result.2,
      )
      (ground arith)
