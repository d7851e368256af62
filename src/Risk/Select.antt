-- ===== src/Risk/Select.antt =====
-- `selectLatest` of backend/src/modules/risk/risk-engine.ts: of the events of one window and one
-- type the newest counts.
use swar.Prelude.{Bool, List, [], ◌∷◌, ◌&&◌, ◌||◌, ltb, ◌==◌, ◌===◌, if◌then◌else◌, not, sort}
use swar.Risk.Types.{locale_rank, evidence_type_eq}
use swar.Risk.Evidence.{Evidence}

module _ {Number : Type 0} where
  -- The `key` of an event: its window and its type.
  abbrev pub same_key : Evidence Number → Evidence Number → Bool
  same_key a b = a.window_sequence == b.window_sequence && a.evidence_type === b.evidence_type

  -- Whether `event` takes the place of `current`.
  abbrev pub supersedes : Evidence Number → Evidence Number → Bool
  supersedes event current =
      ltb current.revision event.revision
      || (event.revision == current.revision && ltb current.event_sequence event.event_sequence)

  -- One round of the loop over the events; a Map keeps a key where it was first set.
  unfoldable pub offer : Evidence Number → List (Evidence Number) → List (Evidence Number)
  offer event [] = event ∷ []
  offer event (current ∷ latest) =
      if same_key event current
      then (if supersedes event current then event else current) ∷ latest
      else current ∷ offer event latest

  unfoldable pub collect : List (Evidence Number) → List (Evidence Number) → List (Evidence Number)
  collect latest [] = latest
  collect latest (event ∷ events) = collect (offer event latest) events

  -- The comparator of the sort: window, then type, then revision.
  abbrev pub before : Evidence Number → Evidence Number → Bool
  before left right =
      if not (left.window_sequence == right.window_sequence)
      then ltb left.window_sequence right.window_sequence
      else if not (left.evidence_type === right.evidence_type)
      then ltb (locale_rank left.evidence_type) (locale_rank right.evidence_type)
      else ltb left.revision right.revision

unfoldable pub select_latest : {Number : Type 0} → List (Evidence Number) → List (Evidence Number)
unfolding offer collect sort
select_latest events = sort before (collect [] events)
