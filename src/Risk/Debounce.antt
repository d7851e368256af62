-- ===== src/Risk/Debounce.antt =====
-- The hysteresis of the engine: how the effective state moves along a history of decisions.
use swar.Prelude.{
  ℕ, zero, suc, ◌+◌, ◌≤◌, ◌<◌, ◌≡◌, ◌≢◌, inl, inr, refl, List, [], ◌∷◌, Option, none, some, arith,
  Bool-cases, ◌===◌, leb,
}
use swar.Risk.Types.{RiskState, state_eq, state_eq_iff}
use swar.Risk.Evidence.{Hysteresis}
use swar.Risk.Window.{WindowDecision}
use swar.Risk.Engine.{Progress, start, advance, required_windows, propose, advance_by, count_after}

-- The decisions so far, each with its window's sequence, the newest first.
abbrev pub History : Type 0
History = List (ℕ × WindowDecision)

-- The loop over a history.
abbrev pub after : Hysteresis → ℕ → History → Progress
after h at [] = start at
after h at (d ∷ ds) = advance h d (after h at ds)

-- The next older decision stands in a window that is not too far back.
abbrev pub Follows : Hysteresis → ℕ → History → Type 0
Follows h sequence [] = ⊥
Follows h sequence ((older, _) ∷ ds) =
    (older < sequence) × (sequence ≤ older + (h.maximum_window_gap + 1))

-- The newest n decisions are all for the state s, in windows without a gap that is too large.
abbrev pub Streak : Hysteresis → RiskState → ℕ → History → Type 0
Streak h s zero ds = Unit
Streak h s (suc n) [] = ⊥
Streak h s (suc zero) ((sequence, d) ∷ ds) = d.state ≡ some s
Streak h s (suc (suc n)) ((sequence, d) ∷ ds) =
    (d.state ≡ some s) × Follows h sequence ds × Streak h s (suc n) ds

-- What the pending variables say of the history: a streak of the pending state.
abbrev Recorded : Hysteresis → Option RiskState → ℕ → Option ℕ → History → Type 0
Recorded h none count previous ds = Unit
Recorded h (some s) zero previous ds = ⊥
Recorded h (some s) (suc n) previous [] = ⊥
Recorded h (some s) (suc n) previous ((sequence, d) ∷ ds) =
    (previous ≡ some sequence) × Streak h s (suc n) ((sequence, d) ∷ ds)

IsRecorded : Hysteresis → Progress → History → Type 0
IsRecorded h p ds = Recorded h p.pending_state p.pending_count p.previous_valid_sequence ds

pub Streak-mono :
    (h : Hysteresis) (s : RiskState) (m n : ℕ) (ds : History)
    → m ≤ n
    → Streak h s n ds
    → Streak h s m ds
Streak-mono h s zero n ds le k = tt
Streak-mono h s (suc m) zero ds le k = absurd (omega arith)
Streak-mono h s (suc m) (suc n) [] le k = elim k [ ]
Streak-mono h s (suc zero) (suc zero) (d ∷ ds) le k = k
Streak-mono h s (suc zero) (suc (suc n)) (d ∷ ds) le k = k.0
Streak-mono h s (suc (suc m)) (suc zero) (d ∷ ds) le k = absurd (omega arith)
Streak-mono h s (suc (suc m)) (suc (suc n)) (d ∷ ds) le k =
    (k.0, k.1, Streak-mono h s (suc m) (suc n) ds (omega arith) k.2)

count_after-Streak :
    (h : Hysteresis) (sequence : ℕ) (d : WindowDecision) (s : RiskState)
    (pending : Option RiskState) (count : ℕ) (previous : Option ℕ) (ds : History)
    → d.state ≡ some s
    → Recorded h pending count previous ds
    → Streak h s (count_after h sequence s pending count previous) ((sequence, d) ∷ ds)
count_after-Streak h q d s none count previous ds e r = e
count_after-Streak h q d s (some t) zero previous ds e r = elim r [ ]
count_after-Streak h q d s (some t) (suc n) previous [] e r = elim r [ ]
count_after-Streak h q d s (some t) (suc n) none ((older, d') ∷ ds) e r = cc
count_after-Streak h q d s (some t) (suc n) (some previous) ((older, d') ∷ ds) e r =
    ground (arith, state_eq_iff t s)

-- What one round does: it keeps the record, and a change of state has its streak.
abbrev Rounds : Hysteresis → Progress → Progress → History → Type 0
Rounds h p q ds =
    IsRecorded h q ds
    × (q.effective_state ≢ p.effective_state
        → Streak h q.effective_state (required_windows h p.effective_state q.effective_state) ds)

pending-Recorded :
    (h : Hysteresis) (sequence : ℕ) (d : WindowDecision) (s : RiskState) (n : ℕ) (ds : History)
    → 0 < n
    → Streak h s n ((sequence, d) ∷ ds)
    → Recorded h (some s) n (some sequence) ((sequence, d) ∷ ds)
pending-Recorded h q d s zero ds pos k = absurd (omega arith)
pending-Recorded h q d s (suc n) ds pos k = (refl, k)

count_after-pos :
    (h : Hysteresis) (sequence : ℕ) (s : RiskState) (pending : Option RiskState) (count : ℕ)
    (previous : Option ℕ)
    → 0 < count_after h sequence s pending count previous
count_after-pos h q s pending count previous = ground arith

propose-Rounds :
    (h : Hysteresis) (sequence : ℕ) (d : WindowDecision) (s : RiskState) (p : Progress)
    (ds : History)
    → d.state ≡ some s
    → IsRecorded h p ds
    → Rounds h p (propose h sequence d s p) ((sequence, d) ∷ ds)
unfolding propose IsRecorded
propose-Rounds h q d s p ds e r =
    let count = count_after h q s p.pending_state p.pending_count p.previous_valid_sequence in
    let streak =
      count_after-Streak h q d s p.pending_state p.pending_count p.previous_valid_sequence ds e r in
    elim (Bool-cases (leb (required_windows h p.effective_state s) count)) [
      | inl enough ↦ rw enough (tt, λ _. Streak-mono h s _ count _ (ground arith) streak)
      | inr few ↦ rw few (
        pending-Recorded h q d s count ds
            (count_after-pos h q s p.pending_state p.pending_count p.previous_valid_sequence)
            streak,
        λ ne. absurd (ne refl),
      )
    ]

advance_by-Rounds :
    (h : Hysteresis) (sequence : ℕ) (d : WindowDecision) (state : Option RiskState) (p : Progress)
    (ds : History)
    → d.state ≡ state
    → IsRecorded h p ds
    → Rounds h p (advance_by h sequence d state p) ((sequence, d) ∷ ds)
unfolding advance_by IsRecorded
advance_by-Rounds h q d none p ds e r = (tt, λ ne. absurd (ne refl))
advance_by-Rounds h q d (some s) p ds e r = elim (Bool-cases (s === p.effective_state)) [
  | inl same ↦ rw same (tt, λ ne. absurd (ne refl))
  | inr other ↦ rw other (propose-Rounds h q d s p ds e r)
]

after-Recorded : (h : Hysteresis) (at : ℕ) (ds : History) → IsRecorded h (after h at ds) ds
unfolding start IsRecorded advance
after-Recorded h at [] = tt
after-Recorded h at ((q, d) ∷ ds) =
    (advance_by-Rounds h q d d.state (after h at ds) ds refl (after-Recorded h at ds)).0

-- The effective state gives way only to a state for which the newest decisions, as many as the
-- policy asks for that change, were all given, in windows without too large a gap.
pub change_is_earned :
    (h : Hysteresis) (at sequence : ℕ) (d : WindowDecision) (ds : History)
    → let old = (after h at ds).effective_state in
      let new = (after h at ((sequence, d) ∷ ds)).effective_state in
      new ≢ old → Streak h new (required_windows h old new) ((sequence, d) ∷ ds)
unfolding advance
change_is_earned h at q d ds =
    (advance_by-Rounds h q d d.state (after h at ds) ds refl (after-Recorded h at ds)).1
