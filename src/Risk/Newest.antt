-- ===== src/Risk/Newest.antt =====
-- What `select_latest` picks: for each window and type the newest event, and no other.
use swar.Prelude.{
  ◌≡◌, inl, inr, List, [], ◌∷◌, arith, All, Any, All-map, All-sort, All-insert, Any-sort, IsSorted,
  Bool, true, false, Bool-cases, refl, insert, sort, if◌then◌else◌,
}
use swar.Risk.Types.{evidence_type_eq}
use swar.Risk.Evidence.{Evidence}
use swar.Risk.Select.{same_key, supersedes, offer, collect, before, select_latest}

module _ {Number : Type 0} where
  -- `c` has the key of `e`, and `e` does not supersede it.
  abbrev pub Covers : Evidence Number → Evidence Number → Type 0
  Covers e c = (same_key e c ≡ true) × (supersedes e c ≡ false)

  Covers-self : (e : Evidence Number) → Covers e e
  Covers-self e = ground arith

  Covers-trans : (e c d : Evidence Number) → Covers e c → Covers c d → Covers e d
  Covers-trans e c d h k = ground arith

  offer-Covers :
      (event : Evidence Number) (latest : List (Evidence Number))
      → Any (Covers event) (offer event latest)
  unfolding offer
  offer-Covers event [] = inl (Covers-self event)
  offer-Covers event (current ∷ latest) = ground (arith, offer-Covers event latest)

  offer-keeps :
      (e event : Evidence Number) (latest : List (Evidence Number))
      → Any (Covers e) latest
      → Any (Covers e) (offer event latest)
  unfolding offer
  offer-keeps e event [] h = absurd h
  offer-keeps e event (current ∷ latest) (inr h) = ground (arith, offer-keeps e event latest h)
  offer-keeps e event (current ∷ latest) (inl h) = ground (arith, Covers-trans e current event h)

  offer-All :
      (P : Evidence Number → Type 0) (event : Evidence Number) (latest : List (Evidence Number))
      → P event
      → All P latest
      → All P (offer event latest)
  unfolding offer
  offer-All P event [] p h = (p, tt)
  offer-All P event (current ∷ latest) p h = ground (arith, offer-All P event latest p h.1)

  -- No two events have the same key.
  abbrev pub HasDistinctKeys : List (Evidence Number) → Type 0
  HasDistinctKeys [] = Unit
  HasDistinctKeys (x ∷ xs) = All (λ y. same_key x y ≡ false) xs × HasDistinctKeys xs

  same_key_trans :
      (a b c : Evidence Number) → same_key a b ≡ true → same_key b c ≡ false → same_key a c ≡ false
  same_key_trans a b c h k = ground arith

  same_key_sym : (a b : Evidence Number) → same_key a b ≡ false → same_key b a ≡ false
  same_key_sym a b h = ground arith

  offer-HasDistinctKeys :
      (event : Evidence Number) (latest : List (Evidence Number))
      → HasDistinctKeys latest
      → HasDistinctKeys (offer event latest)
  unfolding offer
  offer-HasDistinctKeys event [] h = (tt, tt)
  offer-HasDistinctKeys event (current ∷ latest) h = elim (Bool-cases (same_key event current)) [
    | inl same ↦ rw same (replaced same)
    | inr other ↦ rw other (
      offer-All (λ y. same_key current y ≡ false) event latest (same_key_sym event current other)
          h.0,
      offer-HasDistinctKeys event latest h.1,
    )
  ]
    where
      replaced :
          same_key event current ≡ true
          → HasDistinctKeys ((if supersedes event current then event else current) ∷ latest)
      replaced same = elim (Bool-cases (supersedes event current)) [
        | inl t ↦ rw t (All-map (λ y. same_key_trans event current y same) latest h.0, h.1)
        | inr f ↦ rw f h
      ]

  insert-HasDistinctKeys :
      (less : Evidence Number → Evidence Number → Bool) (x : Evidence Number)
      (xs : List (Evidence Number))
      → All (λ y. same_key x y ≡ false) xs
      → HasDistinctKeys xs
      → HasDistinctKeys (insert less x xs)
  unfolding insert
  insert-HasDistinctKeys less x [] h d = (tt, tt)
  insert-HasDistinctKeys less x (y ∷ ys) h d = ground (
    arith,
    insert-HasDistinctKeys less x ys h.1 d.1,
    All-insert (λ z. same_key y z ≡ false) less x ys (same_key_sym x y h.0) d.0,
  )

  sort-HasDistinctKeys :
      (less : Evidence Number → Evidence Number → Bool) (xs : List (Evidence Number))
      → HasDistinctKeys xs
      → HasDistinctKeys (sort less xs)
  unfolding sort
  sort-HasDistinctKeys less [] d = tt
  sort-HasDistinctKeys less (x ∷ xs) d =
      insert-HasDistinctKeys less x (sort less xs)
        (All-sort (λ y. same_key x y ≡ false) less xs d.0) (sort-HasDistinctKeys less xs d.1)

  collect-HasDistinctKeys :
      (latest events : List (Evidence Number))
      → HasDistinctKeys latest
      → HasDistinctKeys (collect latest events)
  unfolding collect
  collect-HasDistinctKeys latest [] d = d
  collect-HasDistinctKeys latest (e ∷ es) d =
      collect-HasDistinctKeys (offer e latest) es (offer-HasDistinctKeys e latest d)

  collect-keeps :
      (e : Evidence Number) (latest events : List (Evidence Number))
      → Any (Covers e) latest
      → Any (Covers e) (collect latest events)
  unfolding collect
  collect-keeps e latest [] h = h
  collect-keeps e latest (x ∷ xs) h = collect-keeps e (offer x latest) xs (offer-keeps e x latest h)

  collect-Covers :
      (latest events : List (Evidence Number))
      → All (λ e. Any (Covers e) (collect latest events)) events
  unfolding collect
  collect-Covers latest [] = tt
  collect-Covers latest (e ∷ es) = (
    collect-keeps e (offer e latest) es (offer-Covers e latest),
    collect-Covers (offer e latest) es,
  )

  pub collect-All :
      (P : Evidence Number → Type 0) (latest events : List (Evidence Number))
      → All P latest
      → All P events
      → All P (collect latest events)
  unfolding collect
  collect-All P latest [] h k = h
  collect-All P latest (e ∷ es) h k =
      collect-All P (offer e latest) es (offer-All P e latest k.0 h) k.1

  -- `before` orders the events strictly, but for those with one key and one revision.
  before_trans :
      (a b c : Evidence Number) → before b a ≡ false → before c b ≡ false → before c a ≡ false
  before_trans a b c h k = ground arith

  before_asym : (a b : Evidence Number) → before a b ≡ true → before b a ≡ false
  before_asym a b h = ground arith

  insert-IsSorted :
      (x : Evidence Number) (xs : List (Evidence Number))
      → IsSorted before xs
      → IsSorted before (insert before x xs)
  unfolding insert
  insert-IsSorted x [] h = (tt, tt)
  insert-IsSorted x (y ∷ ys) h = elim (Bool-cases (before y x)) [
    | inl t ↦ rw t (
      All-insert (λ z. before z y ≡ false) before x ys (before_asym y x t) h.0,
      insert-IsSorted x ys h.1,
    )
    | inr f ↦ rw f ((f, All-map (λ z k. before_trans x y z f k) ys h.0), h)
  ]

  sort-IsSorted : (xs : List (Evidence Number)) → IsSorted before (sort before xs)
  unfolding sort
  sort-IsSorted [] = tt
  sort-IsSorted (x ∷ xs) = insert-IsSorted x (sort before xs) (sort-IsSorted xs)

  -- Membership.
  abbrev pub IsIn : Evidence Number → List (Evidence Number) → Type 0
  IsIn e = Any (λ x. x ≡ e)

  All-IsIn : (xs : List (Evidence Number)) → All (λ e. IsIn e xs) xs
  All-IsIn [] = tt
  All-IsIn (x ∷ xs) = (inl refl, All-map (λ e h. inr h) xs (All-IsIn xs))

  -- Of any accepted evidence the selection keeps, for every event, one of the same window and type
  -- that the event does not supersede; it adds nothing, keeps no two of one window and type, and is
  -- in the order of the comparator.
  pub select_latest_newest :
      (events : List (Evidence Number))
      → All (λ e. Any (Covers e) (select_latest events)) events
        × All (λ e. IsIn e events) (select_latest events)
        × HasDistinctKeys (select_latest events)
        × IsSorted before (select_latest events)
  unfolding select_latest
  select_latest_newest events = (
    All-map (λ e. Any-sort (Covers e) before (collect [] events)) events (collect-Covers [] events),
    All-sort (λ e. IsIn e events) before (collect [] events)
        (collect-All (λ e. IsIn e events) [] events tt (All-IsIn events)),
    sort-HasDistinctKeys before (collect [] events) (collect-HasDistinctKeys [] events tt),
    sort-IsSorted (collect [] events),
  )
