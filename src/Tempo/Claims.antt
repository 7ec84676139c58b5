-- ===== src/Tempo/Claims.antt =====
-- The greedy matching of src/protocol/methods/tempo/method.rs: items with a mark for those in use, of
-- which the first free one that passes a test is taken.
use mpp_rs.Prelude.{
  ℕ, ◌+◌, Bool, true, false, Option, none, some, List, [], ◌∷◌, ◌≡◌, refl, ap, ◌∙◌, arith,
  Option-cases, inl, inr,
}

module _ {A : Type 0} where
  abbrev pub unused : List A → List (Bool × A)
  unused [] = []
  unused (a ∷ items) = (false, a) ∷ unused items

  abbrev pub items : List (Bool × A) → List A
  items [] = []
  items ((used, a) ∷ slots) = a ∷ items slots

  -- The sum of a weight over the items in use.
  abbrev pub used_sum : (A → ℕ) → List (Bool × A) → ℕ
  used_sum f [] = 0
  used_sum f ((true, a) ∷ slots) = f a + used_sum f slots
  used_sum f ((false, a) ∷ slots) = used_sum f slots

  abbrev pub UsedAll : (A → Type 0) → List (Bool × A) → Type 0
  UsedAll P [] = Unit
  UsedAll P ((true, a) ∷ slots) = P a × UsedAll P slots
  UsedAll P ((false, a) ∷ slots) = UsedAll P slots

  pub used_sum-unused : (f : A → ℕ) (l : List A) → used_sum f (unused l) ≡ 0
  used_sum-unused f [] = refl
  used_sum-unused f (a ∷ l) = used_sum-unused f l

  pub items-unused : (l : List A) → items (unused l) ≡ l
  items-unused [] = refl
  items-unused (a ∷ l) = ap (λ m. a ∷ m) (items-unused l)

  pub UsedAll-unused : (P : A → Type 0) (l : List A) → UsedAll P (unused l)
  UsedAll-unused P [] = tt
  UsedAll-unused P (a ∷ l) = UsedAll-unused P l

module _ {A M : Type 0} where
  abbrev pub put_back : Bool × A → Option (M × List (Bool × A)) → Option (M × List (Bool × A))
  put_back slot none = none
  put_back slot (some (m, slots)) = some (m, slot ∷ slots)

  -- What the item gave, and the items with its mark set.
  unfoldable pub claim : (A → Option M) → List (Bool × A) → Option (M × List (Bool × A))
  claim test [] = none
  claim test ((true, a) ∷ slots) = put_back (true, a) (claim test slots)
  claim test ((false, a) ∷ slots) = elim (test a) [
    | some m ↦ some (m, (true, a) ∷ slots)
    | none ↦ put_back (false, a) (claim test slots)
  ]

  put_back-some :
      (slot : Bool × A) (o : Option (M × List (Bool × A))) (m : M) (slots : List (Bool × A))
      → put_back slot o ≡ some (m, slots)
      → (rest : List (Bool × A)) × (o ≡ some (m, rest)) × (slots ≡ slot ∷ rest)
  put_back-some slot none m slots e = cc
  put_back-some slot (some (n, rest)) m slots e = (rest, cc, cc)

  -- One item more is in use, which passes the test.
  pub claim-some :
      (test : A → Option M) (slots : List (Bool × A)) (m : M) (after : List (Bool × A))
      → claim test slots ≡ some (m, after)
      → (a : A) × (test a ≡ some m)
        × (items after ≡ items slots)
        × ((f : A → ℕ) → used_sum f after ≡ used_sum f slots + f a)
        × ((P : A → Type 0) → P a → UsedAll P slots → UsedAll P after)
  unfolding claim
  claim-some test [] m after e = cc
  claim-some test ((true, b) ∷ slots) m after e =
      let (rest, found, is_after) = put_back-some (true, b) (claim test slots) m after e in
      let (a, passes, same, sums, all) = claim-some test slots m rest found in
      (
        a,
        passes,
        rw is_after (ap (λ l. b ∷ l) same),
        λ f. rw is_after (omega (arith, sums f)),
        λ P p h. rw is_after (h.0, all P p h.1),
      )
  claim-some test ((false, b) ∷ slots) m after e = elim (Option-cases (test b)) [
    | inl fails ↦
        let (rest, found, is_after) =
          put_back-some (false, b) (claim test slots) m after (rw (fails, claim) at e) in
        let (a, passes, same, sums, all) = claim-some test slots m rest found in
        (
          a,
          passes,
          rw is_after (ap (λ l. b ∷ l) same),
          λ f. rw is_after (sums f),
          λ P p h. rw is_after (all P p h),
        )
    | inr (n, passes) ↦
        let (same_m, is_after) = both n m ((true, b) ∷ slots) after (rw (passes, claim) at e) in
        (
          b,
          passes ∙ ap some same_m,
          rw (← is_after) refl,
          λ f. rw (← is_after) (omega arith),
          λ P p h. rw (← is_after) (p, h),
        )
  ]
    where
      both :
          (n m : M) (s t : List (Bool × A))
          → ◌≡◌ {A = Option (M × List (Bool × A))} (some (n, s)) (some (m, t))
          → (n ≡ m) × (s ≡ t)
      both n m s t h = (cc, cc)
