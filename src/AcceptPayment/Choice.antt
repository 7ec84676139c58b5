-- ===== src/AcceptPayment/Choice.antt =====
-- The choice of accept_payment.rs and of challenge_selection.rs: what the ranking puts first, and what
-- a client pays.
use mpp_rs.Prelude.{
  ℕ, ◌≤◌, ◌<◌, ◌≡◌, inl, inr, refl, suc, Bool, true, false, none, some, List, [], ◌∷◌, All, arith,
  Bool-cases, Option-cases, ◌==◌, map,
}
use mpp_rs.AcceptPayment.Defs.{
  Entry, HasMethodIntent, Best, Scored, best_match, score, cons_some, scored_from, goes_before,
  insert_scored, sort_scored, head?, rank, select,
}
use mpp_rs.AcceptPayment.Selection.{keep}

-- A list whose first item has the highest quality of all.
abbrev IsLed : {T : Type 0} → List (Scored T) → Type 0
IsLed [] = Unit
IsLed (a ∷ l) = All (λ (b : Scored _). b.q ≤ a.q) l

pub All-map :
    {A : Type 0} {P Q : A → Type 0} (l : List A) → ((a : A) → P a → Q a) → All P l → All Q l
All-map [] f h = tt
All-map (a ∷ l) f (h, hs) = (f a h, All-map l f hs)

insert_scored-All :
    {T : Type 0} (P : Scored T → Type 0) (a : Scored T) (l : List (Scored T))
    → P a
    → All P l
    → All P (insert_scored a l)
unfolding insert_scored
insert_scored-All P a [] p ps = (p, tt)
insert_scored-All P a (b ∷ l) p ps = elim (Bool-cases (goes_before a b)) [
  | inl goes ↦ rw goes (p, ps)
  | inr stays ↦ rw stays (ps.0, insert_scored-All P a l p ps.1)
]

sort_scored-All :
    {T : Type 0} (P : Scored T → Type 0) (l : List (Scored T)) → All P l → All P (sort_scored l)
unfolding sort_scored
sort_scored-All P [] ps = tt
sort_scored-All P (a ∷ l) ps = insert_scored-All P a (sort_scored l) ps.0 (sort_scored-All P l ps.1)

insert_scored-All_inv :
    {T : Type 0} (P : Scored T → Type 0) (a : Scored T) (l : List (Scored T))
    → All P (insert_scored a l)
    → P a × All P l
unfolding insert_scored
insert_scored-All_inv P a [] ps = ps
insert_scored-All_inv P a (b ∷ l) ps = elim (Bool-cases (goes_before a b)) [
  | inl goes ↦ rw goes at ps
  | inr stays ↦
      let both = rw stays at ps in
      let rest = insert_scored-All_inv P a l both.1 in (rest.0, (both.0, rest.1))
]

sort_scored-All_inv :
    {T : Type 0} (P : Scored T → Type 0) (l : List (Scored T)) → All P (sort_scored l) → All P l
unfolding sort_scored
sort_scored-All_inv P [] ps = tt
sort_scored-All_inv P (a ∷ l) ps =
    let both = insert_scored-All_inv P a (sort_scored l) ps in
    (both.0, sort_scored-All_inv P l both.1)

goes_before-le : {T : Type 0} (a b : Scored T) → goes_before a b ≡ true → b.q ≤ a.q
unfolding goes_before
goes_before-le a b h = ground arith

stays_after-le : {T : Type 0} (a b : Scored T) → goes_before a b ≡ false → a.q ≤ b.q
unfolding goes_before
stays_after-le a b h = ground arith

insert_scored-IsLed :
    {T : Type 0} (a : Scored T) (l : List (Scored T)) → IsLed l → IsLed (insert_scored a l)
unfolding insert_scored
insert_scored-IsLed a [] led = tt
insert_scored-IsLed a (b ∷ l) led = elim (Bool-cases (goes_before a b)) [
  | inl goes ↦
      let le = goes_before-le a b goes in rw goes (le, All-map l (λ c h. omega (arith, h, le)) led)
  | inr stays ↦ rw stays (insert_scored-All _ a l (stays_after-le a b stays) led)
]

sort_scored-IsLed : {T : Type 0} (l : List (Scored T)) → IsLed (sort_scored l)
unfolding sort_scored
sort_scored-IsLed [] = tt
sort_scored-IsLed (a ∷ l) = insert_scored-IsLed a (sort_scored l) (sort_scored-IsLed l)

pub keep-All :
    {T : Type 0} (P : T → Type 0) (p : T → Bool) (l : List T)
    → All P l
    → All (λ c. P c × (p c ≡ true)) (keep p l)
keep-All P p [] ps = tt
keep-All P p (a ∷ l) ps = elim (Bool-cases (p a)) [
  | inl kept ↦ rw kept ((ps.0, kept), keep-All P p l ps.1)
  | inr dropped ↦ rw dropped (keep-All P p l ps.1)
]

pub head?-All :
    {A : Type 0} (P : A → Type 0) (l : List A) (a : A) → All P l → head? l ≡ some a → P a
head?-All P [] a ps e = cc
head?-All P (b ∷ l) a ps e = let same : b ≡ a = cc in rw (← same) ps.0

map-All :
    {A B : Type 0} (f : A → B) (P : B → Type 0) (l : List A)
    → All (λ a. P (f a)) l
    → All P (map f l)
map-All f P [] ps = tt
map-All f P (a ∷ l) ps = (ps.0, map-All f P l ps.1)

-- The offer that is first after the sort: its quality bounds that of all, and it is one of them.
head-sort :
    {T : Type 0} (l m : List (Scored T)) (o : T)
    → sort_scored l ≡ m
    → head? (map (λ (s : Scored T). s.offer) m) ≡ some o
    → (s : Scored T) × (s.offer ≡ o)
      × All (λ (c : Scored T). c.q ≤ s.q) l
      × ((P : Scored T → Type 0) → All P l → P s)
head-sort l [] o same e = cc
head-sort l (s ∷ m) o same e =
    let led : IsLed (s ∷ m) = rw same at (sort_scored-IsLed l) in
    (
      s,
      cc,
      sort_scored-All_inv _ l (rw same (omega arith, led)),
      λ P ps. (rw same at (sort_scored-All P l ps)).0,
    )

module _ {T : Type 0} (t : HasMethodIntent T) where
  -- What an item of the ranking says of its offer.
  abbrev IsScore : List Entry → Scored T → Type 0
  IsScore prefs s = (b : Best) × (best_match t s.offer prefs ≡ some b) × (b.q ≡ s.q) × (0 < s.q)

  -- No offer's best match has more quality than `n`.
  abbrev pub IsTop : List Entry → ℕ → List T → Type 0
  IsTop prefs n offers =
      All (λ (o : T). (b : Best) → best_match t o prefs ≡ some b → b.q ≤ n) offers

  score-IsScore :
      (P : T → Type 0) (i : ℕ) (o : T) (prefs : List Entry) (l : List (Scored T))
      → P o
      → All (λ (s : Scored T). IsScore prefs s × P s.offer) l
      → All
          (λ (s : Scored T). IsScore prefs s × P s.offer)
          (cons_some t (score t i o (best_match t o prefs)) l)
  unfolding score
  score-IsScore P i o prefs l p ps = elim (Option-cases (best_match t o prefs)) [
    | inl none_e ↦ rw none_e ps
    | inr (b, found) ↦ elim (Bool-cases (b.q == 0)) [
      | inl zero_q ↦ rw (found, zero_q) ps
      | inr pos_q ↦ rw (found, pos_q) (((b, found, refl, ground arith), p), ps)
    ]
  ]

  scored_from-All :
      (P : T → Type 0) (i : ℕ) (offers : List T) (prefs : List Entry)
      → All P offers
      → All (λ (s : Scored T). IsScore prefs s × P s.offer) (scored_from t i offers prefs)
  unfolding scored_from
  scored_from-All P i [] prefs ps = tt
  scored_from-All P i (o ∷ os) prefs ps =
      score-IsScore P i o prefs (scored_from t (suc i) os prefs) ps.0
        (scored_from-All P (suc i) os prefs ps.1)

  score-le :
      (n i : ℕ) (o : T) (prefs : List Entry) (l : List (Scored T))
      → All (λ (s : Scored T). s.q ≤ n) (cons_some t (score t i o (best_match t o prefs)) l)
      → ((b : Best) → best_match t o prefs ≡ some b → b.q ≤ n) × All (λ (s : Scored T). s.q ≤ n) l
  unfolding score
  score-le n i o prefs l h = elim (Option-cases (best_match t o prefs)) [
    | inl none_e ↦ ((λ b e. cc), rw none_e at h)
    | inr (c, found) ↦ elim (Bool-cases (c.q == 0)) [
      | inl zero_q ↦
          ((λ b e. let same : c ≡ b = cc in rw (← same) (ground arith)), rw (found, zero_q) at h)
      | inr pos_q ↦
          let both = rw (found, pos_q) at h in
          ((λ b e. let same : c ≡ b = cc in rw (← same) both.0), both.1)
    ]
  ]

  scored_from-IsTop :
      (n i : ℕ) (offers : List T) (prefs : List Entry)
      → All (λ (s : Scored T). s.q ≤ n) (scored_from t i offers prefs)
      → IsTop prefs n offers
  unfolding scored_from
  scored_from-IsTop n i [] prefs h = tt
  scored_from-IsTop n i (o ∷ os) prefs h =
      let parts = score-le n i o prefs (scored_from t (suc i) os prefs) h in
      (parts.0, scored_from-IsTop n (suc i) os prefs parts.1)

  -- What `select` returns is one of the offers, has the properties that all of them have, is matched
  -- with a quality above 0, and no other offer is matched with more.
  pub select-IsTop :
      (P : T → Type 0) (offers : List T) (prefs : List Entry) (o : T)
      → All P offers
      → select t offers prefs ≡ some o
      → P o × ((b : Best) × (best_match t o prefs ≡ some b) × (0 < b.q) × IsTop prefs b.q offers)
  unfolding select rank
  select-IsTop P offers prefs o ps e =
      let l = scored_from t 0 offers prefs in
      let (s, is_o, top, has) = head-sort l (sort_scored l) o refl e in
      let ((b, found, same_q, pos), p) = has _ (scored_from-All P 0 offers prefs ps) in
      let le = scored_from-IsTop s.q 0 offers prefs top in
      rw (← is_o) (p, (b, found, rw same_q pos, rw same_q le))

  pub select-none :
      (offers : List T) (prefs : List Entry) → select t offers prefs ≡ none → IsTop prefs 0 offers
  unfolding select rank
  select-none offers prefs e =
      let l = scored_from t 0 offers prefs in
      scored_from-IsTop 0 0 offers prefs (sort_scored-All_inv _ l (by_empty (sort_scored l) e))
    where
      by_empty :
          (m : List (Scored T))
          → head? (map (λ (s : Scored T). s.offer) m) ≡ none
          → All (λ (s : Scored T). s.q ≤ 0) m
      by_empty [] h = tt
      by_empty (s ∷ m) h = cc
