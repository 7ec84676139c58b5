-- ===== src/AcceptPayment/Defs.antt =====
-- Ranking of src/protocol/core/accept_payment.rs. A quality value is its thousandths, which three decimals
-- give; one that the parser takes with an exponent may have none.
use mpp_rs.Prelude.{
  ℕ, ◌+◌, suc, String, Bool, true, false, Option, none, some, List, [], ◌∷◌, map, not, ◌&&◌, ◌||◌,
  ltb, ◌==◌, str_eq, if◌then◌else◌,
}

pub record Entry : Type 0 where
  pub method : String
  pub intent : String
  pub q : ℕ
  pub index : ℕ

-- The trait: the method and the intent of an offer.
pub record HasMethodIntent (T : Type 0) : Type 0 where
  pub method : T → String
  pub intent : T → String

-- The source's `Match`.
pub record Best : Type 0 where
  pub q : ℕ
  pub specificity : ℕ
  pub index : ℕ

abbrev one_if : Bool → ℕ
one_if true = 1
one_if false = 0

unfoldable pub specificity : Entry → ℕ
specificity e = one_if (not (str_eq e.method "*")) + one_if (not (str_eq e.intent "*"))

-- Whether a candidate takes the place of the best so far.
unfoldable pub better : Best → Best → Bool
better c b =
    ltb b.specificity c.specificity
    || (c.specificity == b.specificity && ltb b.q c.q)
    || (c.specificity == b.specificity && (c.q == b.q && ltb c.index b.index))

unfoldable pub dominated : Best → Option Best → Bool
unfolding better
dominated c none = true
dominated c (some b) = better c b

abbrev pub candidate : Entry → Best
candidate p = record { q = p.q; specificity = specificity p; index = p.index }

pub record Scored (T : Type 0) : Type 0 where
  pub offer_idx : ℕ
  pub q : ℕ
  pub offer : T

module _ {T : Type 0} (t : HasMethodIntent T) where
  unfoldable pub matches_entry : T → Entry → Bool
  matches_entry offer pref =
      (str_eq pref.method "*" || str_eq pref.method (t.method offer))
      && (str_eq pref.intent "*" || str_eq pref.intent (t.intent offer))

  -- The loop, with the best so far.
  unfoldable pub best_match_from : T → Option Best → List Entry → Option Best
  unfolding matches_entry dominated specificity
  best_match_from offer best [] = best
  best_match_from offer best (pref ∷ prefs) =
      best_match_from offer
        (if not (matches_entry offer pref)
          then best
          else if dominated (candidate pref) best
          then some (candidate pref)
          else best)
        prefs

  unfoldable pub best_match : T → List Entry → Option Best
  unfolding best_match_from
  best_match offer prefs = best_match_from offer none prefs

  -- `filter_map` over the numbered offers: no match and `q = 0` drop an offer.
  unfoldable pub score : ℕ → T → Option Best → Option (Scored T)
  score i offer none = none
  score i offer (some b) =
      if b.q == 0 then none else some (record { offer_idx = i; q = b.q; offer = offer })

  abbrev pub cons_some : Option (Scored T) → List (Scored T) → List (Scored T)
  cons_some none l = l
  cons_some (some s) l = s ∷ l

  unfoldable pub scored_from : ℕ → List T → List Entry → List (Scored T)
  unfolding best_match score
  scored_from i [] prefs = []
  scored_from i (o ∷ os) prefs =
      cons_some (score i o (best_match o prefs)) (scored_from (suc i) os prefs)

-- The order of the sort: `q` downwards, then the offer's place upwards.
unfoldable pub goes_before : {T : Type 0} → Scored T → Scored T → Bool
goes_before a b = ltb b.q a.q || (a.q == b.q && ltb a.offer_idx b.offer_idx)

-- `sort_by`: the places differ, so the order is total and every sort gives the same list.
unfoldable pub insert_scored : {T : Type 0} → Scored T → List (Scored T) → List (Scored T)
unfolding goes_before
insert_scored a [] = a ∷ []
insert_scored a (b ∷ l) = if goes_before a b then a ∷ b ∷ l else b ∷ insert_scored a l

unfoldable pub sort_scored : {T : Type 0} → List (Scored T) → List (Scored T)
unfolding insert_scored
sort_scored [] = []
sort_scored (a ∷ l) = insert_scored a (sort_scored l)

abbrev pub head? : {A : Type 0} → List A → Option A
head? [] = none
head? (a ∷ l) = some a

module _ {T : Type 0} (t : HasMethodIntent T) where
  unfoldable pub rank : List T → List Entry → List T
  unfolding scored_from sort_scored
  rank offers prefs = map (λ (s : Scored T). s.offer) (sort_scored (scored_from t 0 offers prefs))

  unfoldable pub select : List T → List Entry → Option T
  unfolding rank
  select offers prefs = head? (rank offers prefs)
