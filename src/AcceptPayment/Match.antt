-- ===== src/AcceptPayment/Match.antt =====
-- The best match of accept_payment.rs.
use mpp_rs.Prelude.{
  ◌≤◌, ◌<◌, ◌≡◌, ◌⊎◌, inl, inr, Bool, true, false, Option, none, some, List, [], ◌∷◌, All, Any,
  arith, Bool-cases,
}
use mpp_rs.AcceptPayment.Defs.{
  Entry, HasMethodIntent, Best, candidate, better, matches_entry, best_match_from, best_match,
}

-- `b` is at least as good as `c`: more specific, else of higher quality, else declared no later.
abbrev pub IsNoWorse : Best → Best → Type 0
IsNoWorse b c =
    (c.specificity < b.specificity)
    ⊎ ((c.specificity ≡ b.specificity) × ((c.q < b.q) ⊎ ((c.q ≡ b.q) × (b.index ≤ c.index))))

IsNoWorse-trans : (a b c : Best) → IsNoWorse a b → IsNoWorse b c → IsNoWorse a c
IsNoWorse-trans a b c h k = ground arith

better-false : (b c : Best) → better c b ≡ false → IsNoWorse b c
unfolding better
better-false b c h = ground arith

better-true : (b c : Best) → better c b ≡ true → IsNoWorse c b
unfolding better
better-true b c h = ground arith

IsNoWorse-refl : (b : Best) → IsNoWorse b b
IsNoWorse-refl b = ground arith

absurd_test : {b : Bool} → b ≡ true → b ≡ false → ⊥
absurd_test h k = cc

module _ {T : Type 0} (t : HasMethodIntent T) (offer : T) where
  abbrev IsOver : Best → Option Best → Type 0
  IsOver b none = Unit
  IsOver b (some c) = IsNoWorse b c

  -- What the loop returns: no worse than where it began and than every matching entry, and one of them.
  abbrev Ends : Option Best → List Entry → Best → Type 0
  Ends best prefs b =
      IsOver b best
      × All (λ (p : Entry). matches_entry t offer p ≡ true → IsNoWorse b (candidate p)) prefs
      × ((best ≡ some b)
          ⊎ Any (λ (p : Entry). (matches_entry t offer p ≡ true) × (candidate p ≡ b)) prefs)

  by_skip :
      (best : Option Best) (p : Entry) (prefs : List Entry) (b : Best)
      → matches_entry t offer p ≡ false
      → Ends best prefs b
      → Ends best (p ∷ prefs) b
  by_skip best p prefs b skip (over, others, inl from) =
      (over, ((λ m. absurd (absurd_test m skip)), others), inl from)
  by_skip best p prefs b skip (over, others, inr one) =
      (over, ((λ m. absurd (absurd_test m skip)), others), inr (inr one))

  by_take :
      (best : Option Best) (p : Entry) (prefs : List Entry) (b : Best)
      → matches_entry t offer p ≡ true
      → IsOver (candidate p) best
      → Ends (some (candidate p)) prefs b
      → Ends best (p ∷ prefs) b
  by_take best p prefs b hit up (over, others, from) =
      (over_best best up, ((λ _. over), others), origin from)
    where
      over_best : (o : Option Best) → IsOver (candidate p) o → IsOver b o
      over_best none h = tt
      over_best (some c) h = IsNoWorse-trans b (candidate p) c over h

      origin :
          (some (candidate p) ≡ some b)
            ⊎ Any (λ (q : Entry). (matches_entry t offer q ≡ true) × (candidate q ≡ b)) prefs
          → (best ≡ some b)
            ⊎ Any (λ (q : Entry). (matches_entry t offer q ≡ true) × (candidate q ≡ b)) (p ∷ prefs)
      origin (inl e) = inr (inl (hit, cc))
      origin (inr one) = inr (inr one)

  by_keep :
      (c : Best) (p : Entry) (prefs : List Entry) (b : Best)
      → IsNoWorse c (candidate p)
      → Ends (some c) prefs b
      → Ends (some c) (p ∷ prefs) b
  by_keep c p prefs b up (over, others, inl from) =
      (over, ((λ _. IsNoWorse-trans b c (candidate p) over up), others), inl from)
  by_keep c p prefs b up (over, others, inr one) =
      (over, ((λ _. IsNoWorse-trans b c (candidate p) over up), others), inr (inr one))

  best_match_from-Ends :
      (best : Option Best) (prefs : List Entry) (b : Best)
      → best_match_from t offer best prefs ≡ some b
      → Ends best prefs b
  unfolding best_match_from
  best_match_from-Ends none [] b e = cc
  best_match_from-Ends (some c) [] b e =
      let same : c ≡ b = cc in (rw same (IsNoWorse-refl b), tt, inl e)
  best_match_from-Ends none (p ∷ prefs) b e = elim (Bool-cases (matches_entry t offer p)) [
    | inl hit ↦
        by_take none p prefs b hit tt
          (best_match_from-Ends (some (candidate p)) prefs b (rw hit at e))
    | inr skip ↦ by_skip none p prefs b skip (best_match_from-Ends none prefs b (rw skip at e))
  ]
  best_match_from-Ends (some c) (p ∷ prefs) b e = elim (Bool-cases (matches_entry t offer p)) [
    | inl hit ↦ elim (Bool-cases (better (candidate p) c)) [
      | inl up ↦
          by_take (some c) p prefs b hit (better-true c (candidate p) up)
            (best_match_from-Ends (some (candidate p)) prefs b (rw (hit, up) at e))
      | inr down ↦
          by_keep c p prefs b (better-false c (candidate p) down)
            (best_match_from-Ends (some c) prefs b (rw (hit, down) at e))
    ]
    | inr skip ↦
        by_skip (some c) p prefs b skip (best_match_from-Ends (some c) prefs b (rw skip at e))
  ]

  -- The best match of an offer is one of the entries that match it, and no matching entry is more
  -- specific, or as specific and of higher quality, or equal in both and declared earlier.
  pub best_match-IsBest :
      (prefs : List Entry) (b : Best)
      → best_match t offer prefs ≡ some b
      → Any (λ (p : Entry). (matches_entry t offer p ≡ true) × (candidate p ≡ b)) prefs
        × All (λ (p : Entry). matches_entry t offer p ≡ true → IsNoWorse b (candidate p)) prefs
  unfolding best_match
  best_match-IsBest prefs b e = by_origin (best_match_from-Ends none prefs b e)
    where
      by_origin :
          Ends none prefs b
          → Any (λ (p : Entry). (matches_entry t offer p ≡ true) × (candidate p ≡ b)) prefs
            × All (λ (p : Entry). matches_entry t offer p ≡ true → IsNoWorse b (candidate p)) prefs
      by_origin (over, others, inl e') = cc
      by_origin (over, others, inr one) = (one, others)
