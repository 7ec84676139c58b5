-- ===== src/AcceptPayment/Tests.antt =====
-- Preferences for tempo charges, then for anything, and the theorems on the choice on them.
use mpp_rs.Prelude.{
  ◌<◌, ◌≡◌, refl, String, Bool, true, false, some, List, [], ◌∷◌, All, Any, str_eq,
}
use mpp_rs.AcceptPayment.Defs.{
  Entry, HasMethodIntent, Best, candidate, specificity, better, dominated, matches_entry,
  best_match_from, best_match, score, scored_from, goes_before, insert_scored, sort_scored, rank,
  select,
}
use mpp_rs.AcceptPayment.Match.{IsNoWorse, best_match-IsBest}
use mpp_rs.AcceptPayment.Choice.{IsTop, select-IsTop}
use mpp_rs.AcceptPayment.Payable.{IsRight, select_supported_challenge-IsRight}
use mpp_rs.AcceptPayment.Selection.{select_supported_challenge}

-- An offer is its method and its intent.
abbrev offers_of : HasMethodIntent (String × String)
offers_of = record { method = λ o. o.0; intent = λ o. o.1 }

abbrev any_entry : Entry
any_entry = record { method = "*"; intent = "*"; q = 1000; index = 0 }

abbrev tempo_entry : Entry
tempo_entry = record { method = "tempo"; intent = "*"; q = 500; index = 1 }

abbrev entries : List Entry
entries = any_entry ∷ tempo_entry ∷ []

best_match-run : best_match offers_of ("tempo", "charge") entries ≡ some (candidate tempo_entry)
unfolding best_match best_match_from matches_entry dominated specificity better
best_match-run = refl

best_match-IsBest_example :
    Any
      (λ (p : Entry).
        (matches_entry offers_of ("tempo", "charge") p ≡ true)
        × (candidate p ≡ candidate tempo_entry))
      entries
    × All
        (λ (p : Entry).
          matches_entry offers_of ("tempo", "charge") p ≡ true
          → IsNoWorse (candidate tempo_entry) (candidate p))
        entries
best_match-IsBest_example =
    best_match-IsBest offers_of ("tempo", "charge") entries (candidate tempo_entry) best_match-run

-- A client that pays with tempo only, to which stripe and then tempo are offered.
abbrev offers : List (String × String)
offers = ("stripe", "charge") ∷ ("tempo", "charge") ∷ []

abbrev is_tempo : String × String → Bool
is_tempo o = str_eq o.0 "tempo"

select-run : select offers_of offers entries ≡ some ("stripe", "charge")
unfolding select rank scored_from score sort_scored insert_scored goes_before best_match
    best_match_from matches_entry dominated specificity better
select-run = refl

select-IsTop_example :
    Unit {0}
    × ((b : Best) × (best_match offers_of ("stripe", "charge") entries ≡ some b)
        × (0 < b.q)
        × IsTop offers_of entries b.q offers)
select-IsTop_example =
    select-IsTop offers_of (λ o. Unit) offers entries ("stripe", "charge") (tt, (tt, tt)) select-run

select_supported_challenge-IsRight_example :
    IsRight offers_of
      (λ o. Unit)
      offers
      (some entries)
      is_tempo
      (λ o. false)
      (select_supported_challenge offers_of offers (some entries) is_tempo (λ o. false))
select_supported_challenge-IsRight_example =
    select_supported_challenge-IsRight offers_of (λ o. Unit) offers (some entries) is_tempo
      (λ o. false) (tt, (tt, tt))
