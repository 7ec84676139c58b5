-- ===== src/AcceptPayment/Payable.antt =====
-- The outcomes of `select_supported_challenge` in challenge_selection.rs.
use mpp_rs.Prelude.{
  ◌≤◌, ◌≡◌, inl, inr, refl, Bool, true, false, Option, none, some, List, [], ◌∷◌, not, All, arith,
  Bool-cases, Option-cases,
}
use mpp_rs.AcceptPayment.Defs.{Entry, HasMethodIntent, Best, best_match}
use mpp_rs.AcceptPayment.Choice.{All-map, keep-All, head?-All, select-IsTop, select-none}
use mpp_rs.AcceptPayment.Selection.{
  Selected, chosen, expired, unsupported, keep, select_ranked_challenge, select_supported_challenge,
}

keep-All_inv :
    {T : Type 0} (P : T → Type 0) (p : T → Bool) (l : List T)
    → All P (keep p l)
    → All (λ c. p c ≡ true → P c) l
keep-All_inv P p [] ps = tt
keep-All_inv P p (a ∷ l) ps = elim (Bool-cases (p a)) [
  | inl kept ↦ let both = rw kept at ps in ((λ _. both.0), keep-All_inv P p l both.1)
  | inr dropped ↦ ((λ k. cc), keep-All_inv P p l (rw dropped at ps))
]

All-and : {A : Type 0} (P Q : A → Type 0) (l : List A) → All P l → All Q l → All (λ a. P a × Q a) l
All-and P Q [] ps qs = tt
All-and P Q (a ∷ l) ps qs = ((ps.0, qs.0), All-and P Q l ps.1 qs.1)

is_off : (b : Bool) → not b ≡ true → b ≡ false
is_off b h = ground arith

by_not : (b : Bool) → b ≡ false → not b ≡ true
by_not b h = ground arith

is_on : (b : Bool) → ¬ (not b ≡ true) → b ≡ true
is_on true h = refl
is_on false h = absurd (h refl)

module _ {T : Type 0} (t : HasMethodIntent T) where
  -- The preferences match the offer with no quality or not at all; without preferences any offer is good.
  abbrev pub IsUnwanted : Option (List Entry) → T → Type 0
  IsUnwanted none o = ⊥
  IsUnwanted (some prefs) o = (b : Best) → best_match t o prefs ≡ some b → b.q ≤ 0

  -- What the outcome says of the challenges, `P` being anything that holds of all of them.
  abbrev pub IsRight :
      (T → Type 0) → List T → Option (List Entry) → (T → Bool) → (T → Bool) → Selected T → Type 0
  IsRight P challenges prefs supports is_expired (chosen c) =
      P c × (supports c ≡ true) × (is_expired c ≡ false) × ¬ IsUnwanted prefs c
  IsRight P challenges prefs supports is_expired (expired c) =
      P c
      × (supports c ≡ true)
      × (is_expired c ≡ true)
      × All (λ o. supports o ≡ true → is_expired o ≡ false → IsUnwanted prefs o) challenges
  IsRight P challenges prefs supports is_expired unsupported =
      All (λ o. supports o ≡ true → IsUnwanted prefs o) challenges

  ranked-some :
      (P : T → Type 0) (l : List T) (prefs : Option (List Entry)) (c : T)
      → All P l
      → select_ranked_challenge t l prefs ≡ some c
      → P c × ¬ IsUnwanted prefs c
  unfolding select_ranked_challenge
  ranked-some P l none c ps e = (head?-All P l c ps e, λ h. h)
  ranked-some P l (some prefs) c ps e =
      let (p, (b, found, pos, top)) = select-IsTop t P l prefs c ps e in
      (p, λ h. omega (arith, pos, h b found))

  ranked-none :
      (l : List T) (prefs : Option (List Entry))
      → select_ranked_challenge t l prefs ≡ none
      → All (IsUnwanted prefs) l
  unfolding select_ranked_challenge
  ranked-none [] none e = tt
  ranked-none (a ∷ l) none e = cc
  ranked-none l (some prefs) e = select-none t l prefs e

  -- A challenge is paid only if it is offered, supported, not expired and wanted; it is reported expired
  -- only if it is offered, supported and expired and no supported challenge that is not expired is
  -- wanted; and none is reported only if no supported one is wanted.
  pub select_supported_challenge-IsRight :
      (P : T → Type 0) (challenges : List T) (prefs : Option (List Entry))
      (supports is_expired : T → Bool)
      → All P challenges
      → IsRight P challenges prefs supports is_expired
          (select_supported_challenge t challenges prefs supports is_expired)
  unfolding select_supported_challenge
  select_supported_challenge-IsRight P challenges prefs supports is_expired ps =
      let supported = keep supports challenges in
      let payable = keep (λ c. not (is_expired c)) supported in
      let facts : All (λ c. P c × (supports c ≡ true)) supported =
        keep-All P supports challenges ps in
      elim (Option-cases (select_ranked_challenge t payable prefs)) [
        | inr (c, paid) ↦
            let ((p, live), wanted) =
              ranked-some _ payable prefs c (keep-All _ (λ c. not (is_expired c)) supported facts)
                paid in
            rw paid (p.0, p.1, is_off (is_expired c) live, wanted)
        | inl no_payable ↦
            let unwanted : All (λ c. not (is_expired c) ≡ true → IsUnwanted prefs c) supported =
              keep-All_inv _ _ supported (ranked-none payable prefs no_payable) in
            elim (Option-cases (select_ranked_challenge t supported prefs)) [
              | inr (c, late) ↦
                  let ((p, u), wanted) =
                    ranked-some _ supported prefs c (All-and _ _ supported facts unwanted) late in
                  rw (no_payable, late)
                    (
                      p.0,
                      p.1,
                      is_on (is_expired c) (λ live. wanted (u live)),
                      All-map challenges (λ o h s live. h s (by_not (is_expired o) live))
                          (keep-All_inv _ supports challenges unwanted),
                    )
              | inl no_supported ↦
                  rw (no_payable, no_supported)
                    (keep-All_inv _ supports challenges (ranked-none supported prefs no_supported))
            ]
      ]
