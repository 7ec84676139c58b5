-- ===== src/AcceptPayment/Selection.antt =====
-- challenge_selection.rs: the challenge to pay, out of those that the provider supports. The parse of
-- the ranking header is an argument, `none` where there is none or it is malformed.
use mpp_rs.Prelude.{Bool, Option, none, some, List, [], ◌∷◌, not, if◌then◌else◌}
use mpp_rs.AcceptPayment.Defs.{Entry, HasMethodIntent, select, head?}

pub data Selected (T : Type 0) : Type 0 where
  chosen : T → Selected T
  expired : T → Selected T
  unsupported : Selected T

abbrev pub keep : {T : Type 0} → (T → Bool) → List T → List T
keep p [] = []
keep p (a ∷ l) = if p a then a ∷ keep p l else keep p l

module _ {T : Type 0} (t : HasMethodIntent T) where
  unfoldable pub select_ranked_challenge : List T → Option (List Entry) → Option T
  select_ranked_challenge challenges (some prefs) = select t challenges prefs
  select_ranked_challenge challenges none = head? challenges

  abbrev pub settle : Option T → Option T → Selected T
  settle (some c) other = chosen c
  settle none (some c) = expired c
  settle none none = unsupported

  unfoldable pub select_supported_challenge :
      List T → Option (List Entry) → (T → Bool) → (T → Bool) → Selected T
  unfolding select_ranked_challenge
  select_supported_challenge challenges prefs supports is_expired =
      let supported = keep supports challenges in
      let payable = keep (λ c. not (is_expired c)) supported in
      settle (select_ranked_challenge payable prefs) (select_ranked_challenge supported prefs)
