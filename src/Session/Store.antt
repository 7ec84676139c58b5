-- ===== src/Session/Store.antt =====
-- `InMemoryChannelStore` of src/protocol/methods/tempo/session_method.rs, a map behind a mutex, and the
-- two ways to run tasks over it: one alone, and a pool of them under any schedule. The notifiers that
-- wake a waiting stream are not modelled.
use mpp_rs.Prelude.{
  ℕ, zero, suc, ◌≡◌, refl, inl, inr, String, Option, none, some, List, [], ◌∷◌, if◌then◌else◌,
  str_eq, eq_iff, Bool-cases,
}
use mathlib.Core.Path.{subst}
use mpp_rs.Error.{Result, ok, err}
use mpp_rs.Session.Types.{ChannelState}
use mpp_rs.Session.Updates.{Updater}
use mpp_rs.Session.Task.{Task, ret, fail, read, update, call, Call, Reply}

abbrev pub Channels : Type 0
Channels = String → Option ChannelState

abbrev pub empty : Channels
empty k = none

abbrev pub insert : String → ChannelState → Channels → Channels
insert k v m j = if str_eq k j then some v else m j

abbrev pub remove : String → Channels → Channels
remove k m j = if str_eq k j then none else m j

-- The map after an update whose closure returned `r`.
abbrev pub store_result : String → Result (Option ChannelState) → Channels → Channels
store_result k (ok (some state)) m = insert k state m
store_result k (ok none) m = remove k m
store_result k (err e) m = m

-- `update_channel`: the closure runs on the current state, under the lock.
unfoldable pub update_map : String → Updater → Channels → Result (Option ChannelState) × Channels
update_map k u m = let r = u (m k) in (r, store_result k r m)

-- What the chain answers: any function, one for each moment.
abbrev pub World : Type 0
World = (c : Call) → Result (Reply c)

-- One step of a task.
unfoldable pub advance : {A : Type 0} → World → Task A → Channels → Task A × Channels
unfolding update_map
advance w (ret a) m = (ret a, m)
advance w (fail e) m = (fail e, m)
advance w (read k c) m = (c (ok (m k)), m)
advance w (update k u c) m = let (r, m') = update_map k u m in (c r, m')
advance w (call q c) m = (c (w q), m)

-- A task that runs alone, under one world.
unfoldable pub run : {A : Type 0} → World → Task A → Channels → Result A × Channels
unfolding update_map
run w (ret a) m = (ok a, m)
run w (fail e) m = (err e, m)
run w (read k c) m = run w (c (ok (m k))) m
run w (update k u c) m = run w (c (update_map k u m).0) (update_map k u m).1
run w (call q c) m = run w (c (w q)) m

-- A pool: the scheduler names the task that moves and what the chain answers it; a number past the
-- end moves none.
module _ {A : Type 0} where
  unfoldable pub advance_at : ℕ → World → List (Task A) → Channels → List (Task A) × Channels
  unfolding advance
  advance_at i w [] m = ([], m)
  advance_at zero w (t ∷ ts) m = let (t', m') = advance w t m in (t' ∷ ts, m')
  advance_at (suc i) w (t ∷ ts) m = let (ts', m') = advance_at i w ts m in (t ∷ ts', m')

  unfoldable pub run_pool : List (ℕ × World) → List (Task A) → Channels → List (Task A) × Channels
  unfolding advance_at
  run_pool [] ts m = (ts, m)
  run_pool ((i, w) ∷ moves) ts m = let (ts', m') = advance_at i w ts m in run_pool moves ts' m'

-- A predicate of every stored channel, kept by an update whose result satisfies it.
abbrev pub Holds : (String → ChannelState → Type 0) → Channels → Type 0
Holds P m = (k : String) (s : ChannelState) → m k ≡ some s → P k s

abbrev pub HoldsAt : (String → ChannelState → Type 0) → String → Option ChannelState → Type 0
HoldsAt P k none = Unit
HoldsAt P k (some s) = P k s

abbrev pub HoldsOf :
    (String → ChannelState → Type 0) → String → Result (Option ChannelState) → Type 0
HoldsOf P k (ok o) = HoldsAt P k o
HoldsOf P k (err e) = Unit

module _ (P : String → ChannelState → Type 0) where
  pub Holds-at : (k : String) (m : Channels) → Holds P m → HoldsAt P k (m k)
  Holds-at k m h = by_state (m k) (λ s e. h k s e)
    where
      by_state :
          (o : Option ChannelState) → ((s : ChannelState) → o ≡ some s → P k s) → HoldsAt P k o
      by_state none f = tt
      by_state (some s) f = f s refl

  -- What holds of the store after an update holds of what the update has returned.
  pub store_result-HoldsOf :
      (k : String) (r : Result (Option ChannelState)) (m : Channels)
      → Holds P (store_result k r m)
      → HoldsOf P k r
  store_result-HoldsOf k (err e) m h = tt
  store_result-HoldsOf k (ok none) m h = tt
  store_result-HoldsOf k (ok (some s)) m h = h k s (rw ((eq_iff k k).1 refl) refl)

  pub store_result-Holds :
      (k : String) (r : Result (Option ChannelState)) (m : Channels)
      → HoldsOf P k r
      → Holds P m
      → Holds P (store_result k r m)
  store_result-Holds k (err e) m p h j s e' = h j s e'
  store_result-Holds k (ok none) m p h j s e = elim (Bool-cases (str_eq k j)) [
    | inl same ↦ cc (rw same at e)
    | inr other ↦ h j s (rw other at e)
  ]
  store_result-Holds k (ok (some new)) m p h j s e = elim (Bool-cases (str_eq k j)) [
    | inl same ↦
        let es : new ≡ s = cc (rw same at e) in
        subst (λ (i : String). P i s) ((eq_iff k j).0 same) (subst (P k) es p)
    | inr other ↦ h j s (rw other at e)
  ]
