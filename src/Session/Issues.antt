-- ===== src/Session/Issues.antt =====
-- Which updates a task can ever make, whatever it reads and whatever the chain answers: the rules for
-- each way to build a task, and what they give for a pool under any schedule.
use mpp_rs.Prelude.{
  ℕ, zero, suc, ◌<◌, ◌≡◌, refl, String, Bool, true, false, Option, none, some, List, [], ◌∷◌, All,
  u128_mod, if◌then◌else◌,
}
use mpp_rs.Error.{Result, ok, err, VerificationError}
use mpp_rs.Session.Types.{ChannelState}
use mpp_rs.Session.Updates.{Updater}
use mpp_rs.Session.Task.{
  Task, ret, fail, read, update, call, Call, Reply, lift, or_fail, some_or_fail, fail_if,
  get_channel_state, update_channel, ask, ◌>>=◌, get_channel,
}
use mpp_rs.Session.Store.{
  Channels, World, store_result, advance, advance_at, run, run_pool, Holds, HoldsAt, HoldsOf,
  Holds-at, store_result-HoldsOf,
}

-- The chain's numbers are `u128`s.
abbrev pub IsTyped : (c : Call) → Reply c → Type 0
IsTyped (Call.send_raw_transaction tx) r = Unit
IsTyped (Call.get_receipt pending) r = Unit
IsTyped (get_channel escrow id) r = (r.deposit < u128_mod) × (r.settled < u128_mod)
IsTyped (Call.get_transaction_count account) r = Unit
IsTyped Call.get_gas_price r = Unit

abbrev pub IsTypedResult : (c : Call) → Result (Reply c) → Type 0
IsTypedResult c (ok r) = IsTyped c r
IsTypedResult c (err e) = Unit

pub record IsTypedWorld (w : World) : Type 0 where
  pub at : (c : Call) → IsTypedResult c (w c)

-- What a task may rely on, of the states that the store gives it and of the chain's answers, and which
-- updates it may make.
pub record Rules : Type 1 where
  pub stored : String → ChannelState → Type 0
  pub heard : (c : Call) → Reply c → Type 0
  pub issued : String → Updater → Type 0

abbrev pub HeardResult : Rules → (c : Call) → Result (Reply c) → Type 0
HeardResult V c (ok r) = V.heard c r
HeardResult V c (err e) = Unit

pub record IsWorld (V : Rules) (w : World) : Type 0 where
  pub at : (c : Call) → HeardResult V c (w c)

-- Every update that the task may still make is one of the rules'.
pub data Issues {A : Type 0} (V : Rules) : Task A → Type 0 where
  at_ret : (a : A) → Issues V (ret a)
  at_fail : (e : VerificationError) → Issues V (fail e)
  at_read :
      {k : String} {c : Result (Option ChannelState) → Task A}
      → ((r : Result (Option ChannelState)) → HoldsOf V.stored k r → Issues V (c r))
      → Issues V (read k c)
  at_update :
      {k : String} {u : Updater} {c : Result (Option ChannelState) → Task A}
      → V.issued k u
      → ((r : Result (Option ChannelState)) → HoldsOf V.stored k r → Issues V (c r))
      → Issues V (update k u c)
  at_call :
      {q : Call} {c : Result (Reply q) → Task A}
      → ((r : Result (Reply q)) → HeardResult V q r → Issues V (c r))
      → Issues V (call q c)

pub Issues-fail_if_last : {V : Rules} (b : Bool) (e : VerificationError) → Issues V (fail_if b e)
unfolding fail_if
Issues-fail_if_last true e = at_fail e
Issues-fail_if_last false e = at_ret tt

module _ {V : Rules} {A B : Type 0} where
  pub Issues-bind :
      {m : Task A} {f : A → Task B} → Issues V m → ((a : A) → Issues V (f a)) → Issues V (m >>= f)
  unfolding ◌>>=◌
  Issues-bind {f} (at_ret a) hf = hf a
  Issues-bind {f} (at_fail e) hf = at_fail e
  Issues-bind {f} (at_read h) hf = at_read (λ r t. Issues-bind (h r t) hf)
  Issues-bind {f} (at_update p h) hf = at_update p (λ r t. Issues-bind (h r t) hf)
  Issues-bind {f} (at_call h) hf = at_call (λ r t. Issues-bind (h r t) hf)

  -- What follows a `?` may use that there was a value.
  pub Issues-lift :
      (r : Result A) (f : A → Task B)
      → ((a : A) → r ≡ ok a → Issues V (f a))
      → Issues V (lift r >>= f)
  unfolding ◌>>=◌
  Issues-lift (ok a) f h = h a refl
  Issues-lift (err e) f h = at_fail e

  pub Issues-some_or_fail :
      (o : Option A) (e : VerificationError) (f : A → Task B)
      → ((a : A) → o ≡ some a → Issues V (f a))
      → Issues V (some_or_fail o e >>= f)
  unfolding ◌>>=◌
  Issues-some_or_fail (some a) e f h = h a refl
  Issues-some_or_fail none e f h = at_fail e

module _ {V : Rules} {B : Type 0} where
  pub Issues-fail_if :
      (b : Bool) (e : VerificationError) (f : Unit {0} → Task B)
      → (b ≡ false → Issues V (f tt))
      → Issues V (fail_if b e >>= f)
  unfolding ◌>>=◌
  Issues-fail_if true e f h = at_fail e
  Issues-fail_if false e f h = h refl

  pub Issues-some_or_fail_last :
      (o : Option B) (e : VerificationError) → Issues V (some_or_fail o e)
  unfolding some_or_fail
  Issues-some_or_fail_last (some b) e = at_ret b
  Issues-some_or_fail_last none e = at_fail e

  continue_lift :
      (k : String) (f : Option ChannelState → Task B)
      → ((o : Option ChannelState) → HoldsAt V.stored k o → Issues V (f o))
      → (r : Result (Option ChannelState)) → HoldsOf V.stored k r
      → Issues V (lift r >>= f)
  unfolding ◌>>=◌
  continue_lift k f h (ok o) t = h o t
  continue_lift k f h (err e) t = at_fail e

  pub Issues-get :
      (k : String) (f : Option ChannelState → Task B)
      → ((o : Option ChannelState) → HoldsAt V.stored k o → Issues V (f o))
      → Issues V (get_channel_state k >>= f)
  unfolding ◌>>=◌
  Issues-get k f h = at_read (continue_lift k f h)

  pub Issues-update :
      (k : String) (u : Updater) (f : Option ChannelState → Task B)
      → V.issued k u
      → ((o : Option ChannelState) → HoldsAt V.stored k o → Issues V (f o))
      → Issues V (update_channel k u >>= f)
  unfolding ◌>>=◌
  Issues-update k u f p h = at_update p (continue_lift k f h)

  continue_ask :
      (q : Call) (e : VerificationError) (f : Reply q → Task B)
      → ((a : Reply q) → V.heard q a → Issues V (f a))
      → (r : Result (Reply q)) → HeardResult V q r
      → Issues V (or_fail r e >>= f)
  unfolding ◌>>=◌
  continue_ask q e f h (ok a) t = h a t
  continue_ask q e f h (err _) t = at_fail e

  pub Issues-ask :
      (q : Call) (e : VerificationError) (f : Reply q → Task B)
      → ((a : Reply q) → V.heard q a → Issues V (f a))
      → Issues V (ask q e >>= f)
  unfolding ◌>>=◌
  Issues-ask q e f h = at_call (continue_ask q e f h)

  pub Issues-if :
      (b : Bool) (m n : Task B)
      → (b ≡ true → Issues V m)
      → (b ≡ false → Issues V n)
      → Issues V (if b then m else n)
  Issues-if true m n hm hn = hm refl
  Issues-if false m n hm hn = hn refl

-- A closed bound: the updates of a pool, one at a time, keep what each update in `P` keeps.
module _ {A : Type 0} (V : Rules) {Inv : Channels → Type 0}
    (keeps : (k : String) (u : Updater) (m : Channels)
      → V.issued k u
      → Inv m
      → Inv (store_result k (u (m k)) m))
    (informs : (m : Channels) → Inv m → Holds V.stored m) where
  abbrev Fine : Task A × Channels → Type 0
  Fine (t, m) = Issues V t × Inv m

  abbrev FinePool : List (Task A) × Channels → Type 0
  FinePool (ts, m) = All (Issues V) ts × Inv m

  advance-Fine :
      {t : Task A} (w : World) (m : Channels)
      → IsWorld V w
      → Issues V t
      → Inv m
      → Fine (advance w t m)
  unfolding advance
  advance-Fine w m tw (at_ret a) i = (at_ret a, i)
  advance-Fine w m tw (at_fail e) i = (at_fail e, i)
  advance-Fine w m tw (at_read {k = k} h) i =
      (h (ok (m k)) (Holds-at V.stored k m (informs m i)), i)
  advance-Fine w m tw (at_update {k = k} {u = u} p h) i =
      let kept = keeps k u m p i in
      (h (u (m k)) (store_result-HoldsOf V.stored k (u (m k)) m (informs _ kept)), kept)
  advance-Fine w m tw (at_call {q = q} h) i = (h (w q) (tw.at q), i)

  advance_at-Fine :
      (i : ℕ) (w : World) (ts : List (Task A)) (m : Channels)
      → IsWorld V w
      → All (Issues V) ts
      → Inv m
      → FinePool (advance_at i w ts m)
  unfolding advance_at
  advance_at-Fine i w [] m tw h v = (tt, v)
  advance_at-Fine zero w (t ∷ ts) m tw h v = let r = advance-Fine w m tw h.0 v in ((r.0, h.1), r.1)
  advance_at-Fine (suc i) w (t ∷ ts) m tw h v =
      let r = advance_at-Fine i w ts m tw h.1 v in ((h.0, r.0), r.1)

  pub run_pool-Inv :
      (moves : List (ℕ × World)) (ts : List (Task A)) (m : Channels)
      → All (λ (move : ℕ × World). IsWorld V move.1) moves
      → All (Issues V) ts
      → Inv m
      → Inv (run_pool moves ts m).1
  unfolding run_pool
  run_pool-Inv [] ts m tw h v = v
  run_pool-Inv ((i, w) ∷ moves) ts m tw h v =
      let r = advance_at-Fine i w ts m tw.0 h v in
      run_pool-Inv moves (advance_at i w ts m).0 (advance_at i w ts m).1 tw.1 r.0 r.1

  -- A task that runs alone keeps it too.
  pub run-Inv :
      {t : Task A} (w : World) (m : Channels) → IsWorld V w → Issues V t → Inv m → Inv (run w t m).1
  unfolding run
  run-Inv w m tw (at_ret a) i = i
  run-Inv w m tw (at_fail e) i = i
  run-Inv w m tw (at_read {k = k} h) i =
      run-Inv w m tw (h (ok (m k)) (Holds-at V.stored k m (informs m i))) i
  run-Inv w m tw (at_update {k = k} {u = u} p h) i =
      let kept = keeps k u m p i in
      run-Inv w (store_result k (u (m k)) m) tw
        (h (u (m k)) (store_result-HoldsOf V.stored k (u (m k)) m (informs _ kept))) kept
  run-Inv w m tw (at_call {q = q} h) i = run-Inv w m tw (h (w q) (tw.at q)) i
