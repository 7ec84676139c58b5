-- ===== src/Session/Run.antt =====
-- How a task that runs alone steps through each way to build it: to prove `Q` of its end, prove `Q` of
-- every way out.
use mpp_rs.Prelude.{
  ◌≡◌, refl, sym, String, Bool, true, false, Option, none, some, inl, inr, ◌==◌, ==_iff, Bool-cases,
}
use mathlib.Core.Path.{subst}
use mpp_rs.Error.{Result, ok, err, VerificationError}
use mpp_rs.Voucher.{Address}
use mpp_rs.Session.Types.{ChannelState}
use mpp_rs.Session.Updates.{Updater}
use mpp_rs.Session.Task.{
  Task, ret, fail, read, update, call, Call, Reply, lift, or_fail, some_or_fail, fail_if,
  get_channel_state, update_channel, ask, ◌>>=◌,
}
use mpp_rs.Session.Store.{Channels, World, store_result, run}
use mpp_rs.Session.Method.{check_parties}

module _ {A B : Type 0} (w : World) (Q : Result B × Channels → Type 0) where
  pub run-lift :
      (r : Result A) (f : A → Task B) (s : Channels)
      → ((e : VerificationError) → r ≡ err e → Q (err e, s))
      → ((a : A) → r ≡ ok a → Q (run w (f a) s))
      → Q (run w (lift r >>= f) s)
  unfolding ◌>>=◌ run
  run-lift (ok a) f s bad good = good a refl
  run-lift (err e) f s bad good = bad e refl

  pub run-some_or_fail :
      (o : Option A) (e : VerificationError) (f : A → Task B) (s : Channels)
      → (o ≡ none → Q (err e, s))
      → ((a : A) → o ≡ some a → Q (run w (f a) s))
      → Q (run w (some_or_fail o e >>= f) s)
  unfolding ◌>>=◌ run
  run-some_or_fail (some a) e f s bad good = good a refl
  run-some_or_fail none e f s bad good = bad refl

module _ {B : Type 0} (w : World) (Q : Result B × Channels → Type 0) where
  pub run-fail_if :
      (b : Bool) (e : VerificationError) (f : Unit {0} → Task B) (s : Channels)
      → (b ≡ true → Q (err e, s))
      → (b ≡ false → Q (run w (f tt) s))
      → Q (run w (fail_if b e >>= f) s)
  unfolding ◌>>=◌ run
  run-fail_if true e f s bad good = bad refl
  run-fail_if false e f s bad good = good refl

  pub run-get :
      (k : String) (f : Option ChannelState → Task B) (s : Channels)
      → Q (run w (f (s k)) s)
      → Q (run w (get_channel_state k >>= f) s)
  unfolding ◌>>=◌ run
  run-get k f s h = h

  continue_update :
      (k : String) (r : Result (Option ChannelState)) (f : Option ChannelState → Task B)
      (s : Channels)
      → ((e : VerificationError) → r ≡ err e → Q (err e, s))
      → ((o : Option ChannelState) → r ≡ ok o → Q (run w (f o) (store_result k (ok o) s)))
      → Q (run w (lift r >>= f) (store_result k r s))
  unfolding ◌>>=◌ run
  continue_update k (ok o) f s bad good = good o refl
  continue_update k (err e) f s bad good = bad e refl

  pub run-update :
      (k : String) (u : Updater) (f : Option ChannelState → Task B) (s : Channels)
      → ((e : VerificationError) → u (s k) ≡ err e → Q (err e, s))
      → ((o : Option ChannelState) → u (s k) ≡ ok o → Q (run w (f o) (store_result k (ok o) s)))
      → Q (run w (update_channel k u >>= f) s)
  unfolding ◌>>=◌ run
  run-update k u f s bad good = continue_update k (u (s k)) f s bad good

  continue_ask :
      (q : Call) (e : VerificationError) (r : Result (Reply q)) (f : Reply q → Task B)
      (s : Channels)
      → ((e' : VerificationError) → r ≡ err e' → Q (err e, s))
      → ((a : Reply q) → r ≡ ok a → Q (run w (f a) s))
      → Q (run w (or_fail r e >>= f) s)
  unfolding ◌>>=◌ run
  continue_ask q e (ok a) f s bad good = good a refl
  continue_ask q e (err e') f s bad good = bad e' refl

  pub run-ask :
      (q : Call) (e : VerificationError) (f : Reply q → Task B) (s : Channels)
      → ((e' : VerificationError) → w q ≡ err e' → Q (err e, s))
      → ((a : Reply q) → w q ≡ ok a → Q (run w (f a) s))
      → Q (run w (ask q e >>= f) s)
  unfolding ◌>>=◌ run
  run-ask q e f s bad good = continue_ask q e (w q) f s bad good

-- A task that runs alone runs its parts one after the other.
unfoldable pub after_part :
    {A B : Type 0} (w : World) (f : A → Task B) → Result A × Channels → Result B × Channels
after_part w f (ok a, s) = run w (f a) s
after_part w f (err e, s) = (err e, s)

pub run-bind :
    {A B : Type 0} (w : World) (m : Task A) (f : A → Task B) (s : Channels)
    → run w (m >>= f) s ≡ after_part w f (run w m s)
unfolding ◌>>=◌ run after_part
run-bind w (ret a) f s = refl
run-bind w (fail e) f s = refl
run-bind w (read k c) f s = run-bind w (c (ok (s k))) f s
run-bind w (update k u c) f s = run-bind w (c (u (s k))) f (store_result k (u (s k)) s)
run-bind w (call q c) f s = run-bind w (c (w q)) f s

pub run-part :
    {A B : Type 0} (w : World) (Q : Result B × Channels → Type 0) (m : Task A) (f : A → Task B)
    (s : Channels)
    → ((e : VerificationError) (t : Channels) → run w m s ≡ (err e, t) → Q (err e, t))
    → ((a : A) (t : Channels) → run w m s ≡ (ok a, t) → Q (run w (f a) t))
    → Q (run w (m >>= f) s)
unfolding after_part
run-part {A} w Q m f s bad good = rw run-bind (by_end (run w m s) refl)
  where
    by_end : (r : Result A × Channels) → run w m s ≡ r → Q (after_part w f r)
    by_end (ok a, t) e = good a t e
    by_end (err e', t) e = bad e' t e

module _ {B : Type 0} (w : World) (Q : Result B × Channels → Type 0) where
  pub run-check_parties :
      (a b c d : Address) (f : Unit {0} → Task B) (s : Channels)
      → ((e : VerificationError) → Q (err e, s))
      → (a ≡ c → b ≡ d → Q (run w (f tt) s))
      → Q (run w (check_parties a b c d >>= f) s)
  unfolding check_parties ◌>>=◌ run
  run-check_parties a b c d f s bad good = elim (Bool-cases (a == c)) [
    | inl payee ↦ elim (Bool-cases (b == d)) [
      | inl token ↦ rw (payee, token) (good ((==_iff a c).0 payee) ((==_iff b d).0 token))
      | inr other ↦ rw (payee, other) (bad _)
    ]
    | inr other ↦ rw other (bad _)
  ]

pub run-fail_if_last :
    (w : World) (b : Bool) (e : VerificationError) (s : Channels) → (run w (fail_if b e) s).1 ≡ s
unfolding run fail_if
run-fail_if_last w true e s = refl
run-fail_if_last w false e s = refl

pub run-ret :
    {A : Type 0} (w : World) (Q : Result A × Channels → Type 0) (a : A) (s : Channels)
    → Q (ok a, s)
    → Q (run w (ret a) s)
unfolding run
run-ret w Q a s h = h

-- The same where the way that the task goes is known.
module _ {A B : Type 0} (w : World) (Q : Result B × Channels → Type 0) where
  pub known-lift :
      (f : A → Task B) (s : Channels) {r : Result A} {a : A}
      → r ≡ ok a
      → Q (run w (f a) s)
      → Q (run w (lift r >>= f) s)
  unfolding ◌>>=◌ run
  known-lift f s e h = subst (λ r'. Q (run w (lift r' >>= f) s)) (sym e) h

  pub known-some :
      (e' : VerificationError) (f : A → Task B) (s : Channels) {o : Option A} {a : A}
      → o ≡ some a
      → Q (run w (f a) s)
      → Q (run w (some_or_fail o e' >>= f) s)
  unfolding ◌>>=◌ run
  known-some e' f s e h = subst (λ o'. Q (run w (some_or_fail o' e' >>= f) s)) (sym e) h

module _ {B : Type 0} (w : World) (Q : Result B × Channels → Type 0) where
  pub known-false :
      (e' : VerificationError) (f : Unit {0} → Task B) (s : Channels) {b : Bool}
      → b ≡ false
      → Q (run w (f tt) s)
      → Q (run w (fail_if b e' >>= f) s)
  unfolding ◌>>=◌ run
  known-false e' f s e h = subst (λ b'. Q (run w (fail_if b' e' >>= f) s)) (sym e) h

  pub known-get :
      (k : String) (f : Option ChannelState → Task B) (s : Channels) {o : Option ChannelState}
      → s k ≡ o
      → Q (run w (f o) s)
      → Q (run w (get_channel_state k >>= f) s)
  known-get k f s e h = run-get w Q k f s (subst (λ o. Q (run w (f o) s)) (sym e) h)

  pub known-ask :
      (q : Call) (e : VerificationError) (f : Reply q → Task B) (s : Channels) {a : Reply q}
      → w q ≡ ok a
      → Q (run w (f a) s)
      → Q (run w (ask q e >>= f) s)
  unfolding ◌>>=◌ run
  known-ask q e' f s e h = subst (λ r. Q (run w (or_fail r e' >>= f) s)) (sym e) h

  pub known-ask_err :
      (q : Call) (e : VerificationError) (f : Reply q → Task B) (s : Channels)
      {e' : VerificationError}
      → w q ≡ err e'
      → Q (err e, s)
      → Q (run w (ask q e >>= f) s)
  unfolding ◌>>=◌ run
  known-ask_err q e' f s e h = subst (λ r. Q (run w (or_fail r e' >>= f) s)) (sym e) h

  pub known-update :
      (k : String) (u : Updater) (f : Option ChannelState → Task B) (s : Channels)
      {o : Option ChannelState}
      → u (s k) ≡ ok o
      → Q (run w (f o) (store_result k (ok o) s))
      → Q (run w (update_channel k u >>= f) s)
  unfolding ◌>>=◌ run
  known-update k u f s e h = subst (λ r. Q (run w (lift r >>= f) (store_result k r s))) (sym e) h

  pub known-update_err :
      (k : String) (u : Updater) (f : Option ChannelState → Task B) (s : Channels)
      {e : VerificationError}
      → u (s k) ≡ err e
      → Q (err e, s)
      → Q (run w (update_channel k u >>= f) s)
  unfolding ◌>>=◌ run
  known-update_err k u f s e h =
      subst (λ r. Q (run w (lift r >>= f) (store_result k r s))) (sym e) h

  pub known-parties :
      (a b c d : Address) (f : Unit {0} → Task B) (s : Channels)
      → a ≡ c
      → b ≡ d
      → Q (run w (f tt) s)
      → Q (run w (check_parties a b c d >>= f) s)
  unfolding check_parties ◌>>=◌ run
  known-parties a b c d f s ea eb h = rw ((==_iff a c).1 ea, (==_iff b d).1 eb) h
