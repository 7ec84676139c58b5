-- ===== src/Tempo/Reserved.antt =====
-- A key that the charge method of src/protocol/methods/tempo/method.rs has reserved.
use mpp_rs.Prelude.{Text, Bool, true, false, Option, none, some, ◌≡◌, refl}
use mpp_rs.Prelude.Results.{Result, err, ok, ◌>>=◌}
use mpp_rs.Error.{VerificationError}
use mpp_rs.Charge.Json.{boolean}
use mpp_rs.Store.Memory.{StoreError, MemoryStore, put_if_absent}
use mpp_rs.Tempo.Hash.{Chain, claim_result, reserve}

-- With a store, the key has been claimed in it.
abbrev pub Reserved : Chain → Text → Option MemoryStore → Option MemoryStore → Type 0
Reserved x key store after =
    (before : MemoryStore)
    → store ≡ some before
    → (end : MemoryStore) × (put_if_absent x.json key (boolean true) before ≡ (ok true, end))
      × (after ≡ some end)

claimed_true :
    (p : Result StoreError Bool × MemoryStore) → claim_result p.0 ≡ ok tt → p ≡ (ok true, p.1)
claimed_true (err reason, end) h = cc
claimed_true (ok false, end) h = cc
claimed_true (ok true, end) h = refl

pub reserve-Reserved :
    (x : Chain) (key : Text) (store : Option MemoryStore)
    → (reserve x key store).0 ≡ ok tt
    → Reserved x key store (reserve x key store).1
unfolding reserve
reserve-Reserved x key none taken before h = cc
reserve-Reserved x key (some store) taken before h =
    let same : store ≡ before = cc in
    let p = put_if_absent x.json key (boolean true) store in
    (p.1, rw (← same) (claimed_true p taken), refl)

-- What a result behind a reservation says of it.
pub behind-ok :
    {A : Type 0} (p : Result VerificationError (Unit {0}) × Option MemoryStore) (made a : A)
    (after : Option MemoryStore)
    → ◌≡◌ {A = Result VerificationError A × Option MemoryStore}
        ((p.0 >>= λ _. ok made), p.1)
        (ok a, after)
    → (p.0 ≡ ok tt) × (made ≡ a) × (p.1 ≡ after)
behind-ok (err reason, end) made a after e = cc
behind-ok (ok tt, end) made a after e = (refl, cc, cc)

pub refused :
    {A S : Type 0} {reason : VerificationError} {a : A} {store after : S}
    → ◌≡◌ {A = Result VerificationError A × S} (err reason, store) (ok a, after)
    → ⊥
refused h = cc
