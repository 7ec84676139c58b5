-- ===== src/Store/Held.antt =====
-- What becomes of the keys of a store in memory, src/store.rs.
use mpp_rs.Prelude.{
  Text, Bool, true, false, some, List, [], ◌∷◌, ◌≡◌, refl, ap, bytes_eq, bytes_eq_iff, arith,
  Option-cases, Bool-cases, inl, inr, ◌≢◌,
}
use mpp_rs.Prelude.Results.{Result, err, ok}
use mpp_rs.Charge.Json.{Value}
use mpp_rs.Store.Memory.{
  StoreError, Json, MemoryStore, find_key, insert_key, remove_key, put, put_if_absent, delete,
  StoreOp, putting, claiming, deleting, apply_op, apply_ops, deletes,
}

-- A key that is there.
abbrev pub IsHeld : Text → MemoryStore → Type 0
IsHeld key store = (raw : Text) × (find_key key store ≡ some raw)

insert_key-IsHeld :
    (key other raw : Text) (store : MemoryStore)
    → IsHeld key store
    → IsHeld key (insert_key other raw store)
unfolding insert_key find_key
insert_key-IsHeld key other raw [] (held, h) = cc
insert_key-IsHeld key other raw ((k, old) ∷ store) (held, h) = elim (Bool-cases (bytes_eq key k)) [
  | inl same ↦ elim (Bool-cases (bytes_eq other k)) [
    | inl there ↦ (raw, rw (there, same) refl)
    | inr further ↦ (old, rw (further, same) refl)
  ]
  | inr differ ↦ elim (Bool-cases (bytes_eq other k)) [
    | inl there ↦ (held, rw (there, differ) (rw differ at h))
    | inr further ↦
        let (kept, is_kept) = insert_key-IsHeld key other raw store (held, rw differ at h) in
        (kept, rw (further, differ) is_kept)
  ]
]

insert_key_self : (key raw : Text) (store : MemoryStore) → IsHeld key (insert_key key raw store)
unfolding insert_key find_key
insert_key_self key raw [] = (raw, rw ((bytes_eq_iff key key).1 refl))
insert_key_self key raw ((k, old) ∷ store) = elim (Bool-cases (bytes_eq key k)) [
  | inl same ↦ (raw, rw (same, same) refl)
  | inr differ ↦
      let (kept, is_kept) = insert_key_self key raw store in (kept, rw (differ, differ) is_kept)
]

remove_key-IsHeld :
    (key other : Text) (store : MemoryStore)
    → bytes_eq key other ≡ false
    → IsHeld key store
    → IsHeld key (remove_key other store)
unfolding remove_key find_key
remove_key-IsHeld key other [] differ (held, h) = cc
remove_key-IsHeld key other ((k, old) ∷ store) differ (held, h) =
    elim (Bool-cases (bytes_eq other k)) [
      | inl there ↦
          let same : other ≡ k = (bytes_eq_iff other k).0 there in
          let passed : bytes_eq key k ≡ false = rw (← same) differ in
          let (kept, is_kept) = remove_key-IsHeld key other store differ (held, rw passed at h) in
          (kept, rw there is_kept)
      | inr further ↦ elim (Bool-cases (bytes_eq key k)) [
        | inl same ↦ (old, rw (further, same) refl)
        | inr apart ↦
            let (kept, is_kept) = remove_key-IsHeld key other store differ (held, rw apart at h) in
            (kept, rw (further, apart) is_kept)
      ]
    ]

serialized :
    {reason : StoreError} {s t : MemoryStore}
    → ◌≡◌ {A = Result StoreError Bool × MemoryStore} (err reason, s) (ok true, t)
    → ⊥
serialized e = cc

claimed_false :
    {s t : MemoryStore}
    → ◌≡◌ {A = Result StoreError Bool × MemoryStore} (ok false, s) (ok true, t)
    → ⊥
claimed_false e = cc

module _ (x : Json) (key : Text) where
  put-IsHeld :
      (k : Text) (value : Value) (store : MemoryStore)
      → IsHeld key store
      → IsHeld key ((put x k value store).1)
  unfolding put
  put-IsHeld k value store h = elim (Option-cases (x.to_string value)) [
    | inl bad ↦ rw (bad, put) h
    | inr (raw, good) ↦ rw (good, put) (insert_key-IsHeld key k raw store h)
  ]

  pub put_if_absent-keeps :
      (k : Text) (value : Value) (store : MemoryStore)
      → IsHeld key store
      → IsHeld key ((put_if_absent x k value store).1)
  unfolding put_if_absent
  put_if_absent-keeps k value store h = elim (Option-cases (x.to_string value)) [
    | inl bad ↦ rw (bad, put_if_absent) h
    | inr (raw, good) ↦ elim (Option-cases (find_key k store)) [
      | inl absent ↦ rw (good, put_if_absent) (rw absent (insert_key-IsHeld key k raw store h))
      | inr (old, there) ↦ rw (good, put_if_absent) (rw there h)
    ]
  ]

  apply_op-IsHeld :
      (op : StoreOp) (store : MemoryStore)
      → deletes key (op ∷ []) ≡ false
      → IsHeld key store
      → IsHeld key (apply_op x op store)
  unfolding apply_op delete
  apply_op-IsHeld (putting k value) store kept h = put-IsHeld k value store h
  apply_op-IsHeld (claiming k value) store kept h = put_if_absent-keeps k value store h
  apply_op-IsHeld (deleting k) store kept h = remove_key-IsHeld key k store (ground arith) h

  pub apply_ops-IsHeld :
      (ops : List StoreOp) (store : MemoryStore)
      → deletes key ops ≡ false
      → IsHeld key store
      → IsHeld key (apply_ops x ops store)
  unfolding apply_ops
  apply_ops-IsHeld [] store kept h = h
  apply_ops-IsHeld (putting k v ∷ ops) store kept h =
      apply_ops-IsHeld ops (apply_op x (putting k v) store) kept
        (apply_op-IsHeld (putting k v) store refl h)
  apply_ops-IsHeld (claiming k v ∷ ops) store kept h =
      apply_ops-IsHeld ops (apply_op x (claiming k v) store) kept
        (apply_op-IsHeld (claiming k v) store refl h)
  apply_ops-IsHeld (deleting k ∷ ops) store kept h =
      apply_ops-IsHeld ops (apply_op x (deleting k) store) (ground arith)
        (apply_op-IsHeld (deleting k) store (ground arith) h)

  pub put_if_absent-IsHeld :
      (value : Value) (before after : MemoryStore)
      → put_if_absent x key value before ≡ (ok true, after)
      → IsHeld key after
  unfolding put_if_absent
  put_if_absent-IsHeld value before after e = elim (Option-cases (x.to_string value)) [
    | inl bad ↦ absurd (serialized (rw (bad, put_if_absent) at e))
    | inr (raw, good) ↦ elim (Option-cases (find_key key before)) [
      | inl absent ↦
          let same : insert_key key raw before ≡ after =
            ap (λ r. r.1) (rw absent at (rw (good, put_if_absent) at e)) in
          rw (← same) (insert_key_self key raw before)
      | inr (old, there) ↦ absurd (claimed_false (rw there at (rw (good, put_if_absent) at e)))
    ]
  ]

  pub held_refuses :
      (value : Value) (store end : MemoryStore) (raw : Text)
      → find_key key store ≡ some raw
      → put_if_absent x key value store ≢ (ok true, end)
  unfolding put_if_absent
  held_refuses value store end raw there e = elim (Option-cases (x.to_string value)) [
    | inl bad ↦ serialized (rw (bad, put_if_absent) at e)
    | inr (written, good) ↦ claimed_false (rw there at (rw (good, put_if_absent) at e))
  ]

  -- A key that `put_if_absent` has taken is not taken again, whatever other operations come between, if
  -- none of them deletes it.
  pub put_if_absent_once :
      (value later : Value) (before after : MemoryStore) (ops : List StoreOp) (end : MemoryStore)
      → put_if_absent x key value before ≡ (ok true, after)
      → deletes key ops ≡ false
      → put_if_absent x key later (apply_ops x ops after) ≢ (ok true, end)
  unfolding put_if_absent
  put_if_absent_once value later before after ops end taken kept again =
      let (raw, there) =
        apply_ops-IsHeld ops after kept (put_if_absent-IsHeld value before after taken) in
      held_refuses later (apply_ops x ops after) end raw there again
