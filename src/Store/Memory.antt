-- ===== src/Store/Memory.antt =====
-- src/store.rs: the `Store` in memory, a map from keys to serialized values. `serde_json` is a parameter.
-- Each operation holds the one lock, so a run is a sequence of operations.
use mpp_rs.Prelude.{
  Text, Bool, true, false, Option, none, some, List, [], ◌∷◌, if◌then◌else◌, bytes_eq,
}
use mpp_rs.Prelude.Results.{Result, err, ok, ◌>>=◌, ok_or}
use mpp_rs.Charge.Json.{Value}

pub data StoreError : Type 0 where
  internal serialization atomic_unsupported : StoreError

pub record Json : Type 0 where
  pub to_string : Value → Option Text
  pub from_str : Text → Option Value

abbrev pub MemoryStore : Type 0
MemoryStore = List (Text × Text)

unfoldable pub find_key : Text → MemoryStore → Option Text
find_key key [] = none
find_key key ((k, raw) ∷ store) = if bytes_eq key k then some raw else find_key key store

-- `HashMap::insert` and `HashMap::remove`.
unfoldable pub insert_key : Text → Text → MemoryStore → MemoryStore
insert_key key raw [] = (key, raw) ∷ []
insert_key key raw ((k, old) ∷ store) =
    if bytes_eq key k then (k, raw) ∷ store else (k, old) ∷ insert_key key raw store

unfoldable pub remove_key : Text → MemoryStore → MemoryStore
remove_key key [] = []
remove_key key ((k, raw) ∷ store) =
    if bytes_eq key k then remove_key key store else (k, raw) ∷ remove_key key store

abbrev read_value : Json → Option Text → Result StoreError (Option Value)
read_value x none = ok none
read_value x (some raw) = ok_or (x.from_str raw) serialization >>= λ value. ok (some value)

module _ (x : Json) where
  unfoldable pub get : Text → MemoryStore → Result StoreError (Option Value)
  unfolding find_key
  get key store = read_value x (find_key key store)

  unfoldable pub put : Text → Value → MemoryStore → Result StoreError (Unit {0}) × MemoryStore
  unfolding insert_key
  put key value store = elim (x.to_string value) [
    | none ↦ (err serialization, store)
    | some raw ↦ (ok tt, insert_key key raw store)
  ]

  unfoldable pub put_if_absent : Text → Value → MemoryStore → Result StoreError Bool × MemoryStore
  unfolding find_key insert_key
  put_if_absent key value store = elim (x.to_string value) [
    | none ↦ (err serialization, store)
    | some raw ↦ elim (find_key key store) [
      | some old ↦ (ok false, store)
      | none ↦ (ok true, insert_key key raw store)
    ]
  ]

unfoldable pub delete : Text → MemoryStore → Result StoreError (Unit {0}) × MemoryStore
unfolding remove_key
delete key store = (ok tt, remove_key key store)

-- The operations that change a store, and a run of them.
pub data StoreOp : Type 0 where
  putting claiming : Text → Value → StoreOp
  deleting : Text → StoreOp

unfoldable pub apply_op : Json → StoreOp → MemoryStore → MemoryStore
unfolding put put_if_absent delete
apply_op x (putting key value) store = (put x key value store).1
apply_op x (claiming key value) store = (put_if_absent x key value store).1
apply_op x (deleting key) store = (delete key store).1

unfoldable pub apply_ops : Json → List StoreOp → MemoryStore → MemoryStore
unfolding apply_op
apply_ops x [] store = store
apply_ops x (op ∷ ops) store = apply_ops x ops (apply_op x op store)

abbrev pub deletes : Text → List StoreOp → Bool
deletes key [] = false
deletes key (deleting k ∷ ops) = if bytes_eq key k then true else deletes key ops
deletes key (_ ∷ ops) = deletes key ops
