-- ===== src/Store/Tests.antt =====
-- A key that is claimed twice.
use mpp_rs.Prelude.{◌≡◌, ◌≢◌, refl, codes, true, false, some, List, [], ◌∷◌, bytes_eq}
use mpp_rs.Prelude.Results.{ok}
use mpp_rs.Charge.Json.{null, boolean}
use mpp_rs.Store.Memory.{
  Json, MemoryStore, find_key, insert_key, put_if_absent, StoreOp, putting, deleting, apply_ops,
  deletes,
}
use mpp_rs.Store.Held.{put_if_absent_once}

abbrev json : Json
json = record { to_string = λ v. some (codes "true"); from_str = λ s. some (boolean true) }

abbrev claimed : MemoryStore
claimed = (codes "k", codes "true") ∷ []

claim-run : put_if_absent json (codes "k") (boolean true) [] ≡ (ok true, claimed)
unfolding put_if_absent find_key insert_key
claim-run = refl

abbrev between : List StoreOp
between = putting (codes "k") null ∷ deleting (codes "other") ∷ []

between-keeps : deletes (codes "k") between ≡ false
unfolding bytes_eq
between-keeps = refl

put_if_absent_once_example :
    put_if_absent json (codes "k") (boolean true) (apply_ops json between claimed)
    ≢ (ok true, claimed)
put_if_absent_once_example =
    put_if_absent_once json (codes "k") (boolean true) (boolean true) [] claimed between claimed
      claim-run between-keeps
