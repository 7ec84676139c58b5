-- ===== src/Charge/Json.antt =====
-- The values of `serde_json` that the code builds and reads. A number is its text; the members of an
-- object keep the order in which they came.
use mpp_rs.Prelude.{Text, Bool, Option, none, some, bytes_eq, if◌then◌else◌}

mutual
  pub data Value : Type 0 where
    null : Value
    boolean : Bool → Value
    number : Text → Value
    string : Text → Value
    array : Elements → Value
    object : Members → Value

  pub data Elements : Type 0 where
    no_element : Elements
    element : Value → Elements → Elements

  pub data Members : Type 0 where
    no_member : Members
    member : Text → Value → Members → Members

-- `Map::get`, `Map::insert` and `Map::is_empty`.
unfoldable pub get_member : Text → Members → Option Value
get_member key no_member = none
get_member key (member k v rest) = if bytes_eq key k then some v else get_member key rest

unfoldable pub insert_member : Text → Value → Members → Members
insert_member key value no_member = member key value no_member
insert_member key value (member k v rest) =
    if bytes_eq key k then member k value rest else member k v (insert_member key value rest)

-- `Value::get` and `Option::and_then` with it.
unfoldable pub get : Text → Value → Option Value
unfolding get_member
get key (object members) = get_member key members
get key _ = none

unfoldable pub get_from : Text → Option Value → Option Value
unfolding get
get_from key none = none
get_from key (some value) = get key value
