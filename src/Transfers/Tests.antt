-- ===== src/Transfers/Tests.antt =====
-- A charge of 100 units with splits of 30 and 20, and the theorems on transfer plans on it.
use mpp_rs.Prelude.{
  ◌≡◌, refl, none, some, List, [], ◌∷◌, bytes_eq, codes, if◌then◌else◌, arith, All, ◌<◌, drop,
}
use mpp_rs.Transfers.Defs.{
  ok, Split, Transfer, Parsers, parse_memo_bytes_in_context, read_split, collect_splits,
  get_transfers,
}
use mpp_rs.Transfers.Plan.{
  sum, IsPlan, sum-get_transfers, get_transfers-IsPlan, get_transfers-of_plan,
}

abbrev toy : Parsers
toy = record {
  parse_amount = λ s. if bytes_eq s (codes "30") then some 30 else some 20;
  parse_address = λ s. some 8;
  hex_decode = λ s. none;
}

abbrev splits : List Split
splits =
    record { amount = codes "30"; recipient = codes "0x8"; memo = none }
    ∷ record { amount = codes "20"; recipient = codes "0x8"; memo = none }
    ∷ []

abbrev parts : List Transfer
parts =
    record { amount = 30; recipient = 8; memo = none }
    ∷ record { amount = 20; recipient = 8; memo = none }
    ∷ []

abbrev plan : List Transfer
plan = record { amount = 50; recipient = 7; memo = none } ∷ parts

splits-run : get_transfers toy 100 7 none (some splits) ≡ ok plan
unfolding get_transfers collect_splits read_split parse_memo_bytes_in_context bytes_eq
splits-run = refl

sum-get_transfers_example : sum plan ≡ 100
sum-get_transfers_example = sum-get_transfers toy 100 7 none (some splits) plan splits-run

get_transfers-IsPlan_example :
    IsPlan toy 100 7 none (some splits) plan × All (λ (t : Transfer). 0 < t.amount) (drop 1 plan)
get_transfers-IsPlan_example = get_transfers-IsPlan toy 100 7 none (some splits) plan splits-run

parts-IsPlan : IsPlan toy 100 7 none (some splits) plan
unfolding read_split parse_memo_bytes_in_context bytes_eq
parts-IsPlan = (parts, refl, omega arith, (refl, (refl, tt)), omega arith, omega arith)

get_transfers-of_plan_example : get_transfers toy 100 7 none (some splits) ≡ ok plan
get_transfers-of_plan_example =
    get_transfers-of_plan toy 100 7 none (some splits) plan (omega arith) parts-IsPlan
