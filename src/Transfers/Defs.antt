-- ===== src/Transfers/Defs.antt =====
-- `get_transfers` of transfers.rs. The parsers of `alloy` and `hex` are parameters; the text of an error
-- is not modelled.
use mpp_rs.Prelude.{
  ℕ, ◌-◌, ◌^◌, Text, codes, Option, none, some, List, [], ◌∷◌, not, length, ltb, leb, ◌==◌,
  is_empty, checked_add, strip_prefix, if◌then◌else◌,
}
pub use mpp_rs.Prelude.Results.{Result, err, ok, ◌>>=◌, ◌>>◌, ok_or, err_if}

-- `MppError::invalid_challenge_reason`, and the errors of an address and of an amount that do not parse.
pub data TransferError : Type 0 where
  invalid_challenge invalid_address invalid_amount : TransferError

pub record Split : Type 0 where
  pub amount : Text
  pub recipient : Text
  pub memo : Option Text

-- An address is a number, a memo its 32 bytes.
pub record Transfer : Type 0 where
  pub amount : ℕ
  pub recipient : ℕ
  pub memo : Option (List ℕ)

pub record Parsers : Type 0 where
  pub parse_amount : Text → Option ℕ
  pub parse_address : Text → Option ℕ
  pub hex_decode : Text → Option (List ℕ)

abbrev pub max_splits : ℕ
max_splits = 10

abbrev pub u256_mod : ℕ
u256_mod = 2 ^ 256

abbrev unwrap_text : Option Text → Text → Text
unwrap_text none s = s
unwrap_text (some stripped) s = stripped

-- `memo.strip_prefix("0x").unwrap_or(memo)`
unfoldable pub strip_hex_prefix : Text → Text
unfolding strip_prefix
strip_hex_prefix s = unwrap_text (strip_prefix (codes "0x") s) s

module _ (x : Parsers) where
  unfoldable pub parse_memo_bytes_in_context : Option Text → Result TransferError (Option (List ℕ))
  unfolding strip_hex_prefix
  parse_memo_bytes_in_context none = ok none
  parse_memo_bytes_in_context (some memo) = if is_empty memo then ok none else do
    bytes ← ok_or (x.hex_decode (strip_hex_prefix memo)) invalid_challenge
    err_if (not (length bytes == 32)) invalid_challenge
    ok (some bytes)

  -- The body of the loop, up to the sum.
  unfoldable pub read_split : Split → Result TransferError Transfer
  unfolding parse_memo_bytes_in_context
  read_split split = do
    amount ← ok_or (x.parse_amount split.amount) invalid_challenge
    err_if (amount == 0) invalid_challenge
    recipient ← ok_or (x.parse_address split.recipient) invalid_address
    memo ← parse_memo_bytes_in_context split.memo
    ok (record { amount = amount; recipient = recipient; memo = memo })

  -- The loop: the sum so far, and then the sum and the transfers of what is left.
  unfoldable pub collect_splits : ℕ → List Split → Result TransferError (ℕ × List Transfer)
  unfolding read_split
  collect_splits split_sum [] = ok (split_sum, [])
  collect_splits split_sum (split ∷ splits) = do
    transfer ← read_split split
    split_sum' ← ok_or (checked_add u256_mod split_sum transfer.amount) invalid_challenge
    (total, transfers) ← collect_splits split_sum' splits
    ok (total, transfer ∷ transfers)

  unfoldable pub get_transfers :
      ℕ → ℕ → Option (List ℕ) → Option (List Split) → Result TransferError (List Transfer)
  unfolding collect_splits
  get_transfers total recipient memo none =
      ok (record { amount = total; recipient = recipient; memo = memo } ∷ [])
  get_transfers total recipient memo (some []) = err invalid_challenge
  get_transfers total recipient memo (some (split ∷ splits)) = do
    err_if (ltb max_splits (length (split ∷ splits))) invalid_challenge
    (split_sum, transfers) ← collect_splits 0 (split ∷ splits)
    err_if (leb total split_sum) invalid_challenge
    ok (record { amount = total - split_sum; recipient = recipient; memo = memo } ∷ transfers)
