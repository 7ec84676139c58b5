-- ===== src/Tempo/Logs.antt =====
-- The transfers that a receipt's logs show, in src/protocol/methods/tempo/method.rs. The parsers of
-- `alloy` are parameters; an address is the last 20 bytes of a topic.
use mpp_rs.Prelude.{
  ℕ, ◌%◌, ◌^◌, Text, codes, Option, none, some, List, [], ◌∷◌, take, drop, ltb, ◌==◌, if◌then◌else◌,
  byte_len,
}
use mpp_rs.Charge.Json.{Value, string, array, Elements, no_element, element, get}

-- A log of a transfer, and one of a transfer with a memo.
pub data MatchedTransferLog : Type 0 where
  transfer : MatchedTransferLog
  memo : List ℕ → MatchedTransferLog

pub record ParsedTransferLog : Type 0 where
  pub address : ℕ
  pub amount : ℕ
  pub sender : ℕ
  pub recipient : ℕ
  pub matched : MatchedTransferLog

abbrev pub log_memo : ParsedTransferLog → Option (List ℕ)
log_memo log = elim log.matched [ transfer ↦ none | memo bytes ↦ some bytes ]

pub record LogParsers : Type 0 where
  pub parse_address : Text → Option ℕ
  pub parse_b256 : Text → Option ℕ
  pub b256_bytes : ℕ → List ℕ
  pub from_str_radix_16 : Text → Option ℕ
  pub transfer_event_topic : ℕ
  pub transfer_with_memo_event_topic : ℕ

abbrev pub text_of_value : Value → Option Text
text_of_value (string s) = some s
text_of_value _ = none

abbrev pub and_then {ℓ κ} : {A : Type ℓ} {B : Type κ} → Option A → (A → Option B) → Option B
and_then none next = none
and_then (some a) next = next a

-- `filter_map` of the strings of an array.
abbrev pub cons_text : Option Text → List Text → List Text
cons_text none texts = texts
cons_text (some s) texts = s ∷ texts

unfoldable pub strings_of : Elements → List Text
strings_of no_element = []
strings_of (element v vs) = cons_text (text_of_value v) (strings_of vs)

abbrev pub array_strings : Value → Option (List Text)
array_strings (array vs) = some (strings_of vs)
array_strings _ = none

abbrev pub text_or : Option Text → Text → Text
text_or none s = s
text_or (some t) s = t

abbrev pub first_text : List Text → Option Text
first_text [] = none
first_text (t ∷ ts) = some t

module _ (p : LogParsers) where
  abbrev topic_address : Text → Option ℕ
  topic_address s = and_then (p.parse_b256 s) λ b. some (b % 2 ^ 160)

  -- The amount stands in 64 digits behind the `0x`. The data is ASCII, as `alloy` writes it.
  abbrev log_of : ℕ → ℕ → ℕ → Text → MatchedTransferLog → Option ParsedTransferLog
  log_of address sender recipient log_data matched =
      and_then (p.from_str_radix_16 (take 64 (drop 2 log_data))) λ amount. some (record {
        address = address;
        amount = amount;
        sender = sender;
        recipient = recipient;
        matched = matched;
      })

  unfoldable pub parse_topics : ℕ → List Text → Text → Option ParsedTransferLog
  parse_topics address (t0 ∷ t1 ∷ t2 ∷ more) log_data = and_then (p.parse_b256 t0) λ topic0.
      and_then (topic_address t1) λ sender. and_then (topic_address t2) λ recipient.
        if topic0 == p.transfer_event_topic
        then (if ltb (byte_len log_data) 66
            then none
            else log_of address sender recipient log_data transfer)
        else if topic0 == p.transfer_with_memo_event_topic
        then (if ltb (byte_len log_data) 66
            then none
            else and_then (first_text more) λ t3.
              and_then (p.parse_b256 t3)
                λ b. log_of address sender recipient log_data (memo (p.b256_bytes b)))
        else none
  parse_topics address _ log_data = none

  unfoldable pub parse_receipt_transfer_log : Value → Option ParsedTransferLog
  unfolding parse_topics strings_of get
  parse_receipt_transfer_log log =
      and_then (and_then (and_then (get (codes "address") log) text_of_value) p.parse_address)
        λ address. and_then (and_then (get (codes "topics") log) array_strings) λ topics.
          parse_topics address topics
            (text_or (and_then (get (codes "data") log) text_of_value) (codes "0x"))
