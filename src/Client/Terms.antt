-- ===== src/Client/Terms.antt =====
-- What a session challenge asks, in src/client/tempo/session/mod.rs: its chain, its escrow contract and the
-- key of its channel. The readers of the method details are those of
-- src/protocol/methods/tempo/session.rs.
use mpp_rs.Prelude.{ℕ, Text, codes, Bool, Option, none, some, ◌∷◌, ◌++◌, ◌==◌, if◌then◌else◌}
use mpp_rs.Prelude.Results.{Result, ok, ◌>>=◌, ok_or}
use mpp_rs.Charge.Json.{get_from}
use mpp_rs.Server.Challenge.{PaymentChallenge}
use mpp_rs.Server.Types.{SessionRequest}
use mpp_rs.Tempo.Logs.{text_of_value, and_then}
use mpp_rs.Tempo.Source.{as_u64, is_true}
use mpp_rs.Client.Types.{Wallet, ClientError, invalid_config}

unfoldable pub request_chain_id : SessionRequest → Option ℕ
unfolding get_from
request_chain_id request = and_then (get_from (codes "chainId") request.method_details) as_u64

unfoldable pub request_escrow : SessionRequest → Option Text
unfolding get_from
request_escrow request =
    and_then (get_from (codes "escrowContract") request.method_details) text_of_value

unfoldable pub request_channel_id : SessionRequest → Option Text
unfolding get_from
request_channel_id request =
    and_then (get_from (codes "channelId") request.method_details) text_of_value

unfoldable pub request_fee_payer : SessionRequest → Bool
unfolding get_from
request_fee_payer request = is_true (get_from (codes "feePayer") request.method_details)

unfoldable pub default_escrow_contract : ℕ → Option ℕ
default_escrow_contract chain_id =
    if chain_id == 4217
    then some 0x33b901018174ddabe4841042ab76ba85d4e24f25
    else if chain_id == 42431
    then some 0xe1c4d3dce17bc111181ddf716f75bae49e61a336
    else none

abbrev pub or_else : Option ℕ → Option ℕ → Option ℕ
or_else none other = other
or_else (some n) other = some n

abbrev pub unwrap_or : Option ℕ → ℕ → ℕ
unwrap_or none default = default
unwrap_or (some n) default = n

-- What a challenge asks.
pub record Terms : Type 0 where
  pub chain_id : ℕ
  pub escrow_contract : ℕ
  pub request : SessionRequest
  pub payee : ℕ
  pub currency : ℕ
  pub amount : ℕ
  pub operator : Option ℕ
  pub key : Text

module _ (x : Wallet) where
  unfoldable pub resolve_chain_id : PaymentChallenge → ℕ
  unfolding request_chain_id
  resolve_chain_id challenge =
      unwrap_or (and_then (x.decode_session challenge.request) request_chain_id) 42431

  unfoldable pub resolve_escrow : PaymentChallenge → ℕ → Option ℕ → Result ClientError ℕ
  unfolding request_escrow default_escrow_contract
  resolve_escrow challenge chain_id escrow_override =
      let asked =
        and_then (and_then (x.decode_session challenge.request) request_escrow) x.parse_address in
      ok_or (or_else asked (or_else escrow_override (default_escrow_contract chain_id)))
        invalid_config

  unfoldable pub is_precompile_escrow : ℕ → Bool
  is_precompile_escrow address = address == x.channel_reserve_address

  unfoldable pub parse_operator : SessionRequest → Result ClientError ℕ
  unfolding get_from
  parse_operator request = elim (get_from (codes "operator") request.method_details) [
    | none ↦ ok 0
    | some value ↦ ok_or (and_then (text_of_value value) x.parse_address) invalid_config
  ]

  unfoldable pub key_operator : ℕ → SessionRequest → Result ClientError (Option ℕ)
  unfolding is_precompile_escrow parse_operator
  key_operator escrow request =
      if is_precompile_escrow escrow
      then (parse_operator request >>= λ operator. ok (some operator))
      else ok none

  abbrev pub operator_part : Option ℕ → Text
  operator_part none = codes ""
  operator_part (some operator) = codes ":" ++ x.hex_address operator

  unfoldable pub channel_key : ℕ → ℕ → ℕ → Option ℕ → Text
  channel_key payee currency escrow operator =
      x.hex_address payee
      ++ (b':' ∷ x.hex_address currency)
      ++ (b':' ∷ x.hex_address escrow)
      ++ operator_part operator

  -- The reading that `pay` and `expected_channel_key` share; `pay` reads the amount on the way.
  unfoldable pub read_terms :
      (SessionRequest → Result ClientError ℕ)
      → PaymentChallenge
      → Option ℕ
      → Result ClientError Terms
  unfolding resolve_chain_id resolve_escrow key_operator channel_key
  read_terms read_amount challenge escrow_override = do
    let chain_id = resolve_chain_id challenge
    escrow ← resolve_escrow challenge chain_id escrow_override
    request ← ok_or (x.decode_session challenge.request) invalid_config
    recipient ← ok_or request.recipient invalid_config
    payee ← ok_or (x.parse_address recipient) invalid_config
    currency ← ok_or (x.parse_address request.currency) invalid_config
    amount ← read_amount request
    operator ← key_operator escrow request
    ok (record {
      chain_id = chain_id;
      escrow_contract = escrow;
      request = request;
      payee = payee;
      currency = currency;
      amount = amount;
      operator = operator;
      key = channel_key payee currency escrow operator;
    })

  unfoldable pub expected_channel_key : PaymentChallenge → Option ℕ → Result ClientError (Text × ℕ)
  unfolding read_terms
  expected_channel_key challenge escrow_override =
      read_terms (λ _. ok 0) challenge escrow_override >>= λ t. ok (t.key, t.chain_id)
