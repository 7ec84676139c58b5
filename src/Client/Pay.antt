-- ===== src/Client/Pay.antt =====
-- `pay`, `send_voucher` and `close` of src/client/tempo/session/mod.rs. What `pay` reads of the registry
-- comes before its first call of the chain or the signer, what it writes after the last: `prepare` and
-- `commit`, between which another payment may run.
use mpp_rs.Prelude.{
  ℕ, Text, codes, Bool, true, false, not, ◌||◌, Option, none, some, [], ◌∷◌, ◌==◌, if◌then◌else◌,
  add_u128, parse_codes, bytes_eq, max,
}
use mpp_rs.Prelude.Results.{Result, err, ok, ◌>>=◌, ◌>>◌, ok_or, err_if, map_err}
use mpp_rs.Server.Challenge.{PaymentChallenge, validate_for_session}
use mpp_rs.Server.Types.{PaymentCredential, Receipt, SessionRequest}
use mpp_rs.Headers.Tokens.{format_authorization, parse_receipt}
use mpp_rs.Tempo.Logs.{and_then}
use mpp_rs.Client.Types.{
  ChannelEntry, VoucherPayload, SessionCredentialPayload, voucher, close, HttpResponse, Wallet,
  ClientError, invalid_config, invalid_amount, http, refused, header, TempoSessionProvider, Dict,
  lookup, put, Registry,
}
use mpp_rs.Client.Terms.{
  Terms, unwrap_or, read_terms, expected_channel_key, is_precompile_escrow, request_channel_id,
}
use mpp_rs.Client.Payloads.{
  create_voucher_payload, build_credential, create_open_payload, create_precompile_open_payload,
  try_recover_channel, or_minimum,
}

-- What a payment has signed: the entry that goes to the registry, whether its id is new there, and the
-- payload.
pub record Signed : Type 0 where
  pub key : Text
  pub entry : ChannelEntry
  pub new_id : Bool
  pub chain_id : ℕ
  pub payload : SessionCredentialPayload

unfoldable pub resolve_deposit : TempoSessionProvider → Option Text → Result ClientError ℕ
unfolding parse_codes
resolve_deposit p suggested_deposit =
    ok_or (or_minimum (and_then suggested_deposit parse_codes) p.max_deposit p.default_deposit)
      invalid_config

-- An entry that is open.
abbrev pub if_opened : Option ChannelEntry → Option ChannelEntry
if_opened none = none
if_opened (some entry) = if entry.opened then some entry else none

abbrev pub raised : ℕ → ChannelEntry → ChannelEntry
raised amount entry = record entry { cumulative_amount = add_u128 entry.cumulative_amount amount }

-- The registry after an update of an entry, and what its callback has seen.
unfoldable pub record_entry : Text → ChannelEntry → Registry → Registry
unfolding put
record_entry key entry r = record r {
  channels = put key entry r.channels;
  notified = entry ∷ r.notified;
}

abbrev pub any_opened : Dict ChannelEntry → Bool
any_opened [] = false
any_opened ((key, entry) ∷ channels) = entry.opened || any_opened channels

abbrev pub signed_next : Terms → Bool → ChannelEntry → VoucherPayload → Signed
signed_next t new_id next payload = record {
  key = t.key;
  entry = next;
  new_id = new_id;
  chain_id = t.chain_id;
  payload = voucher payload;
}

abbrev pub signed_open : Terms → ChannelEntry × SessionCredentialPayload → Signed
signed_open t (entry, payload) = record {
  key = t.key;
  entry = entry;
  new_id = true;
  chain_id = t.chain_id;
  payload = payload;
}

unfoldable pub parse_amount : SessionRequest → Result ClientError ℕ
unfolding parse_codes
parse_amount request = ok_or (parse_codes request.amount) invalid_amount

-- The id of a channel that is new to the registry, with its key.
abbrev pub with_id : Wallet → Signed → Registry → Registry
with_id x s r =
    if s.new_id
    then record r {
      channel_id_to_key = put (x.format_b256 s.entry.channel_id) s.key r.channel_id_to_key;
    }
    else r

module _ (x : Wallet) (p : TempoSessionProvider) where
  -- One more voucher on an entry.
  unfoldable pub sign_next : Terms → Bool → ChannelEntry → Result ClientError Signed
  unfolding create_voucher_payload is_precompile_escrow
  sign_next t new_id entry =
      let next = raised t.amount entry in
      create_voucher_payload x (is_precompile_escrow x t.escrow_contract) next.channel_id
        next.cumulative_amount t.escrow_contract t.chain_id
      >>= λ payload. ok (signed_next t new_id next payload)

  unfoldable pub open_new : Terms → Result ClientError Signed
  unfolding resolve_deposit create_open_payload create_precompile_open_payload is_precompile_escrow
  open_new t = do
    deposit ← resolve_deposit p t.request.suggested_deposit
    made ←
        if is_precompile_escrow x t.escrow_contract
        then create_precompile_open_payload x p t deposit
        else create_open_payload x p t deposit
    ok (signed_open t made)

  -- The channel that the request suggests, unless the escrow contract is the precompile.
  unfoldable pub suggested_channel : Terms → Option ChannelEntry
  unfolding request_channel_id try_recover_channel is_precompile_escrow
  suggested_channel t =
      if is_precompile_escrow x t.escrow_contract
      then none
      else and_then (and_then (request_channel_id t.request) x.parse_b256) λ id.
        try_recover_channel x t.escrow_contract id t.chain_id p.payer t.payee t.currency
          (unwrap_or p.authorized_signer p.payer)

  unfoldable pub sign_payment : Terms → Dict ChannelEntry → Result ClientError Signed
  unfolding sign_next open_new suggested_channel lookup
  sign_payment t channels = elim (if_opened (lookup t.key channels)) [
    | some entry ↦ sign_next t false entry
    | none ↦ elim (suggested_channel t) [
      | some recovered ↦ sign_next t true recovered
      | none ↦ open_new t
    ]
  ]

  unfoldable pub prepare : PaymentChallenge → Dict ChannelEntry → Result ClientError Signed
  unfolding read_terms sign_payment parse_amount
  prepare challenge channels =
      read_terms x parse_amount challenge p.escrow_contract >>= λ t. sign_payment t channels

  unfoldable pub commit : Signed → Registry → Registry
  unfolding put record_entry
  commit s r = record_entry s.key s.entry (with_id x s r)

  -- A payment that no other one interrupts.
  unfoldable pub pay : PaymentChallenge → Registry → Result ClientError PaymentCredential × Registry
  unfolding validate_for_session prepare commit build_credential
  pay challenge r = elim (validate_for_session x.clock challenge (codes "tempo")) [
    | err reason ↦ (err (refused reason), r)
    | ok _ ↦
        let asked = record r { last_challenge = some challenge } in
        elim (prepare challenge asked.channels) [
          | err reason ↦ (err reason, asked)
          | ok s ↦ (ok (build_credential x challenge s.payload s.chain_id p.payer), commit s asked)
        ]
  ]

  -- The credential as a header, and the server's answer to it.
  unfoldable pub post_credential : Text → PaymentCredential → Result ClientError HttpResponse
  unfolding format_authorization
  post_credential url credential = do
    auth_header ← map_err header (format_authorization x.codec credential)
    response ← ok_or (x.post url auth_header) http
    err_if (not response.is_success) http
    ok response

  -- The entry that a voucher for a channel raises, with its key.
  unfoldable pub find_channel :
      PaymentChallenge → Text → ℕ → Registry → Result ClientError (Text × ChannelEntry)
  unfolding lookup expected_channel_key
  find_channel challenge channel_id_hex required_cumulative r = do
    key ← ok_or (lookup channel_id_hex r.channel_id_to_key) invalid_config
    (expected_key, expected_chain_id) ← expected_channel_key x challenge p.escrow_contract
    err_if (not (bytes_eq key expected_key)) invalid_config
    entry ← ok_or (lookup key r.channels) invalid_config
    err_if
        (not (entry.chain_id == expected_chain_id)
          || not (bytes_eq (x.format_b256 entry.channel_id) channel_id_hex))
        invalid_config
    ok (key, record entry { cumulative_amount = max required_cumulative entry.cumulative_amount })

  unfoldable pub sign_required :
      PaymentChallenge
      → Text
      → ℕ
      → Registry
      → Result ClientError (Text × ChannelEntry × SessionCredentialPayload)
  unfolding find_channel create_voucher_payload is_precompile_escrow
  sign_required challenge channel_id_hex required_cumulative r = do
    (key, entry) ← find_channel challenge channel_id_hex required_cumulative r
    payload ←
        create_voucher_payload x (is_precompile_escrow x entry.escrow_contract) entry.channel_id
          entry.cumulative_amount entry.escrow_contract entry.chain_id
    ok (key, entry, voucher payload)

  unfoldable pub send_voucher :
      Text → Text → ℕ → Registry → Result ClientError (Unit {0}) × Registry
  unfolding sign_required record_entry build_credential post_credential
  send_voucher url channel_id_hex required_cumulative r = elim r.last_challenge [
    | none ↦ (err invalid_config, r)
    | some challenge ↦ elim (sign_required challenge channel_id_hex required_cumulative r) [
      | err reason ↦ (err reason, r)
      | ok (key, entry, payload) ↦ (
        (post_credential url (build_credential x challenge payload entry.chain_id p.signer) >>= λ _.
            ok tt),
        record_entry key entry r,
      )
    ]
  ]

  abbrev pub receipt_of : Option Text → Option Receipt
  receipt_of none = none
  receipt_of (some s) = elim (parse_receipt x.codec s) [ ok receipt ↦ some receipt | err _ ↦ none ]

  unfoldable pub close_entry :
      Text → PaymentChallenge → ChannelEntry → Result ClientError (Option Receipt)
  unfolding create_voucher_payload is_precompile_escrow build_credential post_credential
      parse_receipt
  close_entry url challenge entry = do
    payload ←
        create_voucher_payload x (is_precompile_escrow x entry.escrow_contract) entry.channel_id
          entry.cumulative_amount entry.escrow_contract entry.chain_id
    response ←
        post_credential url (build_credential x challenge (close payload) entry.chain_id p.signer)
    ok (receipt_of response.receipt_header)

  -- A close leaves the registry as it is.
  unfoldable pub close_session : Text → Registry → Result ClientError (Option Receipt)
  unfolding expected_channel_key close_entry lookup
  close_session url r = elim r.last_challenge [
    | none ↦ ok none
    | some challenge ↦
        if not (any_opened r.channels)
        then ok none
        else (expected_channel_key x challenge p.escrow_contract >>= λ (key, chain_id).
            elim (if_opened (lookup key r.channels)) [
              | none ↦ ok none
              | some entry ↦
                  err_if (not (entry.chain_id == chain_id)) invalid_config
                  >> close_entry url challenge entry
            ])
  ]
