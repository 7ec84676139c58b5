-- ===== src/Client/Payloads.antt =====
-- The payloads of src/client/tempo/session/channel_ops.rs: vouchers, closes and the two ways to open a
-- channel, on an escrow contract and on the precompile.
use mpp_rs.Prelude.{
  ℕ, ◌-◌, ◌^◌, Text, codes, Bool, true, false, not, ◌&&◌, Option, none, some, ◌++◌, ltb, ◌==◌,
  if◌then◌else◌, to_decimal,
}
use mpp_rs.Prelude.Results.{Result, ok, ◌>>=◌, ◌>>◌, ok_or, err_if}
use mpp_rs.Server.Challenge.{PaymentChallenge, to_echo}
use mpp_rs.Server.Types.{PaymentCredential}
use mpp_rs.Client.Types.{
  ApproveCall, ChannelEntry, VoucherPayload, ChannelDescriptor, SessionCredentialPayload,
  open_channel, OpenCall, OpenTx, ChannelParams, Wallet, ClientError, invalid_config, http, signing,
  TempoSessionProvider,
}
use mpp_rs.Client.Terms.{Terms, unwrap_or, request_fee_payer}

abbrev pub precompile_max_cumulative_amount : ℕ
precompile_max_cumulative_amount = 2 ^ 96 - 1

abbrev pub or_minimum : Option ℕ → Option ℕ → Option ℕ → Option ℕ
or_minimum (some suggested) (some max) default = some (if ltb max suggested then max else suggested)
or_minimum (some suggested) none default = some suggested
or_minimum none (some max) default = some max
or_minimum none none default = default

module _ (x : Wallet) where
  -- A voucher's signature; that of the precompile has 96 bits for the amount.
  unfoldable pub signed_amount : Bool → ℕ → ℕ → ℕ → ℕ → Result ClientError Text
  signed_amount true channel_id cumulative_amount escrow chain_id = do
    err_if (ltb precompile_max_cumulative_amount cumulative_amount) invalid_config
    ok_or (x.sign_precompile_voucher channel_id cumulative_amount chain_id) signing
  signed_amount false channel_id cumulative_amount escrow chain_id =
      ok_or (x.sign_voucher channel_id cumulative_amount escrow chain_id) signing

  unfoldable pub create_voucher_payload : Bool → ℕ → ℕ → ℕ → ℕ → Result ClientError VoucherPayload
  unfolding signed_amount
  create_voucher_payload precompile channel_id cumulative_amount escrow chain_id = do
    sig ← signed_amount precompile channel_id cumulative_amount escrow chain_id
    ok (record {
      channel_id = x.format_b256 channel_id;
      cumulative_amount = to_decimal cumulative_amount;
      signature = sig;
    })

  unfoldable pub build_credential :
      PaymentChallenge → SessionCredentialPayload → ℕ → ℕ → PaymentCredential
  build_credential challenge payload chain_id signer_address = record {
    challenge = to_echo challenge;
    source = some (
        codes "did:pkh:eip155:"
        ++ to_decimal chain_id
        ++ codes ":"
        ++ x.format_address signer_address);
    payload = x.payload_value payload;
  }

  -- The nonce, its key and the end of validity.
  abbrev pub open_nonce_fields : Bool → ℕ → ℕ × ℕ × Option ℕ
  open_nonce_fields false nonce = (nonce, 0, none)
  open_nonce_fields true nonce = (0, x.u256_max, some x.fee_payer_valid_before)

  abbrev pub nonce_of : Bool → ℕ → Result ClientError ℕ
  nonce_of true payer = ok 0
  nonce_of false payer = ok_or (x.get_transaction_count payer) http

  abbrev pub approve_call : Terms → ℕ → ApproveCall
  approve_call t deposit = record {
    token = t.currency;
    spender = t.escrow_contract;
    amount = deposit;
  }

  abbrev pub open_tx : Option ApproveCall → OpenCall → Terms → Bool → ℕ × ℕ × Option ℕ → ℕ → OpenTx
  open_tx approve call t fee_payer (nonce, nonce_key, valid_before) gas_price = record {
    approve = approve;
    call = call;
    chain_id = t.chain_id;
    fee_token = t.currency;
    nonce = nonce;
    nonce_key = nonce_key;
    gas_limit = 2000000;
    gas_price = gas_price;
    fee_payer = fee_payer;
    valid_before = valid_before;
  }

  abbrev pub open_call : TempoSessionProvider → Terms → ℕ → OpenCall
  open_call p t deposit = record {
    contract = t.escrow_contract;
    payee = t.payee;
    operator = t.operator;
    token = t.currency;
    deposit = deposit;
    salt = x.random;
    authorized_signer = unwrap_or p.authorized_signer p.payer;
  }

  abbrev pub params_of : TempoSessionProvider → Terms → Option ℕ → ChannelParams
  params_of p t nonce_hash = record {
    payer = p.payer;
    payee = t.payee;
    operator = t.operator;
    token = t.currency;
    salt = x.random;
    authorized_signer = unwrap_or p.authorized_signer p.payer;
    escrow_contract = t.escrow_contract;
    expiring_nonce_hash = nonce_hash;
    chain_id = t.chain_id;
  }

  abbrev pub opened_entry : Terms → ℕ → ChannelEntry
  opened_entry t channel_id = record {
    channel_id = channel_id;
    salt = x.random;
    cumulative_amount = t.amount;
    escrow_contract = t.escrow_contract;
    chain_id = t.chain_id;
    opened = true;
  }

  -- The entry and the payload, from the channel, the signed transaction and the first voucher.
  abbrev pub opened_with :
      TempoSessionProvider
      → Terms
      → ℕ
      → Option ChannelDescriptor
      → Text
      → Text
      → ChannelEntry × SessionCredentialPayload
  opened_with p t channel_id descriptor transaction sig = (
    opened_entry t channel_id,
    open_channel (record {
      payload_type = codes "transaction";
      channel_id = x.format_b256 channel_id;
      transaction = transaction;
      descriptor = descriptor;
      authorized_signer = x.format_address (unwrap_or p.authorized_signer p.payer);
      cumulative_amount = to_decimal t.amount;
      signature = sig;
    }),
  )

  unfoldable pub create_open_payload :
      TempoSessionProvider
      → Terms
      → ℕ
      → Result ClientError (ChannelEntry × SessionCredentialPayload)
  unfolding signed_amount request_fee_payer
  create_open_payload p t deposit = do
    let channel_id = x.channel_hash (params_of p t none)
    nonce ← ok_or (x.get_transaction_count p.payer) http
    gas_price ← ok_or x.get_gas_price http
    let tx =
        open_tx (some (approve_call t deposit)) (open_call p t deposit) t
          (request_fee_payer t.request) (nonce, 0, none) gas_price
    transaction ← ok_or (x.sign_and_encode tx) signing
    sig ← signed_amount false channel_id t.amount t.escrow_contract t.chain_id
    ok (opened_with p t channel_id none transaction sig)

  abbrev pub descriptor_of : TempoSessionProvider → Terms → ℕ → ChannelDescriptor
  descriptor_of p t nonce_hash = record {
    payer = x.format_address p.payer;
    payee = x.format_address t.payee;
    operator = x.format_address (unwrap_or t.operator 0);
    token = x.format_address t.currency;
    salt = x.format_b256 x.random;
    authorized_signer = x.format_address (unwrap_or p.authorized_signer p.payer);
    expiring_nonce_hash = x.format_b256 nonce_hash;
  }

  unfoldable pub create_precompile_open_payload :
      TempoSessionProvider
      → Terms
      → ℕ
      → Result ClientError (ChannelEntry × SessionCredentialPayload)
  unfolding signed_amount request_fee_payer
  create_precompile_open_payload p t deposit = do
    err_if (ltb precompile_max_cumulative_amount deposit) invalid_config
    err_if (ltb precompile_max_cumulative_amount t.amount) invalid_config
    let fee_payer = request_fee_payer t.request
    nonce ← nonce_of fee_payer p.payer
    gas_price ← ok_or x.get_gas_price http
    let tx =
        open_tx none (open_call p t deposit) t fee_payer (open_nonce_fields fee_payer nonce)
          gas_price
    let nonce_hash = x.expiring_nonce_hash tx p.payer
    let channel_id = x.channel_hash (params_of p t (some nonce_hash))
    transaction ← ok_or (x.sign_and_encode tx) signing
    sig ← signed_amount true channel_id t.amount t.escrow_contract t.chain_id
    ok (opened_with p t channel_id (some (descriptor_of p t nonce_hash)) transaction sig)

  -- A channel that the chain has, if it is the payer's, open and for the same parties.
  unfoldable pub try_recover_channel : ℕ → ℕ → ℕ → ℕ → ℕ → ℕ → ℕ → Option ChannelEntry
  try_recover_channel escrow channel_id chain_id payer payee token authorized_signer =
      elim (x.get_on_chain_channel escrow channel_id) [
        | none ↦ none
        | some on_chain ↦
            let actual =
              if on_chain.authorized_signer == 0
              then on_chain.payer
              else on_chain.authorized_signer in
            if ltb 0 on_chain.deposit
              && (not on_chain.finalized
                  && (on_chain.close_requested_at == 0
                      && (on_chain.payer == payer
                          && (on_chain.payee == payee
                              && (on_chain.token == token && actual == authorized_signer)))))
            then some (record {
              channel_id = channel_id;
              salt = 0;
              cumulative_amount = on_chain.settled;
              escrow_contract = escrow;
              chain_id = chain_id;
              opened = true;
            })
            else none
      ]
