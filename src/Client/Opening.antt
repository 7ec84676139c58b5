-- ===== src/Client/Opening.antt =====
-- What opening a channel gives, in src/client/tempo/session/channel_ops.rs.
use mpp_rs.Prelude.{
  ℕ, ◌≤◌, Text, Bool, true, false, Option, none, some, if◌then◌else◌, ltb, ◌≡◌, refl, arith,
  to_decimal, parse_codes,
}
use mathlib.Core.Path.{subst}
use mpp_rs.Prelude.Results.{ok, bind-ok, err_if-ok, ok_or, ok_or-ok, ok-injective}
use mpp_rs.Tempo.Logs.{and_then}
use mpp_rs.Client.Types.{
  ChannelEntry, SessionCredentialPayload, open_channel, voucher, close, OpenTx, Wallet,
  invalid_config, http, signing, TempoSessionProvider,
}
use mpp_rs.Client.Terms.{Terms, request_fee_payer}
use mpp_rs.Client.Payloads.{
  approve_call, or_minimum, params_of, open_tx, open_call, nonce_of, open_nonce_fields, opened_with,
  descriptor_of, precompile_max_cumulative_amount, signed_amount, create_open_payload,
  create_precompile_open_payload,
}
use mpp_rs.Client.Pay.{resolve_deposit}

-- The amount, the channel, the signature and the transaction of a payload.
abbrev pub amount_text : SessionCredentialPayload → Text
amount_text (open_channel payload) = payload.cumulative_amount
amount_text (voucher payload) = payload.cumulative_amount
amount_text (close payload) = payload.cumulative_amount

abbrev pub channel_text : SessionCredentialPayload → Text
channel_text (open_channel payload) = payload.channel_id
channel_text (voucher payload) = payload.channel_id
channel_text (close payload) = payload.channel_id

abbrev pub signature_text : SessionCredentialPayload → Text
signature_text (open_channel payload) = payload.signature
signature_text (voucher payload) = payload.signature
signature_text (close payload) = payload.signature

abbrev pub Opens : SessionCredentialPayload → Text → Type 0
Opens (open_channel payload) transaction = payload.transaction ≡ transaction
Opens _ transaction = ⊥

module _ (x : Wallet) (p : TempoSessionProvider) where
  -- What opening a channel gives: a first voucher for the amount, and the signed transaction.
  abbrev pub Opening : Terms → Bool → ℕ → ChannelEntry × SessionCredentialPayload → Type 0
  Opening t precompile deposit made =
      (amount_text made.1 ≡ to_decimal t.amount)
      × (channel_text made.1 ≡ x.format_b256 made.0.channel_id)
      × (made.0.opened ≡ true)
      × (made.0.cumulative_amount ≡ t.amount)
      × (signed_amount x precompile made.0.channel_id t.amount t.escrow_contract t.chain_id
          ≡ ok (signature_text made.1))
      × ((tx : OpenTx) × (transaction : Text) × (x.sign_and_encode tx ≡ some transaction)
          × Opens made.1 transaction
          × (tx.call ≡ open_call x p t deposit)
          × (tx.approve ≡ (if precompile then none else some (approve_call x t deposit))))

  pub create_open_payload-Opening :
      (t : Terms) (deposit : ℕ) (made : ChannelEntry × SessionCredentialPayload)
      → create_open_payload x p t deposit ≡ ok made
      → Opening t false deposit made
  unfolding create_open_payload signed_amount
  create_open_payload-Opening t deposit made e =
      let id : ℕ = x.channel_hash (params_of x p t none) in
      let (nonce, _, e₁) = ok_or-ok (x.get_transaction_count p.payer) http _ made e in
      let (gas_price, _, e₂) = ok_or-ok x.get_gas_price http _ made e₁ in
      let tx : OpenTx =
        open_tx x (some (approve_call x t deposit)) (open_call x p t deposit) t
          (request_fee_payer t.request) (nonce, 0, none) gas_price in
      let (transaction, encoded, e₃) = ok_or-ok (x.sign_and_encode tx) signing _ made e₂ in
      let (sig, is_signed, e₄) =
        bind-ok (signed_amount x false id t.amount t.escrow_contract t.chain_id) _ made e₃ in
      subst (Opening t false deposit)
        (ok-injective (opened_with x p t id none transaction sig) made e₄)
        (refl, refl, refl, refl, is_signed, (tx, transaction, encoded, refl, refl, refl))

  pub create_precompile_open_payload-Opening :
      (t : Terms) (deposit : ℕ) (made : ChannelEntry × SessionCredentialPayload)
      → create_precompile_open_payload x p t deposit ≡ ok made
      → Opening t true deposit made
  unfolding create_precompile_open_payload signed_amount
  create_precompile_open_payload-Opening t deposit made e =
      let most : ℕ = precompile_max_cumulative_amount in
      let fee_payer : Bool = request_fee_payer t.request in
      let (_, e₁) = err_if-ok (ltb most deposit) invalid_config _ made e in
      let (_, e₂) = err_if-ok (ltb most t.amount) invalid_config _ made e₁ in
      let (nonce, _, e₃) = bind-ok (nonce_of x fee_payer p.payer) _ made e₂ in
      let (gas_price, _, e₄) = ok_or-ok x.get_gas_price http _ made e₃ in
      let tx : OpenTx =
        open_tx x none (open_call x p t deposit) t fee_payer (open_nonce_fields x fee_payer nonce)
          gas_price in
      let nonce_hash : ℕ = x.expiring_nonce_hash tx p.payer in
      let id : ℕ = x.channel_hash (params_of x p t (some nonce_hash)) in
      let (transaction, encoded, e₅) = ok_or-ok (x.sign_and_encode tx) signing _ made e₄ in
      let (sig, is_signed, e₆) =
        bind-ok (signed_amount x true id t.amount t.escrow_contract t.chain_id) _ made e₅ in
      let built = opened_with x p t id (some (descriptor_of x p t nonce_hash)) transaction sig in
      subst (Opening t true deposit) (ok-injective built made e₆)
        (refl, refl, refl, refl, is_signed, (tx, transaction, encoded, refl, refl, refl))

  pub resolve_deposit-le :
      (suggested : Option Text) (deposit most : ℕ)
      → resolve_deposit p suggested ≡ ok deposit
      → p.max_deposit ≡ some most
      → deposit ≤ most
  unfolding resolve_deposit
  resolve_deposit-le suggested deposit most e is_max =
      least (and_then suggested parse_codes) (rw is_max at e)
    where
      least :
          (o : Option ℕ)
          → ok_or (or_minimum o (some most) p.default_deposit) invalid_config ≡ ok deposit
          → deposit ≤ most
      least none h = ground arith
      least (some n) h = ground arith
