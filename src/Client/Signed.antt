-- ===== src/Client/Signed.antt =====
-- Where the amount of a payment comes from, in src/client/tempo/session/mod.rs.
use mpp_rs.Prelude.{
  ℕ, ◌≤◌, ◌<◌, ◌^◌, ◌≢◌, ◌==◌, ==_iff, ltb, arith, Text, Bool, true, false, Option, none, some,
  if◌then◌else◌, ◌≡◌, refl, sym, ap, ◌∙◌, add_u128, to_decimal, Bool-cases, Option-cases, inl, inr,
}
use mathlib.Core.Path.{subst}
use mpp_rs.Prelude.Results.{ok, ok_or, err_if-ok, bind-ok, ok-injective}
use mpp_rs.Session.Types.{OnChainChannel}
use mpp_rs.Client.Types.{
  invalid_config, signing, ChannelEntry, VoucherPayload, OpenTx, Wallet, TempoSessionProvider, Dict,
  lookup,
}
use mpp_rs.Client.Terms.{Terms, is_precompile_escrow}
use mpp_rs.Client.Payloads.{
  approve_call, precompile_max_cumulative_amount, signed_amount, create_voucher_payload,
  create_open_payload, create_precompile_open_payload,
}
use mpp_rs.Client.Pay.{
  Signed, resolve_deposit, if_opened, raised, signed_next, signed_open, sign_next, open_new,
  suggested_channel, sign_payment,
}
use mpp_rs.Client.Opening.{
  amount_text, channel_text, signature_text, Opens, Opening, create_open_payload-Opening,
  create_precompile_open_payload-Opening, resolve_deposit-le,
}
use mpp_rs.Client.Recovered.{split_if, suggested_channel-Recovers}

opened_there :
    (o : Option ChannelEntry) (entry : ChannelEntry)
    → if_opened o ≡ some entry
    → (o ≡ some entry) × (entry.opened ≡ true)
opened_there none entry h = cc
opened_there (some found) entry h =
    let (same, is_open) = split_if found.opened found entry h in (ap some same, rw (← same) is_open)

signed_some : (o : Option Text) (sig : Text) → ok_or o signing ≡ ok sig → o ≡ some sig
signed_some none sig h = cc
signed_some (some got) sig h = ap some (ok-injective got sig h)

module _ (x : Wallet) (p : TempoSessionProvider) where
  -- A voucher's signature: what the signer gives for the channel and the amount, on the escrow contract
  -- and the chain, or for the precompile, whose amounts have 96 bits.
  pub data IsVoucher (escrow chain_id channel_id amount : ℕ) (sig : Text) : Type 0 where
    on_contract :
        escrow ≢ x.channel_reserve_address
        → x.sign_voucher channel_id amount escrow chain_id ≡ some sig
        → IsVoucher escrow chain_id channel_id amount sig
    on_precompile :
        escrow ≡ x.channel_reserve_address
        → amount < 2 ^ 96
        → x.sign_precompile_voucher channel_id amount chain_id ≡ some sig
        → IsVoucher escrow chain_id channel_id amount sig

  -- A payload on the entry that goes to the registry, signed for it.
  abbrev pub Says : Terms → Signed → Type 0
  Says t s =
      (amount_text s.payload ≡ to_decimal s.entry.cumulative_amount)
      × (channel_text s.payload ≡ x.format_b256 s.entry.channel_id)
      × (s.entry.opened ≡ true)
      × (s.chain_id ≡ t.chain_id)
      × IsVoucher t.escrow_contract t.chain_id s.entry.channel_id s.entry.cumulative_amount
          (signature_text s.payload)

  -- The approval that comes with the opening of a channel on an escrow contract: its deposit, to be
  -- spent by the contract.
  pub data IsApproved (t : Terms) (tx : OpenTx) : Type 0 where
    by_contract :
        t.escrow_contract ≢ x.channel_reserve_address
        → tx.approve
          ≡ some
              (record { token = t.currency; spender = t.escrow_contract; amount = tx.call.deposit })
        → IsApproved t tx
    by_precompile :
        t.escrow_contract ≡ x.channel_reserve_address → tx.approve ≡ none → IsApproved t tx

  -- Where the signed amount comes from: the entry of the channel, the chain's record of it, or nothing
  -- before, with a deposit that the settings allow.
  pub data Origin (t : Terms) (channels : Dict ChannelEntry) (s : Signed) : Type 0 where
    continued :
        (before : ChannelEntry)
        → lookup t.key channels ≡ some before
        → before.opened ≡ true
        → s.entry ≡ raised t.amount before
        → s.new_id ≡ false
        → Origin t channels s
    recovered :
        (on_chain : OnChainChannel)
        → x.get_on_chain_channel t.escrow_contract s.entry.channel_id ≡ some on_chain
        → (on_chain.finalized ≡ false)
          × (on_chain.close_requested_at ≡ 0)
          × (on_chain.payer ≡ p.payer)
          × (on_chain.payee ≡ t.payee)
          × (on_chain.token ≡ t.currency)
        → s.entry.cumulative_amount ≡ add_u128 on_chain.settled t.amount
        → Origin t channels s
    opened :
        (tx : OpenTx) (transaction : Text)
        → x.sign_and_encode tx ≡ some transaction
        → Opens s.payload transaction
        → ((most : ℕ) → p.max_deposit ≡ some most → tx.call.deposit ≤ most)
        → (tx.call.contract ≡ t.escrow_contract)
          × (tx.call.payee ≡ t.payee)
          × (tx.call.token ≡ t.currency)
          × IsApproved t tx
        → s.entry.cumulative_amount ≡ t.amount
        → Origin t channels s

  signed_amount-IsVoucher :
      (escrow chain_id channel_id amount : ℕ) (sig : Text)
      → signed_amount x (is_precompile_escrow x escrow) channel_id amount escrow chain_id ≡ ok sig
      → IsVoucher escrow chain_id channel_id amount sig
  unfolding signed_amount is_precompile_escrow
  signed_amount-IsVoucher escrow chain_id channel_id amount sig e =
      elim (Bool-cases (escrow == x.channel_reserve_address)) [
        | inl on ↦
            let (small, e₁) =
              err_if-ok (ltb precompile_max_cumulative_amount amount) invalid_config _ sig
                (rw (on, signed_amount) at e) in
            on_precompile ((==_iff _ _).0 on) (ground arith) (signed_some _ sig e₁)
        | inr off ↦
            on_contract (λ h. cc ((==_iff _ _).1 h))
              (signed_some _ sig (rw (off, signed_amount) at e))
      ]

  approve_call-IsApproved :
      (t : Terms) (tx : OpenTx) (deposit : ℕ)
      → tx.call.deposit ≡ deposit
      → tx.approve ≡ (
          if is_precompile_escrow x t.escrow_contract
          then none
          else some (approve_call x t deposit))
      → IsApproved t tx
  unfolding is_precompile_escrow
  approve_call-IsApproved t tx deposit at_deposit e =
      elim (Bool-cases (t.escrow_contract == x.channel_reserve_address)) [
        | inl on ↦ by_precompile ((==_iff _ _).0 on) (rw on at e)
        | inr off ↦ by_contract (λ h. cc ((==_iff _ _).1 h)) (rw at_deposit (rw off at e))
      ]

  create_voucher_payload-says :
      (precompile : Bool) (id amount escrow chain_id : ℕ) (payload : VoucherPayload)
      → create_voucher_payload x precompile id amount escrow chain_id ≡ ok payload
      → (payload.cumulative_amount ≡ to_decimal amount)
        × (payload.channel_id ≡ x.format_b256 id)
        × (signed_amount x precompile id amount escrow chain_id ≡ ok payload.signature)
  unfolding create_voucher_payload
  create_voucher_payload-says precompile id amount escrow chain_id payload e =
      let (sig, is_signed, built) =
        bind-ok (signed_amount x precompile id amount escrow chain_id) _ payload e in
      let same = sym (ok-injective _ payload built) in
      (
        ap (λ q. q.cumulative_amount) same,
        ap (λ q. q.channel_id) same,
        is_signed ∙ ap (λ q. ok q.signature) (sym same),
      )

  sign_next-Says :
      (t : Terms) (new_id : Bool) (before : ChannelEntry) (s : Signed)
      → before.opened ≡ true
      → sign_next x p t new_id before ≡ ok s
      → Says t s × (s.entry ≡ raised t.amount before) × (s.key ≡ t.key) × (s.new_id ≡ new_id)
  unfolding sign_next
  sign_next-Says t new_id before s is_open e =
      let next : ChannelEntry = raised t.amount before in
      let precompile : Bool = is_precompile_escrow x t.escrow_contract in
      let (payload, made, last) =
        bind-ok
          (create_voucher_payload x precompile next.channel_id next.cumulative_amount
            t.escrow_contract t.chain_id)
          _ s e in
      let (amount, channel, is_signed) =
        create_voucher_payload-says precompile next.channel_id next.cumulative_amount
          t.escrow_contract t.chain_id payload made in
      let vouched =
        signed_amount-IsVoucher t.escrow_contract t.chain_id next.channel_id next.cumulative_amount
          payload.signature is_signed in
      let same : signed_next t new_id next payload ≡ s = ok-injective _ s last in
      (
        subst (Says t) same (amount, channel, is_open, refl, vouched),
        sym (ap (λ r. r.entry) same),
        sym (ap (λ r. r.key) same),
        sym (ap (λ r. r.new_id) same),
      )

  open_new-Origin :
      (t : Terms) (channels : Dict ChannelEntry) (s : Signed)
      → open_new x p t ≡ ok s
      → Says t s × (s.key ≡ t.key) × Origin t channels s
  unfolding open_new
  open_new-Origin t channels s e =
      let precompile : Bool = is_precompile_escrow x t.escrow_contract in
      let (deposit, resolved, e₁) = bind-ok (resolve_deposit p t.request.suggested_deposit) _ s e in
      let (made, opening, e₂) =
        bind-ok
          (if precompile
            then create_precompile_open_payload x p t deposit
            else create_open_payload x p t deposit)
          _ s e₁ in
      let is_opening : Opening x p t precompile deposit made = elim (Bool-cases precompile) [
        | inl on ↦
            subst (λ (b : Bool). Opening x p t b deposit made) (sym on)
              (create_precompile_open_payload-Opening x p t deposit made (rw on at opening))
        | inr off ↦
            subst (λ (b : Bool). Opening x p t b deposit made) (sym off)
              (create_open_payload-Opening x p t deposit made (rw off at opening))
      ] in
      let (
        amount,
        channel,
        is_open,
        starts,
        is_signed,
        (tx, transaction, encoded, opens, is_call, is_approve),
      ) =
        is_opening in
      let at_deposit : tx.call.deposit ≡ deposit = ap (λ c. c.deposit) is_call in
      let approved = approve_call-IsApproved t tx deposit at_deposit is_approve in
      let vouched =
        signed_amount-IsVoucher t.escrow_contract t.chain_id made.0.channel_id t.amount
          (signature_text made.1) is_signed in
      let same : signed_open t made ≡ s = ok-injective (signed_open t made) s e₂ in
      subst (λ (r : Signed). Says t r × (r.key ≡ t.key) × Origin t channels r) same
        (
          (amount ∙ ap to_decimal (sym starts), channel, is_open, refl, rw starts vouched),
          refl,
          opened tx transaction encoded opens
              (λ most is_max.
                rw at_deposit
                  (resolve_deposit-le x p t.request.suggested_deposit deposit most resolved is_max))
              (
                ap (λ c. c.contract) is_call,
                ap (λ c. c.payee) is_call,
                ap (λ c. c.token) is_call,
                approved,
              )
              starts,
        )

  pub sign_payment-Origin :
      (t : Terms) (channels : Dict ChannelEntry) (s : Signed)
      → sign_payment x p t channels ≡ ok s
      → Says t s × (s.key ≡ t.key) × Origin t channels s
  unfolding sign_payment
  sign_payment-Origin t channels s e = elim (Option-cases (if_opened (lookup t.key channels))) [
    | inr (before, there) ↦
        let (is_there, is_open) = opened_there (lookup t.key channels) before there in
        let (says, raises, key, old) =
          sign_next-Says t false before s is_open (rw (there, sign_payment) at e) in
        (says, key, continued before is_there is_open raises old)
    | inl missing ↦ elim (Option-cases (suggested_channel x p t)) [
      | inl unknown ↦ open_new-Origin t channels s (rw unknown at (rw (missing, sign_payment) at e))
      | inr (entry, known) ↦
          let (on_chain, answered, parties, settled, is_open) =
            suggested_channel-Recovers x p t entry known in
          let (says, raises, key, _) =
            sign_next-Says t true entry s is_open (rw known at (rw (missing, sign_payment) at e)) in
          (
            says,
            key,
            recovered on_chain (rw (ap (λ q. q.channel_id) raises) answered) parties
                (ap (λ q. q.cumulative_amount) raises ∙ ap (λ n. add_u128 n t.amount) settled),
          )
    ]
  ]

  pub sign_payment-key :
      (t : Terms) (channels : Dict ChannelEntry) (s : Signed)
      → sign_payment x p t channels ≡ ok s
      → s.key ≡ t.key
  sign_payment-key t channels s e = (sign_payment-Origin t channels s e).1

  pub sign_payment-continued :
      (t : Terms) (channels : Dict ChannelEntry) (before : ChannelEntry) (s : Signed)
      → lookup t.key channels ≡ some before
      → before.opened ≡ true
      → sign_payment x p t channels ≡ ok s
      → s.entry ≡ raised t.amount before
  unfolding sign_payment
  sign_payment-continued t channels before s there is_open e =
      let found : if_opened (lookup t.key channels) ≡ some before = rw there (rw is_open refl) in
      (sign_next-Says t false before s is_open (rw (found, sign_payment) at e)).1
