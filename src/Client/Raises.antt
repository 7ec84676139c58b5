-- ===== src/Client/Raises.antt =====
-- How much one operation of src/client/tempo/session/mod.rs raises an open entry.
use mpp_rs.Prelude.{
  ℕ, ◌+◌, ◌<◌, Text, codes, true, not, ◌||◌, Option, some, ◌==◌, ◌≡◌, refl, sym, ap, ◌∙◌, arith,
  add_u128-eq_add, u128_mod, max, bytes_eq, bytes_eq_iff, parse_codes, Bool-cases, Option-cases,
  inl, inr,
}
use mpp_rs.Prelude.Results.{ok, bind-ok, err_if-ok, ok_or-ok, ok-injective, result_cases}
use mpp_rs.Server.Challenge.{PaymentChallenge, validate_for_session}
use mpp_rs.Client.Types.{
  ChannelEntry, SessionCredentialPayload, Wallet, invalid_config, TempoSessionProvider, Dict,
  lookup, Registry,
}
use mpp_rs.Client.Terms.{
  Terms, read_terms, resolve_escrow, resolve_chain_id, key_operator, expected_channel_key,
  is_precompile_escrow,
}
use mpp_rs.Client.Payloads.{create_voucher_payload}
use mpp_rs.Client.Pay.{
  Signed, raised, parse_amount, prepare, with_id, commit, pay, find_channel, sign_required,
  send_voucher,
}
use mpp_rs.Client.Signed.{sign_payment-key, sign_payment-continued}
use mpp_rs.Client.Ops.{
  paying, request_amount, asked, IsOpenAt, Raised, Kept, put-Kept, unchanged-Kept,
}

raised_by :
    (amount : ℕ) (before entry : ChannelEntry)
    → before.opened ≡ true
    → before.cumulative_amount + amount < u128_mod
    → entry ≡ raised amount before
    → (entry.opened ≡ true) × Raised amount before entry
raised_by amount before entry is_open fits e =
    let sum = add_u128-eq_add before.cumulative_amount amount fits in
    rw e (is_open, (refl, omega (arith, sum), omega (arith, sum)))

required_by :
    (required : ℕ) (before old entry : ChannelEntry)
    → before.opened ≡ true
    → entry ≡ record old { cumulative_amount = max required old.cumulative_amount }
    → before ≡ old
    → (entry.opened ≡ true) × Raised required before entry
required_by required before old entry is_open e same =
    rw (e, ← same) (is_open, (refl, ground arith, ground arith))

at_key :
    {key k : Text} {entry : ChannelEntry} (channels : Dict ChannelEntry)
    → key ≡ k
    → lookup key channels ≡ some entry
    → lookup k channels ≡ some entry
at_key channels same there = rw (← same) there

same_found : {o : Option ChannelEntry} {a b : ChannelEntry} → o ≡ some a → o ≡ some b → a ≡ b
same_found p q = cc

with_id-IsOpenAt :
    (x : Wallet) (s : Signed) (key : Text) (before : ChannelEntry) (r : Registry)
    → IsOpenAt key before r
    → IsOpenAt key before (with_id x s r)
with_id-IsOpenAt x s key before r h = elim (Bool-cases s.new_id) [
  | inl new_one ↦ rw new_one h
  | inr old ↦ rw old h
]

module _ (x : Wallet) (p : TempoSessionProvider) where
  read_terms-amount :
      (challenge : PaymentChallenge) (t : Terms)
      → read_terms x parse_amount challenge p.escrow_contract ≡ ok t
      → t.amount ≡ request_amount (x.decode_session challenge.request)
  unfolding read_terms parse_amount
  read_terms-amount challenge t e =
      let (escrow, _, e₁) =
        bind-ok (resolve_escrow x challenge (resolve_chain_id x challenge) p.escrow_contract) _ t
          e in
      let (request, decoded, e₂) = ok_or-ok (x.decode_session challenge.request) _ _ t e₁ in
      let (recipient, _, e₃) = ok_or-ok request.recipient _ _ t e₂ in
      let (payee, _, e₄) = ok_or-ok (x.parse_address recipient) _ _ t e₃ in
      let (currency, _, e₅) = ok_or-ok (x.parse_address request.currency) _ _ t e₄ in
      let (amount, parsed, e₆) = ok_or-ok (parse_codes request.amount) _ _ t e₅ in
      let (operator, _, e₇) = bind-ok (key_operator x escrow request) _ t e₆ in
      rw (decoded, parsed) (sym (ap (λ q. q.amount) (ok-injective _ t e₇)))

  -- A payment on an open entry raises it by the amount.
  prepare-raises :
      (challenge : PaymentChallenge) (key : Text) (before : ChannelEntry)
      (channels : Dict ChannelEntry) (s : Signed)
      → lookup key channels ≡ some before
      → before.opened ≡ true
      → prepare x p challenge channels ≡ ok s
      → bytes_eq key s.key ≡ true
      → s.entry ≡ raised (request_amount (x.decode_session challenge.request)) before
  unfolding prepare
  prepare-raises challenge key before channels s there is_open e same =
      let (t, is_read, signed) =
        bind-ok (read_terms x parse_amount challenge p.escrow_contract) _ s e in
      let of_terms : s.key ≡ t.key = sign_payment-key x p t channels s signed in
      let here : lookup t.key channels ≡ some before =
        rw (← of_terms) (rw (← ((bytes_eq_iff key s.key).0 same)) there) in
      rw (← (read_terms-amount challenge t is_read))
        (sign_payment-continued x p t channels before s here is_open signed)

  pub pay-Kept :
      (challenge : PaymentChallenge) (key : Text) (before : ChannelEntry) (r : Registry)
      → IsOpenAt key before r
      → before.cumulative_amount + asked (x, paying challenge) < u128_mod
      → Kept key (asked (x, paying challenge)) before ((pay x p challenge r).1)
  unfolding pay commit
  pay-Kept challenge key before r (there, is_open) fits =
      elim (result_cases (validate_for_session x.clock challenge (codes "tempo"))) [
        | inl (reason, bad) ↦ rw (bad, pay) (unchanged-Kept p key _ before r (there, is_open))
        | inr (u, valid) ↦ elim (result_cases (prepare x p challenge r.channels)) [
          | inl (reason, bad) ↦
              rw (valid, pay)
                (rw bad (
                  unchanged-Kept p key _ before (record r { last_challenge = some challenge })
                    (there, is_open)))
          | inr (s, prepared) ↦
              rw (valid, pay)
                (rw prepared (
                  put-Kept p key s.key (asked (x, paying challenge)) before s.entry
                    (with_id x s (record r { last_challenge = some challenge }))
                    (with_id-IsOpenAt x s key before (record r { last_challenge = some challenge })
                      (there, is_open))
                    (λ same. raised_by (asked (x, paying challenge)) before s.entry is_open fits (
                      prepare-raises challenge key before r.channels s there is_open prepared
                        same))))
        ]
      ]

  find_channel-found :
      (challenge : PaymentChallenge) (id : Text) (required : ℕ) (r : Registry) (k : Text)
      (entry : ChannelEntry)
      → find_channel x p challenge id required r ≡ ok (k, entry)
      → (old : ChannelEntry) × (lookup k r.channels ≡ some old)
        × (entry ≡ record old { cumulative_amount = max required old.cumulative_amount })
  unfolding find_channel
  find_channel-found challenge id required r k entry e =
      let out : Text × ChannelEntry = (k, entry) in
      let (key, _, e₁) = ok_or-ok (lookup id r.channel_id_to_key) invalid_config _ out e in
      let ((expected, chain_id), _, e₂) =
        bind-ok (expected_channel_key x challenge p.escrow_contract) _ out e₁ in
      let (_, e₃) = err_if-ok (not (bytes_eq key expected)) invalid_config _ out e₂ in
      let (old, there, e₄) = ok_or-ok (lookup key r.channels) invalid_config _ out e₃ in
      let (_, e₅) =
        err_if-ok
          (not (old.chain_id == chain_id) || not (bytes_eq (x.format_b256 old.channel_id) id))
          invalid_config _ out e₄ in
      let same = ok-injective _ out e₅ in
      let is_key : key ≡ k = ap (λ q. q.0) same in
      (old, at_key r.channels is_key there, sym (ap (λ q. q.1) same))

  pub send_voucher-Kept :
      (url id : Text) (required : ℕ) (key : Text) (before : ChannelEntry) (r : Registry)
      → IsOpenAt key before r
      → Kept key required before ((send_voucher x p url id required r).1)
  unfolding send_voucher sign_required
  send_voucher-Kept url id required key before r (there, is_open) =
      elim (Option-cases r.last_challenge) [
        | inl missing ↦
            rw (missing, send_voucher) (unchanged-Kept p key _ before r (there, is_open))
        | inr (challenge, had) ↦ elim (result_cases (sign_required x p challenge id required r)) [
          | inl (reason, bad) ↦
              rw (had, send_voucher) (rw bad (unchanged-Kept p key _ before r (there, is_open)))
          | inr ((k, entry, payload), good) ↦
              let out : Text × ChannelEntry × SessionCredentialPayload = (k, entry, payload) in
              let ((k', entry'), found, e₁) =
                bind-ok (find_channel x p challenge id required r) _ out good in
              let (voucher, _, e₂) =
                bind-ok
                  (create_voucher_payload x (is_precompile_escrow x entry'.escrow_contract)
                    entry'.channel_id entry'.cumulative_amount entry'.escrow_contract
                    entry'.chain_id)
                  _ out e₁ in
              let same = ok-injective _ out e₂ in
              let (old, at_old, is_entry) =
                find_channel-found challenge id required r k' entry' found in
              rw (had, send_voucher)
                (rw good (
                  put-Kept p key k required before entry r (there, is_open)
                    (λ is_key.
                      required_by required before old entry is_open
                        (sym (ap (λ q. q.1) same) ∙ is_entry)
                        (same_found
                          (at_key r.channels
                            ((bytes_eq_iff key k).0 is_key ∙ sym (ap (λ q. q.0) same)) there)
                          at_old))))
        ]
      ]
