-- ===== src/Tempo/Submitted.antt =====
-- What is sent by `broadcast_transaction` of src/protocol/methods/tempo/method.rs.
use mpp_rs.Prelude.{ℕ, Text, true, false, some, List, ◌≡◌}
use mathlib.Core.Path.{subst}
use mpp_rs.Prelude.Results.{ok, bind-ok, ok_or-ok, ok-injective, map_err-ok}
use mpp_rs.Error.{new}
use mpp_rs.Charge.Request.{ChargeRequest}
use mpp_rs.Charge.Tempo.{get_request_transfers}
use mpp_rs.Tempo.Hash.{expected_transfers}
use mpp_rs.Tempo.Calls.{validate_transaction_transfers}
use mpp_rs.Tempo.CallsPaid.{IsPayment, validate_transaction_transfers-IsPayment}
use mpp_rs.Tempo.Cosign.{Sponsor}
use mpp_rs.Tempo.Cosigned.{IsSponsored, cosign_fee_payer_transaction-IsSponsored}
use mpp_rs.Tempo.Payload.{charge_fee_payer}
use mpp_rs.Tempo.Broadcast.{Node, Settings, Submission, final_bytes, checked_submission}

module _ (n : Node) where
  -- The calls of what is sent pay the plan of the request; a sponsor that the request asks for has
  -- signed them within its policy.
  pub record IsSubmission (m : Settings) (signed_tx : Text) (charge : ChargeRequest)
      (expected_chain_id : ℕ) (s : Submission) : Type 0 where
    pub tx_bytes : List ℕ
    pub parsed : n.prover.parse_bytes signed_tx ≡ some tx_bytes
    pub is_currency : n.chain.parsers.parse_address charge.currency ≡ some s.currency
    pub is_plan :
        get_request_transfers n.chain.parsers n.chain.decode_details charge ≡ ok s.expected
    pub payment :
        IsPayment n.contracts m.fee_payer_policy_override s.final_tx_bytes s.currency s.expected
          expected_chain_id
          (charge_fee_payer charge)
    pub unsponsored : charge_fee_payer charge ≡ false → tx_bytes ≡ s.final_tx_bytes
    pub sponsored :
        charge_fee_payer charge ≡ true
        → (sponsor : Sponsor) × (m.sponsor ≡ some sponsor)
          × IsSponsored sponsor m.fee_payer_policy_override m.fee_payer_allowed_fee_tokens
              n.now_secs tx_bytes s.currency s.final_tx_bytes

  final_bytes-IsSponsored :
      (m : Settings) (charge : ChargeRequest) (tx_bytes final : List ℕ) (currency : ℕ)
      → final_bytes n m charge tx_bytes currency ≡ ok final
      → charge_fee_payer charge ≡ true
      → (sponsor : Sponsor) × (m.sponsor ≡ some sponsor)
        × IsSponsored sponsor m.fee_payer_policy_override m.fee_payer_allowed_fee_tokens n.now_secs
            tx_bytes currency final
  unfolding final_bytes
  final_bytes-IsSponsored m charge tx_bytes final currency e on =
      let (sponsor, there, e₁) = ok_or-ok m.sponsor new _ final (rw (on, final_bytes) at e) in
      (
        sponsor,
        there,
        cosign_fee_payer_transaction-IsSponsored sponsor m.fee_payer_policy_override
            m.fee_payer_allowed_fee_tokens n.now_secs tx_bytes currency final e₁,
      )

  final_bytes-unsponsored :
      (m : Settings) (charge : ChargeRequest) (tx_bytes final : List ℕ) (currency : ℕ)
      → final_bytes n m charge tx_bytes currency ≡ ok final
      → charge_fee_payer charge ≡ false
      → tx_bytes ≡ final
  unfolding final_bytes
  final_bytes-unsponsored m charge tx_bytes final currency e off =
      ok-injective tx_bytes final (rw (off, final_bytes) at e)

  pub checked_submission-IsSubmission :
      (m : Settings) (signed_tx : Text) (charge : ChargeRequest) (expected_chain_id : ℕ)
      (s : Submission)
      → checked_submission n m signed_tx charge expected_chain_id ≡ ok s
      → IsSubmission m signed_tx charge expected_chain_id s
  unfolding checked_submission expected_transfers
  checked_submission-IsSubmission m signed_tx charge expected_chain_id s e =
      let (tx_bytes, parsed, e₁) = ok_or-ok (n.prover.parse_bytes signed_tx) new _ s e in
      let (currency, is_currency, e₂) =
        ok_or-ok (n.chain.parsers.parse_address charge.currency) new _ s e₁ in
      let (expected, planned, e₃) = bind-ok (expected_transfers n.chain charge) _ s e₂ in
      let (final, is_final, e₄) = bind-ok (final_bytes n m charge tx_bytes currency) _ s e₃ in
      let (_, validated, e₅) =
        bind-ok
          (validate_transaction_transfers n.contracts m.fee_payer_policy_override final currency
            expected expected_chain_id (charge_fee_payer charge))
          _ s e₄ in
      let made : Submission = record {
        final_tx_bytes = final;
        currency = currency;
        expected = expected;
      } in
      subst (IsSubmission m signed_tx charge expected_chain_id) (ok-injective made s e₅) (record {
        tx_bytes = tx_bytes;
        parsed = parsed;
        is_currency = is_currency;
        is_plan =
            map_err-ok (λ _. new)
              (get_request_transfers n.chain.parsers n.chain.decode_details charge) expected
              planned;
        payment =
            validate_transaction_transfers-IsPayment n.contracts m.fee_payer_policy_override final
              currency expected expected_chain_id (charge_fee_payer charge) validated;
        unsponsored = final_bytes-unsponsored m charge tx_bytes final currency is_final;
        sponsored = final_bytes-IsSponsored m charge tx_bytes final currency is_final;
      })
