-- ===== src/Client/Payment.antt =====
-- `pay` of src/client/tempo/session/mod.rs, when it succeeds.
use mpp_rs.Prelude.{some, ◌≡◌, sym, ap, codes, inl, inr}
use mpp_rs.Prelude.Results.{result_cases, Result, err, ok, bind-ok}
use mpp_rs.Server.Challenge.{PaymentChallenge, validate_for_session}
use mpp_rs.Server.Types.{PaymentCredential}
use mpp_rs.Client.Types.{Wallet, ClientError, TempoSessionProvider, Registry}
use mpp_rs.Client.Terms.{Terms, read_terms}
use mpp_rs.Client.Payloads.{build_credential}
use mpp_rs.Client.Pay.{Signed, parse_amount, prepare, commit, pay}
use mpp_rs.Client.Signed.{Says, Origin, sign_payment-Origin}

of_ok :
    {a b : PaymentCredential} → ◌≡◌ {A = Result ClientError PaymentCredential} (ok a) (ok b) → a ≡ b
of_ok h = cc

not_paid :
    {reason : ClientError} {credential : PaymentCredential} {r after : Registry}
    → ◌≡◌ {A = Result ClientError PaymentCredential × Registry}
        (err reason, r)
        (ok credential, after)
    → ⊥
not_paid h = cc

module _ (x : Wallet) (p : TempoSessionProvider) where
  -- What a payment has done: it has read the terms of the challenge, signed for them, and kept what it
  -- signed under the key of the terms.
  pub record IsPayment (challenge : PaymentChallenge) (r : Registry)
      (credential : PaymentCredential) (after : Registry) : Type 0 where
    pub terms : Terms
    pub signed : Signed
    pub valid : validate_for_session x.clock challenge (codes "tempo") ≡ ok tt
    pub is_read : read_terms x parse_amount challenge p.escrow_contract ≡ ok terms
    pub key : signed.key ≡ terms.key
    pub says : Says x p terms signed
    pub origin : Origin x p terms r.channels signed
    pub is_credential :
        credential ≡ build_credential x challenge signed.payload signed.chain_id p.payer
    pub is_after : after ≡ commit x p signed (record r { last_challenge = some challenge })

  -- A payment that succeeds has a challenge that is valid for a session, and its payload names the amount
  -- and the channel of the entry it keeps, with what the signer gives for this channel and amount on the
  -- terms' escrow contract and chain, or for the precompile for an amount below 2^96. The amount is the one
  -- of an open entry of the same key raised by the challenge's amount; or what the chain has settled,
  -- raised by it, for a channel of the same parties that is neither finalized nor about to close; or the
  -- challenge's amount alone with a signed transaction that opens a channel to the payee, in the currency,
  -- with no more than the greatest deposit that the settings allow, and on an escrow contract approves
  -- this deposit for it.
  pub pay-IsPayment :
      (challenge : PaymentChallenge) (r : Registry) (credential : PaymentCredential)
      (after : Registry)
      → pay x p challenge r ≡ (ok credential, after)
      → IsPayment challenge r credential after
  unfolding pay prepare
  pay-IsPayment challenge r credential after e =
      elim (result_cases (validate_for_session x.clock challenge (codes "tempo"))) [
        | inl (reason, bad) ↦ absurd (not_paid (rw (bad, pay) at e))
        | inr (u, valid) ↦ elim (result_cases (prepare x p challenge r.channels)) [
          | inl (reason, bad) ↦ absurd (not_paid (rw bad at (rw (valid, pay) at e)))
          | inr (s, prepared) ↦
              let done = rw prepared at (rw (valid, pay) at e) in
              let (t, is_read, signed) =
                bind-ok (read_terms x parse_amount challenge p.escrow_contract) _ s prepared in
              let (says, key, origin) = sign_payment-Origin x p t r.channels s signed in
              record {
                terms = t;
                signed = s;
                valid = valid;
                is_read = is_read;
                key = key;
                says = says;
                origin = origin;
                is_credential = of_ok (sym (ap (λ q. q.0) done));
                is_after = sym (ap (λ q. q.1) done);
              }
        ]
      ]
