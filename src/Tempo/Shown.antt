-- ===== src/Tempo/Shown.antt =====
-- What each kind of payload has shown to `verify_payload`, a part of `verify` in
-- src/protocol/methods/tempo/method.rs.
use mpp_rs.Prelude.{
  ℕ, zero, suc, Text, true, false, not, ◌&&◌, Option, ◌==◌, ◌≡◌, ◌≢◌, refl, ap, arith,
}
use mpp_rs.Prelude.Results.{Result, err, ok, ◌>>=◌}
use mpp_rs.Error.{VerificationError}
use mpp_rs.Charge.Request.{ChargeRequest}
use mpp_rs.Server.Types.{PaymentCredential, Receipt}
use mpp_rs.Store.Memory.{MemoryStore}
use mpp_rs.Tempo.Hash.{replay_key, success, verify_hash}
use mpp_rs.Tempo.HashPaid.{IsPaidHash, settle-ok, checked_hash-IsPaidHash}
use mpp_rs.Tempo.Payload.{PayloadType, transaction, hash, proof}
use mpp_rs.Tempo.Broadcast.{Node, Settings, broadcast_transaction}
use mpp_rs.Tempo.Verify.{is_proof, checked_proof, verify_payload}
use mpp_rs.Tempo.Reserved.{Reserved, refused}
use mpp_rs.Tempo.Sent.{IsBroadcast, broadcast_transaction-IsBroadcast}
use mpp_rs.Tempo.Proven.{IsProven, settle_proof-IsProven}

not_zero : (amount : ℕ) → (amount == 0 && true) ≡ false → amount ≢ 0
not_zero zero h is_zero = cc
not_zero (suc k) h is_zero = absurd (omega arith)

-- The hash behind a receipt.
received :
    (p : Result VerificationError ℕ × Option MemoryStore) (write : ℕ → Receipt) (r : Receipt)
    (after : Option MemoryStore)
    → ◌≡◌ {A = Result VerificationError Receipt × Option MemoryStore}
        ((p.0 >>= λ tx_hash. ok (write tx_hash)), p.1)
        (ok r, after)
    → (tx_hash : ℕ) × (p ≡ (ok tx_hash, after))
received (err reason, end) write r after e = absurd (refused e)
received (ok tx_hash, end) write r after e = (tx_hash, ap (λ s. (ok tx_hash, s)) (ap (λ q. q.1) e))

-- What each kind of payload has shown: a transaction of the chain that paid the request, or was sent and
-- paid it, for an amount above zero; a proof of the payer for an amount of zero.
module _ (n : Node) (m : Settings) (credential : PaymentCredential) (request : ChargeRequest)
    (chain_id : ℕ) where
  abbrev pub IsShown : PayloadType → Text → ℕ → Option MemoryStore → Option MemoryStore → Type 0
  IsShown hash content amount store after =
      (amount ≢ 0)
      × ((tx_hash : ℕ) × IsPaidHash n.chain m.validate_sender content request credential.source
            chain_id credential.challenge.id credential.challenge.realm tx_hash
          × Reserved n.chain (replay_key n.chain tx_hash) store after)
  IsShown transaction content amount store after =
      (amount ≢ 0)
      × ((tx_hash : ℕ) × IsBroadcast n m content request chain_id credential.challenge.id
            credential.challenge.realm store tx_hash after)
  IsShown proof content amount store after =
      (amount ≡ 0) × IsProven n credential chain_id content store after

  pub verify_payload-IsShown :
      (kind : PayloadType) (content : Text) (amount : ℕ) (store : Option MemoryStore) (r : Receipt)
      (after : Option MemoryStore)
      → (amount == 0 && not (is_proof kind)) ≡ false
      → verify_payload n m credential request chain_id kind content amount store ≡ (ok r, after)
      → IsShown kind content amount store after
  unfolding verify_payload verify_hash
  verify_payload-IsShown hash content amount store r after above e =
      let (tx_hash, checked, recorded) = settle-ok n.chain store content _ r after e in
      (
        not_zero amount above,
        (
          tx_hash,
          checked_hash-IsPaidHash n.chain m.validate_sender content request credential.source
              chain_id credential.challenge.id credential.challenge.realm tx_hash checked,
          recorded,
        ),
      )
  verify_payload-IsShown proof content amount store r after above e =
      settle_proof-IsProven n credential chain_id content amount
        (checked_proof n credential chain_id content amount) store r after refl e
  verify_payload-IsShown transaction content amount store r after above e =
      let (tx_hash, sent) =
        received
          (broadcast_transaction n m content request chain_id credential.challenge.id
            credential.challenge.realm store)
          (λ h. success n.chain (n.chain.format_b256 h)) r after e in
      (
        not_zero amount above,
        (
          tx_hash,
          broadcast_transaction-IsBroadcast n m content request chain_id credential.challenge.id
              credential.challenge.realm store tx_hash after sent,
        ),
      )
