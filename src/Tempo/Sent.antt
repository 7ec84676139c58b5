-- ===== src/Tempo/Sent.antt =====
-- What a transaction that `broadcast_transaction` takes has paid: src/protocol/methods/tempo/method.rs.
use mpp_rs.Prelude.{ℕ, Text, Option, ◌≡◌, refl, ap}
use mathlib.Core.Path.{subst}
use mpp_rs.Prelude.Results.{Result, err, ok, ◌>>=◌, bind-ok}
use mpp_rs.Error.{VerificationError}
use mpp_rs.Charge.Request.{ChargeRequest}
use mpp_rs.Store.Memory.{MemoryStore}
use mpp_rs.Tempo.Hash.{replay_key, reserve}
use mpp_rs.Tempo.Broadcast.{
  Node, Settings, Submission, checked_submission, checked_broadcast, submission_key, record_hash,
  submit, broadcast_transaction,
}
use mpp_rs.Tempo.Reserved.{Reserved, reserve-Reserved, behind-ok, refused}
use mpp_rs.Tempo.Submitted.{IsSubmission, checked_submission-IsSubmission}
use mpp_rs.Tempo.Received.{IsReceived, checked_broadcast-IsReceived}

module _ (n : Node) where
  -- A transaction that was checked, reserved, sent, checked again, and recorded under its hash.
  pub record IsBroadcast (m : Settings) (signed_tx : Text) (charge : ChargeRequest)
      (expected_chain_id : ℕ) (challenge_id realm : Text) (store : Option MemoryStore) (hash : ℕ)
      (after : Option MemoryStore) : Type 0 where
    pub submission : Submission
    pub is_made : checked_submission n m signed_tx charge expected_chain_id ≡ ok submission
    pub checked : IsSubmission n m signed_tx charge expected_chain_id submission
    pub received : IsReceived n submission charge challenge_id realm hash
    pub middle : Option MemoryStore
    pub reserved : Reserved n.chain (submission_key n submission.final_tx_bytes) store middle
    pub recorded : Reserved n.chain (replay_key n.chain hash) middle after

  record_hash-ok :
      (r : Result VerificationError ℕ) (store : Option MemoryStore) (hash : ℕ)
      (after : Option MemoryStore)
      → record_hash n r store ≡ (ok hash, after)
      → (r ≡ ok hash) × Reserved n.chain (replay_key n.chain hash) store after
  unfolding record_hash
  record_hash-ok (err reason) store hash after e = absurd (refused e)
  record_hash-ok (ok got) store hash after e =
      let p = reserve n.chain (replay_key n.chain got) store in
      let (taken, same, is_after) = behind-ok p got hash after e in
      (
        ap ok same,
        subst (λ (k : ℕ). Reserved n.chain (replay_key n.chain k) store after) same
            (subst (Reserved n.chain (replay_key n.chain got) store) is_after
              (reserve-Reserved n.chain (replay_key n.chain got) store taken)),
      )

  submit-IsBroadcast :
      (m : Settings) (signed_tx : Text) (charge : ChargeRequest) (expected_chain_id : ℕ)
      (challenge_id realm : Text) (store : Option MemoryStore) (hash : ℕ)
      (after : Option MemoryStore) (r : Result VerificationError Submission)
      → checked_submission n m signed_tx charge expected_chain_id ≡ r
      → submit n r charge challenge_id realm store ≡ (ok hash, after)
      → IsBroadcast m signed_tx charge expected_chain_id challenge_id realm store hash after
  unfolding submit
  submit-IsBroadcast m signed_tx charge expected_chain_id challenge_id realm store hash after
        (err reason) is_checked e =
      absurd (refused e)
  submit-IsBroadcast m signed_tx charge expected_chain_id challenge_id realm store hash after (ok s)
        is_checked e =
      let key : Text = submission_key n s.final_tx_bytes in
      let p = reserve n.chain key store in
      let (made, recorded) =
        record_hash-ok (p.0 >>= λ _. checked_broadcast n s charge challenge_id realm) p.1 hash after
          e in
      let (_, taken, sent) =
        bind-ok p.0 (λ _. checked_broadcast n s charge challenge_id realm) hash made in
      record {
        submission = s;
        is_made = is_checked;
        checked =
            checked_submission-IsSubmission n m signed_tx charge expected_chain_id s is_checked;
        received = checked_broadcast-IsReceived n s charge challenge_id realm hash sent;
        middle = p.1;
        reserved = reserve-Reserved n.chain key store taken;
        recorded = recorded;
      }

  pub broadcast_transaction-IsBroadcast :
      (m : Settings) (signed_tx : Text) (charge : ChargeRequest) (expected_chain_id : ℕ)
      (challenge_id realm : Text) (store : Option MemoryStore) (hash : ℕ)
      (after : Option MemoryStore)
      → broadcast_transaction n m signed_tx charge expected_chain_id challenge_id realm store
        ≡ (ok hash, after)
      → IsBroadcast m signed_tx charge expected_chain_id challenge_id realm store hash after
  unfolding broadcast_transaction
  broadcast_transaction-IsBroadcast m signed_tx charge expected_chain_id challenge_id realm store
        hash after e =
      submit-IsBroadcast m signed_tx charge expected_chain_id challenge_id realm store hash after
        (checked_submission n m signed_tx charge expected_chain_id) refl e
