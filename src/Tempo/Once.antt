-- ===== src/Tempo/Once.antt =====
-- What the charge method of src/protocol/methods/tempo/method.rs takes once: the keys of its store.
use mpp_rs.Prelude.{
  ℕ, Text, true, false, Option, some, List, ◌≡◌, ◌≢◌, ◌⊎◌, refl, ap, inl, inr, ◌∙◌, sym,
}
use mathlib.Core.Path.{subst}
use mpp_rs.Prelude.Results.{Result, ok, ok-injective}
use mpp_rs.Charge.Json.{boolean}
use mpp_rs.Charge.Request.{ChargeRequest}
use mpp_rs.Server.Types.{PaymentCredential, Receipt}
use mpp_rs.Store.Memory.{Json, MemoryStore, StoreOp, apply_ops, deletes}
use mpp_rs.Store.Held.{
  IsHeld, put_if_absent-keeps, apply_ops-IsHeld, put_if_absent-IsHeld, held_refuses,
}
use mpp_rs.Tempo.Source.{ProofSource, parse_proof_source}
use mpp_rs.Tempo.Hash.{Chain, TxReceipt, replay_key}
use mpp_rs.Tempo.Proof.{proof_fingerprint}
use mpp_rs.Tempo.Payload.{
  PayloadType, transaction, hash, proof, RawPayload, PaymentPayload, payload_of,
}
use mpp_rs.Tempo.Broadcast.{Node, Settings, Submission, checked_submission, submission_key}
use mpp_rs.Tempo.Verify.{proof_key, expected_chain_id, verify}
use mpp_rs.Tempo.Reserved.{Reserved}
use mpp_rs.Tempo.Sent.{IsBroadcast}
use mpp_rs.Tempo.Shown.{IsShown}
use mpp_rs.Tempo.Verified.{IsVerified, verify-IsVerified}

-- A key that was free and is taken.
abbrev Claimed : Text → MemoryStore → Option MemoryStore → Type 0
Claimed key before after =
    (¬ (IsHeld key before)) × ((end : MemoryStore) × (after ≡ some end) × IsHeld key end)

Reserved-Claimed :
    (x : Chain) (key : Text) (before : MemoryStore) (after : Option MemoryStore)
    → Reserved x key (some before) after
    → Claimed key before after
Reserved-Claimed x key before after reserved =
    let (end, claimed, is_after) = reserved before refl in
    (
      (λ (raw, there). held_refuses x.json key (boolean true) before end raw there claimed),
      (end, is_after, put_if_absent-IsHeld x.json key (boolean true) before end claimed),
    )

-- A reservation keeps the keys that are there.
Reserved-keeps :
    (x : Chain) (key other : Text) (before : MemoryStore) (after : Option MemoryStore)
    → Reserved x other (some before) after
    → IsHeld key before
    → (end : MemoryStore) × (after ≡ some end) × IsHeld key end
Reserved-keeps x key other before after reserved held =
    let (end, claimed, is_after) = reserved before refl in
    (
      end,
      is_after,
      subst (IsHeld key) (ap (λ q. q.1) claimed)
          (put_if_absent-keeps x.json key other (boolean true) before held),
    )

same_some {ℓ} : {A : Type ℓ} {o : Option A} {a b : A} → o ≡ some a → o ≡ some b → a ≡ b
same_some p q = cc

same_ok : {E A : Type 0} {r : Result E A} {a b : A} → r ≡ ok a → r ≡ ok b → a ≡ b
same_ok p q = ok-injective _ _ (sym p ∙ q)

-- Two keys, one after the other.
first-Claimed :
    (x : Chain) (first second : Text) (before : MemoryStore) (middle after : Option MemoryStore)
    → Reserved x first (some before) middle
    → Reserved x second middle after
    → Claimed first before after
first-Claimed x first second before middle after reserved recorded =
    let (free, (mid, is_mid, held)) = Reserved-Claimed x first before middle reserved in
    (free, Reserved-keeps x first second mid after (rw is_mid at recorded) held)

second-Claimed :
    (x : Chain) (first second : Text) (before : MemoryStore) (middle after : Option MemoryStore)
    → Reserved x first (some before) middle
    → Reserved x second middle after
    → Claimed second before after
second-Claimed x first second before middle after reserved recorded =
    let (_, (mid, is_mid, _)) = Reserved-Claimed x first before middle reserved in
    let (free, held) = Reserved-Claimed x second mid after (rw is_mid at recorded) in
    (
      (λ h.
          let (end, is_end, there) = Reserved-keeps x second first before middle reserved h in
          free (subst (IsHeld second) (same_some is_end is_mid) there)),
      held,
    )

-- The keys that a payload uses up: the one of its transaction's hash, for a transaction also the one of
-- the bytes that are sent, for a proof the one of its fingerprint.
module _ (n : Node) (m : Settings) (credential : PaymentCredential) (request : ChargeRequest) where
  abbrev PayloadSpends : PayloadType → Text → Text → Type 0
  PayloadSpends hash content key =
      (tx_hash : ℕ) × (n.chain.log_parsers.parse_b256 content ≡ some tx_hash)
      × (key ≡ replay_key n.chain tx_hash)
  PayloadSpends transaction content key =
      (s : Submission) × (checked_submission n m content request (expected_chain_id n request)
        ≡ ok s)
      × ((key ≡ submission_key n s.final_tx_bytes)
          ⊎ ((sent : TxReceipt × ℕ) × (n.send_raw_transaction_sync s.final_tx_bytes ≡ some sent)
              × (key ≡ replay_key n.chain sent.1)))
  PayloadSpends proof content key =
      (text : Text) × (credential.source ≡ some text)
      × ((source : ProofSource) × (parse_proof_source n.chain.log_parsers.parse_address text
            ≡ some source)
          × ((fingerprint : ℕ) × (proof_fingerprint n.prover credential.challenge.id source.address
                  source.chain_id content
                ≡ ok fingerprint)
              × (key ≡ proof_key n fingerprint)))

  abbrev pub Spends : Text → Type 0
  Spends key =
      (raw : RawPayload) × (n.raw_payload credential.payload ≡ some raw)
      × ((payload : PaymentPayload) × (payload_of raw ≡ some payload)
          × PayloadSpends payload.payload_type payload.content key)

  broadcast-Claimed :
      (content key : Text) (before : MemoryStore) (after : Option MemoryStore) (tx_hash : ℕ)
      → IsBroadcast n m content request
          (expected_chain_id n request)
          credential.challenge.id
          credential.challenge.realm
          (some before)
          tx_hash
          after
      → PayloadSpends transaction content key
      → Claimed key before after
  broadcast-Claimed content key before after tx_hash b (s, made, which) =
      let same : b.submission ≡ s = same_ok b.is_made made in
      let first : Text = submission_key n b.submission.final_tx_bytes in
      let second : Text = replay_key n.chain tx_hash in
      elim which [
        | inl is_key ↦
            subst (λ (k : Text). Claimed k before after)
              (ap (λ (q : Submission). submission_key n q.final_tx_bytes) same ∙ sym is_key)
              (first-Claimed n.chain first second before b.middle after b.reserved b.recorded)
        | inr (sent, answer, is_key) ↦
            let same_hash : (b.received.receipt, tx_hash) ≡ sent =
              same_some b.received.sent (rw (← same) at answer) in
            subst (λ (k : Text). Claimed k before after)
              (ap (λ (q : TxReceipt × ℕ). replay_key n.chain q.1) same_hash ∙ sym is_key)
              (second-Claimed n.chain first second before b.middle after b.reserved b.recorded)
      ]

  shown-Claimed :
      (kind : PayloadType) (content key : Text) (amount : ℕ) (before : MemoryStore)
      (after : Option MemoryStore)
      → IsShown n m credential request
          (expected_chain_id n request)
          kind
          content
          amount
          (some before)
          after
      → PayloadSpends kind content key
      → Claimed key before after
  shown-Claimed hash content key amount before after (_, (tx_hash, paid, reserved))
        (got, parsed, is_key) =
      subst (λ (k : Text). Claimed k before after)
        (ap (replay_key n.chain) (same_some paid.parsed parsed) ∙ sym is_key)
        (Reserved-Claimed n.chain (replay_key n.chain tx_hash) before after reserved)
  shown-Claimed transaction content key amount before after (_, (tx_hash, b)) spent =
      broadcast-Claimed content key before after tx_hash b spent
  shown-Claimed proof content key amount before after (_, shown)
        (text, there, (source, is_source, (fingerprint, printed, is_key))) =
      let (own, own_print, reserved) = shown.recorded before refl in
      let same_text : shown.source_text ≡ text = same_some shown.has_source there in
      let same_source : shown.source ≡ source =
        same_some shown.is_source (rw (← same_text) at is_source) in
      let same_print : own ≡ fingerprint = same_ok own_print (rw (← same_source) at printed) in
      subst (λ (k : Text). Claimed k before after) (ap (proof_key n) same_print ∙ sym is_key)
        (Reserved-Claimed n.chain (proof_key n own) before after reserved)

  verified-Claimed :
      (key : Text) (before : MemoryStore) (after : Option MemoryStore) (cached : Option ℕ)
      → IsVerified n m credential request (some before) after cached
      → Spends key
      → Claimed key before after
  verified-Claimed key before after cached v (raw, there, (payload, is_payload, spent)) =
      let same_raw : v.raw ≡ raw = same_some v.has_payload there in
      let same_payload : v.payload ≡ payload =
        same_some v.is_payload (rw (← same_raw) at is_payload) in
      shown-Claimed v.payload.payload_type v.payload.content key v.amount before after v.shown
        (rw (← same_payload) at spent)

-- A credential that `verify` of the charge method takes over a store uses up its keys: the one of its
-- transaction's hash, of the bytes that are sent, or of its proof's fingerprint. No credential that uses
-- one of them is taken later, of whatever kind, for whatever challenge and request, whatever the chain
-- answers then and whatever operations on the store come between, if none of them deletes the key.
pub verify_once :
    (n later : Node) (m m' : Settings) (credential again : PaymentCredential)
    (request request' : ChargeRequest) (cached cached' : Option ℕ) (before after : MemoryStore)
    (r : Receipt) (known : Option ℕ) (key : Text) (x : Json) (ops : List StoreOp) (r' : Receipt)
    (end : Option MemoryStore) (known' : Option ℕ)
    → verify n m credential request (some before) cached ≡ (ok r, some after, known)
    → Spends n m credential request key
    → Spends later m' again request' key
    → deletes key ops ≡ false
    → verify later m' again request' (some (apply_ops x ops after)) cached' ≢ (ok r', end, known')
verify_once n later m m' credential again request request' cached cached' before after r known key x
      ops r' end known' taken spent spent' kept e =
    let first =
      verify-IsVerified n credential request m (some before) cached r (some after) known taken in
    let second =
      verify-IsVerified later again request' m' (some (apply_ops x ops after)) cached' r' end known'
        e in
    let (_, (held_in, same, held)) =
      verified-Claimed n m credential request key before (some after) known first spent in
    let (free, _) =
      verified-Claimed later m' again request' key (apply_ops x ops after) end known' second
        spent' in
    let same_store : held_in ≡ after = same_some same refl in
    free (apply_ops-IsHeld x key ops after kept (subst (IsHeld key) same_store held))
