-- ===== src/Session/Binding.antt =====
-- `verify_open_channel_id_binding` of src/protocol/methods/tempo/session_method.rs: which open transactions
-- the server sends.
use mpp_rs.Prelude.{
  both_true, ℕ, ◌≡◌, ◌≤◌, inl, inr, refl, Bool, true, false, Option, none, some, List, [], ◌∷◌, not,
  ◌&&◌, length, take, leb, ◌==◌, Any, arith, Bool-cases, if◌then◌else◌,
}
use mpp_rs.Error.{Result, ok, err, ok_or, VerificationError, ◌>>=◌, credential_mismatch, new}
use mpp_rs.Voucher.{Address, B256, Bytes, bytes_eq}
use mpp_rs.Session.Externs.{Externs, TxCall, SignedTx, OpenCall}
use mpp_rs.Session.Method.{find_open_call, verify_open_channel_id_binding, strip_type_byte, targets}

bytes_eq_sound : (xs ys : Bytes) → bytes_eq xs ys ≡ true → xs ≡ ys
unfolding bytes_eq
bytes_eq_sound [] [] h = refl
bytes_eq_sound [] (y ∷ ys) h = cc
bytes_eq_sound (x ∷ xs) [] h = cc
bytes_eq_sound (x ∷ xs) (y ∷ ys) h = grind (arith, bytes_eq_sound xs ys)

targets_sound :
    (escrow : Address) (to : Option Address) → targets escrow to ≡ true → to ≡ some escrow
targets_sound escrow none h = cc
targets_sound escrow (some a) h = let same : a ≡ escrow = ground arith in rw same

-- A call of `open` on the escrow contract.
abbrev IsOpenCall : Address → Bytes → TxCall → Type 0
IsOpenCall escrow selector c =
    (c.to ≡ some escrow) × (4 ≤ length c.input) × (take 4 c.input ≡ selector)

find_open_call-IsOpenCall :
    (escrow : Address) (selector : Bytes) (calls : List TxCall) (c : TxCall)
    → find_open_call escrow selector calls ≡ some c
    → Any (λ (d : TxCall). (d ≡ c) × IsOpenCall escrow selector d) calls
unfolding find_open_call
find_open_call-IsOpenCall escrow selector [] c e = cc
find_open_call-IsOpenCall escrow selector (d ∷ ds) c e =
    elim (Bool-cases
      (targets escrow d.to && (leb 4 (length d.input) && bytes_eq (take 4 d.input) selector))) [
        | inl hit ↦
            let (on_escrow, rest) = both_true (targets escrow d.to) _ hit in
            let (long, selected) = both_true (leb 4 (length d.input)) _ rest in
            let same : d ≡ c = cc (rw hit at e) in
            inl (
              same,
              (
                targets_sound escrow d.to on_escrow,
                ground arith,
                bytes_eq_sound (take 4 d.input) selector selected,
              ),
            )
        | inr miss ↦ inr (find_open_call-IsOpenCall escrow selector ds c (rw miss at e))
      ]

-- What the server knows of an open transaction that it sends.
pub record IsBound (x : Externs) (tx_bytes : Bytes) (claimed : B256) (escrow : Address)
    (chain_id : ℕ) (expected_payee expected_token : Address) : Type 0 where
  pub signed : SignedTx
  pub sender : Address
  pub open_call : TxCall
  pub decoded : OpenCall
  pub is_signed : x.rlp_decode (strip_type_byte x.tempo_tx_type_id tx_bytes) ≡ some signed
  pub sent_by : x.recover_signer signed ≡ some sender
  pub called :
      Any (λ (d : TxCall). (d ≡ open_call) × IsOpenCall escrow x.open_selector d) signed.calls
  pub decodes : x.decode_open open_call.input ≡ some decoded
  pub parties : (decoded.payee ≡ expected_payee) × (decoded.token ≡ expected_token)
  pub derived :
      x.keccak_of_params (record {
        payer = sender;
        payee = expected_payee;
        token = expected_token;
        salt = decoded.salt;
        authorized_signer = decoded.authorized_signer;
        escrow_contract = escrow;
        chain_id = chain_id;
      })
      ≡ claimed

ok_or-ok :
    {A : Type 0} (o : Option A) (e : VerificationError) (a : A) → ok_or o e ≡ ok a → o ≡ some a
ok_or-ok none e a h = cc
ok_or-ok (some b) e a h = let same : b ≡ a = cc in rw same

bind-ok :
    {A B : Type 0} (first : Result A) (next : A → Result B) (b : B)
    → (first >>= next) ≡ ok b
    → (a : A) × (first ≡ ok a) × (next a ≡ ok b)
bind-ok (ok a) next b e = (a, refl, e)
bind-ok (err r) next b e = cc

-- The last three checks.
checks-ok :
    (a b c : Bool)
    → ◌≡◌ {A = Result (Unit {0})}
        (if not a
          then err credential_mismatch
          else if not b
          then err credential_mismatch
          else if not c
          then err new
          else ok tt)
        (ok tt)
    → (a ≡ true) × (b ≡ true) × (c ≡ true)
checks-ok true true true h = (refl, refl, refl)
checks-ok true true false h = cc
checks-ok true false c h = cc
checks-ok false b c h = cc

eq_of : (a b : ℕ) → (a == b) ≡ true → a ≡ b
eq_of a b h = ground arith

derived_for :
    (x : Externs) (sender : Address) (decoded : OpenCall) (escrow : Address) (chain_id : ℕ)
    (claimed : B256) {payee token : Address}
    → decoded.payee ≡ payee
    → decoded.token ≡ token
    → x.keccak_of_params (record {
      payer = sender;
      payee = decoded.payee;
      token = decoded.token;
      salt = decoded.salt;
      authorized_signer = decoded.authorized_signer;
      escrow_contract = escrow;
      chain_id = chain_id;
    })
      ≡ claimed
    → x.keccak_of_params (record {
      payer = sender;
      payee = payee;
      token = token;
      salt = decoded.salt;
      authorized_signer = decoded.authorized_signer;
      escrow_contract = escrow;
      chain_id = chain_id;
    })
      ≡ claimed
derived_for x sender decoded escrow chain_id claimed of_payee of_token e =
    rw (← of_payee, ← of_token) e

-- An open transaction that passes is signed by a sender, calls `open` on the escrow contract for the
-- expected payee and token, and the channel id of that call, sender, escrow and chain is the one that
-- the credential claims.
pub verify_open_channel_id_binding-IsBound :
    (x : Externs) (tx_bytes : Bytes) (claimed : B256) (escrow : Address) (chain_id : ℕ)
    (expected_payee expected_token : Address)
    → verify_open_channel_id_binding x tx_bytes claimed escrow chain_id expected_payee
        expected_token
      ≡ ok tt
    → IsBound x tx_bytes claimed escrow chain_id expected_payee expected_token
unfolding verify_open_channel_id_binding
verify_open_channel_id_binding-IsBound x tx_bytes claimed escrow chain_id expected_payee
      expected_token e =
    let (signed, e1, r1) = bind-ok (ok_or _ _) _ _ e in
    let (sender, e2, r2) = bind-ok (ok_or _ _) _ _ r1 in
    let (open_call, e3, r3) = bind-ok (ok_or _ _) _ _ r2 in
    let (decoded, e4, r4) = bind-ok (ok_or _ _) _ _ r3 in
    let (payee, token, same) = checks-ok _ _ _ r4 in
    let is_payee : decoded.payee ≡ expected_payee = eq_of _ _ payee in
    let is_token : decoded.token ≡ expected_token = eq_of _ _ token in
    record {
      signed = signed;
      sender = sender;
      open_call = open_call;
      decoded = decoded;
      is_signed = ok_or-ok _ _ _ e1;
      sent_by = ok_or-ok _ _ _ e2;
      called =
          find_open_call-IsOpenCall escrow x.open_selector signed.calls open_call
            (ok_or-ok _ _ _ e3);
      decodes = ok_or-ok _ _ _ e4;
      parties = (is_payee, is_token);
      derived =
          derived_for x sender decoded escrow chain_id claimed is_payee is_token (eq_of _ _ same);
    }
