-- ===== src/Tempo/Attribution.antt =====
-- src/tempo/attribution.rs: memos that name a server and a challenge. The hash is a parameter.
use mpp_rs.Prelude.{
  ℕ, zero, suc, ◌+◌, ◌≤◌, Text, codes, Bool, true, false, not, ◌&&◌, Option, none, some, List, [],
  ◌∷◌, ◌++◌, take, drop, length, if◌then◌else◌, bytes_eq, bytes_eq_iff, length-append, ◌≡◌, refl,
  sym, ap, ◌∙◌, arith,
}
use mathlib.Core.List.{append_assoc}

abbrev pub version : ℕ
version = 1

abbrev pub anonymous : List ℕ
anonymous = 0 ∷ 0 ∷ 0 ∷ 0 ∷ 0 ∷ 0 ∷ 0 ∷ 0 ∷ 0 ∷ 0 ∷ []

pub record DecodedMemo : Type 0 where
  pub version : ℕ
  pub server_fingerprint : List ℕ
  pub client_fingerprint : Option (List ℕ)
  pub nonce : List ℕ

module _ (keccak256 : Text → List ℕ) where
  abbrev pub tag : List ℕ
  tag = take 4 (keccak256 (codes "mpp"))

  abbrev pub fingerprint : Text → List ℕ
  fingerprint value = take 10 (keccak256 value)

  abbrev pub challenge_nonce : Text → List ℕ
  challenge_nonce challenge_id = take 7 (keccak256 challenge_id)

  abbrev pub client_bytes : Option Text → List ℕ
  client_bytes none = anonymous
  client_bytes (some client_id) = fingerprint client_id

  unfoldable pub encode : Text → Text → Option Text → List ℕ
  encode challenge_id server_id client_id =
      tag
      ++ ((version ∷ [])
          ++ (fingerprint server_id ++ (client_bytes client_id ++ challenge_nonce challenge_id)))

  unfoldable pub is_mpp_memo : List ℕ → Bool
  is_mpp_memo memo = bytes_eq (take 4 memo) tag && bytes_eq (take 1 (drop 4 memo)) (version ∷ [])

  unfoldable pub verify_server : List ℕ → Text → Bool
  unfolding is_mpp_memo
  verify_server memo server_id =
      if not (is_mpp_memo memo)
      then false
      else bytes_eq (take 10 (drop 5 memo)) (fingerprint server_id)

  unfoldable pub verify_challenge_binding : List ℕ → Text → Bool
  unfolding is_mpp_memo
  verify_challenge_binding memo challenge_id =
      if not (is_mpp_memo memo)
      then false
      else bytes_eq (take 7 (drop 25 memo)) (challenge_nonce challenge_id)

  abbrev pub known_client : List ℕ → Option (List ℕ)
  known_client bytes = if bytes_eq bytes anonymous then none else some bytes

  abbrev pub first_byte : List ℕ → ℕ
  first_byte [] = 0
  first_byte (b ∷ bytes) = b

  unfoldable pub decode : List ℕ → Option DecodedMemo
  unfolding is_mpp_memo
  decode memo =
      if not (is_mpp_memo memo)
      then none
      else some (record {
        version = first_byte (drop 4 memo);
        server_fingerprint = take 10 (drop 5 memo);
        client_fingerprint = known_client (take 10 (drop 15 memo));
        nonce = take 7 (drop 25 memo);
      })

take-prefix : (n : ℕ) (xs ys : List ℕ) → length xs ≡ n → take n (xs ++ ys) ≡ xs
take-prefix zero [] ys h = refl
take-prefix zero (x ∷ xs) ys h = absurd (omega arith)
take-prefix (suc n) [] ys h = absurd (omega arith)
take-prefix (suc n) (x ∷ xs) ys h = ap (λ l. x ∷ l) (take-prefix n xs ys (omega arith))

drop-prefix : (n : ℕ) (xs ys : List ℕ) → length xs ≡ n → drop n (xs ++ ys) ≡ ys
drop-prefix zero [] ys h = refl
drop-prefix zero (x ∷ xs) ys h = absurd (omega arith)
drop-prefix (suc n) [] ys h = absurd (omega arith)
drop-prefix (suc n) (x ∷ xs) ys h = drop-prefix n xs ys (omega arith)

take-all : (n : ℕ) (xs : List ℕ) → length xs ≡ n → take n xs ≡ xs
take-all zero [] h = refl
take-all zero (x ∷ xs) h = absurd (omega arith)
take-all (suc n) [] h = refl
take-all (suc n) (x ∷ xs) h = ap (λ l. x ∷ l) (take-all n xs (omega arith))

drop-nil : (n : ℕ) → drop {A = ℕ} n [] ≡ []
drop-nil zero = refl
drop-nil (suc n) = refl

drop-drop : (m k n : ℕ) (xs : List ℕ) → k ≡ m + n → drop k xs ≡ drop n (drop m xs)
drop-drop zero k n xs h = let same : k ≡ n = omega arith in rw same
drop-drop (suc m) zero n xs h = absurd (omega arith)
drop-drop (suc m) (suc k) n [] h = sym (drop-nil n)
drop-drop (suc m) (suc k) n (x ∷ xs) h = drop-drop m k n xs (omega arith)

length-take : (n : ℕ) (xs : List ℕ) → n ≤ length xs → length (take n xs) ≡ n
length-take zero xs h = refl
length-take (suc n) [] h = absurd (omega arith)
length-take (suc n) (x ∷ xs) h = omega (arith, length-take n xs (omega arith))

module _ (keccak256 : Text → List ℕ) (wide : (s : Text) → length (keccak256 s) ≡ 32)
    (challenge_id server_id : Text) (client_id : Option Text) where
  length-hash : (n : ℕ) (s : Text) → n ≤ 32 → length (take n (keccak256 s)) ≡ n
  length-hash n s h = length-take n (keccak256 s) (omega (arith, wide s))

  length-client : length (client_bytes keccak256 client_id) ≡ 10
  length-client = go client_id
    where
      go : (c : Option Text) → length (client_bytes keccak256 c) ≡ 10
      go none = refl
      go (some c) = length-hash 10 c (omega arith)

  -- The parts of the memo, from its start.
  Layout : List ℕ → Type 0
  Layout memo =
      (take 4 memo ≡ tag keccak256)
      × (drop 4 memo ≡ version ∷ drop 5 memo)
      × (take 10 (drop 5 memo) ≡ fingerprint keccak256 server_id)
      × (take 10 (drop 15 memo) ≡ client_bytes keccak256 client_id)
      × (take 7 (drop 25 memo) ≡ challenge_nonce keccak256 challenge_id)

  encode-Layout : Layout (encode keccak256 challenge_id server_id client_id)
  unfolding encode Layout
  encode-Layout =
      let mark = tag keccak256 in
      let server = fingerprint keccak256 server_id in
      let client = client_bytes keccak256 client_id in
      let nonce = challenge_nonce keccak256 challenge_id in
      let memo = encode keccak256 challenge_id server_id client_id in
      let rest = server ++ (client ++ nonce) in
      let four = length-hash 4 (codes "mpp") (omega arith) in
      let ten = length-hash 10 server_id (omega arith) in
      let seven = length-hash 7 challenge_id (omega arith) in
      let from_5 =
        ap (λ l. drop 5 l) (sym (append_assoc mark (version ∷ []) rest))
        ∙ drop-prefix 5 (mark ++ (version ∷ [])) rest
            (omega (arith, four, length-append mark (version ∷ []))) in
      let from_15 =
        drop-drop 5 15 10 memo (omega arith)
        ∙ ap (λ l. drop 10 l) from_5
        ∙ drop-prefix 10 server (client ++ nonce) ten in
      let from_25 =
        drop-drop 15 25 10 memo (omega arith)
        ∙ ap (λ l. drop 10 l) from_15
        ∙ drop-prefix 10 client nonce length-client in
      (
        take-prefix 4 mark ((version ∷ []) ++ rest) four,
        drop-prefix 4 mark ((version ∷ []) ++ rest) four ∙ ap (λ l. version ∷ l) (sym from_5),
        rw from_5 (take-prefix 10 server (client ++ nonce) ten),
        rw from_15 (take-prefix 10 client nonce length-client),
        rw from_25 (take-all 7 nonce seven),
      )

  -- A memo for a challenge is taken by its server for its challenge, and decodes to the version, the
  -- server's and the client's fingerprint and the challenge's nonce; a client whose fingerprint is all
  -- zeros counts as none. The hash is supposed to have 32 bytes.
  pub decode-encode :
      (let memo = encode keccak256 challenge_id server_id client_id in
        (verify_server keccak256 memo server_id ≡ true)
        × (verify_challenge_binding keccak256 memo challenge_id ≡ true)
        × (decode keccak256 memo
            ≡ some (record {
              version = version;
              server_fingerprint = fingerprint keccak256 server_id;
              client_fingerprint = known_client keccak256 (client_bytes keccak256 client_id);
              nonce = challenge_nonce keccak256 challenge_id;
            })))
  unfolding verify_server verify_challenge_binding decode is_mpp_memo Layout
  decode-encode =
      let memo = encode keccak256 challenge_id server_id client_id in
      let (mark, versioned, server, client, nonce) = encode-Layout in
      let is_mark = (bytes_eq_iff (take 4 memo) (tag keccak256)).1 mark in
      let is_version =
        (bytes_eq_iff (take 1 (drop 4 memo)) (version ∷ [])).1 (ap (λ l. take 1 l) versioned) in
      (
        rw (is_mark, is_version) ((bytes_eq_iff _ _).1 server),
        rw (is_mark, is_version) ((bytes_eq_iff _ _).1 nonce),
        rw (is_mark, is_version) (rw (server, client, nonce, versioned)),
      )
