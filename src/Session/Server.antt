-- ===== src/Session/Server.antt =====
-- A server at work: any number of session requests and deductions in flight, as tasks over one store.
use mpp_rs.Prelude.{ℕ, ◌<◌, String, List, [], ◌∷◌, map, All, u128_mod}
use mpp_rs.Voucher.{Address}
use mpp_rs.Session.Types.{PaymentCredential, SessionRequest}
use mpp_rs.Session.Updates.{Updater}
use mpp_rs.Session.Task.{Task, ret, ◌>>◌}
use mpp_rs.Session.Store.{Channels, World, store_result, run_pool, Holds}
use mpp_rs.Session.Issues.{Issues, at_ret, Issues-bind, IsTypedWorld, IsWorld, run_pool-Inv}
use mpp_rs.Session.Externs.{Externs}
use mpp_rs.Session.Method.{SessionMethod, verify_session, deduct_from_channel}
use mpp_rs.Session.Issued.{Issued, rules, Anyone, IsTypedWorld-IsWorld}
use mpp_rs.Session.Vocabulary.{verify_session-Issues, deduct_from_channel-Issues}

pub data Request : Type 0 where
  session : PaymentCredential → SessionRequest → Request
  deduction : String → ℕ → Request

-- The amount of a deduction is a `u128`.
abbrev pub IsTypedRequest : Request → Type 0
IsTypedRequest (session c r) = Unit
IsTypedRequest (deduction k amount) = amount < u128_mod

module _ (x : Externs) (m : SessionMethod) where
  -- The answer is dropped: the store is what is looked at.
  unfoldable pub serve : Request → Task (Unit {0})
  serve (session credential request) = verify_session x m credential request >> ret tt
  serve (deduction k amount) = deduct_from_channel k amount >> ret tt

  -- The store after the given moves of a server that has these requests in flight.
  unfoldable pub after : List (ℕ × World) → List Request → Channels → Channels
  after moves rs store = (run_pool moves (map serve rs) store).1

pub each_world :
    {P Q : World → Type 0}
    → ((w : World) → P w → Q w)
    → (moves : List (ℕ × World)) → All (λ (move : ℕ × World). P move.1) moves
    → All (λ (move : ℕ × World). Q move.1) moves
each_world f [] h = tt
each_world f ((i, w) ∷ moves) h = (f w h.0, each_world f moves h.1)

module _ (x : Externs) (m : SessionMethod) (known : String → Address → Type 0) where
  serve-Issues : (r : Request) → IsTypedRequest r → Issues (rules x known) (serve x m r)
  unfolding serve
  serve-Issues (session credential request) t =
      Issues-bind (verify_session-Issues x known m credential request) (λ _. at_ret tt)
  serve-Issues (deduction k amount) t =
      Issues-bind (deduct_from_channel-Issues x known k amount t) (λ _. at_ret tt)

  serve_each-Issues :
      (rs : List Request)
      → All IsTypedRequest rs
      → All (Issues (rules x known)) (map (serve x m) rs)
  serve_each-Issues [] t = tt
  serve_each-Issues (r ∷ rs) t = (serve-Issues r t.0, serve_each-Issues rs t.1)

  -- What every update of the vocabulary keeps, the server keeps, however its requests interleave, if it
  -- says what is known of the stored signers, and the chain answers by it.
  pub after-Inv :
      {Inv : Channels → Type 0}
      → ((k : String) (u : Updater) (c : Channels)
          → Issued x known k u
          → Inv c
          → Inv (store_result k (u (c k)) c))
      → ((c : Channels) → Inv c → Holds (λ k s. known k s.authorized_signer) c)
      → (moves : List (ℕ × World)) (rs : List Request) (store : Channels)
      → All (λ (move : ℕ × World). IsWorld (rules x known) move.1) moves
      → All IsTypedRequest rs
      → Inv store
      → Inv (after x m moves rs store)
  unfolding after
  after-Inv keeps informs moves rs store tw tr i =
      run_pool-Inv (rules x known) keeps informs moves (map (serve x m) rs) store tw
        (serve_each-Issues rs tr) i

-- The same where nothing is known of signers.
pub after-typed :
    (x : Externs) (m : SessionMethod) {Inv : Channels → Type 0}
    → ((k : String) (u : Updater) (c : Channels)
        → Issued x Anyone k u
        → Inv c
        → Inv (store_result k (u (c k)) c))
    → (moves : List (ℕ × World)) (rs : List Request) (store : Channels)
    → All (λ (move : ℕ × World). IsTypedWorld move.1) moves
    → All IsTypedRequest rs
    → Inv store
    → Inv (after x m moves rs store)
after-typed x m keeps moves rs store tw tr i =
    after-Inv x m Anyone keeps (λ c h k s e. tt) moves rs store
      (each_world (IsTypedWorld-IsWorld x) moves tw) tr i
