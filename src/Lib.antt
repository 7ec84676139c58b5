-- ===== src/Lib.antt =====
-- mpp-rs, the Machine Payments Protocol: a server asks for payment by a challenge, a client answers
-- with a credential, and the server verifies it. This library models its payment channels, its
-- one-time charges, its server and the wire format of its headers.
--
-- Session (src/protocol/methods/tempo/session_method.rs): the server side of payment channels. The
-- payer escrows a deposit on chain and signs vouchers with a growing cumulative amount; the server
-- keeps the highest voucher of each channel and charges against it.
-- * Session.Types has the records of the code, field by field (`ChannelState`, `OnChainChannel`,
--   `SessionCredentialPayload` of session.rs, and what is read of the request and the credential).
--   Amounts are natural numbers: `u128` sums are written with their wrap-around (`add_u128`), a
--   `saturating_sub` is the subtraction that stops at 0. Addresses and hashes are numbers, byte
--   strings lists of numbers, and no operation depends on their width.
-- * Session.Updates has every closure that is handed to `update_channel`.
-- * Session.Task is an asynchronous handler: it stops wherever another handler may run between, at
--   each read or update of the channel store and each call of the chain's provider. Session.Store
--   runs tasks over the in-memory store: one alone, or a pool under any schedule. A task is a
--   finite tree on every path, so no fuel is needed and each run ends.
-- * Session.Method has `verify_session` and the handlers of open, topUp, voucher and close, in the
--   order of the code's checks. Session.Server is a server with any number of requests and
--   deductions in flight.
-- * Session.Externs are the functions of other libraries (alloy, tempo_primitives, hex, the clock)
--   as a record of parameters; what the chain answers is any function, a new one at each step. The
--   theorems on interleavings suppose of it only that its amounts are `u128`s, which their type
--   says; the one on signatures besides that its answers for a channel's id agree on the signer,
--   which goes into the hash that the id is.
-- * Session.Issued lists the updates that a handler can ever make, and Session.Issues and
--   Session.Vocabulary derive that it makes no other, with rules for what it may rely on of the
--   store and the chain; the invariants are proved of those
--   (Session.Solvency, Session.Progress, Session.Authentic). Session.Run has the rules for a
--   handler that runs alone (Session.Opened, Session.ToppedUp, Session.Accepting,
--   Session.Vouchers, Session.Closeable, Session.Closing, Session.Unserved, Session.Stranding),
--   and Session.Binding is about the check of an open transaction.
-- * Voucher (src/protocol/methods/tempo/voucher.rs) checks a voucher's signature for it, with the
--   recovery of a signer a parameter, and Error (src/protocol/traits/mod.rs) has the errors,
--   without their text.
--
-- Transfers (src/protocol/methods/tempo/transfers.rs): the transfers of a charge with split
-- payments. The parsers of texts are parameters.
--
-- AcceptPayment (src/protocol/core/accept_payment.rs, src/client/challenge_selection.rs): how a
-- client ranks the challenges it is offered by its preferences and which one it pays. A quality
-- value, an `f32` there, is its thousandths here: the parser takes no more than three decimals, but
-- also exponents such as `1e-5`, which have no place here, and qualities within `f32::EPSILON` of each
-- other, which the code takes for equal, are equal here only if they are the same. The sort is an
-- insertion sort, which gives the only list that the order of the code allows.
--
-- Amounts (src/server/amount.rs, src/protocol/intents/mod.rs): the two readers of decimal amounts,
-- `parse_dollar_amount` and `parse_units`. Texts are lists of code points throughout.
--
-- Charge (src/protocol/intents/charge.rs, src/protocol/methods/tempo/charge.rs): the request of a
-- charge, with its method details as a JSON value (Charge.Json), and what Tempo reads of them.
--
-- Server (src/protocol/core/challenge.rs, src/server/mpp.rs, src/protocol/methods/tempo/mod.rs):
-- * Server.Types has the challenge, the credential and the receipt, and the payment methods that the
--   server calls as records of functions. The HMAC, JSON and the clock are parameters.
-- * Server.Challenge has the id of a challenge and its checks, Server.Create how the server makes a
--   challenge, Server.Verify how it verifies a credential; a verification returns its result and the
--   events that it emits.
--
-- Headers (src/protocol/core/headers.rs): the challenge, credential and receipt as header values. The
-- loop of `parse_auth_params` runs on fuel, a round for each character of the header; every round
-- but the last takes one character at least, so that is enough. Headers.Ends has the loop
-- without fuel. JSON and the base64 decoder are parameters (TokenCodec).
--
-- Store (src/store.rs): the in-memory key-value store, an association list of serialized values.
--
-- Tempo (src/protocol/methods/tempo/method.rs, src/protocol/methods/tempo/proof.rs,
-- src/tempo/attribution.rs): the charge method, for a payment that the client has sent itself and for
-- one that it hands over signed.
-- * Tempo.Attribution is the memo that ties a transfer to a server and a challenge.
-- * Tempo.Logs reads the log of a transfer, Tempo.Match finds a log for each expected transfer;
--   Tempo.Claims is its loop over logs with a mark for each one used.
-- * Tempo.Hash is `verify_hash`, with what the provider answers and keccak256 as parameters; it uses
--   Transfers for what must be paid and Store for the hashes that were used.
-- * Tempo.Calls is the check of a signed transaction's calls, `validate_transaction_transfers`, and
--   Tempo.Cosign the signature of the sponsor of fees, `cosign_fee_payer_transaction`, with the
--   envelope of src/protocol/methods/tempo/fee_payer_envelope.rs and the limits of Tempo.Policy.
-- * Tempo.Broadcast is `broadcast_transaction`, which composes these: it checks a signed transaction,
--   records it, sends it, checks the receipt and records the hash. Tempo.Proof are the signatures
--   that prove who the payer is. Tempo.Payload is the payload of a credential and Tempo.Verify the
--   method's `verify`, which takes a hash, a transaction or a proof. The method's state is its store
--   and the chain's id, once it has been asked. Tempo.Once is about the keys that it uses up.
--
-- Client (src/client/tempo/session/mod.rs, src/client/tempo/session/channel_ops.rs): the client side of
-- payment channels, the provider that keeps a registry of channels and signs for them.
-- * Client.Types has the registry, its maps as association lists, and the other libraries with the
--   chain's and the servers' answers at one moment (`Wallet`); Client.Terms what a challenge asks,
--   Client.Payloads what is signed, Client.Pay the operations `pay`, `send_voucher` and `close`.
-- * `pay` is `prepare`, which reads the registry and signs, and `commit`, which writes it: the code
--   lets the lock go between the two. Client.Tests runs two payments that overlap.
--
-- Not modelled: the notifiers that wake a stream, JSON, HMAC, base64, RLP and EIP-712, the file store
-- and the channel adapter, the HTTP and socket servers and clients, the client's charges and
-- top-ups, Stripe, the proxy.
pub mod Prelude
pub mod Amounts
pub mod Charge
pub mod Server
pub mod Error
pub mod Voucher
pub mod Session
pub mod Transfers
pub mod AcceptPayment
pub mod Headers
pub mod Store
pub mod Tempo
pub mod Client
