-- ===== src/AcceptPayment.antt =====
-- src/protocol/core/accept_payment.rs and src/client/challenge_selection.rs: which of the offered
-- challenges a client pays.
mod Defs
mod Selection
pub mod Match
pub mod Choice
pub mod Payable
mod Tests
pub use Defs.{Entry, HasMethodIntent, Best, Scored}
unfoldable pub use Defs.{
  specificity, matches_entry, dominated, better, best_match_from, best_match, scored_from,
  insert_scored, sort_scored, rank, select,
}
pub use Selection.{Selected, chosen, expired, unsupported}
unfoldable pub use Selection.{select_ranked_challenge, select_supported_challenge}
