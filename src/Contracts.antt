-- ===== src/Contracts.antt =====
-- dlc-manager/src/contract: the adaptor signatures of a contract with enumerated outcomes, and how
-- the signature for what the oracles attested is found again.
pub mod Types
pub mod Points
pub mod Majority
pub mod Enum
mod Sequence
mod Groups
pub mod Signatures
mod Answer
pub mod Matching
pub mod Empty
pub mod Closable
pub mod Maturity
pub mod Closing
mod Votes
pub mod Found
mod Tests
