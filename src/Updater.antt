-- ===== src/Updater.antt =====
-- dlc-manager/src/channel_updater.rs: the functions that update a signed DLC channel.
pub mod Types
pub mod Exec
pub mod Services
pub mod States
pub mod Settle
pub mod Finalize
pub mod Reject
pub mod Close
pub mod Offer
pub mod Renew
pub mod Results
pub mod Steps
pub mod Table
pub mod Transitions
pub mod Refusals
pub mod Recovery
pub mod Rejection
pub mod Closing
pub mod Channels
pub mod Renewal
pub mod Parties
pub mod Endings
pub mod Agreement
mod Tests
