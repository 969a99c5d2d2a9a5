-- ===== src/Lib.antt =====
-- rust-dlc: discreet log contracts on bitcoin, in Rust. This library models the parts of it that decide
-- where money goes and what is remembered, and proves what makes them correct.
--
-- The program's parts. The crate dlc makes the transactions of a contract from the parameters of the
-- two parties: a fund transaction, a contract execution transaction (CET) for each payout, and a
-- refund transaction; in a channel also buffer, settle and close transactions. The crate dlc-trie
-- writes a range of numeric outcomes as digit prefixes, one adaptor signature for each. The crate
-- dlc-messages carries the messages of the protocol, in segments when they are large. The crate
-- dlc-manager runs the protocol, and watches the chain for the transactions of its channels.
--
-- Base: shared names, Boolean tests, lists over the native numbers, results with panics (Outcome),
--   hash maps as lists of entries (Base/Map), and the rounding of f64 (Base/Float).
-- Digits: dlc-trie/src/digit_decomposition.rs (decompose_value, compose_value, take_prefix,
--   remove_tail, group_by_ignoring_digits, and in Digits/Pad pad_range_payouts). The loops of
--   group_by_ignoring_digits are functions on fuel, (digits + 2) * (base + 1) rounds for the two
--   that change the length of the stack and base + 1 for the one that does not; decompose_value has
--   65. The theorems show that this is enough: they give a result, and it is never the error that
--   stands for a loop still running.
-- Dlc: dlc/src/lib.rs and dlc/src/util.rs (Types, Fee, Party, Order, Fund, Cet) and
--   dlc/src/channel/mod.rs (Channel). A number of type u64 or usize is below 2 ^ 64; unchecked
--   arithmetic wraps, as in a release build. The factors 0, 0.5 and 1 of the fees are counted in halves,
--   which is exact for the two weights that they multiply.
-- Trie: dlc-trie/src/digit_trie.rs, the store of a trie, its dump and how it is restored.
-- Combinations: dlc-trie/src/combination_iterator.rs. The loop over the combinations runs on fuel, one
--   round more than choose n k, the number of the combinations, and the theorems show that this is enough.
-- Contracts: dlc-manager/src/contract/enum_descriptor.rs and utils.rs, the adaptor points of dlc/src/lib.rs
--   (Points), and of dlc-manager/src/manager.rs and utils.rs what a contract is closed with (Closable).
--   A text is a number. Sequence, Groups and Answer hold the lemmas for
--   Signatures, Matching and Closing, and Votes those for Found.
-- PayoutCurve: dlc-manager/src/payout_curve.rs: validation, evaluation (Evaluate) and ranges (Ranges). The
--   loop over the outcomes of a piece is recursion on the rounds that are left.
-- Segmentation: dlc-messages/src/segmentation/mod.rs and segment_reader.rs.
-- Handler: dlc-messages/src/message_handler.rs, and the message types of dlc-messages/src/lib.rs.
-- Monitor: dlc-manager/src/chain_monitor.rs.
-- Updater: dlc-manager/src/channel_updater.rs, with the signed channel of dlc-manager/src/channel and its
--   base points (Types, Services). A function that takes the channel by a mutable reference is a step on
--   the channel and the chain monitor (Exec) that gives the context back beside an error, with what was
--   written before it. Settle, Finalize, Reject, Close, Offer and Renew hold the functions, and Channels
--   the stages of dlc-manager/src/channel/mod.rs; Steps makes the functions the calls of one party, and
--   Parties, Closing and Renewal let two parties exchange their messages.
--
-- Other code is a parameter: the record Bitcoin of Dlc/Types (scripts, transaction ids and keys of the
-- crates bitcoin and secp256k1), the record Descriptors of Dlc/Channel (the scripts of miniscript),
-- the record Codec of Handler (the bytes of messages), and the record Services of Updater (the curve, the
-- adaptor signatures and the store of secrets of secp256k1-zkp and lightning, the signer and the time).
-- The records OracleCurve of Contracts/Points (hashes, points and adaptor signatures), HashOrder of
-- Contracts/Majority (the order in which a hash map is visited), Oracles of Contracts/Closable (the
-- oracle clients) and Floats of PayoutCurve/Evaluate (f64, and the binary search) are parameters too.
-- The record Conversions of Updater/Offer holds the conversion of a contract to a message, which is code
-- of dlc-manager that is not modelled. Locks are left out: every operation of the handler
-- and of the monitor runs to its end before the next. The iteration of a hash map
-- in Updater, Monitor and Handler is in the order of its entries.
--
-- Debug assertions, which a release build leaves out, are left out too.
--
-- Not modelled: signatures and adaptor signatures, which the crate secp256k1 makes; insertion and lookup in a
-- trie, and so contracts with numerical outcomes; the punishment transactions; the setup of a channel, the
-- signing of contracts and the unilateral close; the state machines of contracts and sub channels; the
-- storage, wallet and blockchain providers.
pub mod Base
pub mod Digits
pub mod Dlc
pub mod Segmentation
pub mod Monitor
pub mod Handler
pub mod Updater
pub mod Trie
pub mod Combinations
pub mod Contracts
pub mod PayoutCurve
