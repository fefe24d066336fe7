-- ===== src/Lib.antt =====
-- A verification library of keraunos, a Lightning node: the code below is under src/ of the repository.
--
-- The parts, from the bottom up.
--
-- Prelude: Booleans, lists and words over the native numbers. A u64 keeps its wrap-around (`add64`,
-- `sub64`, `mul64` of Prelude/Words.antt), as in a release build; `-` on numbers stops at 0 and stands
-- only where the source saturates or where a guard makes the two agree.
-- Prelude/Sort is the stable `sort_by` of Rust's standard library over a comparison; LittleEndian,
-- Positions and Fields (the parts of a word) are lemmas.
-- Types: src/types.rs. Amounts, short channel ids and fee rates are numbers, byte arrays are lists.
-- Wire: src/wire/ser.rs, bigsize.rs and tlv.rs. A writer is the bytes written so far, a reader takes the
-- bytes left and returns a value with the rest, or a `WireError`. The loop of `tlv::parse_stream` is
-- recursion on fuel; each round reads at least a byte, so the length of the input is enough fuel, and a
-- theorem says that it is. The parser of a point or a signature is an argument.
--   Msgs: src/wire/msgs.rs. Data has the messages, Write and Put `encode`, Read, Gossip, Tlvs, Records
--   and Decode `decode`, one reader for an arm of the source's match; RoundTrip has the proofs. A feature
--   vector is its bytes. The loop of `read_addresses` has the length of its input as fuel: a round reads
--   at least a byte.
-- Shachain: src/shachain.rs. A store is a list of 49 slots, and a slot out of range is a panic. SHA-256 is an argument; nothing is assumed of
-- it. The loops run over at most 49 slots or 48 bits, by structural recursion.
-- Bitcoin: src/bitcoin/script.rs, tx.rs and encode.rs: opcodes, the script builder, and the writing of
-- transactions. SHA-256 and RIPEMD-160 are the record `Hashes`. The magnitude of a script number is
-- written in at most eight rounds, which a 64-bit number needs at most.
-- Commitment: src/commitment/mod.rs, and the data of src/keys.rs. Scripts, Build (the staged outputs,
-- their order and what each origin records when it is placed) and Witness are the code; StagedOutputs,
-- Order, Places, Indices, Panics and Value prove what a commitment transaction is, and `with_builder` of Panics puts the
-- builder in the place of the channel's parameter.
-- Channel: src/channel/mod.rs and src/channel/dance.rs. `Channel` has the source's fields; a handler
-- takes a channel and returns the changed one with a `Result`, whose `panic` is a failed `expect`,
-- `unreachable!` or index. Channel/Env.antt is what the channel calls on the other side of the module
-- boundary: the signer, the curve, the hash, and the builders of keys and transactions; of these only
-- `PlacesHtlcs` is ever assumed, and only where a theorem names it; Commitment/Panics has the builder for
-- which it is a theorem.
--   Channel/Data, Messages: the data. Balance: balances and garbage collection. Build: the parameters,
--   signing and verifying of commitments. Htlcs, Send, Receive: the updates. Commit, Revoke: the two
--   messages of the dance, and the flush of the holding cell. Open: from `open_channel` to
--   `channel_ready`. Phases, Invariant: the pairs of phases that an HTLC passes through and the invariant
--   that every handler keeps. Accounts, Limits, Promises: money, limits, signatures and secrets.
--   Close: src/channel/close.rs, with the negotiation of the fee in Close/Negotiate; Sound, InRange, Agreement
--   and Exchange have the proofs. Disconnect and
--   Reestablish: src/channel/reestablish.rs, the roll-back when the transport drops and the answer to
--   `channel_reestablish`.
-- The Examples modules hold concrete runs.
--
-- A panic ends the node, so the channel beside a `panic` stands for nothing. Text of an error is kept as
-- the literal or its format and arguments. `debug_assert!` is not modelled.
--
-- Not modelled: the reading of transactions and the sighash, the derivation of keys over the curve, the
-- bits of features, noise, onion, invoices, graph, router, chain watching, node, ciphers and hashes.
pub mod Prelude
pub mod Types
pub mod Wire
pub mod Shachain
pub mod Bitcoin
pub mod Commitment
pub mod Channel
