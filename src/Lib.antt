-- ===== src/Lib.antt =====
-- A verification library for the C++ core of DID E2E: threshold sharing of a recovery seed, signed
-- share envelopes, the committee that stores them, tracing, and Merkle paths of identities.
--
-- The parts and how they interact. A dealer splits a seed into sixteen 16-bit chunks, makes each
-- the constant of a polynomial over the field of 65537 elements, and hands every guardian an
-- envelope with the values at a place of its own; the envelopes are signed with a digest over their
-- fields. Committee nodes verify and store envelopes, serve the active ones and invalidate a
-- version. A recovery verifies t envelopes and interpolates the chunks at zero. A trace matches
-- places that leaked with key entries. The client distributes envelopes to the nodes, fetches them
-- for a recovery and invalidates them. An identity state is hashed into a leaf, and a Merkle path
-- leads from the leaf to a root. After a registration the client waits until the bulletin board
-- serves the identity.
--
-- Which file models what:
--   Base      shared names: texts as lists of bytes, `Result` for code that may throw, lists, tests
--   Text      cpp/text_utils.cpp
--   Hex       cpp/hex_utils.cpp
--   Sha256    the hash of cpp/share_envelope.cpp, on words of 32 bits with the wrap-around written out
--   Field     add_mod .. inv_mod of cpp/ttss_nits_shamir.cpp
--   Shamir    poly_eval and lagrange_interpolate_at_zero of cpp/ttss_nits_shamir.cpp
--   Encode    chunks, packed values and field texts of cpp/ttss_nits_shamir.cpp
--   Envelope  cpp/share_envelope.hpp and the checks and signatures of cpp/share_envelope.cpp
--   Ttss      ttss_share_nits_shamir, and in Ttss/Recover ttss_rec_nits_shamir, of
--             cpp/ttss_nits_shamir.cpp
--   Json      cpp/json_utils.cpp and the JSON form of an envelope of cpp/share_envelope.cpp
--   Committee the store and the handlers of cpp/committee_node.cpp
--   Network   cpp/committee_client.cpp and the distribution, invalidation and recovery of
--             cpp/ttss_flow.cpp, over nodes at their addresses
--   Trace     cpp/ttss_trace.cpp and cpp/ttss_trace.hpp
--   Merkle    paths, leaves and bundles of cpp/merkle_poseidon.cpp, and its Poseidon permutation
--   Board     the readers, the probe and the wait for an identity of cpp/http_client.cpp
--   Util      cpp/url_utils.cpp, cpp/csv_utils.cpp, cpp/normalize_utils.cpp, cpp/identity_state.cpp,
--             cpp/zk_public_signals.cpp and split_csv_nonempty of cpp/text_utils.cpp
-- Functions, fields and types keep the source's names in this library's spelling: `idHash` is `id_hash`,
-- `TTSSKeyEntry` is `TtssKeyEntry`. A function that may throw returns a `Result`; a function that
-- returns a flag and writes a reason returns a `Verdict`; a handler takes the store and gives it back.
--
-- Bounds and fuel. The loop of `pow_mod` has 64 rounds, one for each bit of its exponent. The loop
-- of `derive_distinct_x` has the source's 4096 rounds. Decimal texts have at most twenty digits,
-- enough for 64 bits. The loops of Util take as many rounds as the text has characters, and return
-- `none` when the rounds run out on a text that is left. All other loops are on the data.
--
-- Parameters and what is left out. The oracle and the share provider of a trace, the field
-- normalisation and the Poseidon hash of the Merkle code, random texts, the clock and the simulated
-- network are arguments. JSON values are third-party code: Json.Interface is a record of the
-- operations on them that the code calls, with the documented laws of objects and scalars. HTTP is
-- third-party code: a request is the record of the fields that its handler reads, and the texts
-- that the transport leaves for an error are arguments. Tasks that run in parallel are run one
-- after another, in an order that is an argument, since each is one locked call of a handler. The
-- bulletin board is an argument: what it answers to each request while one round of a loop runs,
-- for as many rounds as the clock allows. Floating-point fields of a trace are left out.
--
-- Not modelled: the ZK runners, files and processes, which only call other programs; the posting of
-- registrations and rotations and the flows around it, which put HTTP calls in a row; and everything
-- that is not C++.
pub mod Base
pub mod Text
pub mod Hex
pub mod Sha256
pub mod Field
pub mod Shamir
pub mod Encode
pub mod Envelope
pub mod Ttss
pub mod Committee
pub mod Trace
pub mod Merkle
pub mod Util
pub mod Json
pub mod Network
pub mod Board
