-- ===== src/Lib.antt =====
-- Rateless set reconciliation: the coding packages and the simulators on them.
--
-- Two parties each hold a set of symbols. The package riblt encodes a set as an endless stream of
-- coded symbols, each the XOR of the source symbols mapped to its index; a decoder that takes its own
-- set out of the other party's coded symbols peels the rest, and so finds the symmetric difference.
-- The package des is a discrete-event simulator; newsim runs servers on it that reconcile
-- transactions by riblt or by announcements. The package lt is an earlier code, over a window of the
-- most recent transactions: its encoder sums random transactions of the window, and its decoder peels
-- the sums. The program simulator runs servers on it.
--
-- Base: what the modules share: Boolean tests on numbers, lists indexed by numbers, slices written in
--   place (Array), the laws of exclusive or (Xor), machine words (Word), integers and their int64 (Int),
--   cuts of a list and counts of its entries (Cut), maps (Table), and how a call ends (Outcome).
-- Heap: a binary heap in a list, for riblt/encoder.go (fixHead, fixTail) and for container/heap in
--   des/simulator.go. The order is an interface, Order, which each of the two queues fills. A sift
--   runs on fuel above the number of entries, which is enough (Up, Down).
-- Riblt/Symbol: riblt/symbol.go. The interface Symbol is an instance argument; what it documents of
--   XOR is the hypothesis IsXor. Counts are int64 in two's complement, hashes are 64-bit numbers.
-- Riblt/Mapping: riblt/random.go. `next_index` is nextIndex; the steps to advance, which Go computes
--   in floating point, are the parameter Jump. `Moves n` says that a mapping, as long as it is below
--   `n`, moves on to an index that fits an `int`: Go's conversion `int(m.lastIdx)` keeps the bits, and an
--   index from 2^63 on is negative.
-- Riblt/Window: riblt/encoder.go, with codingWindow as a record, and `apply_window`,
--   `add_hashed_symbol_with_mapping` and `produce_next_coded_symbol` for its methods. The loop of
--   applyWindow runs on fuel; more rounds than there are symbols are enough. Spec and Visit define the
--   stream without a queue, Apply and Grow hold the invariant, Stream the
--   refinement, and Negative is about an index that is negative as an `int`.
-- Riblt/Sketch: riblt/sketch.go. A walk along the cells needs more fuel than there are cells.
-- Riblt/Decoder: riblt/decoder.go. `count` and `pending` are in two's complement. Receive and Peel
--   hold the invariant of what the cells hold. The loop of
--   TryDecode takes its own number of rounds besides the fuel of the walks.
-- Des: des/simulator.go. Modules, payloads and the handlers' state are types of the caller; times are
--   those of an `int64`, whose sum with a delay wraps around, and the panic on a message in the past is
--   a result.
-- Newsim/Metric, Transaction, Message: newsim/filter.go, types.go and messages.go. SipHash is a
--   parameter.
-- Newsim/Shard and Coding: newsim/coding.go. Sending and Receiving are the two ends, and Coding joins
--   them; a nil sender or receiver is `none`. float64 is the parameter Floats. `rounds` bounds the
--   loop that fills the send window and the loop of TryDecode.
-- Newsim/Pull: newsim/pull.go, with the map of known transactions as an association list.
-- Newsim/Server: newsim/module.go. A module is a number, and a map from modules an association list;
--   the algorithm between two servers is the interface Algorithm, which Pull fills in the tests.
--   Handle has HandleMessage, Accept what the decoded transactions do to a server.
-- Lt/Encoder: lt/encoder.go and lt/transaction.go. The salted hash, the random source and the degrees are
--   parameters; the one assumption on the random source is that Intn stays below its argument. Window
--   has AddTransaction, Shuffle the sampling of a codeword.
-- Lt/Links and Decoder: lt/decoder.go. A pointer is a number into the memory of its type, and the
--   memory is part of the decoder. Links has the codewords and pending transactions with what
--   markDecoded, peelTransaction and failToDecode do to them: Marking, Visit and Mark are about the
--   loop of markDecoded, Taking about the codeword that leaves the queue, Fail about one that cannot
--   be decoded. Decoder has the rest: Memory is about what is remembered, Peeling and Round about one
--   codeword from the stack, Building, Adding and Closing about a codeword that is linked to its
--   members, Accept about the calls. decodeCodewords runs on fuel: more rounds than there are codewords
--   are enough.
-- Simulator: the program simulator, on lt. Transaction and Message: simulator/transaction.go and
--   messages.go. Sender and Receiver: simulator/node.go, with float64 and the soliton distribution as
--   parameters; Block, Encoding and Fill are about the send window, whose loop needs more fuel than the
--   window has room. A server's receivers share its decoder, which is an argument of `on_codeword`.
--   Limiter and Server: simulator/module.go, with HandleMessage in Handle, newServers in Start and the
--   received set in Register. The times of Limiter are those of an `int64`. The order in which Go visits the map of peers is that of the association
--   list. The senders of a server share a random source; here each encoder has a state of its own, since
--   nothing is said of the numbers drawn.
-- Ldpc: ldpc/transaction.go and ldpc/encoder.go. Transactions are lists of bytes; BLAKE2b and the steps
--   of the reservoir, which Go computes in floating point, are parameters, and the object pools are left
--   out; a step may be negative, and a negative index panics. Marshal is about the encoding of transactions, Reservoir about the sampling, whose loop runs on
--   fuel: more rounds than the window has transactions are enough.
--
-- Not modelled: iblt, which is a copy of lt; ldpc/decoder.go, which is lt/decoder.go with object pools;
-- node, which runs goroutines on connections; and the programs for benchmarks, experiments and the
-- testbed, which only measure and control machines.
pub mod Base
pub mod Heap
pub mod Riblt
pub mod Des
pub mod Newsim
pub mod Lt
pub mod Simulator
pub mod Ldpc
