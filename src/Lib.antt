-- ===== src/Lib.antt =====
-- A verification library for the Agora training system. It covers the pithos corpus library, and of
-- a worker the activation cache, the metadata of microbatches, the learner of next hops, the balancer
-- and the router that choose the next worker, and the averaging of tensor parts in an all-reduce.
--
-- Parts and files:
-- - pithos/src/pithos/corpus.py, the deterministic build of a corpus from token bytes, in
--   Pithos.Corpus: `ChunkWriter` (ChunkWriter; its contract in Objects; Refine, Entries and Windows
--   prove it), `write_record` and `read_records` (Records; RecordsRoundTrip and Truncation prove
--   them). sha256 is a parameter: only that the same function is used matters. The sink is the list
--   of the calls made to it.
--   `merge_parts` is Merge (heapq.merge as a fold of merges of two; the iterators are the lists that
--   they yield), proved in Keys, Members, Deterministic and Stream.
-- - pithos/src/pithos/manifest.py, the validation of a manifest and its sample arithmetic, in
--   Pithos.Manifest (`Manifest.__init__`) and Manifest.Layout (`layout`); Valid and Locate hold the
--   proofs. Json is what `json.loads` returns; the digest of a manifest's canonical JSON text is a
--   parameter, since nothing but its equality with the reported one is used.
-- - pithos/src/pithos/runtime.py, `Corpus.read` and `read_strided`, in Pithos.Runtime, with the
--   reference reader of pithos/src/pithos/torch.py (`StreamShard`); Rows, Read, Reference and Epoch
--   hold the proofs. The chunk cache is a function from chunk indices that may raise, fixed during a
--   read; the shuffle (blake2b and numpy's generator) is a parameter of which IsShuffle states what
--   numpy documents. The state of a reader that matters is its permutation cache.
-- - pithos/src/pithos/cache.py, the resident chunks of `ChunkCache`, in Pithos.ChunkCache: its critical
--   sections as steps that threads run in any order (Budget, Sections, Steps), and `get` as a whole
--   against `_ensure`, a parameter (Transparent), which is the ground for a fixed fetch in Runtime.
-- - pithos/src/pithos/prefetch.py, `Prefetcher`, with the requests of `Corpus._fetch`, in
--   Pithos.Prefetcher (proved in Warm), over a fetch that is a function of the name.
-- - agora_server/src/agora_server/core/server/activation_cache.py, `ActivationCache`, in
--   Server.ActivationCache; Queue is its contract, a queue of entries that forgets the counters;
--   Models, Refine, History and Fresh hold the proofs. Each method runs under a lock, so it is one
--   step, and the handler processes' interleavings are the sequences of calls of History.
-- - agora_server/src/agora_server/core/batch_metadata.py, `BatchMetadata`, in Server.BatchMetadata
--   (proved in RoundTrip), with the key that the activation cache takes from it. The serializer is a
--   parameter; the dict that it writes and loads is a Json object.
-- - agora_server/src/agora_server/core/server/w2w_coordinator.py, `NextHopLearner`, in
--   Server.NextHopLearner (proved in Sampling), over the metadata parser as a parameter.
-- - agora_server/src/agora_server/core/server/expert_balancer.py, `ExpertBalancer`, in
--   Server.ExpertBalancer: its tables (State) over a heap that is the sorted list of its entries
--   (Heap), the reservations (Reserve), the context managers (Use) and a round of the update thread
--   (Refresh). Well, Least, Grants, Calls, Rounds, Views, Peek and Bans hold the proofs. Floats other
--   than nan, `TimedStorage` and `PerformanceEMA` (of the hivemind copy) are parameters; each holder
--   of the lock is one step, at one time, and a history is any list of calls.
-- - agora_server/src/agora_server/core/server/w2w_local_router.py, `W2WLocalRouter` with the members
--   and the mailbox that it shares, in Server.W2wLocalRouter, a client of Server.ExpertBalancer; its
--   lifetime is a list of the events of Events. Polls and Leases, then Lasting, Unbanned, Present and
--   Hops hold the proofs.
-- - agora_server/src/agora_server/core/all_reduce/partition.py, `TensorPartContainer`, in
--   Server.TensorParts (Order, RoundTrip, Total, Failed); tensors are flat, the pivots a parameter.
--   `TensorPartReducer` of the same file is in its Reducer: its state and events, Runs for the order
--   in which the runner (ar_runner.py beside it) makes them and Log for what is contributed; Senders,
--   Underway and Parts, then Progress, Averaged, Contributions, Averages and Cancelled hold the proofs.
--   A coroutine is its code up to an await, so that events of different senders interleave freely.
--
-- A corpus passes these parts in order: records are merged and cut into objects (Corpus), a manifest
-- that names them is validated (Manifest), and readers find samples by it (Runtime). Errors are the
-- constructors of Pithos.Errors; a function that may raise returns an Outcome of Prelude.Raising.
--
-- Fuel: `read_loop` of Records takes the length of the input, of which every round consumes a byte at
-- least; `drain` takes the length of the buffer, of which every cut drops four bytes at least;
-- `read_loop` of Runtime takes the number of rows, of which every round writes one at least. The
-- `shrink` of Server.ActivationCache takes the number of entries, of which every round evicts one, and
-- that of ChunkCache one more than the number of residents. The results below count on it being
-- enough.
--
-- Not modelled: the hivemind copy, the torch models, threads, sockets, redis, the command line and
-- the collection of metrics; of the all-reduce, the streams between peers and the matchmaking.
pub mod Json
pub mod Pithos
pub mod Prelude
pub mod Server
