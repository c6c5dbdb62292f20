-- ===== src/Lib.antt =====
-- A model of Crossbar, a library for publishing data between processes through shared memory, with
-- proofs of what its parts promise.
--
-- The program and its parts. A publisher creates a region of shared memory: a header, a table of
-- topics, a ring of entries for each topic, and a pool of blocks. It takes a block from the pool (a
-- loan), writes into it, and commits it to a topic's ring; subscribers scan the ring, take a reference
-- to the block, read it in place and release it, and the last release puts the block back into the
-- pool. A topic can instead have one pinned block that is written again and again, with a count of
-- readers. `PodBus` is a second pattern: one publisher, a ring of values that are copied, and, on a
-- bounded bus, a table of subscriber cursors by which the publisher is held back.
--
-- Files and what they model:
--   Layout      src/protocol/layout.rs and src/protocol/config.rs: constants, offsets, sizes, the packed
--               words, the URI hash, the test of segment names. Bounds, Words and Names prove.
--   Error       src/error.rs: the error type and results.
--   Region      src/protocol/region.rs. State: the contents of the shared memory as one record. Pool: the
--               free list (alloc_block, free_block, init_free_list, release_block). Ring:
--               commit_to_ring, commit_pinned. FreeList, Init, Contention, ContendedFree and Commit
--               prove.
--   PodBus      src/platform/pod_bus.rs. State, Create (create, create_bounded, the file), Connect
--               (BusSubscriber::connect), Publish (publish, try_publish, the scan of the subscriber
--               slots) and Subscribe (try_recv, claim_subscriber_slot). History, Receive, Seqlock, Torn,
--               Scan, Lossless, NoLoss, Started, Reconnect, Claims and Joined prove.
--   Stream      src/platform/subscription.rs. Receive: try_recv, try_recv_typed, try_recv_pinned and the
--               guards. Safety, History and Append prove.
--   Loan        src/platform/loan.rs. Write: the three kinds of loan, and the readers of the structured
--               layout. Copy, Structured and Deliver prove.
--   Publisher   src/platform/shm.rs. Files (names, locks, the header), Create (create, the drop's file),
--               Open (open_and_validate_region, open, connect), Topics (register_inner, subscribe), Blocks
--               (alloc_cached, the loans, the drop of a publisher) and Publish (publish, publish_typed).
--               Created, Rings, Reconnect, Initial, Kept, Received, First, Validated, Locks, Registered,
--               Refill, Pinned and Abandoned prove.
--   Registry    src/platform/registry.rs. Text (strings in arrays), State, Update (register, unregister,
--               prune_stale), Discover and Open. Strings, Clear, Matching, Found, Count and Reopen prove.
--   Wait        src/wait.rs, src/platform/notify.rs and the waiting receives of
--               src/platform/subscription.rs. Strategy (WaitStrategy, wait_until_not) and Blocking
--               (blocking_recv). Terminates and Wakes prove.
--   Commits     commit_to_ring of src/protocol/region.rs, an access at a time, by publishers in any
--               order. Protocol (the ring as the publishers see it) and Steps. Exclusion, Refines, Sound,
--               Past, Untorn and Alone prove.
--   Channel     src/platform/channel.rs: two regions, one for each direction. Endpoint: listen, connect,
--               wait_for_peer, send and the receives. Early proves.
--   Base        lists, options, tests, bit masks and memory, shared by all.
-- The modules named Tests or CreateTests hold concrete runs.
--
-- How the code is read. Machine words are natural numbers, with `% 2 ^ w` where the code can wrap.
-- The offsets of src/protocol/layout.rs do not wrap in the model, as the code computes them only for
-- a configuration that passed region_size_checked.
-- Memory is a function from index to content. An operation takes the state and returns the state and
-- the result. Atomics are sequentially consistent and a weak compare-exchange does not fail without a
-- cause. What other processes do is an argument: a list of state changes, one for each round of a
-- retry loop, or one state change before each read of shared memory. What the clock reads and whether
-- a process is alive are arguments too. Text in errors is kept as a name for each text.
--
-- Bounds and fuel. A retry loop stops after the last element of its list of interferences, so that no
-- fuel is needed; the loop of the streaming copy has the length of the data as its fuel, which is
-- enough, since a round takes 16 bytes. The wait for a channel's peer is on fuel too, one for a round;
-- it is enough to have more than the rounds that fail. Sequence numbers are below 2^62, which at one
-- publish each nanosecond takes more than a hundred years. Fewer than 2^32 pool operations fall into
-- one round of a retry, which is what the generation in the head of the free list can tell apart.
--
-- Not modelled: the C and Python interfaces, the memory mapping and the operating
-- system's calls, whose answers are arguments, and the texts of the error messages. Outside Commits a
-- commit to a ring runs as one operation; so do registering a topic, allocating through the cache, and
-- every operation of the registry. The search for a text in the registry is on its bytes, which are
-- decoded as String::from_utf8_lossy does. A waiting receive is a list of rounds, with what others do in
-- each; it ends as still waiting when the rounds are used up.
pub mod Base
pub mod Channel
pub mod Commits
pub mod Error
pub mod Layout
pub mod Region
pub mod PodBus
pub mod Stream
pub mod Loan
pub mod Publisher
pub mod Registry
pub mod Wait
