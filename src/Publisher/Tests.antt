-- ===== src/Publisher/Tests.antt =====
-- A topic registered and subscribed to, and a pinned block in use.
use crossbar.Base.{
  ℕ, ◌+◌, ◌≡◌, refl, some, true, false, List, [], ◌∷◌, arith, read_at, none, is_power_of_two,
}
use crossbar.Error.{ok}
use crossbar.Region.State.{Region, u32, set_topic, data_capacity}
use crossbar.Region.Fixture.{blank, blank_topic}
use crossbar.Stream.Receive.{Stream, enter, alone_pinned, try_recv_pinned}
use crossbar.Loan.Write.{PinnedLoan, set_pinned_data, drop_pinned_loan}
use crossbar.Publisher.Abandoned.{drop_pinned_loan-try_recv_pinned}
use crossbar.Layout.{no_block}
use crossbar.Region.Pool.{init_free_list}
use crossbar.Region.FreeList.{FreeList}
use crossbar.Region.Init.{init_free_list-FreeList}
use crossbar.Publisher.Blocks.{Publisher, alloc_cached}
use crossbar.Publisher.Refill.{AllocatesAs, expected, alloc_cached-AllocatesAs}
use crossbar.Stream.History.{Holds}
use crossbar.Stream.Append.{Fresh}
use crossbar.Stream.Fixture.{nothing, three_bytes}
use crossbar.Publisher.Received.{publish_and_receive, publish_and_receive_lem}
use crossbar.Publisher.Topics.{
  Topic, find_topic, has_uri, find_free, claim_topic, register_inner, subscribe,
}
use crossbar.Publisher.Registered.{register_inner-subscribe}
use crossbar.Publisher.Pinned.{here, next, reader_in, Counts, Steps-Counts}

abbrev no_topics : Region
no_topics = record blank { topics = λ i. record blank_topic { active = 0 } }

-- `/t`
abbrev uri : List ℕ
uri = 47 ∷ 116 ∷ []

abbrev topic : Topic
topic = record { topic_idx = 0; publisher_id = 7 }

registers : (register_inner 7 uri 16 no_topics).0 ≡ ok topic
unfolding register_inner find_topic has_uri claim_topic find_free
registers = refl

abbrev after : Region
after = (register_inner 7 uri 16 no_topics).1

register_inner-subscribe_example :
    let t = after.topics 0 in
    subscribe uri after ≡ (
      ok (record { topic_idx = 0; last_seq = t.write_seq; type_size = t.type_size }),
      set_topic after 0 (record t { subscriber_count = u32 (t.subscriber_count + 1) }),
    )
register_inner-subscribe_example = register_inner-subscribe 7 uri 16 no_topics topic registers

-- One reader enters.
abbrev one_reader : Region
one_reader = set_topic blank 0 (record blank_topic { pinned_readers = 1 })

enters : enter 0 blank ≡ some one_reader
unfolding enter
enters = refl

Steps-Counts_example : Counts 0 one_reader 1 false
Steps-Counts_example = Steps-Counts {r = blank} refl (next here (reader_in enters (omega arith)))

abbrev owner : Publisher
owner = record {
  id = 7;
  is_owner = true;
  last_heartbeat = 0;
  loan_count = 0;
  block_cache = [];
  pinned_blocks = λ i. no_block;
  pinned_len = 2;
}

two_blocks-FreeList : FreeList (init_free_list blank) (0 ∷ 1 ∷ [])
two_blocks-FreeList = (init_free_list-FreeList blank (omega arith) (omega arith)).0

-- Both blocks go into the cache, and the last one is handed out.
alloc_cached-AllocatesAs_example :
    AllocatesAs
      (expected (init_free_list blank).last_freed [] (0 ∷ 1 ∷ []))
      owner
      (init_free_list blank)
      (alloc_cached owner (init_free_list blank))
alloc_cached-AllocatesAs_example =
    alloc_cached-AllocatesAs [] owner (init_free_list blank) (0 ∷ 1 ∷ []) two_blocks-FreeList

two_blocks-Holds : Holds nothing 0 (init_free_list blank)
unfolding init_free_list is_power_of_two
two_blocks-Holds = record {
  power = refl;
  depth = omega arith;
  blocks = omega arith;
  room = omega arith;
  recent = λ s pos below near. absurd (omega arith);
  apart = λ s t pos less below near. absurd (omega arith);
  unused = λ s above within. refl;
}

two_blocks-Fresh : Fresh nothing 0 three_bytes (init_free_list blank)
unfolding init_free_list data_capacity
two_blocks-Fresh = record {
  block = omega arith;
  len = omega arith;
  unheld = λ s pos below near. absurd (omega arith);
}

publish_and_receive_lem_example :
    publish_and_receive 0 none (λ b. 0) topic (5 ∷ 6 ∷ 7 ∷ []) owner 0 (init_free_list blank)
    ≡ some (5 ∷ 6 ∷ 7 ∷ [])
unfolding init_free_list expected
publish_and_receive_lem_example =
    publish_and_receive_lem nothing 0 none (λ b. 0) topic (5 ∷ 6 ∷ 7 ∷ []) owner 0
      (init_free_list blank) (0 ∷ 1 ∷ []) 1 refl two_blocks-FreeList refl two_blocks-Holds
      two_blocks-Fresh (omega arith) (omega arith)

-- Block 1 is pinned; number 1 was published with three bytes.
abbrev pinned_once : Region
pinned_once = record blank {
  topics = λ i. record blank_topic { pinned_block = 1; pinned_seq = 4294967299 };
}

abbrev second_loan : PinnedLoan
second_loan = record { capacity = 56; len = 0; block_idx = 1; topic_idx = 0 }

drop_pinned_loan-try_recv_pinned_example :
    let s : Stream = record { topic_idx = 0; last_seq = 0; type_size = 0 } in
    let r1 = (set_pinned_data (9 ∷ 8 ∷ []) second_loan pinned_once).2 in
    let (guard, _, r2) = try_recv_pinned alone_pinned s (drop_pinned_loan second_loan r1) in
    (guard ≡ some (record { block_idx = 1; len = u32 4294967299; topic_idx = 0 }))
    × (read_at (r2.bytes 1) 0 2 ≡ 9 ∷ 8 ∷ [])
drop_pinned_loan-try_recv_pinned_example =
    drop_pinned_loan-try_recv_pinned (9 ∷ 8 ∷ []) second_loan 0 0 pinned_once refl (omega arith)
      (omega arith) (omega arith) (omega arith)
