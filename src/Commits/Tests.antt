-- ===== src/Commits/Tests.antt =====
-- Two publishers and a subscriber on one ring, in a fixed order.
use crossbar.Base.{
  ℕ, ◌≡◌, refl, false, some, Bool, List, [], if◌then◌else◌, ◌==◌, ◌∷◌, arith, replicate, ◌++◌,
}
use crossbar.Region.State.{Region, data_capacity, set_entry}
use crossbar.Region.Fixture.{blank}
use crossbar.Region.Pool.{free_block, free_from}
use crossbar.Region.Ring.{slot_of, smart_wake, commit_to_ring}
use crossbar.Stream.Receive.{Stream, SlotRead, During, try_read_slot_raw}
use crossbar.Commits.Steps.{
  Choice, System, Steps, here, publisher, advance, moved, take, look, compare, release, recycle,
}
use crossbar.Commits.Sound.{Sound, started, started-Sound, Steps-Sound}
use crossbar.Layout.{seq_writing}
use crossbar.Commits.Alone.{commit_alone, commit_alone-commit_to_ring}
use crossbar.Commits.Untorn.{Watched, try_read_slot_raw_untorn}

-- Publisher 0 commits block 0, and every other publisher block 1.
abbrev choice_of : ℕ → Choice
choice_of p = record {
  job = record {
    message = record { block_idx = if p == 0 then 0 else 1; data_len = if p == 0 then 3 else 5 };
    wake = false;
  };
  spurious = false;
}

-- Whether a publisher tests nothing before it marks the slot.
abbrev several : ℕ → Bool
several p = false

unfoldable run : (single : ℕ → Bool) → List ℕ → System 0 → System 0
run single [] t = t
run single (p ∷ ps) t = run single ps (moved 0 (single p) (choice_of p) p (t.pc p) t)

run-Steps :
    (single : ℕ → Bool) (ps : List ℕ) {s t : System 0} → Steps 0 s t → Steps 0 s (run single ps t)
unfolding run
run-Steps single [] x = x
run-Steps single (p ∷ ps) x = run-Steps single ps (publisher x (single p) (choice_of p) p)

-- Publisher 0 has committed.
abbrev committed : System 0
committed = run several (replicate 10 0) (started 0 blank)

committed-Sound : Sound 0 committed
unfolding run moved advance take look compare release slot_of smart_wake
committed-Sound =
    Steps-Sound 0 (run-Steps several (replicate 10 0) here) (started-Sound 0 blank refl (λ j. refl))
      (omega arith) refl

-- Publisher 1 takes a number while the block index is read, and looks at its slot before the check.
abbrev taken : System 0
taken = run several (1 ∷ []) committed

abbrev looked : Region → System 0
looked held = run several (1 ∷ []) (record taken { mem = held })

abbrev during : During
during = record {
  at_block = λ r. (advance 0 false (choice_of 1) r (committed.pc 1)).0;
  at_len = λ r. r;
  at_refcount = λ r. r;
  at_recheck = λ r. (advance 0 false (choice_of 1) r (taken.pc 1)).0;
}

during-Watched : Watched 0 during committed taken taken taken looked
unfolding run moved advance take look compare release slot_of smart_wake
during-Watched = record {
  to_block = run-Steps several (1 ∷ []) here;
  at_block = refl;
  to_len = here;
  at_len = refl;
  to_refcount = here;
  at_refcount = refl;
  to_recheck = λ held k. run-Steps several (1 ∷ []) here;
  at_recheck = λ held k. refl;
  room = λ held k. omega arith;
  kept = λ held k. refl;
}

abbrev stream : Stream
stream = record { topic_idx = 0; last_seq = 0; type_size = 0 }

abbrev message : SlotRead
message = record { block_idx = 0; data_len = 3 }

reads : (try_read_slot_raw during 1 stream committed.mem).0 ≡ some message
unfolding run moved advance take look compare release slot_of smart_wake try_read_slot_raw
    data_capacity
reads = refl

try_read_slot_raw_untorn_example : message ≡ committed.history 1
try_read_slot_raw_untorn_example =
    try_read_slot_raw_untorn during 1 stream committed taken taken taken looked committed-Sound
      during-Watched (omega arith) (omega arith) message reads

Steps-Sound_example : Sound 0 taken
unfolding run moved advance take look compare release slot_of smart_wake
Steps-Sound_example =
    Steps-Sound 0 (run-Steps several (1 ∷ []) here) committed-Sound (omega arith) refl

-- The slot of the next number is stuck in the writing state.
abbrev stuck : Region
stuck = set_entry blank 0 1 (record { seq = seq_writing; block_idx = 0; data_len = 3 })

commit_alone-commit_to_ring_example :
    commit_alone 0 false (choice_of 1).job 1037 stuck
    ≡ some (commit_to_ring 1 5 0 false false stuck)
commit_alone-commit_to_ring_example =
    commit_alone-commit_to_ring 0 false (choice_of 1).job 1037 stuck (omega arith)

-- Publisher 0 has created the region, and so tests nothing. Publisher 1 is slow: it has taken number 1
-- and written its block index when publisher 0 comes to number 5, which has the same slot. The
-- entry that stands under number 5 then has the length of message 1.
abbrev creator : ℕ → Bool
creator p = p == 0

abbrev mixed : System 0
mixed =
    run creator (replicate 6 1 ++ (replicate 27 0 ++ (replicate 6 0 ++ (1 ∷ 0 ∷ []))))
      (started 0 blank)

torn :
    (mixed.mem.ring 0 1 ≡ record { seq = 5; block_idx = 0; data_len = 5 })
    × (mixed.history 5 ≡ message)
    × (mixed.stolen ≡ 1)
unfolding run moved advance take look compare release recycle slot_of smart_wake free_block
    free_from
torn = (refl, refl, refl)
