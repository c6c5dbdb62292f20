-- ===== src/PodBus/Seqlock.antt =====
-- A subscriber reads while the publisher writes: the publisher's steps one by one, the data word by
-- word. Atomics are sequentially consistent.
use crossbar.Base.{
  ℕ, ◌+◌, ◌*◌, ◌%◌, ◌^◌, ◌≤◌, ◌<◌, ◌≡◌, refl, sym, ◌∙◌, Bool, arith, if◌then◌else◌, update,
}
use crossbar.PodBus.State.{PodBus, SubscriberSlot, Value, index_of, u64}
use crossbar.PodBus.Publish.{set_stamp}

-- Where the publisher stands: before a publish, between the two stamps, after the even stamp.
pub data Phase : Type 0 where
  idle writing stamped : Phase

-- The words that `m` picks are those of the value that is being published.
abbrev pub set_words : (ℕ → Value) → (ℕ → Bool) → PodBus → PodBus
set_words h m b =
    let idx = index_of b.ring_size b.write_seq in
    record b {
      ring = update b.ring idx (record (b.ring idx) {
        value = λ k. if m k then h b.write_seq k else (b.ring idx).value k;
      });
    }

-- Memory accesses of the publisher, one at a time, but for the words of the data, which are written in any
-- groups and any order until all are in place; and what others do. `h w` is the value that is
-- published as number `w`.
pub data Step (h : ℕ → Value) (b : PodBus) : Phase → PodBus → Phase → Type 0 where
  begin : b.write_seq < 2 ^ 62 → Step h b idle (set_stamp (u64 (b.write_seq * 2 + 1)) b) writing
  words : (m : ℕ → Bool) → Step h b writing (set_words h m b) writing
  close :
      (b.ring (index_of b.ring_size b.write_seq)).value ≡ h b.write_seq
      → Step h b writing (set_stamp (u64 (b.write_seq * 2 + 2)) b) stamped
  advance : Step h b stamped (record b { write_seq = u64 (b.write_seq + 1) }) idle
  beat : {p : Phase} (now : ℕ) → Step h b p (record b { heartbeat = now }) p
  slots : {p : Phase} (f : ℕ → SubscriberSlot) → Step h b p (record b { slots = f }) p

pub data Steps (h : ℕ → Value) (b : PodBus) (p : Phase) : PodBus → Phase → Type 0 where
  here : Steps h b p b p
  next : {c d : PodBus} {q r : Phase} → Steps h b p c q → Step h c q d r → Steps h b p d r

-- The stamp of the slot that is being written.
abbrev top : Phase → ℕ → ℕ
top idle w = w * 2
top writing w = w * 2 + 1
top stamped w = w * 2 + 2

-- The slot of the sequence number, in each phase.
abbrev Current : (ℕ → Value) → PodBus → Phase → Type 0
Current h b idle = Unit
Current h b writing =
    (b.write_seq < 2 ^ 62)
    × ((b.ring (index_of b.ring_size b.write_seq)).stamp ≡ b.write_seq * 2 + 1)
Current h b stamped =
    (b.write_seq < 2 ^ 62)
    × ((b.ring (index_of b.ring_size b.write_seq)).stamp ≡ b.write_seq * 2 + 2)

-- No stamp is ahead of the publisher, and a slot under the committed stamp of a sequence number holds
-- the value that was published under that number.
pub record Inv (h : ℕ → Value) (b : PodBus) (p : Phase) : Type 0 where
  pub stamps : (i : ℕ) → (b.ring i).stamp ≤ top p b.write_seq
  pub current : Current h b p
  pub committed : (i s : ℕ) → (b.ring i).stamp ≡ s * 2 + 2 → (b.ring i).value ≡ h s

Nat_squeeze : {a b c : ℕ} → a ≤ b → b ≤ c → c ≡ a → b ≡ a
Nat_squeeze p q e = omega arith

Step-Inv : {h : ℕ → Value} {b c : PodBus} {p q : Phase} → Step h b p c q → Inv h b p → Inv h c q
Step-Inv {h} {b} (begin room) i = record {
  stamps = λ j. ground (arith, i.stamps j);
  current = ground arith;
  committed = λ j s. ground (arith, i.committed j s);
}
Step-Inv {h} {b} (words m) i = record {
  stamps = λ j. ground (arith, i.stamps j);
  current = ground arith;
  committed = λ j s. ground (arith, i.committed j s);
}
Step-Inv {h} {b} (close done) i = record {
  stamps = λ j. ground (arith, i.stamps j);
  current = ground arith;
  committed = λ j s. ground (arith, i.committed j s);
}
Step-Inv {h} {b} advance i = record {
  stamps = λ j. ground (arith, i.stamps j);
  current = tt;
  committed = λ j s. i.committed j s;
}
Step-Inv (beat {p = idle} now) i = record {
  stamps = i.stamps;
  current = tt;
  committed = i.committed;
}
Step-Inv (beat {p = writing} now) i = record {
  stamps = i.stamps;
  current = i.current;
  committed = i.committed;
}
Step-Inv (beat {p = stamped} now) i = record {
  stamps = i.stamps;
  current = i.current;
  committed = i.committed;
}
Step-Inv (slots {p = idle} f) i = record {
  stamps = i.stamps;
  current = tt;
  committed = i.committed;
}
Step-Inv (slots {p = writing} f) i = record {
  stamps = i.stamps;
  current = i.current;
  committed = i.committed;
}
Step-Inv (slots {p = stamped} f) i = record {
  stamps = i.stamps;
  current = i.current;
  committed = i.committed;
}

pub Steps-Inv :
    {h : ℕ → Value} {b : PodBus} {p : Phase} {c : PodBus} {q : Phase}
    → Steps h b p c q
    → Inv h b p
    → Inv h c q
Steps-Inv here i = i
Steps-Inv (next r st) i = Step-Inv st (Steps-Inv r i)

-- Stamps never fall, and under an even stamp that stays the data stays.
pub record Kept (b c : PodBus) (i : ℕ) : Type 0 where
  pub rises : (b.ring i).stamp ≤ (c.ring i).stamp
  pub stays :
      (b.ring i).stamp % 2 ≡ 0
      → (c.ring i).stamp ≡ (b.ring i).stamp
      → (c.ring i).value ≡ (b.ring i).value

Step-Kept :
    {h : ℕ → Value} {b c : PodBus} {p q : Phase} → Step h b p c q → Inv h b p → (i : ℕ) → Kept b c i
Step-Kept {h} {b} (begin room) v i = record {
  rises = ground (arith, v.stamps i);
  stays = ground (arith, v.stamps i);
}
Step-Kept {h} {b} (words m) v i = record { rises = ground arith; stays = ground arith }
Step-Kept {h} {b} (close done) v i = record { rises = ground arith; stays = ground arith }
Step-Kept advance v i = record { rises = omega arith; stays = λ _ _. refl }
Step-Kept (beat now) v i = record { rises = omega arith; stays = λ _ _. refl }
Step-Kept (slots f) v i = record { rises = omega arith; stays = λ _ _. refl }

pub Steps-Kept :
    {h : ℕ → Value} {b : PodBus} {p : Phase} {c : PodBus} {q : Phase}
    → Steps h b p c q
    → Inv h b p
    → (i : ℕ) → Kept b c i
Steps-Kept here v i = record { rises = omega arith; stays = λ _ _. refl }
Steps-Kept (next r st) v i =
    let k = Steps-Kept r v i in
    let l = Step-Kept st (Steps-Inv r v) i in
    let first = k.rises in
    let second = l.rises in
    record {
      rises = omega arith;
      stays = λ even same.
          let mid = Nat_squeeze first second same in
          l.stays (rw mid even) (same ∙ sym mid) ∙ k.stays even mid;
    }
