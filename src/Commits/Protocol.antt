-- ===== src/Commits/Protocol.antt =====
-- The commits to one ring, seen from the ring: who has taken a sequence number, who writes to a slot,
-- and which slot holds what.
use crossbar.Base.{ℕ, ◌+◌, Option, none, some, update, ◌==◌, if◌then◌else◌}
use crossbar.Layout.{seq_writing}
use crossbar.Region.State.{RingEntry}
use crossbar.Stream.Receive.{SlotRead}

-- How far a publisher is: without a sequence number, waiting for the slot of its number, or writing
-- to the slot, with the block index written, and the length too.
pub data Phase : Type 0 where
  away : Phase
  waiting holding pointed sized : (seq : ℕ) → (job : SlotRead) → Phase

abbrev pub seq_in : Phase → Option ℕ
seq_in away = none
seq_in (waiting s job) = some s
seq_in (holding s job) = some s
seq_in (pointed s job) = some s
seq_in (sized s job) = some s

-- The sequence number of a publisher that writes to the slot of that number.
abbrev pub writer_in : Phase → Option ℕ
writer_in away = none
writer_in (waiting s job) = none
writer_in (holding s job) = some s
writer_in (pointed s job) = some s
writer_in (sized s job) = some s

-- `last` counts the sequence numbers taken, `history s` is the message of number `s`, and `stolen`
-- counts the unconditional claims of a slot that was being written.
pub record Ring : Type 0 where
  pub row : ℕ → RingEntry
  pub last : ℕ
  pub phase : ℕ → Phase
  pub history : ℕ → SlotRead
  pub stolen : ℕ

abbrev pub set_slot : Ring → (j : ℕ) → RingEntry → ℕ → Phase → Ring
set_slot v j e p f = record v { row = update v.row j e; phase = update v.phase p f }

abbrev pub tally : ℕ → ℕ
tally seq = if seq == seq_writing then 1 else 0

-- What publisher `p` does, where `slot` gives the slot of a sequence number.
pub data Act (slot : ℕ → ℕ) (v : Ring) (p : ℕ) : Phase → Ring → Type 0 where
  rest : (f : Phase) → Act slot v p f (record v { phase = update v.phase p f })
  begin :
      (job : SlotRead)
      → Act slot v p away (record v {
        last = v.last + 1;
        history = update v.history (v.last + 1) job;
        phase = update v.phase p (waiting (v.last + 1) job);
      })
  mark :
      (s : ℕ) (job : SlotRead)
      → Act slot v p
          (waiting s job)
          (record (set_slot v
            (slot s)
            (record (v.row (slot s)) { seq = seq_writing })
            p
            (holding s job)) { stolen = v.stolen + tally (v.row (slot s)).seq })
  point :
      (s : ℕ) (job : SlotRead)
      → Act slot v p (holding s job) (
          set_slot v
            (slot s)
            (record (v.row (slot s)) { block_idx = job.block_idx })
            p
            (pointed s job))
  size :
      (s : ℕ) (job : SlotRead)
      → Act slot v p (pointed s job) (
          set_slot v (slot s) (record (v.row (slot s)) { data_len = job.data_len }) p (sized s job))
  close :
      (s : ℕ) (job : SlotRead)
      → Act slot v p
          (sized s job)
          (set_slot v (slot s) (record (v.row (slot s)) { seq = s }) p away)
