-- ===== src/Commits/Steps.antt =====
-- `commit_to_ring` of src/protocol/region.rs as a sequence of accesses to shared memory, of any number
-- of publishers in any order. Between them, others may change what no commit to this ring touches.
use crossbar.Base.{ℕ, ◌+◌, ◌≡◌, Bool, not, ◌&&◌, [], ltb, ◌==◌, if◌then◌else◌, update}
use crossbar.Layout.{no_block, seq_writing}
use crossbar.Region.State.{Region, RingEntry, u64, dec32, set_topic, set_entry}
use crossbar.Region.Pool.{free_block}
use crossbar.Region.Ring.{slot_of, mark, smart_wake}
use crossbar.Stream.Receive.{SlotRead}
use crossbar.Commits.Protocol.{tally}

-- The arguments of a commit.
pub record Job : Type 0 where
  pub message : SlotRead
  pub wake : Bool

-- Where a publisher stands, with the local variables that are live there.
pub data Pc : Type 0 where
  idle : Pc
  claiming : (seq spins : ℕ) → Job → Pc  -- head of the loop of step 2
  comparing : (seq spins current : ℕ) → Job → Pc  -- before the compare-exchange
  forcing : (seq : ℕ) → Job → Pc  -- before a store of the mark without a test
  reading : (seq : ℕ) → Job → Pc  -- step 3
  counting pointing sizing closing : (seq old : ℕ) → Job → Pc  -- steps 4 to 6
  releasing recycling : (old : ℕ) → Job → Pc  -- step 7
  freeing : (idx : ℕ) → Job → Pc
  waking : Job → Pc  -- step 8

-- The next commit of a publisher that is idle, and whether a compare-exchange fails without a cause.
pub record Choice : Type 0 where
  pub job : Job
  pub spurious : Bool

module _ (topic_idx : ℕ) where
  -- The entry that the sequence number goes to.
  abbrev pub entry_at : Region → ℕ → RingEntry
  entry_at r seq = r.ring topic_idx (slot_of r seq)

  abbrev pub set_at : Region → ℕ → RingEntry → Region
  set_at r seq e = set_entry r topic_idx (slot_of r seq) e

  -- Step 1.
  unfoldable pub take : (single_publisher : Bool) → Job → Region → Region × Pc
  take single_publisher job r =
      let t = r.topics topic_idx in
      let seq = u64 (t.write_seq + 1) in
      (
        set_topic r topic_idx (record t { write_seq = seq }),
        (if single_publisher then forcing seq job else claiming seq 0 job),
      )

  -- After a load that found the slot in the writing state.
  unfoldable pub spin : (seq spins : ℕ) → Job → Pc
  spin seq spins job =
      if ltb 1024 (spins + 1) then forcing seq job else claiming seq (spins + 1) job

  unfoldable pub look : (seq spins : ℕ) → Job → Region → Region × Pc
  unfolding spin
  look seq spins job r =
      let current = (entry_at r seq).seq in
      (r, (if current == seq_writing then spin seq spins job else comparing seq spins current job))

  unfoldable pub compare : (spurious : Bool) (seq spins current : ℕ) → Job → Region → Region × Pc
  compare spurious seq spins current job r =
      if not spurious && ((entry_at r seq).seq == current)
      then (mark topic_idx (slot_of r seq) r, reading seq job)
      else (r, claiming seq spins job)

  unfoldable pub release : (old : ℕ) → Job → Region → Region × Pc
  release old job r =
      let prev = r.refcount old in
      if not (old == no_block) && ltb old r.config.block_count
      then (
        record r { refcount = update r.refcount old (dec32 prev) },
        (if prev == 1 then recycling old job else waking job),
      )
      else (r, waking job)

  unfoldable pub recycle : (old : ℕ) → Job → Region → Region × Pc
  recycle old job r = (
    record r { last_freed = old },
    (if not (r.last_freed == no_block) then freeing r.last_freed job else waking job),
  )

  -- The next access of a publisher.
  unfoldable pub advance : (single_publisher : Bool) → Choice → Region → Pc → Region × Pc
  unfolding take look compare release recycle
  advance single_publisher choice r idle = take single_publisher choice.job r
  advance single_publisher choice r (claiming seq spins job) = look seq spins job r
  advance single_publisher choice r (comparing seq spins current job) =
      compare choice.spurious seq spins current job r
  advance single_publisher choice r (forcing seq job) =
      (mark topic_idx (slot_of r seq) r, reading seq job)
  advance single_publisher choice r (reading seq job) =
      (r, counting seq (entry_at r seq).block_idx job)
  advance single_publisher choice r (counting seq old job) =
      (record r { refcount = update r.refcount job.message.block_idx 1 }, pointing seq old job)
  advance single_publisher choice r (pointing seq old job) = (
    set_at r seq (record (entry_at r seq) { block_idx = job.message.block_idx }),
    sizing seq old job,
  )
  advance single_publisher choice r (sizing seq old job) = (
    set_at r seq (record (entry_at r seq) { data_len = job.message.data_len }),
    closing seq old job,
  )
  advance single_publisher choice r (closing seq old job) =
      (set_at r seq (record (entry_at r seq) { seq = seq }), releasing old job)
  advance single_publisher choice r (releasing old job) = release old job r
  advance single_publisher choice r (recycling old job) = recycle old job r
  advance single_publisher choice r (freeing idx job) = (free_block [] idx r, waking job)
  advance single_publisher choice r (waking job) = (smart_wake topic_idx job.wake r, idle)

  -- The region with its publishers, and a record of what they did: the number of commits begun, the
  -- message of each, and the number of marks stored without a test on a slot that was being written.
  pub record System : Type 0 where
    pub mem : Region
    pub pc : ℕ → Pc
    pub begun : ℕ
    pub history : ℕ → SlotRead
    pub stolen : ℕ

  abbrev pub begun_after : Pc → ℕ → ℕ
  begun_after idle n = n + 1
  begun_after _ n = n

  abbrev pub history_after : Pc → Choice → (n : ℕ) → (ℕ → SlotRead) → ℕ → SlotRead
  history_after idle choice n h = update h (n + 1) choice.job.message
  history_after _ choice n h = h

  abbrev pub stolen_after : Pc → Region → ℕ → ℕ
  stolen_after (forcing seq job) r n = n + tally (entry_at r seq).seq
  stolen_after _ r n = n

  -- The access of publisher `p`, which stands at `c`.
  unfoldable pub moved : (single_publisher : Bool) → Choice → (p : ℕ) (c : Pc) → System → System
  unfolding advance
  moved single_publisher choice p c s =
      let (r, c') = advance single_publisher choice s.mem c in
      record {
        mem = r;
        pc = update s.pc p c';
        begun = begun_after c s.begun;
        history = history_after c choice s.begun s.history;
        stolen = stolen_after c s.mem s.stolen;
      }

  -- What others leave alone.
  pub record Keeps (r r' : Region) : Type 0 where
    pub same_config : r'.config ≡ r.config
    pub same_row : r'.ring topic_idx ≡ r.ring topic_idx
    pub same_seq : (r'.topics topic_idx).write_seq ≡ (r.topics topic_idx).write_seq

  pub data Steps (s : System) : System → Type 0 where
    here : Steps s s
    publisher :
        {t : System}
        → Steps s t
        → (single_publisher : Bool) (choice : Choice) (p : ℕ)
        → Steps s (moved single_publisher choice p (t.pc p) t)
    others :
        {t : System} → Steps s t → (r : Region) → Keeps t.mem r → Steps s (record t { mem = r })
