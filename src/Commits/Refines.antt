-- ===== src/Commits/Refines.antt =====
-- The accesses of `commit_to_ring` are acts on the ring.
use mathlib.Core.Path.{subst, fun_ext}
use native.Mathlib.Nat.{mod-eq_of_lt}
use crossbar.Base.{
  ℕ, ◌+◌, ◌<◌, ◌^◌, ◌≡◌, ◌≢◌, refl, sym, ap, ◌∙◌, Bool, not, ◌&&◌, inl, inr, [], arith, ltb, ◌==◌,
  update, Bool-cases, eq→==,
}
use crossbar.Layout.{no_block, seq_writing}
use crossbar.Region.State.{Region, RingEntry, u64, dec32, set_entry}
use crossbar.Region.Pool.{free_block}
use crossbar.Region.Ring.{slot_of, mark, smart_wake}
use crossbar.Region.Commit.{free_block-Released, smart_wake-Released, keep-Released}
use crossbar.Stream.Receive.{SlotRead}
use crossbar.Commits.Protocol.{
  Phase, away, waiting, holding, pointed, sized, Ring, Act, set_slot, tally,
}
use crossbar.Commits.Steps.{
  Job, Pc, idle, claiming, comparing, forcing, reading, counting, pointing, sizing, closing,
  releasing, recycling, freeing, waking, Choice, System, begun_after, advance, moved, take, look,
  spin, compare, release, recycle,
}

abbrev pub phase_of : Pc → Phase
phase_of idle = away
phase_of (claiming seq spins job) = waiting seq job.message
phase_of (comparing seq spins current job) = waiting seq job.message
phase_of (forcing seq job) = waiting seq job.message
phase_of (reading seq job) = holding seq job.message
phase_of (counting seq old job) = holding seq job.message
phase_of (pointing seq old job) = holding seq job.message
phase_of (sizing seq old job) = pointed seq job.message
phase_of (closing seq old job) = sized seq job.message
phase_of (releasing old job) = away
phase_of (recycling old job) = away
phase_of (freeing idx job) = away
phase_of (waking job) = away

-- A loaded sequence number that goes into the compare-exchange is not the mark.
abbrev pub Seen : Pc → Type 0
Seen (comparing seq spins current job) = current ≢ seq_writing
Seen _ = Unit

-- The ring of the topic in a system.
abbrev pub ring_of : (topic_idx : ℕ) → System topic_idx → Ring
ring_of topic_idx s = record {
  row = s.mem.ring topic_idx;
  last = s.begun;
  phase = λ q. phase_of (s.pc q);
  history = s.history;
  stolen = s.stolen;
}

phase_of-update :
    (pc : ℕ → Pc) (p : ℕ) (c : Pc)
    → (λ q. phase_of (update pc p c q)) ≡ update (λ q. phase_of (pc q)) p (phase_of c)
phase_of-update pc p c =
    fun_ext
      (λ q. elim (Bool-cases (p == q)) [ inl same ↦ rw same refl | inr other ↦ rw other refl ])

module _ (i : ℕ) where
  set_at_row :
      (r : Region) (j : ℕ) (e : RingEntry) → (set_entry r i j e).ring i ≡ update (r.ring i) j e
  set_at_row r j e = rw (eq→== i i refl) refl

  -- An access that leaves the row, the counts and the phase.
  rest_ring :
      (s : System i) (p : ℕ) (c' : Pc) (f : Phase) (r' : Region)
      → r'.ring ≡ s.mem.ring
      → phase_of c' ≡ f
      → Act
          (slot_of s.mem)
          (ring_of i s)
          p
          f
          (ring_of i (record s { mem = r'; pc = update s.pc p c' }))
  rest_ring s p c' f r' same phase =
      subst (Act (slot_of s.mem) (ring_of i s) p f)
        (ap (λ (g : Phase). record (ring_of i s) { phase = update (ring_of i s).phase p g })
            (sym phase)
          ∙ ap (λ (φ : ℕ → Phase). record (ring_of i s) { phase = φ })
              (sym (phase_of-update s.pc p c'))
          ∙ ap
              (λ (m : ℕ → ℕ → RingEntry). record (ring_of i s) {
                row = m i;
                phase = λ q. phase_of (update s.pc p c' q);
              })
              (sym same))
        (Act.rest f)

  -- An access that writes to the slot.
  write_ring :
      (s : System i) (p : ℕ) (c' : Pc) (f : Phase) (j : ℕ) (e : RingEntry)
      → phase_of c' ≡ f
      → ring_of i (record s { mem = set_entry s.mem i j e; pc = update s.pc p c' })
        ≡ set_slot (ring_of i s) j e p f
  write_ring s p c' f j e phase =
      ap
        (λ (m : ℕ → RingEntry). record (ring_of i s) {
          row = m;
          phase = λ q. phase_of (update s.pc p c' q);
        })
        (set_at_row s.mem j e)
      ∙ ap (λ (φ : ℕ → Phase). record (ring_of i s) { row = update (s.mem.ring i) j e; phase = φ })
          (phase_of-update s.pc p c')
      ∙ ap (λ (g : Phase). set_slot (ring_of i s) j e p g) phase

  begin_ring :
      (s : System i) (p : ℕ) (c' : Pc) (job : SlotRead) (r' : Region)
      → r'.ring ≡ s.mem.ring
      → phase_of c' ≡ waiting (s.begun + 1) job
      → Act (slot_of s.mem) (ring_of i s) p away (
          ring_of i (record s {
            mem = r';
            pc = update s.pc p c';
            begun = s.begun + 1;
            history = update s.history (s.begun + 1) job;
          }))
  begin_ring s p c' job r' same phase =
      let v : Ring = record (ring_of i s) {
        last = s.begun + 1;
        history = update s.history (s.begun + 1) job;
      } in
      subst (Act (slot_of s.mem) (ring_of i s) p away)
        (ap (λ (g : Phase). record v { phase = update v.phase p g }) (sym phase)
          ∙ ap (λ (φ : ℕ → Phase). record v { phase = φ }) (sym (phase_of-update s.pc p c'))
          ∙ ap
              (λ (m : ℕ → ℕ → RingEntry). record v {
                row = m i;
                phase = λ q. phase_of (update s.pc p c' q);
              })
              (sym same))
        (Act.begin job)

  mark_ring :
      (s : System i) (p seq : ℕ) (job : Job) (n : ℕ)
      → n ≡ s.stolen + tally (s.mem.ring i (slot_of s.mem seq)).seq
      → Act (slot_of s.mem) (ring_of i s) p (waiting seq job.message) (
          ring_of i (record s {
            mem = mark i (slot_of s.mem seq) s.mem;
            pc = update s.pc p (reading seq job);
            stolen = n;
          }))
  mark_ring s p seq job n count =
      let j = slot_of s.mem seq in
      let e : RingEntry = record (s.mem.ring i j) { seq = seq_writing } in
      subst (Act (slot_of s.mem) (ring_of i s) p (waiting seq job.message))
        (ap (λ (v : Ring). record v { stolen = s.stolen + tally (s.mem.ring i j).seq })
            (sym (write_ring s p (reading seq job) (holding seq job.message) j e refl))
          ∙ ap
              (λ n.
                record (ring_of i
                  (record s { mem = mark i j s.mem; pc = update s.pc p (reading seq job) })) {
                    stolen = n;
                  })
              (sym count))
        (Act.mark seq job.message)

  module _ (single_publisher : Bool) (choice : Choice) (p : ℕ) (s : System i) where
    abbrev Acts : Pc → Type 0
    Acts c =
        Act (slot_of s.mem) (ring_of i s) p (phase_of c)
          (ring_of i (moved i single_publisher choice p c s))

    take_act : (s.mem.topics i).write_seq ≡ s.begun → s.begun + 1 < 2 ^ 62 → Acts idle
    unfolding moved advance take
    take_act count room =
        let job = choice.job in
        let next : u64 ((s.mem.topics i).write_seq + 1) ≡ s.begun + 1 =
          mod-eq_of_lt (omega arith) ∙ ap (λ n. n + 1) count in
        begin_ring s p _ job.message (take i single_publisher job s.mem).0 refl
          (elim (Bool-cases single_publisher) [
            | inl single ↦ rw single (ap (λ n. waiting n job.message) next)
            | inr several ↦ rw several (ap (λ n. waiting n job.message) next)
          ])

    look_act : (seq spins : ℕ) (job : Job) → Acts (claiming seq spins job)
    unfolding moved advance look spin
    look_act seq spins job =
        rest_ring s p _ _ s.mem refl
          (elim (Bool-cases ((s.mem.ring i (slot_of s.mem seq)).seq == seq_writing)) [
            | inr other ↦ rw other refl
            | inl busy ↦ rw busy (elim (Bool-cases (ltb 1024 (spins + 1))) [
              | inl long ↦ rw long refl
              | inr short ↦ rw short refl
            ])
          ])

    compare_act :
        (seq spins current : ℕ) (job : Job)
        → current ≢ seq_writing
        → Acts (comparing seq spins current job)
    unfolding moved advance compare
    compare_act seq spins current job seen =
        elim (Bool-cases
          (not choice.spurious && ((s.mem.ring i (slot_of s.mem seq)).seq == current))) [
            | inr lost ↦ rw lost (rest_ring s p _ _ s.mem refl refl)
            | inl won ↦ rw won (mark_ring s p seq job s.stolen (ground arith))
          ]

    release_act : (old : ℕ) (job : Job) → Acts (releasing old job)
    unfolding moved advance release
    release_act old job =
        let less : Region = record s.mem {
          refcount = update s.mem.refcount old (dec32 (s.mem.refcount old));
        } in
        elim (Bool-cases (not (old == no_block) && ltb old s.mem.config.block_count)) [
          | inr outside ↦ rw outside (rest_ring s p _ _ s.mem refl refl)
          | inl inside ↦ elim (Bool-cases (s.mem.refcount old == 1)) [
            | inl final ↦ rw (inside, final) (rest_ring s p (recycling old job) away less refl refl)
            | inr more ↦ rw (inside, more) (rest_ring s p (waking job) away less refl refl)
          ]
        ]

    recycle_act : (old : ℕ) (job : Job) → Acts (recycling old job)
    unfolding moved advance recycle
    recycle_act old job =
        let r' : Region = record s.mem { last_freed = old } in
        elim (Bool-cases (not (s.mem.last_freed == no_block))) [
          | inl full ↦ rw full (rest_ring s p (freeing s.mem.last_freed job) away r' refl refl)
          | inr empty ↦ rw empty (rest_ring s p (waking job) away r' refl refl)
        ]

    pub moved-Act :
        (c : Pc)
        → Seen c
        → (s.mem.topics i).write_seq ≡ s.begun
        → begun_after i c s.begun < 2 ^ 62
        → Acts c
    unfolding moved advance
    moved-Act idle seen count room = take_act count room
    moved-Act (claiming seq spins job) seen count room = look_act seq spins job
    moved-Act (comparing seq spins current job) seen count room =
        compare_act seq spins current job seen
    moved-Act (forcing seq job) seen count room = mark_ring s p seq job _ refl
    moved-Act (reading seq job) seen count room = rest_ring s p _ _ s.mem refl refl
    moved-Act (counting seq old job) seen count room =
        rest_ring s p _ _
          (record s.mem { refcount = update s.mem.refcount job.message.block_idx 1 }) refl refl
    moved-Act (pointing seq old job) seen count room =
        subst (Act (slot_of s.mem) (ring_of i s) p (holding seq job.message))
          (sym (write_ring s p (sizing seq old job) _ (slot_of s.mem seq) _ refl))
          (Act.point seq job.message)
    moved-Act (sizing seq old job) seen count room =
        subst (Act (slot_of s.mem) (ring_of i s) p (pointed seq job.message))
          (sym (write_ring s p (closing seq old job) _ (slot_of s.mem seq) _ refl))
          (Act.size seq job.message)
    moved-Act (closing seq old job) seen count room =
        subst (Act (slot_of s.mem) (ring_of i s) p (sized seq job.message))
          (sym (write_ring s p (releasing old job) _ (slot_of s.mem seq) _ refl))
          (Act.close seq job.message)
    moved-Act (releasing old job) seen count room = release_act old job
    moved-Act (recycling old job) seen count room = recycle_act old job
    moved-Act (freeing idx job) seen count room =
        rest_ring s p (waking job) away (free_block [] idx s.mem)
          (free_block-Released idx idx s.mem).same_ring refl
    moved-Act (waking job) seen count room =
        rest_ring s p idle away (smart_wake i job.wake s.mem)
          (smart_wake-Released 0 i job.wake s.mem s.mem (keep-Released 0 s.mem)).same_ring refl
