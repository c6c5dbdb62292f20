-- ===== src/Commits/Alone.antt =====
-- A publisher that commits while no other process acts.
use mathlib.Core.Path.{fun_ext}
use crossbar.Base.{
  ℕ, zero, suc, ◌+◌, ◌-◌, ◌≤◌, ◌≡◌, refl, sym, ap, ◌∙◌, Bool, true, false, not, ◌&&◌, inl, inr,
  Option, none, some, arith, ltb, ◌==◌, if◌then◌else◌, if_ind, update, Bool-cases, eq→==,
}
use crossbar.Layout.{no_block, seq_writing}
use crossbar.Region.State.{Region, RingEntry, u64, set_entry, set_topic}
use crossbar.Region.Ring
use crossbar.Region.Ring.{slot_of, mark, smart_wake, release_old, fill_slot, claim, commit_to_ring}
use crossbar.Region.Commit.{claim-mark}
use crossbar.Stream.Receive.{SlotRead}
use crossbar.Commits.Steps.{
  Job, Pc, idle, claiming, comparing, forcing, reading, releasing, Choice, advance, take, look,
  spin, compare, release, recycle,
}

abbrev is_idle : Pc → Bool
is_idle idle = true
is_idle _ = false

update-update {ℓ} :
    {A : Type ℓ} (f : ℕ → A) (j : ℕ) (x y : A) → update (update f j x) j y ≡ update f j y
update-update f j x y =
    fun_ext
      (λ k. elim (Bool-cases (j == k)) [ inl same ↦ rw same refl | inr other ↦ rw other refl ])

get_put : (r : Region) (i j : ℕ) (e : RingEntry) → (set_entry r i j e).ring i j ≡ e
get_put r i j e = rw (eq→== i i refl, eq→== j j refl) refl

put_put :
    (r : Region) (i j : ℕ) (e f : RingEntry)
    → set_entry (set_entry r i j e) i j f ≡ set_entry r i j f
put_put r i j e f =
    ap (λ (m : ℕ → ℕ → RingEntry). record r { ring = m })
      (ap (λ (row : ℕ → RingEntry). update (update r.ring i (update (r.ring i) j e)) i row)
          (ap (λ (row : ℕ → RingEntry). update row j f) (rw (eq→== i i refl) refl)
            ∙ update-update (r.ring i) j e f)
        ∙ update-update r.ring i _ _)

-- Steps 4 to 6, one store after the other.
fill_by_stores :
    (r : Region) (i j seq : ℕ) (message : SlotRead)
    → let r1 : Region = record r { refcount = update r.refcount message.block_idx 1 } in
      let r2 = set_entry r1 i j (record (r1.ring i j) { block_idx = message.block_idx }) in
      let r3 = set_entry r2 i j (record (r2.ring i j) { data_len = message.data_len }) in
      set_entry r3 i j (record (r3.ring i j) { seq = seq })
      ≡ fill_slot seq message.block_idx message.data_len i j r
unfolding fill_slot
fill_by_stores r i j seq message =
    let r1 : Region = record r { refcount = update r.refcount message.block_idx 1 } in
    let e2 : RingEntry = record (r1.ring i j) { block_idx = message.block_idx } in
    let r2 = set_entry r1 i j e2 in
    let e3 : RingEntry = record e2 { data_len = message.data_len } in
    let to_r3 : set_entry r2 i j (record (r2.ring i j) { data_len = message.data_len })
        ≡ set_entry r1 i j e3 =
      ap (λ (e : RingEntry). set_entry r2 i j (record e { data_len = message.data_len }))
        (get_put r1 i j e2)
      ∙ put_put r1 i j e2 e3 in
    ap (λ (q : Region). set_entry q i j (record (q.ring i j) { seq = seq })) to_r3
    ∙ ap (λ (e : RingEntry). set_entry (set_entry r1 i j e3) i j (record e { seq = seq }))
        (get_put r1 i j e3)
    ∙ put_put r1 i j e3 (record e3 { seq = seq })

lt_of_short : (spins : ℕ) → ltb 1024 (spins + 1) ≡ false → spins + 1 ≤ 1024
lt_of_short spins e = ground arith

module _ (i : ℕ) (single_publisher : Bool) (job : Job) where
  abbrev choice : Choice
  choice = record { job = job; spurious = false }

  -- The accesses of one publisher until it is idle again, at most `fuel` of them.
  unfoldable pub finish : (fuel : ℕ) → Region → Pc → Option Region
  unfolding advance
  finish zero r c = none
  finish (suc fuel) r c =
      let (r', c') = advance i single_publisher choice r c in
      let rest = finish fuel r' c' in if is_idle c' then some r' else rest

  finish-more :
      (m n : ℕ) (r r' : Region) (c : Pc) → m ≤ n → finish m r c ≡ some r' → finish n r c ≡ some r'
  unfolding finish
  finish-more zero n r r' c le e = cc
  finish-more (suc m) zero r r' c le e = absurd (omega arith)
  finish-more (suc m) (suc n) r r' c le e =
      let t = advance i single_publisher choice r c in
      elim (Bool-cases (is_idle t.1)) [
        | inl over ↦ rw over (rw over at e)
        | inr going ↦ rw going (finish-more m n t.0 r' t.1 (omega arith) (rw going at e))
      ]

  finish-releasing :
      (old : ℕ) (r : Region)
      → finish 4 r (releasing old job) ≡ some (smart_wake i job.wake (release_old old r))
  unfolding finish advance release recycle release_old Ring.recycle
  finish-releasing old r =
      elim (Bool-cases (not (old == no_block) && ltb old r.config.block_count)) [
        | inr outside ↦ rw outside refl
        | inl inside ↦ elim (Bool-cases (r.refcount old == 1)) [
          | inr more ↦ rw (inside, more) refl
          | inl final ↦ elim (Bool-cases (not (r.last_freed == no_block))) [
            | inl full ↦ rw (inside, final, full) refl
            | inr empty ↦ rw (inside, final, empty) refl
          ]
        ]
      ]

  -- What the commit of number `seq` leaves, from the marked slot on.
  abbrev finished : (seq : ℕ) → Region → Region
  finished seq r =
      let slot = slot_of r seq in
      smart_wake i job.wake (
        release_old (r.ring i slot).block_idx
          (fill_slot seq job.message.block_idx job.message.data_len i slot r))

  finish-reading : (seq : ℕ) (r : Region) → finish 9 r (reading seq job) ≡ some (finished seq r)
  unfolding finish advance smart_wake slot_of
  finish-reading seq r =
      let slot = slot_of r seq in
      let old = (r.ring i slot).block_idx in
      ap (λ (q : Region). finish 4 q (releasing old job)) (fill_by_stores r i slot seq job.message)
      ∙ finish-releasing old (fill_slot seq job.message.block_idx job.message.data_len i slot r)

  finish-forcing :
      (seq : ℕ) (r : Region)
      → finish 10 r (forcing seq job) ≡ some (finished seq (mark i (slot_of r seq) r))
  unfolding finish advance
  finish-forcing seq r = finish-reading seq (mark i (slot_of r seq) r)

  -- The loop of step 2 ends: with the mark, after at most 1025 looks.
  finish-claiming :
      (fuel k seq spins : ℕ) (r : Region)
      → spins + k ≡ 1024
      → k + 12 ≤ fuel
      → finish fuel r (claiming seq spins job) ≡ some (finished seq (mark i (slot_of r seq) r))
  unfolding finish advance look spin compare
  finish-claiming zero k seq spins r total room = absurd (omega arith)
  finish-claiming (suc fuel) k seq spins r total room =
      let e = r.ring i (slot_of r seq) in
      let r' = finished seq (mark i (slot_of r seq) r) in
      elim (Bool-cases (e.seq == seq_writing)) [
        | inr free ↦ rw free (
            finish-more 11 fuel r r' (comparing seq spins e.seq job) (omega arith) (
              rw (eq→== e.seq e.seq refl) (
                finish-more 9 10 (mark i (slot_of r seq) r) r' (reading seq job) (omega arith)
                  (finish-reading seq (mark i (slot_of r seq) r)))))
        | inl busy ↦ elim (Bool-cases (ltb 1024 (spins + 1))) [
          | inl long ↦
              rw (busy, long)
                (finish-more 10 fuel r r' (forcing seq job) (omega arith) (finish-forcing seq r))
          | inr short ↦
              let below = lt_of_short spins short in
              rw (busy, short)
                (finish-claiming fuel (k - 1) seq (spins + 1) r (omega arith) (omega arith))
        ]
      ]

  -- One commit, from its first access on.
  unfoldable pub commit_alone : (fuel : ℕ) → Region → Option Region
  commit_alone fuel r = finish fuel r idle

  -- A publisher that commits while no other process acts, with a compare-exchange that fails only for
  -- a cause, is done after at most 1037 accesses, and leaves the region that `commit_to_ring`
  -- describes; also when its slot is stuck in the writing state.
  pub commit_alone-commit_to_ring :
      (fuel : ℕ) (r : Region)
      → 1037 ≤ fuel
      → commit_alone fuel r
        ≡ some (
            commit_to_ring job.message.block_idx job.message.data_len i job.wake single_publisher r)
  unfolding commit_alone finish advance take commit_to_ring slot_of
  commit_alone-commit_to_ring zero r room = absurd (omega arith)
  commit_alone-commit_to_ring (suc fuel) r room =
      let t = r.topics i in
      let seq = u64 (t.write_seq + 1) in
      let r1 = set_topic r i (record t { write_seq = seq }) in
      let slot = slot_of r1 seq in
      let committed : Region → Option Region = λ q. some (
        smart_wake i job.wake (
          release_old (q.ring i slot).block_idx
            (fill_slot seq job.message.block_idx job.message.data_len i slot q))) in
      if_ind (λ c. (if is_idle c then some r1 else finish fuel r1 c) ≡ committed (mark i slot r1))
        single_publisher
        (λ e. finish-more 10 fuel r1 _ (forcing seq job) (omega arith) (finish-forcing seq r1))
        (λ e. finish-claiming fuel 1024 seq 0 r1 refl (omega arith))
      ∙ ap committed (sym (claim-mark single_publisher i slot r1))
