-- ===== src/Region/Commit.antt =====
-- What one commit to a ring changes, and what it leaves alone.
use crossbar.Base.{
  ℕ, zero, suc, ◌+◌, ◌%◌, ◌^◌, ◌≤◌, ◌<◌, ◌≡◌, ◌≢◌, refl, sym, ap, ◌∙◌, Bool, true, false, not, ◌&&◌,
  inl, inr, [], arith, ltb, ◌==◌, if◌then◌else◌, if_ind, update, eq→==, ne→==, Bool-cases,
  is_power_of_two, bit_and-pred,
}
use native.Mathlib.Nat.{mod-eq_of_lt}
use mathlib.Core.Path.{subst}
use crossbar.Layout.{no_block, seq_writing}
use crossbar.Region.State.{Region, u64, dec32, set_topic}
use crossbar.Region.Pool.{free_block, free_from, free_link}
use crossbar.Region.Ring.{
  slot_of, mark, claim_slot, claim, recycle, release_old, smart_wake, fill_slot, commit_to_ring,
}

pub slot_of-mod :
    (r : Region) (seq : ℕ)
    → is_power_of_two r.config.ring_depth ≡ true
    → r.config.ring_depth ≤ 2 ^ 32
    → (slot_of r seq ≡ seq % r.config.ring_depth) × (0 < r.config.ring_depth)
unfolding slot_of
slot_of-mod r seq power small =
    let (place, pos) = bit_and-pred r.config.ring_depth seq power in
    (rw place (mod-eq_of_lt (omega arith)), pos)

-- Everything but the pool is as before, and so are the reference counts of all blocks but `old`.
pub record Released (old : ℕ) (r r' : Region) : Type 0 where
  pub same_ring : r'.ring ≡ r.ring
  pub same_topics : r'.topics ≡ r.topics
  pub same_config : r'.config ≡ r.config
  pub same_bytes : r'.bytes ≡ r.bytes
  pub same_counts : (b : ℕ) → b ≢ old → r'.refcount b ≡ r.refcount b

pub free_block-Released : (old idx : ℕ) (r : Region) → Released old r (free_block [] idx r)
unfolding free_block free_from free_link
free_block-Released old idx r =
    if_ind (Released old r) (not (ltb idx r.config.block_count)) (λ e. same)
      (λ e. record {
        same_ring = refl;
        same_topics = refl;
        same_config = refl;
        same_bytes = refl;
        same_counts = λ b ne. refl;
      })
  where
    same : Released old r r
    same = record {
      same_ring = refl;
      same_topics = refl;
      same_config = refl;
      same_bytes = refl;
      same_counts = λ b ne. refl;
    }

-- From a region that differs in the reference count of `old`, and in the recycled block.
Released-from :
    (old n last : ℕ) (r r' : Region)
    → Released old (record r { refcount = update r.refcount old n; last_freed = last }) r'
    → Released old r r'
Released-from old n last r r' p = record {
  same_ring = p.same_ring;
  same_topics = p.same_topics;
  same_config = p.same_config;
  same_bytes = p.same_bytes;
  same_counts = λ b ne. p.same_counts b ne ∙ rw (ne→== old b (λ e. ne (sym e))) refl;
}

pub keep-Released : (old : ℕ) (r : Region) → Released old r r
keep-Released old r = record {
  same_ring = refl;
  same_topics = refl;
  same_config = refl;
  same_bytes = refl;
  same_counts = λ b ne. refl;
}

release_old-Released : (old : ℕ) (r : Region) → Released old r (release_old old r)
unfolding release_old recycle
release_old-Released old r =
    let dec = dec32 (r.refcount old) in
    let recycled : Region = record r { refcount = update r.refcount old dec; last_freed = old } in
    let kept : Region = record r { refcount = update r.refcount old dec } in
    if_ind (Released old r) (not (old == no_block) && ltb old r.config.block_count)
      (λ e.
        if_ind (Released old r) (r.refcount old == 1)
          (λ e.
            if_ind (Released old r) (not (r.last_freed == no_block))
              (λ e. Released-from old dec old r _ (free_block-Released old r.last_freed recycled))
              (λ e. Released-from old dec old r _ (keep-Released old recycled)))
          (λ e. Released-from old dec r.last_freed r _ (keep-Released old kept)))
      (λ e. keep-Released old r)

claim_slot-mark :
    (n topic_idx slot : ℕ) (r : Region) → claim_slot n topic_idx slot r ≡ mark topic_idx slot r
unfolding claim_slot
claim_slot-mark zero topic_idx slot r = refl
claim_slot-mark (suc n) topic_idx slot r =
    if_ind (λ (t : Region). t ≡ mark topic_idx slot r) ((r.ring topic_idx slot).seq == seq_writing)
      (λ e. claim_slot-mark n topic_idx slot r) (λ e. refl)

pub claim-mark :
    (single_publisher : Bool) (topic_idx slot : ℕ) (r : Region)
    → claim single_publisher topic_idx slot r ≡ mark topic_idx slot r
unfolding claim
claim-mark true topic_idx slot r = refl
claim-mark false topic_idx slot r = claim_slot-mark 1024 topic_idx slot r

pub smart_wake-Released :
    (old topic_idx : ℕ) (wake : Bool) (r0 r : Region)
    → Released old r0 r
    → Released old r0 (smart_wake topic_idx wake r)
unfolding smart_wake
smart_wake-Released old topic_idx wake r0 r p =
    if_ind (Released old r0) (wake && ltb 0 (r.topics topic_idx).waiters)
      (λ e. record {
        same_ring = p.same_ring;
        same_topics = p.same_topics;
        same_config = p.same_config;
        same_bytes = p.same_bytes;
        same_counts = p.same_counts;
      })
      (λ e. p)

-- What a commit of the block `block_idx` to the topic leaves: the slot of the new sequence number
-- holds the new entry, the other slots and topics are as before, the block has the reference of the
-- ring, and of the other blocks only the one that the slot held has another count.
pub record CommittedAs (seq block_idx data_len topic_idx : ℕ) (r r' : Region) : Type 0 where
  pub next_seq : (r'.topics topic_idx).write_seq ≡ (r.topics topic_idx).write_seq + 1
  pub entry :
      (j : ℕ)
      → r'.ring topic_idx j ≡ (
          if slot_of r seq == j
          then record { seq = seq; block_idx = block_idx; data_len = data_len }
          else r.ring topic_idx j)
  pub other_rings : (i : ℕ) → i ≢ topic_idx → r'.ring i ≡ r.ring i
  pub same_config : r'.config ≡ r.config
  pub same_bytes : r'.bytes ≡ r.bytes
  pub referenced :
      block_idx ≢ (r.ring topic_idx (slot_of r seq)).block_idx → r'.refcount block_idx ≡ 1
  pub same_counts :
      (b : ℕ)
      → b ≢ block_idx
      → b ≢ (r.ring topic_idx (slot_of r seq)).block_idx
      → r'.refcount b ≡ r.refcount b

-- The claimed and filled ring, before the old block is released.
abbrev filled : (seq block_idx data_len topic_idx : ℕ) → Region → Region
filled seq block_idx data_len topic_idx r =
    let slot = slot_of r seq in
    fill_slot seq block_idx data_len topic_idx slot (
      mark topic_idx slot (set_topic r topic_idx (record (r.topics topic_idx) { write_seq = seq })))

filled-entry :
    (seq block_idx data_len topic_idx : ℕ) (r : Region) (j : ℕ)
    → (filled seq block_idx data_len topic_idx r).ring topic_idx j ≡ (
        if slot_of r seq == j
        then record { seq = seq; block_idx = block_idx; data_len = data_len }
        else r.ring topic_idx j)
unfolding fill_slot
filled-entry seq block_idx data_len topic_idx r j =
    rw (eq→== topic_idx topic_idx refl)
      (elim (Bool-cases (slot_of r seq == j)) [ inl e ↦ rw e refl | inr e ↦ rw e refl ])

filled-CommittedAs :
    (seq block_idx data_len topic_idx : ℕ) (r r' : Region)
    → seq ≡ (r.topics topic_idx).write_seq + 1
    → Released
        (r.ring topic_idx (slot_of r seq)).block_idx
        (filled seq block_idx data_len topic_idx r)
        r'
    → CommittedAs seq block_idx data_len topic_idx r r'
unfolding fill_slot
filled-CommittedAs seq block_idx data_len topic_idx r r' next p = record {
  next_seq =
      ap (λ f. (f topic_idx).write_seq) p.same_topics ∙ rw (eq→== topic_idx topic_idx refl) next;
  entry =
      λ j. ap (λ f. f topic_idx j) p.same_ring ∙ filled-entry seq block_idx data_len topic_idx r j;
  other_rings = λ i ne. ap (λ f. f i) p.same_ring ∙ rw (ne→== topic_idx i (λ e. ne (sym e))) refl;
  same_config = p.same_config;
  same_bytes = p.same_bytes;
  referenced = λ ne. p.same_counts block_idx ne ∙ rw (eq→== block_idx block_idx refl) refl;
  same_counts =
      λ b ne ne_old. p.same_counts b ne_old ∙ rw (ne→== block_idx b (λ e. ne (sym e))) refl;
}

mark-block_idx :
    (topic_idx slot : ℕ) (r : Region)
    → ((mark topic_idx slot r).ring topic_idx slot).block_idx ≡ (r.ring topic_idx slot).block_idx
mark-block_idx topic_idx slot r = rw (eq→== topic_idx topic_idx refl, eq→== slot slot refl) refl

-- Steps 3 to 8, on the claimed ring.
abbrev finish : (seq block_idx data_len topic_idx slot : ℕ) (wake : Bool) → Region → Region
finish seq block_idx data_len topic_idx slot wake m = smart_wake topic_idx wake (
    release_old (m.ring topic_idx slot).block_idx
      (fill_slot seq block_idx data_len topic_idx slot m))

marked-CommittedAs :
    (seq block_idx data_len topic_idx : ℕ) (wake : Bool) (r : Region)
    → seq ≡ (r.topics topic_idx).write_seq + 1
    → CommittedAs seq block_idx data_len topic_idx r (
        finish seq block_idx data_len topic_idx (slot_of r seq) wake (
          mark topic_idx
            (slot_of r seq)
            (set_topic r topic_idx (record (r.topics topic_idx) { write_seq = seq }))))
marked-CommittedAs seq block_idx data_len topic_idx wake r next =
    let slot = slot_of r seq in
    let r1 = set_topic r topic_idx (record (r.topics topic_idx) { write_seq = seq }) in
    let f = filled seq block_idx data_len topic_idx r in
    let same = mark-block_idx topic_idx slot r1 in
    filled-CommittedAs seq block_idx data_len topic_idx r _ next (
      subst
        (λ old.
          Released (r.ring topic_idx slot).block_idx f
            (smart_wake topic_idx wake (release_old old f)))
        (sym same)
        (smart_wake-Released (r.ring topic_idx slot).block_idx topic_idx wake f _
          (release_old-Released (r.ring topic_idx slot).block_idx f)))

pub commit_to_ring-CommittedAs :
    (block_idx data_len topic_idx : ℕ) (wake single_publisher : Bool) (r : Region)
    → (r.topics topic_idx).write_seq < 2 ^ 62
    → CommittedAs
        ((r.topics topic_idx).write_seq + 1)
        block_idx
        data_len
        topic_idx
        r
        (commit_to_ring block_idx data_len topic_idx wake single_publisher r)
unfolding commit_to_ring
commit_to_ring-CommittedAs block_idx data_len topic_idx wake single_publisher r room =
    let w = (r.topics topic_idx).write_seq in
    let fits : u64 (w + 1) ≡ w + 1 = mod-eq_of_lt (omega arith) in
    let topic : ℕ → Region =
      λ q. set_topic r topic_idx (record (r.topics topic_idx) { write_seq = q }) in
    subst
      (λ q. CommittedAs (w + 1) block_idx data_len topic_idx r (
        finish q block_idx data_len topic_idx (slot_of r q) wake
          (claim single_publisher topic_idx (slot_of r q) (topic q))))
      (sym fits)
      (subst
        (λ m.
          CommittedAs (w + 1) block_idx data_len topic_idx r
            (finish (w + 1) block_idx data_len topic_idx (slot_of r (w + 1)) wake m))
        (sym (claim-mark single_publisher topic_idx (slot_of r (w + 1)) (topic (w + 1))))
        (marked-CommittedAs (w + 1) block_idx data_len topic_idx wake r refl))
