-- ===== src/Stream/Append.antt =====
-- Commits to the ring of a topic, and the history that it holds.
use crossbar.Base.{
  ℕ, ◌+◌, ◌-◌, ◌%◌, ◌^◌, ◌≤◌, ◌<◌, ◌≡◌, ◌≢◌, ◌⊎◌, refl, sym, ap, ◌∙◌, Bool, true, inl, inr, arith,
  update, eq→==, ne→==, is_power_of_two,
}
use mathlib.Core.Path.{subst}
use native.Mathlib.Decide.{dec_le, ℕ_discrete}
use native.Mathlib.Nat.{add-mod_right}
use crossbar.Layout.{no_block, block_data_offset, Config}
use crossbar.Region.State.{Region, RingEntry, data_capacity}
use crossbar.Region.Ring.{slot_of, commit_to_ring}
use crossbar.Region.Commit.{CommittedAs, slot_of-mod, commit_to_ring-CommittedAs}
use crossbar.PodBus.History.{mod-ne}
use crossbar.Stream.Receive.{SlotRead}
use crossbar.Stream.History.{Committed, Holds}

abbrev entry_of : ℕ → SlotRead → RingEntry
entry_of s found = record { seq = s; block_idx = found.block_idx; data_len = found.data_len }

-- A block that the ring does not hold, with a length that fits.
pub record Fresh (h : ℕ → SlotRead) (topic_idx : ℕ) (new : SlotRead) (r : Region) : Type 0 where
  pub block : new.block_idx < r.config.block_count
  pub len : new.data_len ≤ data_capacity r
  pub unheld :
      (s : ℕ)
      → 0 < s
      → s ≤ (r.topics topic_idx).write_seq
      → (r.topics topic_idx).write_seq < s + r.config.ring_depth
      → (h s).block_idx ≢ new.block_idx

module _ (h : ℕ → SlotRead) (topic_idx : ℕ) (r : Region) (i : Holds h topic_idx r) where
  -- The block that the next commit displaces.
  abbrev displaced : ℕ
  displaced = (r.ring topic_idx (slot_of r ((r.topics topic_idx).write_seq + 1))).block_idx

  displaced_cases :
      (displaced ≡ no_block)
      ⊎ ((s : ℕ) × (s + r.config.ring_depth ≡ (r.topics topic_idx).write_seq + 1)
          × (0 < s)
          × (displaced ≡ (h s).block_idx))
  displaced_cases =
      let w = (r.topics topic_idx).write_seq in
      let depth = r.config.ring_depth in
      let (place, pos) = slot_of-mod r (w + 1) i.power i.depth in
      let at : (j : ℕ) → slot_of r (w + 1) ≡ j → displaced ≡ (r.ring topic_idx j).block_idx =
        λ j e. ap (λ j. (r.ring topic_idx j).block_idx) e in
      elim (dec_le (w + 1) depth) [
        | yes first ↦ inl (at ((w + 1) % depth) place ∙ i.unused (w + 1) (omega arith) first)
        | no later ↦
            let s = w + 1 - depth in
            let total : s + depth ≡ w + 1 = omega arith in
            let same_slot : (w + 1) % depth ≡ s % depth =
              ap (λ n. n % depth) (sym total) ∙ add-mod_right s depth in
            let c = i.recent s (omega arith) (omega arith) (omega arith) in
            inr (
              s,
              total,
              omega arith,
              at (s % depth) (place ∙ same_slot) ∙ ap (λ (t : RingEntry). t.block_idx) c.entry,
            )
      ]

  not_displaced :
      (b : ℕ)
      → b < r.config.block_count
      → ((s : ℕ)
          → s + r.config.ring_depth ≡ (r.topics topic_idx).write_seq + 1
          → 0 < s
          → b ≢ (h s).block_idx)
      → b ≢ displaced
  not_displaced b below apart e =
      let blocks = i.blocks in
      elim displaced_cases [
        | inl none_before ↦ omega arith
        | inr (s, total, pos, same) ↦ apart s total pos (e ∙ same)
      ]

  module _ (new : SlotRead) (r' : Region)
      (c : CommittedAs
        ((r.topics topic_idx).write_seq + 1)
        new.block_idx
        new.data_len
        topic_idx
        r
        r')
      (fresh : Fresh h topic_idx new r) where
    new_not_displaced : new.block_idx ≢ displaced
    new_not_displaced =
        let (_, pos_depth) = slot_of-mod r 0 i.power i.depth in
        not_displaced new.block_idx fresh.block
          (λ s total pos e. fresh.unheld s pos (omega arith) (omega arith) (sym e))

    -- The entries that stay in the window.
    kept :
        (s : ℕ)
        → 0 < s
        → s ≤ (r.topics topic_idx).write_seq
        → (r.topics topic_idx).write_seq + 1 < s + r.config.ring_depth
        → Committed topic_idx (h s) s r'
    unfolding data_capacity
    kept s pos below near =
        let w = (r.topics topic_idx).write_seq in
        let old = i.recent s pos below (omega arith) in
        let (place, _) = slot_of-mod r (w + 1) i.power i.depth in
        let far = mod-ne r.config.ring_depth s (w + 1) (omega arith) near in
        let count : r'.refcount (h s).block_idx ≡ r.refcount (h s).block_idx =
          c.same_counts (h s).block_idx (fresh.unheld s pos below (omega arith)) (
            not_displaced (h s).block_idx old.block
              (λ t total t_pos e. i.apart t s t_pos (omega arith) below (omega arith) (sym e))) in
        let referenced = old.referenced in
        let room = old.room in
        record {
          entry =
              subst (λ (k : Config). r'.ring topic_idx (s % k.ring_depth) ≡ entry_of s (h s))
                (sym c.same_config)
                (c.entry (s % r.config.ring_depth)
                  ∙ rw (ne→== _ _ (λ e. far (sym (sym place ∙ e)))) old.entry);
          block =
              subst (λ (k : Config). (h s).block_idx < k.block_count) (sym c.same_config) old.block;
          len =
              subst (λ (k : Config). (h s).data_len ≤ k.block_size - block_data_offset)
                (sym c.same_config) old.len;
          referenced = omega arith;
          room = omega arith;
        }

    -- The entry that is new.
    added : Committed topic_idx new ((r.topics topic_idx).write_seq + 1) r'
    unfolding data_capacity
    added =
        let w = (r.topics topic_idx).write_seq in
        let (place, _) = slot_of-mod r (w + 1) i.power i.depth in
        let count : r'.refcount new.block_idx ≡ 1 = c.referenced new_not_displaced in
        record {
          entry =
              subst
                (λ (k : Config). r'.ring topic_idx ((w + 1) % k.ring_depth) ≡ entry_of (w + 1) new)
                (sym c.same_config)
                (c.entry ((w + 1) % r.config.ring_depth) ∙ rw (eq→== _ _ place) refl);
          block =
              subst (λ (k : Config). new.block_idx < k.block_count) (sym c.same_config) fresh.block;
          len =
              subst (λ (k : Config). new.data_len ≤ k.block_size - block_data_offset)
                (sym c.same_config) fresh.len;
          referenced = omega arith;
          room = omega arith;
        }

    appended-Holds :
        (r.topics topic_idx).write_seq + 1 < 2 ^ 62
        → Holds (update h ((r.topics topic_idx).write_seq + 1) new) topic_idx r'
    appended-Holds room =
        let w = (r.topics topic_idx).write_seq in
        let next = c.next_seq in
        let (_, pos_depth) = slot_of-mod r 0 i.power i.depth in
        let depth : r'.config.ring_depth ≡ r.config.ring_depth =
          ap (λ (k : Config). k.ring_depth) c.same_config in
        record {
          power =
              subst (λ (k : Config). is_power_of_two k.ring_depth ≡ true) (sym c.same_config)
                i.power;
          depth = subst (λ (k : Config). k.ring_depth ≤ 2 ^ 32) (sym c.same_config) i.depth;
          blocks = subst (λ (k : Config). k.block_count ≤ no_block) (sym c.same_config) i.blocks;
          room = omega arith;
          recent = λ s pos below near. elim (ℕ_discrete (w + 1) s) [
            | yes e ↦ rw (eq→== _ _ e) (subst (λ n. Committed topic_idx new n r') e added)
            | no ne ↦ rw (ne→== _ _ ne) (kept s pos (omega arith) (omega arith))
          ];
          apart = λ s t pos less below near.
              rw (ne→== (w + 1) s (omega arith)) (elim (ℕ_discrete (w + 1) t) [
                | yes e ↦ rw (eq→== _ _ e) (fresh.unheld s pos (omega arith) (omega arith))
                | no ne ↦ rw (ne→== _ _ ne) (i.apart s t pos less (omega arith) (omega arith))
              ]);
          unused = λ s above within.
              let (place, _) = slot_of-mod r (w + 1) i.power i.depth in
              let far = mod-ne r.config.ring_depth (w + 1) s (omega arith) (omega arith) in
              subst (λ (k : Config). (r'.ring topic_idx (s % k.ring_depth)).block_idx ≡ no_block)
                (sym c.same_config)
                (ap (λ (t : RingEntry). t.block_idx) (c.entry (s % r.config.ring_depth))
                  ∙ rw (ne→== _ _ (λ e. far (sym place ∙ e)))
                      (i.unused s (omega arith) (omega arith)));
        }

-- A commit to a topic whose ring holds the history `h`, of a block that the ring does not hold: the
-- ring then holds the history with the new entry at the next sequence number, and the block's data
-- are those that were written before the commit.
pub commit_to_ring-Holds :
    (h : ℕ → SlotRead) (new : SlotRead) (topic_idx : ℕ) (wake single_publisher : Bool) (r : Region)
    → Holds h topic_idx r
    → Fresh h topic_idx new r
    → (r.topics topic_idx).write_seq + 1 < 2 ^ 62
    → let r' = commit_to_ring new.block_idx new.data_len topic_idx wake single_publisher r in
      Holds (update h ((r.topics topic_idx).write_seq + 1) new) topic_idx r'
      × ((r'.topics topic_idx).write_seq ≡ (r.topics topic_idx).write_seq + 1)
      × (r'.bytes ≡ r.bytes)
commit_to_ring-Holds h new topic_idx wake single_publisher r i fresh room =
    let c =
      commit_to_ring-CommittedAs new.block_idx new.data_len topic_idx wake single_publisher r
        i.room in
    (appended-Holds h topic_idx r i new _ c fresh room, c.next_seq, c.same_bytes)
