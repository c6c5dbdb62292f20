-- ===== src/Stream/Safety.antt =====
-- Receiving while other processes write anything into shared memory.
use crossbar.Base.{
  ℕ, zero, suc, ◌+◌, ◌-◌, ◌≤◌, ◌<◌, ◌≡◌, refl, false, not, Option, none, some, [], arith, ltb, leb,
  ◌==◌, update, inl, inr, ◌∙◌, ap, Bool-cases, if_ind, option_ind,
}
use Prim.Native.Nat.{bit_and}
use mathlib.Core.Path.{subst}
use crossbar.Layout.{no_block, block_data_offset, Config}
use crossbar.Region.State.{Region, data_capacity, block_ptr_checked, u32, dec32}
use crossbar.Region.Pool.{Interference, release_block, free_block, free_from, free_link}
use crossbar.Region.Ring.{slot_of}
use crossbar.Stream.Receive.{
  Stream, SlotRead, During, acquire_block, finish_read, try_read_slot_raw, scan_window, scan_start,
  recv_slot,
}

-- The configuration belongs to the handle of this process: nobody else changes it.
abbrev pub KeepsConfig : Interference → Type 0
KeepsConfig f = (r : Region) → (f r).config ≡ r.config

pub record KeepsConfigs (d : During) : Type 0 where
  pub at_block : KeepsConfig d.at_block
  pub at_len : KeepsConfig d.at_len
  pub at_refcount : KeepsConfig d.at_refcount
  pub at_recheck : KeepsConfig d.at_recheck

-- What a slot that was read satisfies: the block exists, its data fit, and the entry that it came
-- from still has the sequence number that the stream now stands at.
pub record InBounds (r : Region) (found : SlotRead) (s' : Stream) (r' : Region) : Type 0 where
  pub block : found.block_idx < r.config.block_count
  pub len : found.data_len ≤ data_capacity r
  pub same_config : r'.config ≡ r.config
  pub seq : (r'.ring s'.topic_idx (slot_of r s'.last_seq)).seq ≡ s'.last_seq

-- The result of a read, split by what was found.
unfoldable pub ReadIs : Region → Option SlotRead → Stream → Region → Type 0
ReadIs r none s' r' = r'.config ≡ r.config
ReadIs r (some found) s' r' = InBounds r found s' r'

abbrev pub Read : Region → Option SlotRead × Stream × Region → Type 0
Read r t = ReadIs r t.0 t.1 t.2

free_block-config : (idx : ℕ) (r : Region) → (free_block [] idx r).config ≡ r.config
unfolding free_block free_from free_link
free_block-config idx r = elim (Bool-cases (ltb idx r.config.block_count)) [
  | inl e ↦ rw e refl
  | inr e ↦ rw e refl
]

pub release_block-config : (idx : ℕ) (r : Region) → (release_block idx r).config ≡ r.config
unfolding release_block
release_block-config idx r =
    let r' : Region = record r { refcount = update r.refcount idx (dec32 (r.refcount idx)) } in
    option_ind (λ (t : Region). t.config ≡ r.config) (block_ptr_checked r idx) (λ e. refl)
      (λ a e.
        if_ind (λ (t : Region). t.config ≡ r.config) (r.refcount a == 1)
          (λ f.
            free_block-config a
              (record r { refcount = update r.refcount a (dec32 (r.refcount a)) }))
          (λ f. refl))

acquire_block-config :
    (idx : ℕ) (r held : Region)
    → acquire_block idx r ≡ some held
    → (idx < r.config.block_count) × (held.config ≡ r.config)
unfolding acquire_block block_ptr_checked
acquire_block-config idx r held e = ground arith

finish_read-InBounds :
    (r0 : Region) (at_recheck : Interference) (seq : ℕ) (found : SlotRead) (s : Stream) (r : Region)
    → KeepsConfig at_recheck
    → r.config ≡ r0.config
    → found.data_len ≤ data_capacity r0
    → Read r0 (finish_read at_recheck seq (slot_of r0 seq) found s r)
unfolding finish_read ReadIs
finish_read-InBounds r0 at_recheck seq found s r keeps same fits =
    option_ind (Read r0) (acquire_block found.block_idx r) (λ e. same)
      (λ held e.
        let (below, same_held) = acquire_block-config found.block_idx r held e in
        let same_after = keeps held ∙ same_held ∙ same in
        let count : r.config.block_count ≡ r0.config.block_count =
          ap (λ (c : Config). c.block_count) same in
        if_ind (Read r0) (not (((at_recheck held).ring s.topic_idx (slot_of r0 seq)).seq == seq))
          (λ e. release_block-config found.block_idx (at_recheck held) ∙ same_after)
          (λ e. record {
            block = omega arith;
            len = fits;
            same_config = same_after;
            seq = ground arith;
          }))

le-capacity :
    (r r' : Region) (n : ℕ)
    → r.config ≡ r'.config
    → ltb (data_capacity r) n ≡ false
    → n ≤ data_capacity r'
unfolding data_capacity
le-capacity r r' n same e = let size = ap (λ (c : Config). c.block_size) same in ground arith

try_read_slot_raw-InBounds :
    (d : During) (seq : ℕ) (s : Stream) (r : Region)
    → KeepsConfigs d
    → Read r (try_read_slot_raw d seq s r)
unfolding try_read_slot_raw ReadIs
try_read_slot_raw-InBounds d seq s r k =
    let r2 = d.at_len (d.at_block r) in
    let same2 : r2.config ≡ r.config = k.at_len (d.at_block r) ∙ k.at_block r in
    let slot = slot_of r seq in
    let found : SlotRead = record {
      block_idx = ((d.at_block r).ring s.topic_idx slot).block_idx;
      data_len = (r2.ring s.topic_idx slot).data_len;
    } in
    if_ind (Read r) (not ((r.ring s.topic_idx slot).seq == seq)) (λ e. refl)
      (λ e.
        if_ind (Read r) (found.block_idx == no_block) (λ e. same2)
          (λ e.
            if_ind (Read r) (not (ltb found.block_idx r2.config.block_count)) (λ e. same2)
              (λ e.
                if_ind (Read r) (ltb (data_capacity r2) found.data_len) (λ e. same2)
                  (λ e.
                    finish_read-InBounds r d.at_recheck seq found s (d.at_refcount r2) k.at_recheck
                      (k.at_refcount r2 ∙ same2) (le-capacity r2 r found.data_len same2 e)))))

-- A read is judged by the configuration alone.
ReadIs-from :
    (r0 r : Region) (found : Option SlotRead) (s' : Stream) (r' : Region)
    → r.config ≡ r0.config
    → ReadIs r found s' r'
    → ReadIs r0 found s' r'
unfolding ReadIs slot_of data_capacity
ReadIs-from r0 r none s' r' same p = p ∙ same
ReadIs-from r0 r (some found) s' r' same p = record {
  block = subst (λ (c : Config). found.block_idx < c.block_count) same p.block;
  len = subst (λ (c : Config). found.data_len ≤ c.block_size - block_data_offset) same p.len;
  same_config = p.same_config ∙ same;
  seq =
      subst
        (λ (c : Config).
          (r'.ring s'.topic_idx (u32 (bit_and s'.last_seq (c.ring_depth - 1)))).seq ≡ s'.last_seq)
        same p.seq;
}

scan_window-InBounds :
    (during : ℕ → During) (n seq : ℕ) (s : Stream) (r : Region)
    → ((i : ℕ) → KeepsConfigs (during i))
    → Read r (scan_window during n seq s r)
unfolding scan_window ReadIs
scan_window-InBounds during zero seq s r k = refl
scan_window-InBounds during (suc n) seq s r k =
    let t = try_read_slot_raw (during seq) seq s r in
    let here = try_read_slot_raw-InBounds (during seq) seq s r (k seq) in
    option_ind (Read r) t.0
      (λ e.
        let same : t.2.config ≡ r.config = subst (λ o. ReadIs r o t.1 t.2) e here in
        let rest = scan_window during n (seq + 1) t.1 t.2 in
        ReadIs-from r t.2 rest.0 rest.1 rest.2 same
          (scan_window-InBounds during n (seq + 1) t.1 t.2 k))
      (λ slot e. subst (λ o. ReadIs r o t.1 t.2) e here)

-- A receive, whatever the other processes write into shared memory between its steps: if it returns
-- a slot, then the block exists, the length fits the block's data, and the ring entry of the sequence
-- number at which the stream now stands still carried that number after the reference was taken.
pub recv_slot-InBounds :
    (during : ℕ → During) (s : Stream) (r : Region)
    → ((i : ℕ) → KeepsConfigs (during i))
    → Read r (recv_slot during s r)
unfolding recv_slot ReadIs
recv_slot-InBounds during s r k =
    let current_seq = (r.topics s.topic_idx).write_seq in
    let start = scan_start current_seq s.last_seq r.config.ring_depth in
    if_ind (Read r) (leb current_seq s.last_seq) (λ e. refl)
      (λ e. scan_window-InBounds during (current_seq + 1 - start) start s r k)
