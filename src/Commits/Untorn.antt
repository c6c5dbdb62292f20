-- ===== src/Commits/Untorn.antt =====
-- A subscriber that reads an entry while publishers commit.
use mathlib.Core.Path.{subst}
use native.Mathlib.Decide.{ℕ_discrete}
use crossbar.Base.{
  ℕ, ◌<◌, ◌^◌, ◌≡◌, ◌≢◌, sym, ap, ◌∙◌, not, Option, none, some, arith, ltb, ◌==◌, if_ind,
  option_ind,
}
use crossbar.Layout.{no_block, seq_writing}
use crossbar.Region.State.{Region, data_capacity, block_ptr_checked}
use crossbar.Region.Ring.{slot_of}
use crossbar.Stream.Receive.{
  Stream, SlotRead, During, acquire_block, finish_read, try_read_slot_raw,
}
use crossbar.Commits.Exclusion.{Closed}
use crossbar.Commits.Steps.{System, Steps, Keeps}
use crossbar.Commits.Refines.{ring_of}
use crossbar.Commits.Sound.{Sound, Steps-Sound, Steps-le, Steps-trans}
use crossbar.Commits.Past.{Steps-Past}

-- What others do in the reads of one entry is what publishers do: `s0` to `s3` are the systems at
-- the first load of the sequence number and at the loads of the block index, the length and the
-- reference count, and `s4 held` the one at the last load, if the reference that is taken leaves
-- the region `held`.
pub record Watched (i : ℕ) (during : During) (s0 s1 s2 s3 : System i) (s4 : Region → System i)
    : Type 0 where
  pub to_block : Steps i s0 s1
  pub at_block : during.at_block s0.mem ≡ s1.mem
  pub to_len : Steps i s1 s2
  pub at_len : during.at_len s1.mem ≡ s2.mem
  pub to_refcount : Steps i s2 s3
  pub at_refcount : during.at_refcount s2.mem ≡ s3.mem
  pub to_recheck :
      (held : Region) → Keeps i s3.mem held → Steps i (record s3 { mem = held }) (s4 held)
  pub at_recheck : (held : Region) → Keeps i s3.mem held → during.at_recheck held ≡ (s4 held).mem
  pub room : (held : Region) → Keeps i s3.mem held → (s4 held).begun < 2 ^ 62
  pub kept : (held : Region) → Keeps i s3.mem held → (s4 held).stolen ≡ 0

module _ (i : ℕ) where
  -- The number `a` is in the slot `j`.
  abbrev At : System i → (j a : ℕ) → Type 0
  At s j a = (s.mem.ring i j).seq ≡ a

  Closed-At :
      (s : System i) (j a : ℕ)
      → Sound i s
      → 0 < a
      → a ≢ seq_writing
      → At s j a
      → Closed (slot_of s.mem) (ring_of i s) j a
  Closed-At s j a x pos valid e =
      subst (Closed (slot_of s.mem) (ring_of i s) j) e
        (x.exclusive.closed j (λ w. valid (sym e ∙ w)) (ground arith))

  -- A number that a slot has at two times was there all the time between.
  stays_between :
      (a j : ℕ) (s t u : System i)
      → Sound i s
      → Steps i s t
      → Steps i t u
      → u.begun < 2 ^ 62
      → u.stolen ≡ 0
      → 0 < a
      → a ≢ seq_writing
      → At s j a
      → At u j a
      → At t j a × (t.history a ≡ s.history a) × Sound i t
  stays_between a j s t u x st tu room kept pos valid e f =
      let (less, fewer) = Steps-le i tu in
      let c = Closed-At s j a x pos valid e in
      let sound = Steps-Sound i st x (omega arith) (omega arith) in
      let past =
        Steps-Past i a st x (omega arith) (omega arith) valid
          (record { taken = c.taken; over = c.done }) in
      let later = Steps-Past i a tu sound room kept valid past.done in
      elim (ℕ_discrete (t.mem.ring i j).seq a) [
        | yes same ↦ (same, past.same_message, sound)
        | no ne ↦ absurd (later.left j ne f)
      ]

  -- What such an entry holds in between.
  entry_between :
      (a j : ℕ) (s t u : System i)
      → Sound i s
      → Steps i s t
      → Steps i t u
      → u.begun < 2 ^ 62
      → u.stolen ≡ 0
      → 0 < a
      → a ≢ seq_writing
      → At s j a
      → At u j a
      → ((t.mem.ring i j).block_idx ≡ (s.history a).block_idx)
        × ((t.mem.ring i j).data_len ≡ (s.history a).data_len)
  entry_between a j s t u x st tu room kept pos valid e f =
      let (same, message, sound) = stays_between a j s t u x st tu room kept pos valid e f in
      let c = Closed-At t j a sound pos valid same in
      (
        c.block ∙ ap (λ (m : SlotRead). m.block_idx) message,
        c.len ∙ ap (λ (m : SlotRead). m.data_len) message,
      )

acquire_block-Keeps :
    (i idx : ℕ) (r held : Region) → acquire_block idx r ≡ some held → Keeps i r held
unfolding acquire_block block_ptr_checked
acquire_block-Keeps i idx r held e = record {
  same_config = ground arith;
  same_row = ground arith;
  same_seq = ground arith;
}

-- The result of a read, if there is one, is the message.
abbrev Gives : (message : SlotRead) → Option SlotRead × Stream × Region → Type 0
Gives message t = (found : SlotRead) → t.0 ≡ some found → found ≡ message

Gives-none : (message : SlotRead) (s : Stream) (r : Region) → Gives message (none, s, r)
Gives-none message s r found e = cc

module _ (during : During) (seq : ℕ) (s : Stream) (s0 s1 s2 s3 : System s.topic_idx)
    (s4 : Region → System s.topic_idx) (x : Sound s.topic_idx s0)
    (w : Watched s.topic_idx during s0 s1 s2 s3 s4) (pos : 0 < seq)
    (valid : seq ≢ seq_writing) where
  abbrev message : SlotRead
  message = s0.history seq

  abbrev slot : ℕ
  slot = slot_of s0.mem seq

  -- What the last check tells about the two loads before it.
  checked :
      (held : Region)
      → Keeps s.topic_idx s3.mem held
      → At s.topic_idx s0 slot seq
      → ((during.at_recheck held).ring s.topic_idx slot).seq ≡ seq
      → ((s1.mem.ring s.topic_idx slot).block_idx ≡ message.block_idx)
        × ((s2.mem.ring s.topic_idx slot).data_len ≡ message.data_len)
  checked held k first again =
      let i = s.topic_idx in
      let last : At i (s4 held) slot seq =
        ap (λ (r : Region). (r.ring i slot).seq) (sym (w.at_recheck held k)) ∙ again in
      let from_len =
        Steps-trans i w.to_refcount
          (Steps-trans i (Steps.others Steps.here held k) (w.to_recheck held k)) in
      let room = w.room held k in
      let kept = w.kept held k in
      (
        (entry_between i seq slot s0 s1 (s4 held) x w.to_block (Steps-trans i w.to_len from_len)
            room kept pos valid first last).0,
        (entry_between i seq slot s0 s2 (s4 held) x (Steps-trans i w.to_block w.to_len) from_len
            room kept pos valid first last).1,
      )

  finish_read-Gives :
      (found : SlotRead)
      → At s.topic_idx s0 slot seq
      → found.block_idx ≡ (s1.mem.ring s.topic_idx slot).block_idx
      → found.data_len ≡ (s2.mem.ring s.topic_idx slot).data_len
      → Gives message (finish_read during.at_recheck seq slot found s s3.mem)
  unfolding finish_read
  finish_read-Gives found first block len =
      option_ind (Gives message) (acquire_block found.block_idx s3.mem)
        (λ e. Gives-none message s s3.mem)
        (λ held e.
          let r' = during.at_recheck held in
          let k = acquire_block-Keeps s.topic_idx found.block_idx s3.mem held e in
          if_ind (Gives message) (not ((r'.ring s.topic_idx slot).seq == seq)) (λ f. λ found' g. cc)
            (λ f. λ found' g.
              let (same_block, same_len) = checked held k first (ground arith) in
              let same : found ≡ found' = cc in
              sym same
              ∙ ap (λ b. record { block_idx = b; data_len = found.data_len }) (block ∙ same_block)
              ∙ ap (λ l. record { block_idx = message.block_idx; data_len = l }) (len ∙ same_len)))

  -- A subscriber reads the entry of a sequence number with no lock, while any number of publishers
  -- commit to the same ring and others change what no commit touches: a read that succeeds gives
  -- the block and the length of the one commit that has this number, never a mixture of two, and
  -- never another commit's. No mark is stored without a test on a slot that is being written, and the
  -- numbers do not run out.
  pub try_read_slot_raw_untorn :
      (found : SlotRead)
      → (try_read_slot_raw during seq s s0.mem).0 ≡ some found
      → found ≡ s0.history seq
  unfolding try_read_slot_raw
  try_read_slot_raw_untorn =
      let i = s.topic_idx in
      let r1 = during.at_block s0.mem in
      let e1 : r1 ≡ s1.mem = w.at_block in
      let r2 = during.at_len r1 in
      let e2 : r2 ≡ s2.mem = ap during.at_len e1 ∙ w.at_len in
      let r3 = during.at_refcount r2 in
      let e3 : r3 ≡ s3.mem = ap during.at_refcount e2 ∙ w.at_refcount in
      let block_idx = (r1.ring i slot).block_idx in
      let data_len = (r2.ring i slot).data_len in
      if_ind (Gives message) (not ((s0.mem.ring i slot).seq == seq))
        (λ e. Gives-none message s s0.mem)
        (λ e.
          let first : At i s0 slot seq = ground arith in
          if_ind (Gives message) (block_idx == no_block) (λ e. Gives-none message s r2)
            (λ e.
              if_ind (Gives message) (not (ltb block_idx r2.config.block_count))
                (λ e. Gives-none message s r2)
                (λ e.
                  if_ind (Gives message) (ltb (data_capacity r2) data_len)
                    (λ e. Gives-none message s r2)
                    (λ e.
                      subst
                        (λ (r : Region). Gives message (
                          finish_read during.at_recheck seq slot
                            (record { block_idx = block_idx; data_len = data_len }) s r))
                        (sym e3)
                        (finish_read-Gives (record { block_idx = block_idx; data_len = data_len })
                          first (ap (λ (r : Region). (r.ring i slot).block_idx) e1)
                          (ap (λ (r : Region). (r.ring i slot).data_len) e2))))))
