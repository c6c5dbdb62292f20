-- ===== src/PodBus/Torn.antt =====
-- Receiving while the publisher writes.
use mathlib.Core.Path.{fun_ext}
use crossbar.Base.{
  ℕ, ◌+◌, ◌*◌, ◌%◌, ◌^◌, ◌<◌, ◌≡◌, ◌∙◌, ap, true, Option, none, some, arith, le→leb, lt→leb,
}
use native.Mathlib.Decide.{dec_le}
use crossbar.PodBus.State.{PodBus, BusSubscriber, Value, index_of, u64}
use crossbar.PodBus.Subscribe.{During, read_slot, try_recv}
use crossbar.PodBus.Receive.{next_cursor, next_cursor_range, skip_ahead_lem}
use crossbar.PodBus.Publish.{write_value}
use crossbar.PodBus.Seqlock.{
  Phase, idle, begin, words, close, advance, Steps, here, next, Inv, Steps-Kept, Steps-Inv,
}

-- The states that a call meets are reached one from another by steps of the publisher and of others.
pub record Legal (h : ℕ → Value) (during : During) (b : PodBus) (p : Phase) : Type 0 where
  pub word_phase : ℕ → Phase
  pub last_phase : Phase
  pub to_word : (k : ℕ) → Steps h b p (during.at_word b k) (word_phase k)
  pub to_recheck :
      (k : ℕ) → Steps h (during.at_word b k) (word_phase k) (during.at_recheck b) last_phase

record Read (during : During) (sub : BusSubscriber) (b : PodBus) (v : Value) : Type 0 where
  even : (b.ring (index_of sub.ring_size sub.cursor)).stamp % 2 ≡ 0
  same :
      ((during.at_recheck b).ring (index_of sub.ring_size sub.cursor)).stamp
      ≡ (b.ring (index_of sub.ring_size sub.cursor)).stamp
  stamp : (b.ring (index_of sub.ring_size sub.cursor)).stamp ≡ u64 (sub.cursor * 2 + 2)
  value : v ≡ (λ w. ((during.at_word b w).ring (index_of sub.ring_size sub.cursor)).value w)
  moved : (read_slot during sub b).1.cursor ≡ sub.cursor + 1

read_slot-Read :
    (during : During) (sub : BusSubscriber) (b : PodBus) (v : Value)
    → (read_slot during sub b).0 ≡ some v
    → Read during sub b v
unfolding read_slot
read_slot-Read during sub b v e = ground arith

read_slot_untorn :
    (h : ℕ → Value) (during : During) (sub : BusSubscriber) (b : PodBus) (p : Phase) (v : Value)
    → Inv h b p
    → Legal h during b p
    → sub.cursor < 2 ^ 62
    → (read_slot during sub b).0 ≡ some v
    → (v ≡ h sub.cursor) × ((read_slot during sub b).1.cursor ≡ sub.cursor + 1)
read_slot_untorn h during sub b p v i legal room e =
    let r = read_slot-Read during sub b v e in
    let idx = index_of sub.ring_size sub.cursor in
    let word : (w : ℕ) → ((during.at_word b w).ring idx).value w ≡ (b.ring idx).value w = λ w.
      let to = Steps-Kept (legal.to_word w) i idx in
      let from = Steps-Kept (legal.to_recheck w) (Steps-Inv (legal.to_word w) i) idx in
      let up = to.rises in
      let up' = from.rises in let same = r.same in ap (λ f. f w) (to.stays r.even (omega arith)) in
    let stamp : (b.ring idx).stamp ≡ sub.cursor * 2 + 2 = let s = r.stamp in omega arith in
    (r.value ∙ fun_ext word ∙ i.committed idx sub.cursor stamp, r.moved)

-- While the publisher is anywhere in its steps, before, during and after the call, a value that
-- `try_recv` returns is whole: it is exactly the value that was published under the sequence number
-- at which the subscriber reads (its own cursor, or the oldest entry if it is behind that), and the
-- cursor then stands just past it.
pub try_recv_untorn :
    (h : ℕ → Value) (during : During) (sub : BusSubscriber) (b : PodBus) (p : Phase) (v : Value)
    → Inv h b p
    → Legal h during b p
    → b.write_seq < 2 ^ 62
    → 0 < sub.ring_size
    → (try_recv during sub b).0 ≡ some v
    → let c = next_cursor b.write_seq sub.ring_size sub.cursor in
      (v ≡ h c) × ((try_recv during sub b).1.cursor ≡ c + 1)
unfolding try_recv
try_recv_untorn h during sub b p v i legal room pos e = elim (dec_le b.write_seq sub.cursor) [
  | yes caught_up ↦
      let quiet : ◌≡◌ {A = Option Value} none (some v) =
        rw (le→leb b.write_seq sub.cursor caught_up) at e in
      cc
  | no behind ↦
      let range = next_cursor_range b.write_seq sub.ring_size sub.cursor (omega arith) pos in
      let now =
        rw
          (
            lt→leb b.write_seq sub.cursor (omega arith),
            skip_ahead_lem b.write_seq sub (omega arith),
          )
          at e in
      rw (lt→leb b.write_seq sub.cursor (omega arith), skip_ahead_lem b.write_seq sub (omega arith))
        (read_slot_untorn h during _ b p v i legal (omega arith) now)
]

-- `write_value` of the value with the next number is a run of the publisher's steps from idle to
-- idle, while the sequence number is below 2^62.
pub write_value-Steps :
    (h : ℕ → Value) (b : PodBus)
    → b.write_seq < 2 ^ 62
    → Steps h b idle (write_value (h b.write_seq) b) idle
unfolding write_value
write_value-Steps h b room =
    next (next (next (next here (begin room)) (words (λ k. true))) (close (ground arith))) advance
