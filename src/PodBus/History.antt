-- ===== src/PodBus/History.antt =====
-- What the ring holds: the last values of the history of all that was published.
use native.Mathlib.Nat.{div-add-mod}
use native.Mathlib.Decide.{dec_lt, ℕ_discrete}
use Prim.Native.Nat.{bit_and}
use crossbar.Base.{
  ℕ, ◌+◌, ◌*◌, ◌/◌, ◌%◌, ◌^◌, ◌≤◌, ◌<◌, ◌≡◌, ◌≢◌, refl, sym, ap, eq→==, ne→==, true, false, Option,
  none, some, inl, inr, Bool-cases, arith, ◌==◌, if◌then◌else◌, update, is_power_of_two,
  bit_and-pred,
}
use crossbar.PodBus.State.{PodBus, Value, index_of}
use crossbar.PodBus.Publish.{publish_unchecked, write_value, store_heartbeat}

pub index_of-mod : (n seq : ℕ) → is_power_of_two n ≡ true → (index_of n seq ≡ seq % n) × (0 < n)
unfolding index_of
index_of-mod n seq h = bit_and-pred n seq h

rows_apart : (n q r : ℕ) → q < r → n * q + n ≤ n * r
rows_apart n q r h = grind arith

-- Two sequence numbers less than a ring apart fall into different slots.
pub mod-ne : (n s w : ℕ) → s < w → w < s + n → s % n ≢ w % n
mod-ne n s w p q e =
    let a = div-add-mod s n in
    let b = div-add-mod w n in
    elim (dec_lt (s / n) (w / n)) [
      | yes h ↦ omega (arith, rows_apart n (s / n) (w / n) h)
      | no h ↦ elim (dec_lt (w / n) (s / n)) [
        | yes k ↦ omega (arith, rows_apart n (w / n) (s / n) k)
        | no k ↦ let same : n * (s / n) ≡ n * (w / n) = ap (◌*◌ n) (omega arith) in omega arith
      ]
    ]

-- The bus holds the last `ring_size` values of the history `h`, each with its committed stamp.
pub record Holds (h : ℕ → Value) (b : PodBus) : Type 0 where
  pub power : is_power_of_two b.ring_size ≡ true
  pub room : b.write_seq < 2 ^ 62
  pub recent :
      (s : ℕ)
      → s < b.write_seq
      → b.write_seq ≤ s + b.ring_size
      → ((b.ring (s % b.ring_size)).stamp ≡ s * 2 + 2) × ((b.ring (s % b.ring_size)).value ≡ h s)

-- What a publish leaves: the slot of the sequence number holds the value under the committed stamp,
-- every other slot is as it was, and the sequence number is the next one.
pub record Published (value : Value) (b b' : PodBus) : Type 0 where
  pub slot :
      (j : ℕ)
      → b'.ring j ≡ (
          if index_of b.ring_size b.write_seq == j
          then record { stamp = b.write_seq * 2 + 2; value = value }
          else b.ring j)
  pub next_seq : b'.write_seq ≡ b.write_seq + 1
  pub same_size : b'.ring_size ≡ b.ring_size
  pub same_slots : b'.slots ≡ b.slots
  pub same_watermark : b'.watermark ≡ b.watermark
  pub same_cached : b'.cached_slowest ≡ b.cached_slowest

write_value-Published :
    (value : Value) (b : PodBus) → b.write_seq < 2 ^ 62 → Published value b (write_value value b)
unfolding write_value
write_value-Published value b h = record {
  slot = λ j. ground arith;
  next_seq = omega arith;
  same_size = refl;
  same_slots = refl;
  same_watermark = refl;
  same_cached = refl;
}

pub publish_unchecked-Published :
    (now : Option ℕ) (value : Value) (b : PodBus)
    → b.write_seq < 2 ^ 62
    → Published value b (publish_unchecked now value b)
unfolding publish_unchecked
publish_unchecked-Published now value b h = elim (Bool-cases (bit_and b.write_seq 0x3ff == 0)) [
  | inl e ↦ rw e (beat now)
  | inr e ↦ rw e (write_value-Published value b h)
]
  where
    beat : (now : Option ℕ) → Published value b (write_value value (store_heartbeat now b))
    beat none = write_value-Published value b h
    beat (some t) =
        let p = write_value-Published value (record b { heartbeat = t }) h in
        record {
          slot = p.slot;
          next_seq = p.next_seq;
          same_size = p.same_size;
          same_slots = p.same_slots;
          same_watermark = p.same_watermark;
          same_cached = p.same_cached;
        }

Published-recent :
    (h : ℕ → Value) (value : Value) (b b' : PodBus)
    → Published value b b'
    → Holds h b
    → (s : ℕ) → s < b'.write_seq
    → b'.write_seq ≤ s + b'.ring_size
    → ((b'.ring (s % b'.ring_size)).stamp ≡ s * 2 + 2)
      × ((b'.ring (s % b'.ring_size)).value ≡ update h b.write_seq value s)
Published-recent h value b b' p i s below near =
    let size = p.same_size in
    let next = p.next_seq in
    let (place, pos) = index_of-mod b.ring_size b.write_seq i.power in
    let at = p.slot (s % b.ring_size) in
    elim (ℕ_discrete s b.write_seq) [
      | yes e ↦
          let hit : (index_of b.ring_size b.write_seq == s % b.ring_size) ≡ true =
            rw (place, e) (eq→== _ _ refl) in
          rw (size, at, hit) (omega arith, rw (eq→== _ _ (sym e)) refl)
      | no ne ↦
          let far = mod-ne b.ring_size s b.write_seq (omega arith) (omega arith) in
          let miss : (index_of b.ring_size b.write_seq == s % b.ring_size) ≡ false =
            rw place (ne→== _ _ (λ e. far (sym e))) in
          let old = i.recent s (omega arith) (omega arith) in
          rw (size, at, miss) (old.0, rw (ne→== b.write_seq s (λ e. ne (sym e))) old.1)
    ]

-- Publishing a value appends it to the history whose last `ring_size` values the bus holds, each in
-- its slot under the committed stamp, and advances the sequence number by one.
pub publish_unchecked-Holds :
    (h : ℕ → Value) (now : Option ℕ) (value : Value) (b : PodBus)
    → Holds h b
    → b.write_seq + 1 < 2 ^ 62
    → Holds (update h b.write_seq value) (publish_unchecked now value b)
      × ((publish_unchecked now value b).write_seq ≡ b.write_seq + 1)
publish_unchecked-Holds h now value b i room =
    let p = publish_unchecked-Published now value b i.room in
    let next = p.next_seq in
    (
      record {
        power = rw p.same_size i.power;
        room = omega arith;
        recent = Published-recent h value b (publish_unchecked now value b) p i;
      },
      next,
    )
