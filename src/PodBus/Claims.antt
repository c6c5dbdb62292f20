-- ===== src/PodBus/Claims.antt =====
-- What one call of `connect` changes of a bus, and what it returns.
use native.Mathlib.Decide.{ℕ_discrete}
use crossbar.Base.{
  ℕ, zero, suc, ◌+◌, ◌^◌, ◌≤◌, ◌<◌, ◌≡◌, refl, sym, ap, ◌∙◌, false, ◌⊎◌, inl, inr, Option, none,
  some, arith, ◌==◌, eq→==, ne→==, Bool-cases,
}
use crossbar.Error.{Result, ok, err}
use crossbar.Region.State.{u32}
use crossbar.PodBus.State.{
  PodBus, BusSubscriber, SubscriberSlot, state_free, state_active, value_bits, max_subscriber_slots,
}
use crossbar.PodBus.Subscribe.{claiming_slot, claim_from, claim_subscriber_slot}
use crossbar.PodBus.Create.{PodType, BusFile, version_for}
use crossbar.PodBus.Connect.{check_file, check_alive, attach, connect_file}

-- One call of `connect` that gets as far as the file.
pub record Join : Type 0 where
  pub type : PodType
  pub now : Option ℕ
  pub clock : ℕ → Option ℕ
  pub pid : ℕ

-- Its result, and the bus after.
abbrev pub connected : Join → BusFile → Result BusSubscriber × PodBus
connected j f = connect_file j.type j.now j.clock j.pid f

abbrev pub join : Join → BusFile → BusFile
join j f = record f { bus = (connected j f).1 }

-- The slot of a subscriber in use, at `cursor`.
abbrev pub shown_slot : (cursor pid : ℕ) → SubscriberSlot
shown_slot cursor pid = record { pid = pid; state_cursor = state_active + value_bits cursor }

-- What claiming a slot changes: at most free slots, which then show the cursor.
pub record Claimed (cursor pid : ℕ) (b c : PodBus) : Type 0 where
  pub seq : c.write_seq ≡ b.write_seq
  pub size : c.ring_size ≡ b.ring_size
  pub ring : c.ring ≡ b.ring
  pub cached : c.cached_slowest ≡ b.cached_slowest
  pub slots :
      (j : ℕ)
      → (c.slots j ≡ b.slots j)
        ⊎ (((b.slots j).state_cursor ≡ state_free) × (c.slots j ≡ shown_slot cursor pid))

unclaimed : (cursor pid : ℕ) (b : PodBus) → Claimed cursor pid b b
unclaimed cursor pid b = record {
  seq = refl;
  size = refl;
  ring = refl;
  cached = refl;
  slots = λ j. inl refl;
}

claiming_slot-pid : (now : Option ℕ) (pid : ℕ) → (claiming_slot now pid).pid ≡ pid
claiming_slot-pid none pid = refl
claiming_slot-pid (some now) pid = refl

-- The slot after the claim.
claimed_slot :
    (now : Option ℕ) (cursor pid : ℕ)
    → record (claiming_slot now pid) { state_cursor = state_active + value_bits cursor }
      ≡ shown_slot cursor pid
claimed_slot now cursor pid = ap (λ (p : ℕ). shown_slot cursor p) (claiming_slot-pid now pid)

claim_from-Claimed :
    (clock : ℕ → Option ℕ) (cursor pid n i : ℕ) (b : PodBus)
    → Claimed cursor pid b (claim_from clock cursor pid n i b).1
unfolding claim_from
claim_from-Claimed clock cursor pid zero i b = unclaimed cursor pid b
claim_from-Claimed clock cursor pid (suc n) i b =
    elim (Bool-cases ((b.slots i).state_cursor == state_free)) [
      | inr taken ↦ rw taken (claim_from-Claimed clock cursor pid n (i + 1) b)
      | inl free ↦ rw free (record {
        seq = refl;
        size = refl;
        ring = refl;
        cached = refl;
        slots = λ j. elim (ℕ_discrete i j) [
          | yes here ↦ inr (
            ap (λ k. (b.slots k).state_cursor) (sym here)
                ∙ (let zero_cursor : (b.slots i).state_cursor ≡ 0 = ground arith in zero_cursor),
            rw (eq→== i j here, eq→== i i refl) (claimed_slot (clock i) cursor pid),
          )
          | no there ↦ inl (rw (ne→== i j there) refl)
        ];
      })
    ]

-- A claim that succeeds shows the cursor in the slot that it returns.
abbrev GaveSlot : (cursor pid bound : ℕ) → Result ℕ × PodBus → Type 0
GaveSlot cursor pid bound (err e, b) = Unit
GaveSlot cursor pid bound (ok idx, b) = (idx < bound) × (b.slots idx ≡ shown_slot cursor pid)

claim_from-GaveSlot :
    (clock : ℕ → Option ℕ) (cursor pid bound n i : ℕ) (b : PodBus)
    → i + n ≤ bound
    → GaveSlot cursor pid bound (claim_from clock cursor pid n i b)
unfolding claim_from
claim_from-GaveSlot clock cursor pid bound zero i b fits = tt
claim_from-GaveSlot clock cursor pid bound (suc n) i b fits =
    elim (Bool-cases ((b.slots i).state_cursor == state_free)) [
      | inr taken ↦ rw taken (claim_from-GaveSlot clock cursor pid bound n (i + 1) b (omega arith))
      | inl free ↦ rw (free, eq→== i i refl) (omega arith, claimed_slot (clock i) cursor pid)
    ]

pub connect_file-Claimed :
    (j : Join) (f : BusFile) → Claimed f.bus.write_seq j.pid f.bus (join j f).bus
unfolding connect_file attach claim_subscriber_slot
connect_file-Claimed j f = by_check (check_file j.type f) (check_alive j.now f.bus)
  where
    by_check :
        (checked alive : Result (Unit {0}))
        → Claimed f.bus.write_seq j.pid f.bus
            (elim checked as (λ _. Result BusSubscriber × PodBus) [
              | err e ↦ (err e, f.bus)
              | ok _ ↦ elim alive [ err e ↦ (err e, f.bus) | ok _ ↦ attach j.clock j.pid f ]
            ]).1
    by_check (err e) alive = unclaimed f.bus.write_seq j.pid f.bus
    by_check (ok u) (err e) = unclaimed f.bus.write_seq j.pid f.bus
    by_check (ok u) (ok v) = elim (Bool-cases (f.header.version == 3)) [
      | inl bounded ↦ rw bounded (claim_from-Claimed j.clock f.bus.write_seq j.pid 64 0 f.bus)
      | inr lossy ↦ rw lossy (unclaimed f.bus.write_seq j.pid f.bus)
    ]

-- On a bounded bus a subscriber has a slot of its own that shows that it stands at the beginning; on
-- a lossy one it has none.
abbrev pub Shown : (watermark : Option ℕ) → PodBus → (pid : ℕ) → Option ℕ → Type 0
Shown none b pid slot_index = slot_index ≡ none
Shown (some watermark) b pid slot_index =
    (idx : ℕ) × (slot_index ≡ some idx)
    × (idx < max_subscriber_slots)
    × (b.slots idx ≡ shown_slot 0 pid)

-- A subscriber, if there is one, stands at the beginning.
abbrev pub AtStart :
    (ring_size : ℕ) (watermark : Option ℕ) → PodBus → Result BusSubscriber × ℕ → Type 0
AtStart ring_size watermark b (err e, pid) = Unit
AtStart ring_size watermark b (ok sub, pid) =
    (sub.cursor ≡ 0)
    × (sub.total_lagged ≡ 0)
    × (sub.ring_size ≡ u32 ring_size)
    × Shown watermark b pid sub.slot_index

attached_bounded :
    (ring_size watermark cursor pid n : ℕ) (t : Result ℕ × PodBus)
    → GaveSlot cursor pid max_subscriber_slots t
    → cursor ≡ 0
    → n ≡ u32 ring_size
    → AtStart ring_size (some watermark) t.1 (
      elim t.0 as (λ _. Result BusSubscriber) [
        | err e ↦ err e
        | ok idx ↦
            ok (record { ring_size = n; cursor = cursor; total_lagged = 0; slot_index = some idx })
      ],
      pid,
    )
attached_bounded ring_size watermark cursor pid n (err e, b) gave start size = tt
attached_bounded ring_size watermark cursor pid n (ok idx, b) (below, shown) start size =
    (start, refl, size, (idx, refl, below, shown ∙ ap (λ (c : ℕ). shown_slot c pid) start))

-- The header of a bus says what `create` was given.
pub record Titled (ring_size : ℕ) (watermark : Option ℕ) (f : BusFile) : Type 0 where
  pub version : f.header.version ≡ version_for watermark
  pub size : f.header.ring_size ≡ u32 ring_size

attach-AtStart :
    (ring_size : ℕ) (watermark : Option ℕ) (clock : ℕ → Option ℕ) (pid : ℕ) (f : BusFile)
    → Titled ring_size watermark f
    → f.bus.write_seq ≡ 0
    → AtStart ring_size watermark (attach clock pid f).1 ((attach clock pid f).0, pid)
unfolding attach claim_subscriber_slot
attach-AtStart ring_size none clock pid f titled start =
    let lossy : (f.header.version == 3) ≡ false =
      ne→== _ 3 (let version : f.header.version ≡ 1 = titled.version in λ e. omega arith) in
    rw lossy (start, refl, titled.size, refl)
attach-AtStart ring_size (some watermark) clock pid f titled start =
    rw (eq→== f.header.version 3 titled.version) (
      attached_bounded ring_size watermark f.bus.write_seq pid f.header.ring_size
        (claim_from clock f.bus.write_seq pid max_subscriber_slots 0 f.bus)
        (claim_from-GaveSlot clock f.bus.write_seq pid max_subscriber_slots max_subscriber_slots 0
          f.bus (omega arith))
        start titled.size)

pub connect_file-AtStart :
    (ring_size : ℕ) (watermark : Option ℕ) (j : Join) (f : BusFile)
    → Titled ring_size watermark f
    → f.bus.write_seq ≡ 0
    → AtStart ring_size watermark (join j f).bus ((connected j f).0, j.pid)
unfolding connect_file
connect_file-AtStart ring_size watermark j f titled start =
    by_check (check_file j.type f) (check_alive j.now f.bus)
  where
    outcome : Result (Unit {0}) → Result (Unit {0}) → Result BusSubscriber × PodBus
    outcome checked alive = elim checked as (λ _. Result BusSubscriber × PodBus) [
      | err e ↦ (err e, f.bus)
      | ok _ ↦ elim alive [ err e ↦ (err e, f.bus) | ok _ ↦ attach j.clock j.pid f ]
    ]

    by_check :
        (checked alive : Result (Unit {0}))
        → AtStart ring_size watermark (outcome checked alive).1 ((outcome checked alive).0, j.pid)
    by_check (err e) alive = tt
    by_check (ok u) (err e) = tt
    by_check (ok u) (ok v) = attach-AtStart ring_size watermark j.clock j.pid f titled start

-- A claim by another process leaves a subscriber's slot alone.
pub Claimed-AtStart :
    (ring_size : ℕ) (watermark : Option ℕ) (cursor pid : ℕ) (b c : PodBus)
    (t : Result BusSubscriber × ℕ)
    → Claimed cursor pid b c
    → AtStart ring_size watermark b t
    → AtStart ring_size watermark c t
Claimed-AtStart ring_size watermark cursor pid b c (err e, mine) k s = tt
Claimed-AtStart ring_size none cursor pid b c (ok sub, mine) k s = s
Claimed-AtStart ring_size (some watermark) cursor pid b c (ok sub, mine) k (at, lag, size, slot) =
    let (idx, is_idx, below, shown) = slot in
    elim (k.slots idx) [
      | inl same ↦ (at, lag, size, (idx, is_idx, below, same ∙ shown))
      | inr (free, _) ↦
          let used : (b.slots idx).state_cursor ≡ 2 ^ 62 =
            ap (λ (s : SubscriberSlot). s.state_cursor) shown in
          absurd (omega arith)
    ]
