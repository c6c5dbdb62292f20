-- ===== src/PodBus/Started.antt =====
-- What a successful creation leaves in the file of a bus.
use crossbar.Base.{
  ℕ, zero, suc, ◌+◌, ◌≡◌, refl, sym, ap, true, ◌&&◌, inl, inr, Option, none, some, List, arith, ltb,
  ◌==◌, is_power_of_two, Bool-cases, Option-cases, update,
}
use crossbar.Error.{Error, Result, ok, err}
use crossbar.PodBus.State.{PodBus, max_subscriber_slots, state_free, set_slot}
use crossbar.PodBus.Create.{
  PodType, BusCalls, BusOwner, BusFile, check_alignment, validate_name, region_size_for_version,
  version_for, written_header, zero_bus, init_slots, init_stamps, cleared_bus, init_bus,
  create_file, lock_and_create, create_inner,
}

abbrev Outcome : Type 0
Outcome = Result BusOwner × Option BusFile

-- The file after all steps, with `t` as the heartbeat.
abbrev pub started : (pid t : ℕ) → PodType → (ring_size : ℕ) (watermark : Option ℕ) → BusFile
started pid t type ring_size watermark = record {
  len = region_size_for_version type ring_size (version_for watermark);
  header = written_header pid type ring_size watermark;
  bus = record (cleared_bus ring_size watermark) { heartbeat = t };
}

pub record Started (calls : BusCalls) (type : PodType) (name : List ℕ) (ring_size : ℕ)
    (watermark : Option ℕ) (f : BusFile) : Type 0 where
  pub t : ℕ
  pub clock : calls.now ≡ some t
  pub file : f ≡ started calls.pid t type ring_size watermark

no_success :
    (e : Error) (o : Option BusFile) (owner : BusOwner) (f : BusFile)
    → ◌≡◌ {A = Outcome} (err e, o) (ok owner, some f)
    → ⊥
no_success e o owner f h = let bad = ap (λ (o : Outcome). o.0) h in cc

unsome : {A : Type 0} {a b : A} → ◌≡◌ {A = Option A} (some a) (some b) → a ≡ b
unsome e = cc

module _ (calls : BusCalls) (type : PodType) (name : List ℕ) (ring_size : ℕ) (watermark : Option ℕ)
    (owner : BusOwner) (f : BusFile) where
  abbrev Goal : Type 0
  Goal = Started calls type name ring_size watermark f

  abbrev Succeeds : Outcome → Type 0
  Succeeds o = ◌≡◌ {A = Outcome} o (ok owner, some f)

  init_bus-Started : Succeeds (init_bus calls type name ring_size watermark) → Goal
  unfolding init_bus
  init_bus-Started e = elim (Option-cases calls.now) [
    | inl unset ↦ absurd (no_success _ _ owner f (rw (init_bus, unset) at e))
    | inr (t, clock) ↦ elim (Bool-cases calls.shared) [
      | inr refused ↦ absurd (no_success _ _ owner f (rw (init_bus, clock, refused) at e))
      | inl granted ↦
          let written = ap (λ (o : Outcome). o.1) (rw (init_bus, clock, granted) at e) in
          record { t = t; clock = clock; file = sym (unsome written) }
    ]
  ]

  create_file-Started :
      (old : Option BusFile) → Succeeds (create_file calls type name ring_size watermark old) → Goal
  unfolding create_file
  create_file-Started old e =
      elim calls.file as (λ o. calls.file ≡ o → Goal) [
        | err why ↦ λ eq. absurd (no_success _ _ owner f (rw (create_file, eq) at e))
        | ok u ↦ λ eq.
            elim calls.set_len as (λ o. calls.set_len ≡ o → Goal) [
              | err why ↦ λ eq1. absurd (no_success _ _ owner f (rw (create_file, eq, eq1) at e))
              | ok v ↦ λ eq1.
                  elim calls.mmap as (λ o. calls.mmap ≡ o → Goal) [
                    | err why ↦
                        λ eq2. absurd (no_success _ _ owner f (rw (create_file, eq, eq1, eq2) at e))
                    | ok w ↦ λ eq2. init_bus-Started (rw (create_file, eq, eq1, eq2) at e)
                  ]
                    refl
            ]
              refl
      ]
        refl

  lock_and_create-Started :
      (old : Option BusFile)
      → Succeeds (lock_and_create calls type name ring_size watermark old)
      → Goal
  unfolding lock_and_create
  lock_and_create-Started old e =
      elim calls.lock_file as (λ o. calls.lock_file ≡ o → Goal) [
        | err why ↦ λ eq. absurd (no_success _ _ owner f (rw (lock_and_create, eq) at e))
        | ok u ↦ λ eq. elim (Bool-cases calls.exclusive) [
          | inr refused ↦ absurd (no_success _ _ owner f (rw (lock_and_create, eq, refused) at e))
          | inl granted ↦ create_file-Started old (rw (lock_and_create, eq, granted) at e)
        ]
      ]
        refl

  -- Success: the ring size is a power of two, the name and the alignment were accepted.
  pub create_inner-Started :
      (old : Option BusFile)
      → create_inner calls type name ring_size watermark old ≡ some (ok owner, some f)
      → (is_power_of_two ring_size ≡ true)
        × (validate_name name ≡ ok tt)
        × (check_alignment type ≡ ok tt)
        × Goal
  unfolding create_inner
  create_inner-Started old e = elim (Bool-cases (ltb 0 ring_size && is_power_of_two ring_size)) [
    | inr refused ↦ cc (rw (create_inner, refused) at e)
    | inl accepted ↦
        elim (validate_name name)
            as (λ o.
              validate_name name ≡ o
              → (is_power_of_two ring_size ≡ true)
                × (validate_name name ≡ ok tt)
                × (check_alignment type ≡ ok tt)
                × Goal) [
                  | err why ↦ λ eq.
                      absurd
                        (no_success _ _ owner f (unsome (rw (create_inner, accepted, eq) at e)))
                  | ok u ↦ λ eq.
                      elim (check_alignment type)
                          as (λ o.
                            check_alignment type ≡ o
                            → (is_power_of_two ring_size ≡ true)
                              × (validate_name name ≡ ok tt)
                              × (check_alignment type ≡ ok tt)
                              × Goal) [
                                | err why ↦ λ eq1. absurd (
                                    no_success _ _ owner f
                                      (unsome (rw (create_inner, accepted, eq, eq1) at e)))
                                | ok v ↦ λ eq1. (
                                  ground arith,
                                  eq,
                                  eq1,
                                  lock_and_create-Started old
                                      (unsome (rw (create_inner, accepted, eq, eq1) at e)),
                                )
                              ]
                        refl
                ]
          refl
  ]

-- A bus on which nothing has happened.
pub record IsBlank (ring_size : ℕ) (watermark : Option ℕ) (b : PodBus) : Type 0 where
  pub seq : b.write_seq ≡ 0
  pub size : b.ring_size ≡ ring_size
  pub mark : b.watermark ≡ watermark
  pub cached : b.cached_slowest ≡ 0
  pub free : (j : ℕ) → (b.slots j).state_cursor ≡ 0
  pub no_pid : (j : ℕ) → (b.slots j).pid ≡ 0
  pub unwritten : (i : ℕ) → (b.ring i).stamp ≡ 0

init_slots-IsBlank :
    (n i ring_size : ℕ) (watermark : Option ℕ) (b : PodBus)
    → IsBlank ring_size watermark b
    → IsBlank ring_size watermark (init_slots n i b)
unfolding init_slots
init_slots-IsBlank zero i ring_size watermark b w = w
init_slots-IsBlank (suc n) i ring_size watermark b w =
    init_slots-IsBlank n (i + 1) ring_size watermark
      (set_slot b i (record { pid = 0; state_cursor = state_free }))
      (record {
        seq = w.seq;
        size = w.size;
        mark = w.mark;
        cached = w.cached;
        free = λ j. elim (Bool-cases (i == j)) [
          | inl same ↦ rw same refl
          | inr other ↦ rw other (w.free j)
        ];
        no_pid = λ j. elim (Bool-cases (i == j)) [
          | inl same ↦ rw same refl
          | inr other ↦ rw other (w.no_pid j)
        ];
        unwritten = w.unwritten;
      })

init_stamps-IsBlank :
    (n i ring_size : ℕ) (watermark : Option ℕ) (b : PodBus)
    → IsBlank ring_size watermark b
    → IsBlank ring_size watermark (init_stamps n i b)
unfolding init_stamps
init_stamps-IsBlank zero i ring_size watermark b w = w
init_stamps-IsBlank (suc n) i ring_size watermark b w =
    init_stamps-IsBlank n (i + 1) ring_size watermark
      (record b { ring = update b.ring i (record (b.ring i) { stamp = 0 }) })
      (record {
        seq = w.seq;
        size = w.size;
        mark = w.mark;
        cached = w.cached;
        free = w.free;
        no_pid = w.no_pid;
        unwritten = λ j. elim (Bool-cases (i == j)) [
          | inl same ↦ rw same refl
          | inr other ↦ rw other (w.unwritten j)
        ];
      })

zero_bus-IsBlank :
    (ring_size : ℕ) (watermark : Option ℕ)
    → IsBlank ring_size watermark (zero_bus ring_size watermark)
zero_bus-IsBlank ring_size watermark = record {
  seq = refl;
  size = refl;
  mark = refl;
  cached = refl;
  free = λ j. refl;
  no_pid = λ j. refl;
  unwritten = λ i. refl;
}

pub cleared_bus-IsBlank :
    (ring_size : ℕ) (watermark : Option ℕ)
    → IsBlank ring_size watermark (cleared_bus ring_size watermark)
unfolding cleared_bus
cleared_bus-IsBlank ring_size none =
    init_stamps-IsBlank ring_size 0 ring_size none (zero_bus ring_size none)
      (zero_bus-IsBlank ring_size none)
cleared_bus-IsBlank ring_size (some watermark) =
    init_stamps-IsBlank ring_size 0 ring_size (some watermark)
      (init_slots max_subscriber_slots 0 (zero_bus ring_size (some watermark)))
      (init_slots-IsBlank max_subscriber_slots 0 ring_size (some watermark)
        (zero_bus ring_size (some watermark)) (zero_bus-IsBlank ring_size (some watermark)))
