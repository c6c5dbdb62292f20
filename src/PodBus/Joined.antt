-- ===== src/PodBus/Joined.antt =====
-- A new bus and the subscribers that connect to it, one after the other.
use mathlib.Core.Path.{subst}
use crossbar.Base.{
  ℕ, ◌≡◌, refl, sym, ap, ◌∙◌, Bool, true, ◌⊎◌, inl, inr, Option, some, List, [], ◌∷◌, All, arith,
  is_power_of_two,
}
use crossbar.Error.{Result, ok}
use crossbar.PodBus.State.{PodBus, BusSubscriber, SubscriberSlot, Value, state_free, state_active}
use crossbar.PodBus.Create.{PodType, BusCalls, BusOwner, BusFile, cleared_bus, create_inner}
use crossbar.PodBus.Started.{started, create_inner-Started, cleared_bus-IsBlank}
use crossbar.PodBus.Claims.{
  Join, connected, join, shown_slot, Claimed, connect_file-Claimed, AtStart, Titled,
  connect_file-AtStart, Claimed-AtStart,
}
use crossbar.PodBus.History.{Holds}
use crossbar.PodBus.Lossless.{Lossless}

unfoldable pub join_all : List Join → BusFile → BusFile
join_all [] f = f
join_all (j ∷ js) f = join_all js (join j f)

-- What each call returned, with the process that made it.
unfoldable pub join_results : List Join → BusFile → List (Result BusSubscriber × ℕ)
join_results [] f = []
join_results (j ∷ js) f = ((connected j f).0, j.pid) ∷ join_results js (join j f)

-- A slot of a bus on which nothing was published: free, or at the beginning.
abbrev pub Untouched : SubscriberSlot → Type 0
Untouched s = (s ≡ record { pid = 0; state_cursor = state_free }) ⊎ (s.state_cursor ≡ state_active)

-- A bus on which nothing was published, with the subscribers that have connected.
pub record Waiting (ring_size : ℕ) (b : PodBus) : Type 0 where
  pub seq : b.write_seq ≡ 0
  pub size : b.ring_size ≡ ring_size
  pub cached : b.cached_slowest ≡ 0
  pub unwritten : (i : ℕ) → (b.ring i).stamp ≡ 0
  pub slots : (j : ℕ) → Untouched (b.slots j)

cleared_bus-Waiting :
    (ring_size : ℕ) (watermark : Option ℕ) → Waiting ring_size (cleared_bus ring_size watermark)
cleared_bus-Waiting ring_size watermark =
    let w = cleared_bus-IsBlank ring_size watermark in
    let b : PodBus = cleared_bus ring_size watermark in
    record {
      seq = w.seq;
      size = w.size;
      cached = w.cached;
      unwritten = w.unwritten;
      slots = λ j. inl (
          ap (λ (p : ℕ). record { pid = p; state_cursor = (b.slots j).state_cursor }) (w.no_pid j)
          ∙ ap (λ (c : ℕ). record { pid = 0; state_cursor = c }) (w.free j));
    }

Claimed-Waiting :
    (ring_size cursor pid : ℕ) (b c : PodBus)
    → Claimed cursor pid b c
    → cursor ≡ 0
    → Waiting ring_size b
    → Waiting ring_size c
Claimed-Waiting ring_size cursor pid b c k start w = record {
  seq = k.seq ∙ w.seq;
  size = k.size ∙ w.size;
  cached = k.cached ∙ w.cached;
  unwritten = λ i. ap (λ ring. (ring i).stamp) k.ring ∙ w.unwritten i;
  slots = λ j. elim (k.slots j) [
    | inl same ↦ subst Untouched (sym same) (w.slots j)
    | inr (_, shown) ↦ inr (
        ap (λ (s : SubscriberSlot). s.state_cursor) shown
        ∙ ap (λ (n : ℕ). (shown_slot n pid).state_cursor) start)
  ];
}

join_all-Waiting :
    (ring_size : ℕ) (js : List Join) (f : BusFile)
    → Waiting ring_size f.bus
    → Waiting ring_size (join_all js f).bus
unfolding join_all
join_all-Waiting ring_size [] f w = w
join_all-Waiting ring_size (j ∷ js) f w = join_all-Waiting ring_size js (join j f) (
    Claimed-Waiting ring_size f.bus.write_seq j.pid f.bus (join j f).bus (connect_file-Claimed j f)
      w.seq w)

-- Those who connect later leave a subscriber at the beginning.
join_all-AtStart :
    (ring_size : ℕ) (watermark : Option ℕ) (t : Result BusSubscriber × ℕ) (js : List Join)
    (f : BusFile)
    → AtStart ring_size watermark f.bus t
    → AtStart ring_size watermark (join_all js f).bus t
unfolding join_all
join_all-AtStart ring_size watermark t [] f s = s
join_all-AtStart ring_size watermark t (j ∷ js) f s =
    join_all-AtStart ring_size watermark t js (join j f) (
      Claimed-AtStart ring_size watermark f.bus.write_seq j.pid f.bus (join j f).bus t
        (connect_file-Claimed j f) s)

join_results-AtStart :
    (ring_size : ℕ) (watermark : Option ℕ) (js : List Join) (f : BusFile)
    → Titled ring_size watermark f
    → f.bus.write_seq ≡ 0
    → All (AtStart ring_size watermark (join_all js f).bus) (join_results js f)
unfolding join_all join_results
join_results-AtStart ring_size watermark [] f titled start = tt
join_results-AtStart ring_size watermark (j ∷ js) f titled start =
    let f' = join j f in
    (
      join_all-AtStart ring_size watermark ((connected j f).0, j.pid) js f'
          (connect_file-AtStart ring_size watermark j f titled start),
      join_results-AtStart ring_size watermark js f'
          (record { version = titled.version; size = titled.size })
          ((connect_file-Claimed j f).seq ∙ start),
    )

Waiting-Holds :
    (h : ℕ → Value) (ring_size : ℕ) (b : PodBus)
    → is_power_of_two ring_size ≡ true
    → Waiting ring_size b
    → Holds h b
Waiting-Holds h ring_size b power w =
    let seq = w.seq in
    record {
      power = ap is_power_of_two w.size ∙ power;
      room = omega arith;
      recent = λ s low high. absurd (omega arith);
    }

Waiting-Lossless :
    (is_pid_alive : ℕ → Bool) (effective ring_size : ℕ) (b : PodBus)
    → Waiting ring_size b
    → Lossless is_pid_alive effective b
Waiting-Lossless is_pid_alive effective ring_size b w =
    let seq = w.seq in
    let cached = w.cached in record { within = λ j below live. (omega arith, omega arith) }

-- A bus that was created, after any number of calls of `connect`, each with its own type, clock and
-- process: nothing counts as published, no entry of the ring carries a stamp, and every slot is free
-- or shows the beginning. Each call that succeeded returned a subscriber at the beginning that lost
-- nothing, on a bounded bus with a slot that still shows the beginning under its process, on a lossy
-- bus without one. So the ring holds the empty history, whatever the history `h` is to be, and no
-- live subscriber is behind, however few entries one may fall behind. Nothing is published
-- meanwhile.
pub create_inner-join_all :
    (h : ℕ → Value) (is_pid_alive : ℕ → Bool) (effective : ℕ) (js : List Join) (calls : BusCalls)
    (type : PodType) (name : List ℕ) (ring_size : ℕ) (watermark : Option ℕ) (old : Option BusFile)
    (owner : BusOwner) (f : BusFile)
    → create_inner calls type name ring_size watermark old ≡ some (ok owner, some f)
    → let b = (join_all js f).bus in
      Waiting ring_size b
      × All (AtStart ring_size watermark b) (join_results js f)
      × Holds h b
      × Lossless is_pid_alive effective b
create_inner-join_all h is_pid_alive effective js calls type name ring_size watermark old owner f
      e =
    let (power, _, _, s) = create_inner-Started calls type name ring_size watermark owner f old e in
    let g = started calls.pid s.t type ring_size watermark in
    let cleared = cleared_bus-Waiting ring_size watermark in
    let blank : Waiting ring_size g.bus = record {
      seq = cleared.seq;
      size = cleared.size;
      cached = cleared.cached;
      unwritten = cleared.unwritten;
      slots = cleared.slots;
    } in
    let start = subst (λ (k : BusFile). Waiting ring_size k.bus) (sym s.file) blank in
    let titled : Titled ring_size watermark f =
      subst (Titled ring_size watermark) (sym s.file) (record { version = refl; size = refl }) in
    let waiting = join_all-Waiting ring_size js f start in
    (
      waiting,
      join_results-AtStart ring_size watermark js f titled start.seq,
      Waiting-Holds h ring_size (join_all js f).bus power waiting,
      Waiting-Lossless is_pid_alive effective ring_size (join_all js f).bus waiting,
    )
