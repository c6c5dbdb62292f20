-- ===== src/Commits/Sound.antt =====
-- What holds in a system of publishers after any steps.
use mathlib.Core.Path.{subst}
use native.Mathlib.Nat.{mod-eq_of_lt}
use crossbar.Base.{
  ℕ, ◌+◌, ◌≤◌, ◌<◌, ◌^◌, ◌≡◌, refl, sym, ap, ◌∙◌, Bool, arith, not, ◌&&◌, ltb, ◌==◌, if_ind, eq→==,
}
use crossbar.Layout.{Config, no_block, seq_writing}
use crossbar.Region.State.{Region}
use crossbar.Region.Ring.{slot_of}
use crossbar.Region.Commit.{free_block-Released, smart_wake-Released, keep-Released}
use crossbar.Commits.Exclusion.{Exclusive, Act-Exclusive}
use crossbar.Commits.Steps.{
  Pc, idle, claiming, comparing, forcing, reading, counting, pointing, sizing, closing, releasing,
  recycling, freeing, waking, Choice, System, begun_after, stolen_after, advance, moved, take, look,
  spin, compare, release, recycle, Keeps, Steps, here, publisher, others,
}
use crossbar.Commits.Refines.{ring_of, Seen, moved-Act}

module _ (i : ℕ) where
  module _ (single_publisher : Bool) (choice : Choice) (r : Region) where
    advance-config : (c : Pc) → (advance i single_publisher choice r c).0.config ≡ r.config
    unfolding advance take look compare release recycle
    advance-config idle = refl
    advance-config (claiming seq spins job) = refl
    advance-config (comparing seq spins current job) = ground arith
    advance-config (forcing seq job) = refl
    advance-config (reading seq job) = refl
    advance-config (counting seq old job) = refl
    advance-config (pointing seq old job) = refl
    advance-config (sizing seq old job) = refl
    advance-config (closing seq old job) = refl
    advance-config (releasing old job) = ground arith
    advance-config (recycling old job) = refl
    advance-config (freeing idx job) = (free_block-Released idx idx r).same_config
    advance-config (waking job) =
        (smart_wake-Released 0 i job.wake r r (keep-Released 0 r)).same_config

    advance-seq :
        (c : Pc) (n : ℕ)
        → (r.topics i).write_seq ≡ n
        → begun_after i c n < 2 ^ 62
        → ((advance i single_publisher choice r c).0.topics i).write_seq ≡ begun_after i c n
    unfolding advance take look compare release recycle
    advance-seq idle n e room = rw (eq→== i i refl) (mod-eq_of_lt (omega arith) ∙ ap (λ n. n + 1) e)
    advance-seq (claiming seq spins job) n e room = e
    advance-seq (comparing seq spins current job) n e room = ground arith
    advance-seq (forcing seq job) n e room = e
    advance-seq (reading seq job) n e room = e
    advance-seq (counting seq old job) n e room = e
    advance-seq (pointing seq old job) n e room = e
    advance-seq (sizing seq old job) n e room = e
    advance-seq (closing seq old job) n e room = e
    advance-seq (releasing old job) n e room = ground arith
    advance-seq (recycling old job) n e room = e
    advance-seq (freeing idx job) n e room =
        ap (λ (ts : ℕ → _). (ts i).write_seq) (free_block-Released idx idx r).same_topics ∙ e
    advance-seq (waking job) n e room =
        ap (λ (ts : ℕ → _). (ts i).write_seq)
          (smart_wake-Released 0 i job.wake r r (keep-Released 0 r)).same_topics
        ∙ e

    advance-Seen : (c : Pc) → Seen (advance i single_publisher choice r c).1
    unfolding advance take look spin compare release recycle
    advance-Seen idle = if_ind Seen single_publisher (λ e. tt) (λ e. tt)
    advance-Seen (claiming seq spins job) =
        if_ind Seen ((r.ring i (slot_of r seq)).seq == seq_writing)
          (λ e. if_ind Seen (ltb 1024 (spins + 1)) (λ e. tt) (λ e. tt)) (λ e. ground arith)
    advance-Seen (comparing seq spins current job) =
        if_ind (λ (t : Region × Pc). Seen t.1)
          (not choice.spurious && ((r.ring i (slot_of r seq)).seq == current)) (λ e. tt) (λ e. tt)
    advance-Seen (forcing seq job) = tt
    advance-Seen (reading seq job) = tt
    advance-Seen (counting seq old job) = tt
    advance-Seen (pointing seq old job) = tt
    advance-Seen (sizing seq old job) = tt
    advance-Seen (closing seq old job) = tt
    advance-Seen (releasing old job) =
        if_ind (λ (t : Region × Pc). Seen t.1)
          (not (old == no_block) && ltb old r.config.block_count)
          (λ e. if_ind Seen (r.refcount old == 1) (λ e. tt) (λ e. tt)) (λ e. tt)
    advance-Seen (recycling old job) =
        if_ind Seen (not (r.last_freed == no_block)) (λ e. tt) (λ e. tt)
    advance-Seen (freeing idx job) = tt
    advance-Seen (waking job) = tt

  -- The system is well-formed: the count of commits is the sequence number, and the ring has one
  -- writer for a slot at most and no entry of two commits.
  pub record Sound (s : System i) : Type 0 where
    pub count : (s.mem.topics i).write_seq ≡ s.begun
    pub seen : (p : ℕ) → Seen (s.pc p)
    pub exclusive : Exclusive (slot_of s.mem) (ring_of i s)

  slot_of-config : (r r' : Region) → r'.config ≡ r.config → slot_of r' ≡ slot_of r
  unfolding slot_of
  slot_of-config r r' e = ap (λ (c : Config). λ (seq : ℕ). slot_of (record r { config = c }) seq) e

  pub begun_after-le : (c : Pc) (n : ℕ) → n ≤ begun_after i c n
  begun_after-le c n = ground arith

  pub stolen_after-zero : (c : Pc) (r : Region) (n : ℕ) → stolen_after i c r n ≡ 0 → n ≡ 0
  stolen_after-zero c r n e = ground arith

  moved-Sound :
      (single_publisher : Bool) (choice : Choice) (p : ℕ) (s : System i)
      → let t = moved i single_publisher choice p (s.pc p) s in
        Sound s → t.begun < 2 ^ 62 → t.stolen ≡ 0 → Sound t
  unfolding moved
  moved-Sound single_publisher choice p s x room kept =
      let t : System i = moved i single_publisher choice p (s.pc p) s in
      let act = moved-Act i single_publisher choice p s (s.pc p) (x.seen p) x.count room in
      let config = advance-config single_publisher choice s.mem (s.pc p) in
      record {
        count = advance-seq single_publisher choice s.mem (s.pc p) s.begun x.count room;
        seen = λ q.
            if_ind Seen (p == q) (λ e. advance-Seen single_publisher choice s.mem (s.pc p))
              (λ e. x.seen q);
        exclusive =
            subst (λ (slot : ℕ → ℕ). Exclusive slot (ring_of i t))
              (sym (slot_of-config s.mem t.mem config))
              (Act-Exclusive (slot_of s.mem) (ring_of i s) p x.exclusive act refl kept);
      }

  others-Sound :
      (s : System i) (r : Region) → Keeps i s.mem r → Sound s → Sound (record s { mem = r })
  others-Sound s r k x = record {
    count = k.same_seq ∙ x.count;
    seen = x.seen;
    exclusive =
        subst (λ (slot : ℕ → ℕ). Exclusive slot (ring_of i (record s { mem = r })))
          (sym (slot_of-config s.mem r k.same_config))
          (subst (λ row. Exclusive (slot_of s.mem) (record (ring_of i s) { row = row }))
            (sym k.same_row) x.exclusive);
  }

  -- Whatever any number of publishers and others do from a well-formed state of the ring, in any order
  -- of their accesses, the state stays well-formed: two publishers never write to the same slot, a
  -- slot that is being written carries the mark, the numbers taken are different, and an entry
  -- that is not marked is the message of its number. No mark is stored without a test on a slot that
  -- is being written, and the numbers do not run out.
  pub Steps-Sound :
      {s t : System i} → Steps i s t → Sound s → t.begun < 2 ^ 62 → t.stolen ≡ 0 → Sound t
  unfolding moved
  Steps-Sound here x room kept = x
  Steps-Sound (publisher {t} steps single_publisher choice p) x room kept =
      let more = begun_after-le (t.pc p) t.begun in
      moved-Sound single_publisher choice p t
        (Steps-Sound steps x (omega arith) (stolen_after-zero (t.pc p) t.mem t.stolen kept)) room
        kept
  Steps-Sound (others {t} steps r k) x room kept =
      others-Sound t r k (Steps-Sound steps x room kept)

  stolen_after-le : (c : Pc) (r : Region) (n : ℕ) → n ≤ stolen_after i c r n
  stolen_after-le c r n = ground arith

  pub Steps-le : {s t : System i} → Steps i s t → (s.begun ≤ t.begun) × (s.stolen ≤ t.stolen)
  unfolding moved
  Steps-le here = omega arith
  Steps-le (publisher {t} steps single_publisher choice p) = omega (
    arith,
    Steps-le steps,
    begun_after-le (t.pc p) t.begun,
    stolen_after-le (t.pc p) t.mem t.stolen,
  )
  Steps-le (others steps r k) = Steps-le steps

  pub Steps-trans : {s t u : System i} → Steps i s t → Steps i t u → Steps i s u
  Steps-trans x here = x
  Steps-trans x (publisher steps single_publisher choice p) =
      publisher (Steps-trans x steps) single_publisher choice p
  Steps-trans x (others steps r k) = others (Steps-trans x steps) r k

  -- Publishers that are all idle, on a ring that is empty.
  abbrev pub started : Region → System i
  started r = record {
    mem = r;
    pc = λ p. idle;
    begun = 0;
    history = λ a. record { block_idx = 0; data_len = 0 };
    stolen = 0;
  }

  pub started-Sound :
      (r : Region)
      → (r.topics i).write_seq ≡ 0
      → ((j : ℕ) → (r.ring i j).seq ≡ 0)
      → Sound (started r)
  started-Sound r unused empty = record {
    count = unused;
    seen = λ p. tt;
    exclusive = record {
      low = λ p s e. cc;
      unique = λ p q s e f. cc;
      lock = λ p s e. cc;
      one = λ p q s t e f same. cc;
      jobs = λ p s e. cc;
      blocks = λ p s e. cc;
      lens = λ p s e. cc;
      closed = λ j ne pos. let zero_seq = empty j in absurd (omega arith);
    };
  }
