-- ===== src/Publisher/Pinned.antt =====
-- The reader count of a pinned topic, and the operations on it.
use crossbar.Base.{ℕ, suc, ◌≢◌, eq→==, ◌+◌, ◌<◌, ◌≡◌, refl, Bool, true, false, some, arith}
use crossbar.Layout.{pinned_writer_active}
use crossbar.Region.State.{Region, u32, dec32}
use crossbar.Stream.Receive.{enter, leave}
use crossbar.Loan.Write.{clear_writer}
use crossbar.Publisher.Blocks.{claim_writer}

-- The operations on the reader count of a topic, with the number of guards that exist and whether a
-- pinned loan exists; other memory changes in any way.
pub data Step (topic : ℕ) (r : Region) : ℕ → Bool → Region → ℕ → Bool → Type 0 where
  reader_in :
      {g : ℕ} {w : Bool} {r' : Region}
      → enter topic r ≡ some r'
      → suc g < pinned_writer_active
      → Step topic r g w r' (suc g) w
  reader_out : {g : ℕ} {w : Bool} → Step topic r (suc g) w (leave topic r) g w
  writer_in :
      {g : ℕ} {w : Bool} {r' : Region} → claim_writer topic r ≡ some r' → Step topic r g w r' g true
  writer_out : {g : ℕ} → Step topic r g true (clear_writer topic r) g false
  other :
      {g : ℕ} {w : Bool} {r' : Region}
      → (r'.topics topic).pinned_readers ≡ (r.topics topic).pinned_readers
      → Step topic r g w r' g w

pub data Steps (topic : ℕ) (r : Region) (g : ℕ) (w : Bool) : Region → ℕ → Bool → Type 0 where
  here : Steps topic r g w r g w
  next :
      {s t : Region} {h k : ℕ} {v u : Bool}
      → Steps topic r g w s h v
      → Step topic s h v t k u
      → Steps topic r g w t k u

-- What the reader count says in each case.
abbrev pub Counts : ℕ → Region → ℕ → Bool → Type 0
Counts topic r g false = ((r.topics topic).pinned_readers ≡ g) × (g < pinned_writer_active)
Counts topic r g true = ((r.topics topic).pinned_readers ≡ pinned_writer_active) × (g ≡ 0)

enter_lem :
    (topic : ℕ) (r r' : Region)
    → enter topic r ≡ some r'
    → ((r.topics topic).pinned_readers ≢ pinned_writer_active)
      × ((r'.topics topic).pinned_readers ≡ u32 ((r.topics topic).pinned_readers + 1))
unfolding enter
enter_lem topic r r' e = ground arith

claim_writer_lem :
    (topic : ℕ) (r r' : Region)
    → claim_writer topic r ≡ some r'
    → ((r.topics topic).pinned_readers ≡ 0)
      × ((r'.topics topic).pinned_readers ≡ pinned_writer_active)
unfolding claim_writer
claim_writer_lem topic r r' e = ground arith

leave_lem :
    (topic : ℕ) (r : Region)
    → ((leave topic r).topics topic).pinned_readers ≡ dec32 (r.topics topic).pinned_readers
unfolding leave
leave_lem topic r = rw (eq→== topic topic refl) refl

clear_writer_lem :
    (topic : ℕ) (r : Region) → ((clear_writer topic r).topics topic).pinned_readers ≡ 0
unfolding clear_writer
clear_writer_lem topic r = rw (eq→== topic topic refl) refl

Step-Counts :
    {topic : ℕ} {r : Region} {g : ℕ} {w : Bool} {r' : Region} {g' : ℕ} {w' : Bool}
    → Step topic r g w r' g' w'
    → Counts topic r g w
    → Counts topic r' g' w'
Step-Counts {w = false} (reader_in e few) c =
    let (free, now) = enter_lem _ _ _ e in (omega arith, few)
Step-Counts {w = true} (reader_in e few) c =
    let (free, now) = enter_lem _ _ _ e in absurd (free c.0)
Step-Counts {topic} {r} {w = false} reader_out c =
    let now = leave_lem topic r in (omega (arith, now), omega arith)
Step-Counts {w = true} reader_out c = absurd (omega arith)
Step-Counts {w = false} (writer_in e) c =
    let (before, now) = claim_writer_lem _ _ _ e in (now, omega arith)
Step-Counts {w = true} (writer_in e) c =
    let (before, now) = claim_writer_lem _ _ _ e in absurd (omega arith)
Step-Counts {topic} {r} writer_out c =
    let now = clear_writer_lem topic r in (omega arith, omega arith)
Step-Counts {w = false} (other e) c = (omega arith, c.1)
Step-Counts {w = true} (other e) c = (omega arith, c.1)

-- From a topic without guards and loans, after any operations of any number of processes on its
-- reader count: while a pinned loan exists, no guard exists, and otherwise the count is the number of
-- guards. Fewer than 2^32 - 1 guards exist at a time.
pub Steps-Counts :
    {topic : ℕ} {r : Region} {r' : Region} {g : ℕ} {w : Bool}
    → (r.topics topic).pinned_readers ≡ 0
    → Steps topic r 0 false r' g w
    → Counts topic r' g w
Steps-Counts start here = (start, omega arith)
Steps-Counts start (next steps step) = Step-Counts step (Steps-Counts start steps)
