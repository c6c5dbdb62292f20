-- ===== src/Commits/Exclusion.antt =====
-- One writer for a slot, and no entry of two commits.
use crossbar.Base.{ℕ, ◌≤◌, ◌<◌, ◌≡◌, ◌≢◌, refl, sym, Option, none, some, arith}
use mathlib.Core.Path.{subst}
use native.Mathlib.Decide.{ℕ_discrete}
use crossbar.Layout.{seq_writing}
use crossbar.Stream.Receive.{SlotRead}
use crossbar.Commits.Protocol.{
  Phase, away, waiting, holding, pointed, sized, seq_in, writer_in, Ring, set_slot, Act, rest,
  begin, mark, point, size, close,
}

-- The sequence number of a publisher that has written the block index, and the length too.
abbrev pub block_in : Phase → Option ℕ
block_in (pointed s job) = some s
block_in (sized s job) = some s
block_in _ = none

abbrev pub len_in : Phase → Option ℕ
len_in (sized s job) = some s
len_in _ = none

-- The message of a publisher with a sequence number.
abbrev pub job_in : Phase → SlotRead
job_in away = record { block_idx = 0; data_len = 0 }
job_in (waiting s job) = job
job_in (holding s job) = job
job_in (pointed s job) = job
job_in (sized s job) = job

writer_in-seq_in : (f : Phase) (s : ℕ) → writer_in f ≡ some s → seq_in f ≡ some s
writer_in-seq_in away s e = cc
writer_in-seq_in (waiting t job) s e = cc
writer_in-seq_in (holding t job) s e = e
writer_in-seq_in (pointed t job) s e = e
writer_in-seq_in (sized t job) s e = e

block_in-writer_in : (f : Phase) (s : ℕ) → block_in f ≡ some s → writer_in f ≡ some s
block_in-writer_in away s e = cc
block_in-writer_in (waiting t job) s e = cc
block_in-writer_in (holding t job) s e = cc
block_in-writer_in (pointed t job) s e = e
block_in-writer_in (sized t job) s e = e

len_in-block_in : (f : Phase) (s : ℕ) → len_in f ≡ some s → block_in f ≡ some s
len_in-block_in away s e = cc
len_in-block_in (waiting t job) s e = cc
len_in-block_in (holding t job) s e = cc
len_in-block_in (pointed t job) s e = cc
len_in-block_in (sized t job) s e = e

-- The entry of number `a` is the message of that number, at its slot, and nobody works on it.
pub record Closed (slot : ℕ → ℕ) (v : Ring) (j a : ℕ) : Type 0 where
  pub place : slot a ≡ j
  pub taken : a ≤ v.last
  pub block : (v.row j).block_idx ≡ (v.history a).block_idx
  pub len : (v.row j).data_len ≡ (v.history a).data_len
  pub done : (p : ℕ) → seq_in (v.phase p) ≢ some a

pub record Exclusive (slot : ℕ → ℕ) (v : Ring) : Type 0 where
  pub low : (p s : ℕ) → seq_in (v.phase p) ≡ some s → (0 < s) × (s ≤ v.last)
  pub unique : (p q s : ℕ) → seq_in (v.phase p) ≡ some s → seq_in (v.phase q) ≡ some s → p ≡ q
  pub lock : (p s : ℕ) → writer_in (v.phase p) ≡ some s → (v.row (slot s)).seq ≡ seq_writing
  pub one :
      (p q s t : ℕ)
      → writer_in (v.phase p) ≡ some s
      → writer_in (v.phase q) ≡ some t
      → slot s ≡ slot t
      → p ≡ q
  pub jobs : (p s : ℕ) → seq_in (v.phase p) ≡ some s → job_in (v.phase p) ≡ v.history s
  pub blocks :
      (p s : ℕ)
      → block_in (v.phase p) ≡ some s
      → (v.row (slot s)).block_idx ≡ (v.history s).block_idx
  pub lens :
      (p s : ℕ) → len_in (v.phase p) ≡ some s → (v.row (slot s)).data_len ≡ (v.history s).data_len
  pub closed :
      (j : ℕ) → (v.row j).seq ≢ seq_writing → 0 < (v.row j).seq → Closed slot v j (v.row j).seq

module _ (slot : ℕ → ℕ) (v : Ring) (p : ℕ) (x : Exclusive slot v) where
  Act-low :
      {f : Phase} {u : Ring}
      → Act slot v p f u
      → f ≡ v.phase p
      → (q s : ℕ) → seq_in (u.phase q) ≡ some s
      → (0 < s) × (s ≤ u.last)
  Act-low (rest f) e q s h = ground (arith, x.low p s, x.low q s)
  Act-low (begin job) e q s h = ground (arith, x.low q s)
  Act-low (mark a job) e q s h = ground (arith, x.low p s, x.low q s)
  Act-low (point a job) e q s h = ground (arith, x.low p s, x.low q s)
  Act-low (size a job) e q s h = ground (arith, x.low p s, x.low q s)
  Act-low (close a job) e q s h = ground (arith, x.low p s, x.low q s)

  Act-unique :
      {f : Phase} {u : Ring}
      → Act slot v p f u
      → f ≡ v.phase p
      → (q r s : ℕ) → seq_in (u.phase q) ≡ some s
      → seq_in (u.phase r) ≡ some s
      → q ≡ r
  Act-unique (begin job) e q r s h k = ground (arith, x.low q s, x.low r s, x.unique q r s)
  Act-unique (rest f) e q r s h k = ground (arith, x.unique q r s, x.unique p r s, x.unique q p s)
  Act-unique (mark a job) e q r s h k =
      ground (arith, x.unique q r s, x.unique p r s, x.unique q p s)
  Act-unique (point a job) e q r s h k =
      ground (arith, x.unique q r s, x.unique p r s, x.unique q p s)
  Act-unique (size a job) e q r s h k =
      ground (arith, x.unique q r s, x.unique p r s, x.unique q p s)
  Act-unique (close a job) e q r s h k =
      ground (arith, x.unique q r s, x.unique p r s, x.unique q p s)

  Act-lock :
      {f : Phase} {u : Ring}
      → Act slot v p f u
      → f ≡ v.phase p
      → u.stolen ≡ 0
      → (q s : ℕ) → writer_in (u.phase q) ≡ some s
      → (u.row (slot s)).seq ≡ seq_writing
  Act-lock (rest f) e kept q s h = ground (arith, x.lock q s, x.lock p s)
  Act-lock (begin job) e kept q s h = ground (arith, x.lock q s, x.lock p s)
  Act-lock (mark a job) e kept q s h = ground (arith, x.lock q s, x.lock p s)
  Act-lock (point a job) e kept q s h = ground (arith, x.lock q s, x.lock p s)
  Act-lock (size a job) e kept q s h = ground (arith, x.lock q s, x.lock p s)
  Act-lock (close a job) e kept q s h = ground (arith, x.lock q s, x.lock p s, x.one p q a s)

  Act-one :
      {f : Phase} {u : Ring}
      → Act slot v p f u
      → f ≡ v.phase p
      → u.stolen ≡ 0
      → (q r s t : ℕ) → writer_in (u.phase q) ≡ some s
      → writer_in (u.phase r) ≡ some t
      → slot s ≡ slot t
      → q ≡ r
  Act-one (rest f) e kept q r s t h k same =
      ground (arith, x.one q r s t, x.one p r s t, x.one q p s t)
  Act-one (begin job) e kept q r s t h k same = ground (arith, x.one q r s t)
  Act-one (mark a job) e kept q r s t h k same =
      ground (arith, x.one q r s t, x.lock q s, x.lock r t)
  Act-one (point a job) e kept q r s t h k same =
      ground (arith, x.one q r s t, x.one p r s t, x.one q p s t)
  Act-one (size a job) e kept q r s t h k same =
      ground (arith, x.one q r s t, x.one p r s t, x.one q p s t)
  Act-one (close a job) e kept q r s t h k same = ground (arith, x.one q r s t)

  Act-jobs :
      {f : Phase} {u : Ring}
      → Act slot v p f u
      → f ≡ v.phase p
      → u.stolen ≡ 0
      → (q s : ℕ) → seq_in (u.phase q) ≡ some s
      → job_in (u.phase q) ≡ u.history s
  Act-jobs (rest f) e kept q s h = ground (arith, x.jobs q s, x.jobs p s, x.low q s, x.low p s)
  Act-jobs (begin job) e kept q s h = ground (arith, x.jobs q s, x.jobs p s, x.low q s, x.low p s)
  Act-jobs (mark a job) e kept q s h = ground (arith, x.jobs q s, x.jobs p s, x.low q s, x.low p s)
  Act-jobs (point a job) e kept q s h = ground (arith, x.jobs q s, x.jobs p s, x.low q s, x.low p s)
  Act-jobs (size a job) e kept q s h = ground (arith, x.jobs q s, x.jobs p s, x.low q s, x.low p s)
  Act-jobs (close a job) e kept q s h = ground (arith, x.jobs q s, x.jobs p s, x.low q s, x.low p s)

  Act-blocks :
      {f : Phase} {u : Ring}
      → Act slot v p f u
      → f ≡ v.phase p
      → u.stolen ≡ 0
      → (q s : ℕ) → block_in (u.phase q) ≡ some s
      → (u.row (slot s)).block_idx ≡ (u.history s).block_idx
  Act-blocks (rest f) e kept q s h = ground (
    arith,
    x.blocks q s,
    x.blocks p s,
    x.jobs p s,
    x.low q s,
    x.low p s,
    x.one p q s s,
    x.lock q s,
    block_in-writer_in (v.phase q) s,
    writer_in-seq_in (v.phase q) s,
  )
  Act-blocks (begin job) e kept q s h = ground (
    arith,
    x.blocks q s,
    x.blocks p s,
    x.jobs p s,
    x.low q s,
    x.low p s,
    x.one p q s s,
    x.lock q s,
    block_in-writer_in (v.phase q) s,
    writer_in-seq_in (v.phase q) s,
  )
  Act-blocks (mark a job) e kept q s h = ground (
    arith,
    x.blocks q s,
    x.blocks p s,
    x.jobs p s,
    x.low q s,
    x.low p s,
    x.one p q a s,
    x.lock q s,
    block_in-writer_in (v.phase q) s,
    writer_in-seq_in (v.phase q) s,
  )
  Act-blocks (point a job) e kept q s h = ground (
    arith,
    x.blocks q s,
    x.blocks p s,
    x.jobs p s,
    x.low q s,
    x.low p s,
    x.one p q a s,
    x.lock q s,
    block_in-writer_in (v.phase q) s,
    writer_in-seq_in (v.phase q) s,
  )
  Act-blocks (size a job) e kept q s h = ground (
    arith,
    x.blocks q s,
    x.blocks p s,
    x.jobs p s,
    x.low q s,
    x.low p s,
    x.one p q a s,
    x.lock q s,
    block_in-writer_in (v.phase q) s,
    writer_in-seq_in (v.phase q) s,
  )
  Act-blocks (close a job) e kept q s h = ground (
    arith,
    x.blocks q s,
    x.blocks p s,
    x.jobs p s,
    x.low q s,
    x.low p s,
    x.one p q a s,
    x.lock q s,
    block_in-writer_in (v.phase q) s,
    writer_in-seq_in (v.phase q) s,
  )

  Act-lens :
      {f : Phase} {u : Ring}
      → Act slot v p f u
      → f ≡ v.phase p
      → u.stolen ≡ 0
      → (q s : ℕ) → len_in (u.phase q) ≡ some s
      → (u.row (slot s)).data_len ≡ (u.history s).data_len
  Act-lens (rest f) e kept q s h = ground (
    arith,
    x.lens q s,
    x.lens p s,
    x.jobs p s,
    x.low q s,
    x.low p s,
    x.one p q s s,
    x.lock q s,
    len_in-block_in (v.phase q) s,
    block_in-writer_in (v.phase q) s,
    writer_in-seq_in (v.phase q) s,
  )
  Act-lens (begin job) e kept q s h = ground (
    arith,
    x.lens q s,
    x.lens p s,
    x.jobs p s,
    x.low q s,
    x.low p s,
    x.one p q s s,
    x.lock q s,
    len_in-block_in (v.phase q) s,
    block_in-writer_in (v.phase q) s,
    writer_in-seq_in (v.phase q) s,
  )
  Act-lens (mark a job) e kept q s h = ground (
    arith,
    x.lens q s,
    x.lens p s,
    x.jobs p s,
    x.low q s,
    x.low p s,
    x.one p q a s,
    x.lock q s,
    len_in-block_in (v.phase q) s,
    block_in-writer_in (v.phase q) s,
    writer_in-seq_in (v.phase q) s,
  )
  Act-lens (point a job) e kept q s h = ground (
    arith,
    x.lens q s,
    x.lens p s,
    x.jobs p s,
    x.low q s,
    x.low p s,
    x.one p q a s,
    x.lock q s,
    len_in-block_in (v.phase q) s,
    block_in-writer_in (v.phase q) s,
    writer_in-seq_in (v.phase q) s,
  )
  Act-lens (size a job) e kept q s h = ground (
    arith,
    x.lens q s,
    x.lens p s,
    x.jobs p s,
    x.low q s,
    x.low p s,
    x.one p q a s,
    x.lock q s,
    len_in-block_in (v.phase q) s,
    block_in-writer_in (v.phase q) s,
    writer_in-seq_in (v.phase q) s,
  )
  Act-lens (close a job) e kept q s h = ground (
    arith,
    x.lens q s,
    x.lens p s,
    x.jobs p s,
    x.low q s,
    x.low p s,
    x.one p q a s,
    x.lock q s,
    len_in-block_in (v.phase q) s,
    block_in-writer_in (v.phase q) s,
    writer_in-seq_in (v.phase q) s,
  )

  -- An entry that was closed and is not touched.
  still-Closed :
      {f : Phase} {u : Ring}
      → Act slot v p f u
      → f ≡ v.phase p
      → (j : ℕ) → u.row j ≡ v.row j
      → Closed slot v j (v.row j).seq
      → Closed slot u j (u.row j).seq
  still-Closed (rest f) e j same c = record {
    place = ground (arith, c.place);
    taken = ground (arith, c.taken);
    block = ground (arith, c.block, c.taken);
    len = ground (arith, c.len, c.taken);
    done = λ q h. ground (arith, c.done q, c.done p, c.taken);
  }
  still-Closed (begin job) e j same c = record {
    place = ground (arith, c.place);
    taken = ground (arith, c.taken);
    block = ground (arith, c.block, c.taken);
    len = ground (arith, c.len, c.taken);
    done = λ q h. ground (arith, c.done q, c.done p, c.taken);
  }
  still-Closed (mark a job) e j same c = record {
    place = ground (arith, c.place);
    taken = ground (arith, c.taken);
    block = ground (arith, c.block, c.taken);
    len = ground (arith, c.len, c.taken);
    done = λ q h. ground (arith, c.done q, c.done p, c.taken);
  }
  still-Closed (point a job) e j same c = record {
    place = ground (arith, c.place);
    taken = ground (arith, c.taken);
    block = ground (arith, c.block, c.taken);
    len = ground (arith, c.len, c.taken);
    done = λ q h. ground (arith, c.done q, c.done p, c.taken);
  }
  still-Closed (size a job) e j same c = record {
    place = ground (arith, c.place);
    taken = ground (arith, c.taken);
    block = ground (arith, c.block, c.taken);
    len = ground (arith, c.len, c.taken);
    done = λ q h. ground (arith, c.done q, c.done p, c.taken);
  }
  still-Closed (close a job) e j same c = record {
    place = ground (arith, c.place);
    taken = ground (arith, c.taken);
    block = ground (arith, c.block, c.taken);
    len = ground (arith, c.len, c.taken);
    done = λ q h. ground (arith, c.done q, c.done p, c.taken);
  }

  -- The entry that is closed now.
  Closed-now :
      (a : ℕ) (job : SlotRead)
      → sized a job ≡ v.phase p
      → (j : ℕ) → slot a ≡ j
      → let u = set_slot v (slot a) (record (v.row (slot a)) { seq = a }) p away in
        Closed slot u j (u.row j).seq
  Closed-now a job e j here =
      let u = set_slot v (slot a) (record (v.row (slot a)) { seq = a }) p away in
      let at : (u.row j).seq ≡ a = ground arith in
      let block = x.blocks p a in
      let len = x.lens p a in
      let low = x.low p a in
      subst (Closed slot u j) (sym at) (record {
        place = here;
        taken = ground (arith, low);
        block = ground (arith, block);
        len = ground (arith, len);
        done = λ q h. ground (arith, x.unique p q a);
      })

  Act-Closed :
      {f : Phase} {u : Ring}
      → Act slot v p f u
      → f ≡ v.phase p
      → u.stolen ≡ 0
      → (j : ℕ) → (u.row j).seq ≢ seq_writing
      → 0 < (u.row j).seq
      → Closed slot u j (u.row j).seq
  Act-Closed (rest f) e kept j ne pos = still-Closed (rest f) e j refl (x.closed j ne pos)
  Act-Closed (begin job) e kept j ne pos = still-Closed (begin job) e j refl (x.closed j ne pos)
  Act-Closed (mark a job) e kept j ne pos = elim (ℕ_discrete (slot a) j) [
    | yes here ↦ absurd (ground (arith, x.lock p a))
    | no other ↦
        still-Closed (mark a job) e j (ground arith) (x.closed j (ground arith) (ground arith))
  ]
  Act-Closed (point a job) e kept j ne pos = elim (ℕ_discrete (slot a) j) [
    | yes here ↦ absurd (ground (arith, x.lock p a))
    | no other ↦
        still-Closed (point a job) e j (ground arith) (x.closed j (ground arith) (ground arith))
  ]
  Act-Closed (size a job) e kept j ne pos = elim (ℕ_discrete (slot a) j) [
    | yes here ↦ absurd (ground (arith, x.lock p a))
    | no other ↦
        still-Closed (size a job) e j (ground arith) (x.closed j (ground arith) (ground arith))
  ]
  Act-Closed (close a job) e kept j ne pos = elim (ℕ_discrete (slot a) j) [
    | yes here ↦ Closed-now a job e j here
    | no other ↦
        still-Closed (close a job) e j (ground arith) (x.closed j (ground arith) (ground arith))
  ]

  pub Act-Exclusive :
      {f : Phase} {u : Ring} → Act slot v p f u → f ≡ v.phase p → u.stolen ≡ 0 → Exclusive slot u
  Act-Exclusive act e kept = record {
    low = Act-low act e;
    unique = Act-unique act e;
    lock = Act-lock act e kept;
    one = Act-one act e kept;
    jobs = Act-jobs act e kept;
    blocks = Act-blocks act e kept;
    lens = Act-lens act e kept;
    closed = Act-Closed act e kept;
  }
