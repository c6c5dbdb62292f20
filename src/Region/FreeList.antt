-- ===== src/Region/FreeList.antt =====
-- The block pool as a stack of block indices.
use crossbar.Base.{
  ℕ, ◌+◌, ◌*◌, ◌/◌, ◌%◌, ◌^◌, ◌<◌, ◌≡◌, ◌≢◌, refl, sym, ap, ◌∙◌, List, [], ◌∷◌, ◌⊎◌, inl, inr, All,
  arith, ltb, lt→ltb, le→ltb, if◌then◌else◌, update,
}
use native.Mathlib.Decide.{dec_lt}
use crossbar.Layout.{no_block, pack}
use crossbar.Region.State.{Region, u32}
use crossbar.Region.Pool.{
  Alloc, taken, exhausted, return_now, swap, alloc_plan, alloc_from, alloc_block, free_link,
  free_head, free_from, free_block,
}

-- The links from index `h` on run through `xs` and end.
abbrev pub Chain : (ℕ → ℕ) → ℕ → List ℕ → Type 0
Chain link h [] = h ≡ no_block
Chain link h (x ∷ xs) = (h ≡ x) × Chain link (link x) xs

abbrev pub NotIn : ℕ → List ℕ → Type 0
NotIn a xs = All (λ x. a ≢ x) xs

abbrev pub Distinct : List ℕ → Type 0
Distinct [] = Unit
Distinct (x ∷ xs) = NotIn x xs × Distinct xs

-- The free blocks of a region, from the head of the list on.
pub record FreeList (r : Region) (xs : List ℕ) : Type 0 where
  pub small : r.config.block_count < 2 ^ 32
  pub word : r.pool_head < 2 ^ 64
  pub chain : Chain r.link (r.pool_head % 2 ^ 32) xs
  pub inside : All (λ x. x < r.config.block_count) xs
  pub distinct : Distinct xs

-- The stack that the pool stands for.
unfoldable pub pop : List ℕ → Alloc × List ℕ
pop [] = (exhausted, [])
pop (x ∷ xs) = (taken x, xs)

pub Chain-update :
    (link : ℕ → ℕ) (i v h : ℕ) (xs : List ℕ)
    → NotIn i xs
    → Chain link h xs
    → Chain (update link i v) h xs
Chain-update link i v h [] n c = c
Chain-update link i v h (x ∷ xs) n c =
    let here : update link i v x ≡ link x = ground arith in
    (c.0, rw here (Chain-update link i v (link x) xs n.1 c.1))

-- The generation that the head of the list carries.
abbrev pub gen_of : ℕ → ℕ
gen_of head = head / 2 ^ 32 % 2 ^ 32

pub plan-nil : (r : Region) → FreeList r [] → alloc_plan r.pool_head r ≡ return_now exhausted
unfolding alloc_plan
plan-nil r f = ground arith

-- A link inside the list is a block in range, or the end.
link-inside :
    (n link : ℕ) (next : ℕ → ℕ) (xs : List ℕ)
    → Chain next link xs
    → All (λ x. x < n) xs
    → (link ≡ no_block) ⊎ (link < n)
link-inside n link next [] c i = inl c
link-inside n link next (x ∷ xs) c i = inr (omega arith)

pub plan-cons :
    (r : Region) (x : ℕ) (xs : List ℕ)
    → FreeList r (x ∷ xs)
    → alloc_plan r.pool_head r ≡ swap x (pack (u32 (gen_of r.pool_head + 1)) (r.link x))
unfolding alloc_plan
plan-cons r x xs f =
    let (here, rest) = f.chain in
    let (x_in, in_range) = f.inside in
    let next = link-inside r.config.block_count (r.link x) r.link xs rest in_range in
    let small = f.small in rw here (ground arith)

link-word : (r : Region) (x : ℕ) (xs : List ℕ) → FreeList r (x ∷ xs) → r.link x < 2 ^ 32
link-word r x xs f =
    let (here, rest) = f.chain in
    let (x_in, in_range) = f.inside in
    let next = link-inside r.config.block_count (r.link x) r.link xs rest in_range in
    let small = f.small in omega arith

-- Taking the head off leaves the list of the rest, with the next generation.
pub taken-FreeList :
    (r : Region) (x : ℕ) (xs : List ℕ)
    → FreeList r (x ∷ xs)
    → let head = pack (u32 (gen_of r.pool_head + 1)) (r.link x) in
      FreeList (record r { pool_head = head }) xs
      × (gen_of head ≡ (gen_of r.pool_head + 1) % 2 ^ 32)
unfolding pack
taken-FreeList r x xs f =
    let next = link-word r x xs f in
    let low : pack (u32 (gen_of r.pool_head + 1)) (r.link x) % 2 ^ 32 ≡ r.link x = omega arith in
    (
      record {
        small = f.small;
        word = omega arith;
        chain = rw low f.chain.1;
        inside = f.inside.1;
        distinct = f.distinct.1;
      },
      omega arith,
    )

-- The head word that names `idx`, with the generation after that of `head`.
abbrev pub next_head : (head idx : ℕ) → ℕ
next_head head idx = (head / 2 ^ 32 + 1) % 2 ^ 32 * 2 ^ 32 + idx

pack-next_head :
    (r : Region) (idx : ℕ)
    → r.pool_head < 2 ^ 64
    → pack (u32 (gen_of r.pool_head + 1)) idx ≡ next_head r.pool_head idx
unfolding pack
pack-next_head r idx word = omega arith

-- The region after a pop: only the head changes, and not even that where no block is free.
unfoldable pub popped : Region → List ℕ → Region
popped r [] = r
popped r (x ∷ xs) = record r { pool_head = next_head r.pool_head (r.link x) }

-- Alone, `alloc_block` pops the stack of free blocks: it returns the top block, which is then no
-- longer free, and changes nothing but the head of the list, or it reports that the pool is empty and
-- changes nothing; it never reports corruption.
pub alloc_block_refines :
    (r : Region) (xs : List ℕ)
    → FreeList r xs
    → let (a, r') = alloc_block [] r in
      (a ≡ (pop xs).0) × FreeList r' (pop xs).1 × (r' ≡ popped r xs)
unfolding alloc_block pop popped
alloc_block_refines r [] f = rw (plan-nil r f, alloc_from) (refl, f, refl)
alloc_block_refines r (x ∷ xs) f =
    rw (plan-cons r x xs f, alloc_from)
      (
        refl,
        (taken-FreeList r x xs f).0,
        ap (λ (head : ℕ). record r { pool_head = head }) (pack-next_head r (r.link x) f.word),
      )

-- Linking a block that is not free changes nothing of the list.
pub linked-FreeList :
    (r : Region) (idx : ℕ) (xs : List ℕ)
    → FreeList r xs
    → NotIn idx xs
    → FreeList (free_link idx r.pool_head r) xs
unfolding free_link
linked-FreeList r idx xs f n = record {
  small = f.small;
  word = f.word;
  chain = Chain-update r.link idx _ _ xs n f.chain;
  inside = f.inside;
  distinct = f.distinct;
}

-- A block whose link is the head's index becomes the new head.
pub pushed-FreeList :
    (r : Region) (idx : ℕ) (xs : List ℕ)
    → FreeList r xs
    → NotIn idx xs
    → idx < r.config.block_count
    → r.link idx ≡ r.pool_head % 2 ^ 32
    → FreeList (record r { pool_head = free_head idx r.pool_head }) (idx ∷ xs)
      × (gen_of (free_head idx r.pool_head) ≡ (gen_of r.pool_head + 1) % 2 ^ 32)
unfolding free_head pack
pushed-FreeList r idx xs f n lt e =
    let small = f.small in
    let word = f.word in
    (
      record {
        small = f.small;
        word = omega arith;
        chain = (omega arith, rw e f.chain);
        inside = (lt, f.inside);
        distinct = (n, f.distinct);
      },
      omega arith,
    )

-- The region after a push: the block's link and the head change.
unfoldable pub pushed : ℕ → Region → Region
pushed idx r = record r {
  link = update r.link idx (r.pool_head % 2 ^ 32);
  pool_head = next_head r.pool_head idx;
}

free_block-pushed :
    (r : Region) (idx : ℕ)
    → idx < r.config.block_count
    → r.pool_head < 2 ^ 64
    → free_block [] idx r ≡ pushed idx r
unfolding free_block free_from free_head free_link pushed
free_block-pushed r idx lt word = rw (lt→ltb _ _ lt) (
    ap
      (λ (head : ℕ). record r { link = update r.link idx (r.pool_head % 2 ^ 32); pool_head = head })
      (pack-next_head r idx word))

-- Alone, `free_block` pushes a block that is not free already, and changes nothing but its link and
-- the head of the list; an index out of range is ignored, and nothing changes.
pub free_block_refines :
    (r : Region) (idx : ℕ) (xs : List ℕ)
    → FreeList r xs
    → NotIn idx xs
    → let inside = ltb idx r.config.block_count in
      FreeList (free_block [] idx r) (if inside then idx ∷ xs else xs)
      × (free_block [] idx r ≡ (if inside then pushed idx r else r))
unfolding free_block free_from
free_block_refines r idx xs f n = elim (dec_lt idx r.config.block_count) [
  | yes lt ↦
      let exact = free_block-pushed r idx lt f.word in
      (
        rw (lt→ltb _ _ lt)
            (pushed-FreeList (free_link idx r.pool_head r) idx xs (linked-FreeList r idx xs f n) n
              (unfold free_link in lt) (unfold free_link in ground arith)).0,
        exact ∙ ap (λ b. if b then pushed idx r else r) (sym (lt→ltb _ _ lt)),
      )
  | no ge ↦ rw (le→ltb idx r.config.block_count (omega arith)) (f, refl)
]
