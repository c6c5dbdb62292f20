-- ===== src/Region/Contention.antt =====
-- The retry loops of the block pool under interference by other processes.
-- What they do between a round's reads and its compare-exchange is a run of pool operations on other
-- blocks; each such operation raises the generation, so that a head that reads the same is the same
-- list as long as fewer than 2^32 operations fall into one round.
use crossbar.Base.{
  ℕ, ◌+◌, ◌-◌, ◌%◌, ◌^◌, ◌≤◌, ◌<◌, ◌≡◌, ◌≢◌, refl, sym, ◌∙◌, ap, ◌⊎◌, inl, inr, List, [], ◌∷◌,
  arith, eq→==, ne→==, lt→ltb,
}
use mathlib.Core.Path.{subst, ap₂}
use native.Mathlib.Decide.{ℕ_discrete}
use crossbar.Layout.{pack}
use crossbar.Region.State.{Region, u32}
use crossbar.Region.Pool.{Interference, alloc_from, alloc_block, free_link, free_from, free_block}
use crossbar.Region.FreeList.{
  FreeList, NotIn, Chain, gen_of, pop, plan-nil, plan-cons, taken-FreeList, linked-FreeList,
  pushed-FreeList,
}

-- At most `n` pool operations that do not touch block `mine` lead from `r` to `s`, where the list
-- `xs` of free blocks has become `after`.
pub record Acted (n mine : ℕ) (r s : Region) (xs : List ℕ) : Type 0 where
  pub ops : ℕ
  pub after : List ℕ
  pub few : ops ≤ n
  pub free : FreeList s after
  pub gen : gen_of s.pool_head ≡ (gen_of r.pool_head + ops) % 2 ^ 32
  pub none_same : ops ≡ 0 → after ≡ xs
  pub same_config : s.config ≡ r.config
  pub same_link : s.link mine ≡ r.link mine
  pub mine_out : NotIn mine after

-- The bound on the operations within one round.
abbrev pub round_limit : ℕ
round_limit = 2 ^ 32 - 1

-- Each interference of the schedule acts so, from the state that it meets on.
abbrev pub LegalRun : List Interference → ℕ → Region → List ℕ → Type 0
LegalRun [] mine r xs = Unit
LegalRun (e ∷ env) mine r xs =
    (a : Acted round_limit mine r (e r) xs) × LegalRun env mine (e r) a.after

-- The lists of free blocks that the run goes through.
abbrev pub Visited :
    (env : List Interference) (mine : ℕ) (r : Region) (xs : List ℕ)
    → LegalRun env mine r xs
    → List ℕ
    → Type 0
Visited [] mine r xs run ys = ys ≡ xs
Visited (e ∷ env) mine r xs run ys = (ys ≡ xs) ⊎ Visited env mine (e r) run.0.after run.1 ys

Chain-head-eq : (f g : ℕ → ℕ) (a b : ℕ) (xs : List ℕ) → Chain f a xs → Chain g b xs → a ≡ b
Chain-head-eq f g a b [] c d = c ∙ sym d
Chain-head-eq f g a b (x ∷ xs) c d = c.0 ∙ sym d.0

-- A head that reads the same after the interference is the head of the same list.
pub same_head :
    {n mine : ℕ} {r s : Region} {xs : List ℕ}
    → n ≤ round_limit
    → (a : Acted n mine r s xs) → s.pool_head ≡ r.pool_head
    → a.after ≡ xs
same_head {r} {s} le a e =
    a.none_same (let g = a.gen in let f = a.few in let h = ap gen_of e in omega arith)

-- The new head that was planned at `r` is the right one at `s`, where the head reads the same.
swapped-FreeList :
    (r s : Region) (x : ℕ) (xs : List ℕ)
    → FreeList r (x ∷ xs)
    → FreeList s (x ∷ xs)
    → s.pool_head ≡ r.pool_head
    → FreeList (record s { pool_head = pack (u32 (gen_of r.pool_head + 1)) (r.link x) }) xs
swapped-FreeList r s x xs f g e =
    let link = Chain-head-eq s.link r.link (s.link x) (r.link x) xs g.chain.1 f.chain.1 in
    let done = (taken-FreeList s x xs g).0 in
    let head : pack (u32 (gen_of s.pool_head + 1)) (s.link x)
        ≡ pack (u32 (gen_of r.pool_head + 1)) (r.link x) =
      ap₂ (λ h l. pack (u32 (gen_of h + 1)) l) e link in
    subst (λ h. FreeList (record s { pool_head = h }) xs) head done

-- What `alloc_from` gives is a pop of one of the lists that the run goes through.
pub record Popped (env : List Interference) (mine : ℕ) (r : Region) (xs : List ℕ)
    (run : LegalRun env mine r xs) : Type 0 where
  pub stack : List ℕ
  pub visited : Visited env mine r xs run stack
  pub result : (alloc_from env r.pool_head r).0 ≡ (pop stack).0
  pub rest : FreeList (alloc_from env r.pool_head r).1 (pop stack).1

alloc_from-Popped :
    (env : List Interference) (mine : ℕ) (r : Region) (xs : List ℕ)
    → FreeList r xs
    → (run : LegalRun env mine r xs) → Popped env mine r xs run
unfolding pop alloc_from
alloc_from-Popped [] mine r [] f run = record {
  stack = [];
  visited = refl;
  result = rw (plan-nil r f, alloc_from) refl;
  rest = rw (plan-nil r f, alloc_from) f;
}
alloc_from-Popped [] mine r (x ∷ xs) f run = record {
  stack = x ∷ xs;
  visited = refl;
  result = rw (plan-cons r x xs f, alloc_from) refl;
  rest = rw (plan-cons r x xs f, alloc_from) (taken-FreeList r x xs f).0;
}
alloc_from-Popped (e ∷ env) mine r [] f run = record {
  stack = [];
  visited = inl refl;
  result = rw (plan-nil r f, alloc_from) refl;
  rest = rw (plan-nil r f, alloc_from) f;
}
alloc_from-Popped (e ∷ env) mine r (x ∷ xs) f (a, run) =
    elim (ℕ_discrete (e r).pool_head r.pool_head) [
      | yes same ↦
          let still = subst (FreeList (e r)) (same_head (omega arith) a same) a.free in
          record {
            stack = x ∷ xs;
            visited = inl refl;
            result = rw (plan-cons r x xs f, alloc_from) (rw (eq→== _ _ same) refl);
            rest =
                rw (plan-cons r x xs f, alloc_from)
                  (rw (eq→== _ _ same) (swapped-FreeList r (e r) x xs f still same));
          }
      | no other ↦
          let later = alloc_from-Popped env mine (e r) a.after a.free run in
          record {
            stack = later.stack;
            visited = inr later.visited;
            result = rw (plan-cons r x xs f, alloc_from) (rw (ne→== _ _ other) later.result);
            rest = rw (plan-cons r x xs f, alloc_from) (rw (ne→== _ _ other) later.rest);
          }
    ]

-- Under any interference in which each round sees fewer than 2^32 legal pool operations of other
-- processes, `alloc_block` pops one of the lists of free blocks that existed while it ran: it returns
-- that list's top block and leaves the others free, or it reports that the list was empty.
pub alloc_block_contended :
    (env : List Interference) (mine : ℕ) (r : Region) (xs : List ℕ)
    → FreeList r xs
    → (run : LegalRun env mine r xs)
    → (stack : List ℕ) × Visited env mine r xs run stack
      × ((alloc_block env r).0 ≡ (pop stack).0)
      × FreeList (alloc_block env r).1 (pop stack).1
unfolding alloc_block
alloc_block_contended env mine r xs f run =
    let p = alloc_from-Popped env mine r xs f run in (p.stack, p.visited, p.result, p.rest)

-- The operations of the pool themselves are such interference: one operation raises the generation
-- by one, or changes nothing.
pub alloc_block-Acted :
    (mine : ℕ) (r : Region) (xs : List ℕ)
    → FreeList r xs
    → NotIn mine xs
    → Acted 1 mine r (alloc_block [] r).1 xs
unfolding alloc_block alloc_from
alloc_block-Acted mine r [] f n =
    rw (plan-nil r f, alloc_from)
      (record {
        ops = 0;
        after = [];
        few = omega arith;
        free = f;
        gen = omega arith;
        none_same = λ _. refl;
        same_config = refl;
        same_link = refl;
        mine_out = tt;
      })
alloc_block-Acted mine r (x ∷ xs) f n =
    rw (plan-cons r x xs f, alloc_from)
      (record {
        ops = 1;
        after = xs;
        few = omega arith;
        free = (taken-FreeList r x xs f).0;
        gen = (taken-FreeList r x xs f).1;
        none_same = λ e. absurd (omega arith);
        same_config = refl;
        same_link = refl;
        mine_out = n.1;
      })

pub free_block-Acted :
    (mine idx : ℕ) (r : Region) (xs : List ℕ)
    → FreeList r xs
    → NotIn mine xs
    → NotIn idx xs
    → idx < r.config.block_count
    → mine ≢ idx
    → Acted 1 mine r (free_block [] idx r) xs
unfolding free_block free_from
free_block-Acted mine idx r xs f n m lt ne =
    let pushed =
      pushed-FreeList (free_link idx r.pool_head r) idx xs (linked-FreeList r idx xs f m) m
        (unfold free_link in lt) (unfold free_link in ground arith) in
    rw (lt→ltb _ _ lt) (record {
      ops = 1;
      after = idx ∷ xs;
      few = omega arith;
      free = pushed.0;
      gen = unfold free_link in pushed.1;
      none_same = λ e. absurd (omega arith);
      same_config = unfold free_link in refl;
      same_link = unfold free_link in ground arith;
      mine_out = (ne, n);
    })

-- Legal runs of operations compose.
pub Acted-trans :
    {m n mine : ℕ} {r s t : Region} {xs : List ℕ}
    → (a : Acted m mine r s xs) → Acted n mine s t a.after
    → Acted (m + n) mine r t xs
Acted-trans a b = record {
  ops = a.ops + b.ops;
  after = b.after;
  few = let p = a.few in let q = b.few in omega arith;
  free = b.free;
  gen = let p = a.gen in let q = b.gen in omega arith;
  none_same = λ e. b.none_same (omega arith) ∙ a.none_same (omega arith);
  same_config = b.same_config ∙ a.same_config;
  same_link = b.same_link ∙ a.same_link;
  mine_out = b.mine_out;
}
