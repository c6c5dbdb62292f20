-- ===== src/Region/ContendedFree.antt =====
-- The retry loop of `free_block` under interference by other processes.
use mathlib.Core.Path.{subst}
use native.Mathlib.Decide.{ℕ_discrete}
use crossbar.Base.{
  ℕ, ◌%◌, ◌^◌, ◌<◌, ◌≡◌, refl, ap, ◌⊎◌, inl, inr, List, [], ◌∷◌, arith, eq→==, ne→==, lt→ltb,
}
use crossbar.Layout.{Config}
use crossbar.Region.State.{Region}
use crossbar.Region.Pool.{Interference, free_link, free_head, free_from, free_block}
use crossbar.Region.FreeList.{FreeList, NotIn, linked-FreeList, pushed-FreeList}
use crossbar.Region.Contention.{Acted, round_limit, same_head}

abbrev linked : ℕ → Region → Region
linked idx r = free_link idx r.pool_head r

-- In each round the interference meets the region with the block already linked.
abbrev pub LegalFree : List Interference → ℕ → Region → List ℕ → Type 0
LegalFree [] idx r xs = Unit
LegalFree (e ∷ env) idx r xs =
    (a : Acted round_limit idx (linked idx r) (e (linked idx r)) xs) × LegalFree env idx
      (e (linked idx r)) a.after

-- The lists of free blocks that the run goes through.
abbrev pub VisitedFree :
    (env : List Interference) (idx : ℕ) (r : Region) (xs : List ℕ)
    → LegalFree env idx r xs
    → List ℕ
    → Type 0
VisitedFree [] idx r xs run ys = ys ≡ xs
VisitedFree (e ∷ env) idx r xs run ys =
    (ys ≡ xs) ⊎ VisitedFree env idx (e (linked idx r)) run.0.after run.1 ys

pub record Pushed (env : List Interference) (idx : ℕ) (r : Region) (xs : List ℕ)
    (run : LegalFree env idx r xs) : Type 0 where
  pub stack : List ℕ
  pub visited : VisitedFree env idx r xs run stack
  pub free : FreeList (free_from env idx r.pool_head r) (idx ∷ stack)

-- The block that was linked to the old head is pushed where the head still reads the same.
push_same :
    (r s : Region) (idx : ℕ) (xs : List ℕ)
    → FreeList r xs
    → NotIn idx xs
    → idx < r.config.block_count
    → Acted round_limit idx (linked idx r) s xs
    → s.pool_head ≡ r.pool_head
    → FreeList (record s { pool_head = free_head idx r.pool_head }) (idx ∷ xs)
unfolding free_link
push_same r s idx xs f n lt a same =
    let after = same_head {xs = xs} (omega arith) a same in
    let g = subst (FreeList s) after a.free in
    let count = ap (λ (c : Config). c.block_count) a.same_config in
    let link : s.link idx ≡ s.pool_head % 2 ^ 32 = ground (arith, a.same_link) in
    let done = (pushed-FreeList s idx xs g n (omega arith) link).0 in
    subst (λ h. FreeList (record s { pool_head = free_head idx h }) (idx ∷ xs)) same done

free_from-Pushed :
    (env : List Interference) (idx : ℕ) (r : Region) (xs : List ℕ)
    → FreeList r xs
    → NotIn idx xs
    → idx < r.config.block_count
    → (run : LegalFree env idx r xs) → Pushed env idx r xs run
unfolding free_from
free_from-Pushed [] idx r xs f n lt run = record {
  stack = xs;
  visited = refl;
  free =
      (pushed-FreeList (linked idx r) idx xs (linked-FreeList r idx xs f n) n
        (unfold free_link in lt) (unfold free_link in ground arith)).0;
}
free_from-Pushed (e ∷ env) idx r xs f n lt (a, run) =
    let s : Region = e (linked idx r) in
    elim (ℕ_discrete s.pool_head r.pool_head) [
      | yes same ↦ record {
        stack = xs;
        visited = inl refl;
        free = rw (eq→== _ _ same) (push_same r s idx xs f n lt a same);
      }
      | no other ↦
          let count = ap (λ (c : Config). c.block_count) a.same_config in
          let in_range : idx < s.config.block_count = unfold free_link in omega arith in
          let later = free_from-Pushed env idx s a.after a.free a.mine_out in_range run in
          record {
            stack = later.stack;
            visited = inr later.visited;
            free = rw (ne→== _ _ other) later.free;
          }
    ]

-- Under any interference in which each round sees fewer than 2^32 legal pool operations of other
-- processes, `free_block` of a block in range that is not free pushes it on one of the lists of free
-- blocks that existed while it ran.
pub free_block_contended :
    (env : List Interference) (idx : ℕ) (r : Region) (xs : List ℕ)
    → FreeList r xs
    → NotIn idx xs
    → idx < r.config.block_count
    → (run : LegalFree env idx r xs)
    → (stack : List ℕ) × VisitedFree env idx r xs run stack
      × FreeList (free_block env idx r) (idx ∷ stack)
unfolding free_block
free_block_contended env idx r xs f n lt run =
    let p = free_from-Pushed env idx r xs f n lt run in
    (p.stack, p.visited, rw (lt→ltb _ _ lt) p.free)
