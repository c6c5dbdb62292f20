-- ===== src/Publisher/Refill.antt =====
-- Allocation through the cache.
use crossbar.Base.{
  ℕ, zero, suc, ◌-◌, ◌≡◌, refl, sym, ap, ◌∙◌, Option, some, List, [], ◌∷◌, arith, take, drop,
  length, if◌then◌else◌, ltb, lt→ltb, ◌==◌, not, Bool-cases, inl, inr,
}
use crossbar.Error.{Result, ok}
use crossbar.Layout.{no_block}
use crossbar.Region.State.{Region}
use crossbar.Region.Pool.{alloc_block, alloc_recycled}
use crossbar.Region.FreeList.{FreeList, pop, popped, alloc_block_refines}
use crossbar.Publisher.Blocks.{Publisher, refill, refilled, pop_cache, alloc_cached}

-- The blocks in the order in which a refill stacks them onto the cache.
abbrev pub stack_onto : List ℕ → List ℕ → List ℕ
stack_onto [] cache = cache
stack_onto (x ∷ xs) cache = stack_onto xs (x ∷ cache)

-- The result of a refill and the list of free blocks after it; of the region only the head of that
-- list changes.
abbrev Refills : List ℕ → List ℕ → Region → Result (Unit {0}) × List ℕ × Region → Type 0
Refills cache free r t =
    (t.0 ≡ ok tt)
    × (t.1 ≡ cache)
    × FreeList t.2 free
    × (t.2 ≡ record r { pool_head = t.2.pool_head })

same_head : (r r' : Region) → r' ≡ r → r' ≡ record r { pool_head = r'.pool_head }
same_head r r' e = e ∙ ap (λ (q : Region). record r { pool_head = q.pool_head }) (sym e)

refill-Refills :
    (n : ℕ) (cache : List ℕ) (r : Region) (xs : List ℕ)
    → FreeList r xs
    → Refills (stack_onto (take n xs) cache) (drop n xs) r (refill n cache r)
unfolding refill pop popped
refill-Refills zero cache r xs f = (refl, refl, f, refl)
refill-Refills (suc n) cache r [] f =
    let (result, rest, same) = alloc_block_refines r [] f in
    rw (refill, result) (refl, refl, rest, same_head r (alloc_block [] r).1 same)
refill-Refills (suc n) cache r (x ∷ xs) f =
    let (result, rest, same) = alloc_block_refines r (x ∷ xs) f in
    let r1 : Region = (alloc_block [] r).1 in
    let (done, stacked, free, kept) = refill-Refills n (x ∷ cache) r1 xs rest in
    let head : ℕ = (refill n (x ∷ cache) r1).2.pool_head in
    rw (refill, result)
      (done, stacked, free, kept ∙ ap (λ (q : Region). record q { pool_head = head }) same)

-- What an allocation takes, and the cache and the free list that it leaves, from the recycled block,
-- the cache and the free list.
unfoldable pub expected : ℕ → List ℕ → List ℕ → Option ℕ × List ℕ × List ℕ
unfolding pop_cache
expected recycled cache xs =
    if not (recycled == no_block) then (some recycled, cache, xs) else elim cache [
      | [] ↦ let (idx, rest) = pop_cache (stack_onto (take 8 xs) []) in (idx, rest, drop 8 xs)
      | x ∷ rest ↦ (some x, rest, xs)
    ]

-- The outcome of an allocation by `p` in `r`: beside the cache, the publisher is as it was; beside the
-- head of the free list and the recycled block, which is forgotten, the region is as it was.
abbrev pub AllocatesAs :
    Option ℕ × List ℕ × List ℕ
    → Publisher
    → Region
    → Result (Option ℕ) × Publisher × Region
    → Type 0
AllocatesAs t p r out =
    (out.0 ≡ ok t.0)
    × (out.1 ≡ record p { block_cache = t.1 })
    × FreeList out.2 t.2
    × (out.2 ≡ record r { last_freed = no_block; pool_head = out.2.pool_head })

forget_recycled :
    (r : Region) (xs : List ℕ) → FreeList r xs → FreeList (record r { last_freed = no_block }) xs
forget_recycled r xs f = record {
  small = f.small;
  word = f.word;
  chain = f.chain;
  inside = f.inside;
  distinct = f.distinct;
}

refilled-AllocatesAs :
    (p : Publisher) (r : Region) (xs : List ℕ)
    → FreeList r xs
    → r.last_freed ≡ no_block
    → let (idx, rest) = pop_cache (stack_onto (take 8 xs) []) in
      AllocatesAs (idx, rest, drop 8 xs) p r (refilled (refill 8 [] r) p)
unfolding refilled
refilled-AllocatesAs p r xs f forgotten =
    let (done, cache, rest, kept) = refill-Refills 8 [] r xs f in
    let head : ℕ = (refill 8 [] r).2.pool_head in
    rw (refilled, done)
      (
        ap (λ c. ok (pop_cache c).0) cache,
        ap (λ c. record p { block_cache = (pop_cache c).1 }) cache,
        rest,
        kept ∙ ap (λ (n : ℕ). record r { last_freed = n; pool_head = head }) forgotten,
      )

-- Where there is no recycled block.
from_cache :
    (cache : List ℕ) (p : Publisher) (r : Region) (xs : List ℕ)
    → FreeList r xs
    → r.last_freed ≡ no_block
    → AllocatesAs
        (elim cache [
          | [] ↦ let (idx, rest) = pop_cache (stack_onto (take 8 xs) []) in (idx, rest, drop 8 xs)
          | x ∷ rest ↦ (some x, rest, xs)
        ])
        p
        r
        (if ltb 0 (length cache)
          then (let (idx, rest) = pop_cache cache in (ok idx, record p { block_cache = rest }, r))
          else refilled (refill (8 - length cache) cache r) (record p { block_cache = cache }))
unfolding pop_cache
from_cache [] p r xs f forgotten =
    refilled-AllocatesAs (record p { block_cache = [] }) r xs f forgotten
from_cache (x ∷ rest) p r xs f forgotten =
    rw (lt→ltb 0 (length (x ∷ rest)) (omega arith))
      (refl, refl, f, ap (λ (n : ℕ). record r { last_freed = n }) forgotten)

-- `alloc_cached` alone, for every recycled block, cache and free list: it returns the recycled block if
-- there is one, else the last block of the cache, else the last of up to eight blocks that it moves
-- from the free list into the cache, or nothing if that list is empty. Every other block stays where
-- it was or goes into the cache. Afterwards there is no recycled block, so that none is handed out
-- twice; of the region only that and the head of the free list change, of the publisher only the
-- cache.
pub alloc_cached-AllocatesAs :
    (cache : List ℕ) (p : Publisher) (r : Region) (xs : List ℕ)
    → FreeList r xs
    → let out = alloc_cached (record p { block_cache = cache }) r in
      AllocatesAs (expected r.last_freed cache xs) p r out
unfolding alloc_cached expected alloc_recycled
alloc_cached-AllocatesAs cache p r xs f =
    let r1 : Region = record r { last_freed = no_block } in
    let f1 = forget_recycled r xs f in
    elim (Bool-cases (r.last_freed == no_block)) [
      | inl e ↦ rw (expected, alloc_cached, alloc_recycled, e) (from_cache cache p r1 xs f1 refl)
      | inr e ↦ rw (expected, alloc_cached, alloc_recycled, e) (refl, refl, f1, refl)
    ]
