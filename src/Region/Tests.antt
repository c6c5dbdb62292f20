-- ===== src/Region/Tests.antt =====
-- A pool of two blocks: allocated and freed alone, and under another process's operations.
use crossbar.Base.{ℕ, ◌<◌, ◌≡◌, List, [], ◌∷◌, arith, ltb, if◌then◌else◌}
use crossbar.Layout.{pack}
use crossbar.Region.Fixture.{blank}
use crossbar.Region.State.{Region}
use crossbar.Region.Pool.{
  Interference, alloc_block, alloc_from, alloc_plan, init_links, free_block, init_free_list,
  free_link,
}
use crossbar.Region.FreeList.{
  FreeList, pop, popped, pushed, alloc_block_refines, free_block_refines, linked-FreeList,
}
use crossbar.Region.Init.{init_free_list-FreeList}
use crossbar.Region.Contention.{
  Acted, LegalRun, Visited, round_limit, alloc_block_contended, alloc_block-Acted,
}
use crossbar.Region.ContendedFree.{LegalFree, VisitedFree, free_block_contended}

abbrev two_blocks : Region
two_blocks = init_free_list blank

two_blocks-FreeList : FreeList two_blocks (0 ∷ 1 ∷ [])
two_blocks-FreeList = (init_free_list-FreeList blank (omega arith) (omega arith)).0

-- Block 0 is taken, block 1 stays free.
alloc_block_refines_example :
    let (a, r') = alloc_block [] two_blocks in
    (a ≡ (pop (0 ∷ 1 ∷ [])).0)
    × FreeList r' (pop (0 ∷ 1 ∷ [])).1
    × (r' ≡ popped two_blocks (0 ∷ 1 ∷ []))
alloc_block_refines_example = alloc_block_refines two_blocks (0 ∷ 1 ∷ []) two_blocks-FreeList

abbrev one_taken : Region
one_taken = (alloc_block [] two_blocks).1

one_taken-FreeList : FreeList one_taken (1 ∷ [])
unfolding pop
one_taken-FreeList = (alloc_block_refines two_blocks (0 ∷ 1 ∷ []) two_blocks-FreeList).1

free_block_refines_example :
    let inside = ltb 0 one_taken.config.block_count in
    FreeList (free_block [] 0 one_taken) (if inside then 0 ∷ 1 ∷ [] else 1 ∷ [])
    × (free_block [] 0 one_taken ≡ (if inside then pushed 0 one_taken else one_taken))
free_block_refines_example =
    free_block_refines one_taken 0 (1 ∷ []) one_taken-FreeList (omega arith, tt)

-- The other process takes a block.
abbrev takes : Interference
takes r = (alloc_block [] r).1

within_round :
    {mine : ℕ} {r s : Region} {xs : List ℕ} → Acted 1 mine r s xs → Acted round_limit mine r s xs
within_round a =
    let few = a.few in
    record {
      ops = a.ops;
      after = a.after;
      few = omega arith;
      free = a.free;
      gen = a.gen;
      none_same = a.none_same;
      same_config = a.same_config;
      same_link = a.same_link;
      mine_out = a.mine_out;
    }

takes-LegalRun : LegalRun (takes ∷ []) 9 two_blocks (0 ∷ 1 ∷ [])
takes-LegalRun = (
  within_round (
      alloc_block-Acted 9 two_blocks (0 ∷ 1 ∷ []) two_blocks-FreeList
        (omega arith, (omega arith, tt))),
  tt,
)

alloc_block_contended_example :
    (stack : List ℕ) × Visited (takes ∷ []) 9 two_blocks (0 ∷ 1 ∷ []) takes-LegalRun stack
    × ((alloc_block (takes ∷ []) two_blocks).0 ≡ (pop stack).0)
    × FreeList (alloc_block (takes ∷ []) two_blocks).1 (pop stack).1
alloc_block_contended_example =
    alloc_block_contended (takes ∷ []) 9 two_blocks (0 ∷ 1 ∷ []) two_blocks-FreeList takes-LegalRun

takes-LegalFree : LegalFree (takes ∷ []) 0 one_taken (1 ∷ [])
takes-LegalFree = (
  within_round (
      alloc_block-Acted 0 (free_link 0 one_taken.pool_head one_taken) (1 ∷ [])
        (linked-FreeList one_taken 0 (1 ∷ []) one_taken-FreeList (omega arith, tt))
        (omega arith, tt)),
  tt,
)

in_range : 0 < one_taken.config.block_count
unfolding alloc_block alloc_from alloc_plan init_free_list init_links pack
in_range = omega arith

free_block_contended_example :
    (stack : List ℕ) × VisitedFree (takes ∷ []) 0 one_taken (1 ∷ []) takes-LegalFree stack
    × FreeList (free_block (takes ∷ []) 0 one_taken) (0 ∷ stack)
free_block_contended_example =
    free_block_contended (takes ∷ []) 0 one_taken (1 ∷ []) one_taken-FreeList (omega arith, tt)
      in_range takes-LegalFree
