-- ===== src/Pmm/Tests.antt =====
-- Examples of the buddy allocator of kernel/mm/pmm.c on a machine with 12 MB of memory.
use aj.Common.{
  ℕ, zero, suc, ◌≡◌, refl, List, [], ◌∷◌, ◌++◌, some, replicate, get_or, first_from, arith,
}
use aj.Pmm.{
  Pmm, largest_blocks, smaller_blocks, add_to_list, pmm_init, take_block, alloc_from, alloc_page,
  free_page,
}
use aj.Pmm.Cover.{IsPmm, Allocated, free_from, alloc_page-Allocated, free_page-alloc_page}

abbrev small_machine : Pmm
small_machine = pmm_init 0xc0_0000

-- Ten empty lists and one with a block of 4 MB.
one_block : small_machine.free_lists ≡ replicate 10 [] ++ ((0x80_0000 ∷ []) ∷ [])
unfolding pmm_init largest_blocks smaller_blocks add_to_list
one_block = refl

only_last :
    (n order c b : ℕ) (bs : List ℕ)
    → get_or (replicate n [] ++ ((c ∷ []) ∷ [])) order [] ≡ b ∷ bs
    → (order ≡ n) × (b ≡ c)
only_last zero zero c b bs e = (refl, cc)
only_last zero (suc order) c b bs e = absurd (cc e)
only_last (suc n) zero c b bs e = absurd (cc e)
only_last (suc n) (suc order) c b bs e =
    let (x, y) = only_last n order c b bs e in (omega (arith, x), y)

small_machine-IsPmm : IsPmm small_machine
small_machine-IsPmm = record {
  orders = rw one_block refl;
  in_memory = λ order b bs e.
      let (x, y) = only_last 10 order 0x80_0000 b bs (rw one_block at e) in rw (x, y) (omega arith);
}

alloc_page-Allocated_example : Allocated small_machine 3 (alloc_page small_machine 3)
alloc_page-Allocated_example = alloc_page-Allocated 3 small_machine-IsPmm (omega arith)

first_address : (alloc_page small_machine 3).1 ≡ some 0x80_0000
unfolding alloc_page alloc_from take_block first_from pmm_init largest_blocks smaller_blocks
    add_to_list
first_address = refl

free_page-alloc_page_example :
    free_from 0 0x80_1234 (free_page (alloc_page small_machine 3).0 0x80_0000 3).free_lists
    ≡ free_from 0 0x80_1234 small_machine.free_lists
free_page-alloc_page_example =
    free_page-alloc_page 3 0x80_0000 small_machine-IsPmm (omega arith) first_address
      (λ z. omega (arith, z)) 0x80_1234
