-- ===== src/Pmm.antt =====
-- The buddy allocator of the i386 kernel, kernel/mm/pmm.c. The links of a free list are in the free blocks
-- themselves; here a list is the addresses of its blocks. A null pointer is `none`.
use aj.Common.{
  ℕ, zero, suc, ◌+◌, ◌-◌, ◌*◌, ◌/◌, ◌%◌, ◌^◌, bit_and, bit_or, Bool, true, false, not, ◌&&◌, ◌||◌,
  Option, none, some, List, [], ◌∷◌, ◌==◌, ltb, leb, if◌then◌else◌, modify, get_or, replicate,
  first_from, u32, Memory, store,
}
pub mod Cover
mod Tests

abbrev pub page_size : ℕ
page_size = 4096

abbrev pub max_order : ℕ
max_order = 10

abbrev pub metadata_size : ℕ
metadata_size = 131072

abbrev pub start_addr : ℕ
start_addr = 0x0080_0000

abbrev pub end_limit : ℕ
end_limit = 0x1e00_0000

pub record Pmm : Type 0 where
  pub free_lists : List (List ℕ)
  pub total_pages : ℕ
  pub free_pages : ℕ
  pub page_metadata : Memory

-- `PAGE_SIZE * (1 << order)`
abbrev pub block_size : ℕ → ℕ
block_size order = page_size * 2 ^ order

unfoldable pub add_to_list : List (List ℕ) → ℕ → ℕ → List (List ℕ)
add_to_list lists addr order = modify lists order (λ bs. addr ∷ bs)

-- The end of the memory, of which 0 bytes stand for an unknown size.
abbrev pub end_of : ℕ → ℕ
end_of mem_size =
    let ms = mem_size / page_size * page_size in
    if mem_size == 0 then end_limit else if ltb ms end_limit then ms else end_limit

-- The blocks of the largest order, `n` of them at most, and the address after them.
unfoldable pub largest_blocks : ℕ → List (List ℕ) → ℕ → ℕ → List (List ℕ) × ℕ
largest_blocks zero lists current end = (lists, current)
largest_blocks (suc n) lists current end =
    let more =
      largest_blocks n (add_to_list lists current max_order) (current + block_size max_order) end in
    if leb (current + block_size max_order) end then more else (lists, current)

-- The rest, from order `n - 1` down to 0.
unfoldable pub smaller_blocks : ℕ → List (List ℕ) → ℕ → ℕ → List (List ℕ)
smaller_blocks zero lists current end = lists
smaller_blocks (suc order) lists current end =
    let taken =
      smaller_blocks order (add_to_list lists current order) (current + block_size order) end in
    let passed = smaller_blocks order lists current end in
    if leb (current + block_size order) end then taken else passed

abbrev pub no_blocks : List (List ℕ)
no_blocks = replicate (max_order + 1) []

unfoldable pub pmm_init : ℕ → Pmm
unfolding largest_blocks smaller_blocks
pmm_init mem_size =
    let end = end_of mem_size in
    let pages = (end - start_addr) / page_size in
    let (lists, current) = largest_blocks (end / block_size max_order) no_blocks start_addr end in
    if leb end start_addr
    then record { free_lists = no_blocks; total_pages = 0; free_pages = 0; page_metadata = λ _. 0 }
    else record {
      free_lists = smaller_blocks max_order lists current end;
      total_pages = pages;
      free_pages = pages;
      page_metadata = λ _. 0;
    }

abbrev pub page_index : ℕ → ℕ
page_index addr = u32 (addr + 2 ^ 32 - start_addr) / page_size

abbrev pub mark : Memory → ℕ → ℕ → Memory
mark m addr v = if ltb (page_index addr) metadata_size then store m (page_index addr) v else m

abbrev pub is_nonempty : List ℕ → Bool
is_nonempty [] = false
is_nonempty (b ∷ bs) = true

-- `free_lists[j]` is not null.
abbrev pub has_block : List (List ℕ) → ℕ → Bool
has_block lists j = is_nonempty (get_or lists j [])

-- The split of a block of order `order + d` down to `order`: its upper halves go to the lists.
unfoldable pub split : ℕ → List (List ℕ) → ℕ → ℕ → List (List ℕ)
unfolding add_to_list
split zero lists addr order = lists
split (suc d) lists addr order =
    split d (add_to_list lists (u32 (addr + block_size (order + d))) (order + d)) addr order

abbrev pub tail : List ℕ → List ℕ
tail [] = []
tail (b ∷ bs) = bs

-- The block at the head of list `j`, which is not empty.
unfoldable pub take_block : Pmm → ℕ → ℕ → List ℕ → Pmm × Option ℕ
unfolding split
take_block s order j [] = (s, none)
take_block s order j (addr ∷ bs) = (
  record s {
    free_lists = split (j - order) (modify s.free_lists j tail) addr order;
    free_pages = u32 (s.free_pages + 2 ^ 32 - 2 ^ order);
    page_metadata = mark s.page_metadata addr (bit_or order 0x80);
  },
  some addr,
)

unfoldable pub alloc_from : Pmm → ℕ → Option ℕ → Pmm × Option ℕ
unfolding take_block
alloc_from s order none = (s, none)
alloc_from s order (some j) = take_block s order j (get_or s.free_lists j [])

-- `pmm_alloc_page`, for an order that is not negative.
unfoldable pub alloc_page : Pmm → ℕ → Pmm × Option ℕ
unfolding alloc_from
alloc_page s order =
    if ltb max_order order
    then (s, none)
    else alloc_from s order (first_from (has_block s.free_lists) (max_order + 1 - order) order)

-- `pmm_free_page`, for an order that is not negative.
unfoldable pub free_page : Pmm → ℕ → ℕ → Pmm
unfolding add_to_list
free_page s addr order = if addr == 0 || ltb max_order order then s else record s {
  free_lists = add_to_list s.free_lists addr order;
  free_pages = u32 (s.free_pages + 2 ^ order);
  page_metadata = mark s.page_metadata addr 0;
}

-- `pmm_get_order`; `none` is its -1.
pub get_order : Pmm → ℕ → Option ℕ
get_order s addr =
    if ltb (page_index addr) metadata_size
      && not (bit_and (s.page_metadata (page_index addr)) 0x80 == 0)
    then some (bit_and (s.page_metadata (page_index addr)) 0x0f)
    else none
