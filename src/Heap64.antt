-- ===== src/Heap64.antt =====
-- The kernel heap of the x86-64 kernel, src/vm64.c from `struct kblock` on: a first-fit allocator over
-- one region, with a header before each block. The doubly linked list of the headers is the list of the
-- blocks in the order of their `next` links; each block keeps the address of its header.
use aj.Common.{
  ℕ, ◌+◌, ◌-◌, ◌*◌, ◌/◌, ◌≡◌, Bool, true, false, ◌&&◌, Option, none, some, List, [], ◌∷◌, ◌++◌,
  ◌==◌, leb, if◌then◌else◌, u64,
}
use mathlib.Core.Option
pub mod FirstFit
pub mod Release
pub mod RoundTrip
pub mod Spec
pub mod Run
mod Tests

-- `sizeof(struct kblock)`: four 8-byte fields.
abbrev pub header : ℕ
header = 32

abbrev pub heap_vma : ℕ
heap_vma = 0x20000000000

abbrev pub heap_size : ℕ
heap_size = 2048 * 4096

pub record Block : Type 0 where
  pub addr : ℕ
  pub size : ℕ
  pub free : Bool

abbrev pub Heap : Type 0
Heap = List Block

pub heap64_init : Heap
heap64_init = record { addr = heap_vma; size = heap_size - header; free = true } ∷ []

-- `n = (n + 15) & ~15ull`
abbrev pub round_up : ℕ → ℕ
round_up n = u64 (n + 15) / 16 * 16

-- The block that is taken: it is split where the rest holds a header and 16 bytes.
pub carve : ℕ → Block → Heap
carve n b =
    if leb (u64 (n + header + 16)) b.size
    then record b { size = n; free = false }
      ∷ record { addr = b.addr + header + n; size = b.size - n - header; free = true }
      ∷ []
    else record b { free = false } ∷ []

-- The first-fit loop, for a size that is rounded already. The result is 0 where no block fits.
pub first_fit : ℕ → Heap → Heap × ℕ
first_fit n [] = ([], 0)
first_fit n (b ∷ bs) =
    let (bs', p) = first_fit n bs in
    if b.free && leb n b.size then (carve n b ++ bs, b.addr + header) else (b ∷ bs', p)

pub kmalloc64 : Heap → ℕ → Heap × ℕ
unfolding first_fit carve
kmalloc64 h n = first_fit (round_up n) h

-- `b->size += sizeof(struct kblock) + c->size`, and `c` leaves the list.
pub grow : Block → Block → Block
grow b c = record b { size = u64 (b.size + (header + c.size)) }

pub absorb_next : Block → Heap → Heap
absorb_next b [] = b ∷ []
absorb_next b (c ∷ cs) = if c.free then grow b c ∷ cs else b ∷ c ∷ cs

pub join_prev : Block → Heap → Heap
join_prev a [] = a ∷ []
join_prev a (b ∷ bs) = if a.free then grow a b ∷ bs else a ∷ b ∷ bs

abbrev pub mark_free : Block → Block
mark_free b = record b { free = true }

-- The payload of `b` starts at `p`.
abbrev pub is_at : ℕ → Block → Bool
is_at p b = b.addr + header == p

-- The release of the block with payload `p`. `none` is a pointer that is no block's: the C code
-- then writes to memory that is no header.
pub release : ℕ → Heap → Option Heap
release p [] = none
release p (a ∷ []) = if is_at p a then some (mark_free a ∷ []) else none
release p (a ∷ b ∷ bs) =
    if is_at p a
    then some (absorb_next (mark_free a) (b ∷ bs))
    else if is_at p b
    then some (join_prev a (absorb_next (mark_free b) bs))
    else Option.map (λ bs'. a ∷ bs') (release p (b ∷ bs))

-- `kfree64`; the null pointer is ignored.
pub kfree64 : Heap → ℕ → Option Heap
unfolding release absorb_next join_prev grow
kfree64 h p = if p == 0 then some h else release p h
