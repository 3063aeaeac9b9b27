-- ===== src/Vm64.antt =====
-- The page tables of src/vm64.c. Physical memory gives a 64-bit word for the address of each entry, and the table
-- that `cr3` names is a field. The flush of a translation that the processor holds is left out.
use aj.Common.{
  ℕ, zero, suc, ◌+◌, ◌-◌, ◌*◌, ◌/◌, ◌%◌, ◌^◌, bit_or, Bool, true, false, ◌&&◌, Option, none, some,
  ◌==◌, ltb, leb, if◌then◌else◌, Memory, store,
}
use aj.Pmm64.{Pmm64, pmm64_alloc_frame}
pub mod Walk
pub mod Tree
pub mod Descent
pub mod Leaf
pub mod Map
pub mod Frames
mod Tests

pub record Vm : Type 0 where
  pub mem : Memory
  pub pmm : Pmm64
  pub cr3 : ℕ

-- `e & PTE_P` and `e & ADDR_MASK`
abbrev pub is_present : ℕ → Bool
is_present e = e % 2 == 1

abbrev pub addr_of : ℕ → ℕ
addr_of e = e % 2 ^ 52 / 2 ^ 12 * 2 ^ 12

-- An entry with its flags in the low bits, and PTE_NX where `nx` is 1.
unfoldable pub entry : ℕ → ℕ → ℕ → ℕ
entry addr low nx = bit_or (bit_or addr low) (nx * 2 ^ 63)

-- `kmemset64` of a table.
unfoldable pub zero_table : Memory → ℕ → Memory
zero_table m t a = if leb t a && ltb a (t + 4096) then 0 else m a

-- `next_level` for the entry at an address; `user` is `map_user_flag`.
unfoldable pub next_level : Bool → Vm → ℕ → Vm × ℕ
unfolding zero_table entry
next_level user s p =
    let r = pmm64_alloc_frame s.pmm in
    let e = if user then entry r.1 7 0 else entry r.1 3 1 in
    if is_present (s.mem p)
    then (s, addr_of (s.mem p))
    else (record s { mem = store (zero_table s.mem r.1) p e; pmm = r.0 }, addr_of e)

-- The three levels, and the entry of the page.
unfoldable pub set_page : Bool → Vm → ℕ → ℕ → Vm
unfolding next_level
set_page user s v e =
    let a = next_level user s (s.cr3 + 8 * (v / 2 ^ 39 % 512)) in
    let b = next_level user a.0 (a.1 + 8 * (v / 2 ^ 30 % 512)) in
    let c = next_level user b.0 (b.1 + 8 * (v / 2 ^ 21 % 512)) in
    record c.0 { mem = store c.0.mem (c.1 + 8 * (v / 2 ^ 12 % 512)) e }

unfoldable pub vm64_map : Vm → ℕ → ℕ → Vm
unfolding set_page entry
vm64_map s vaddr paddr = set_page false s vaddr (entry paddr 3 1)

unfoldable pub vm64_map_user : Vm → ℕ → ℕ → Bool → Vm
unfolding set_page entry
vm64_map_user s vaddr paddr noexec = set_page true s vaddr (entry paddr 7 (if noexec then 1 else 0))
