-- ===== src/Fat/Entry/Laws.antt =====
-- The FAT entry operations of src/fatent_ops.c: writes and reads, and the search for a free cluster.
use aj.Common.{
  ℕ, ◌-◌, ◌%◌, ◌^◌, ◌≤◌, ◌<◌, ◌≡◌, ◌≢◌, ◌⊎◌, refl, ap, inl, inr, true, false, none, some, Option,
  ◌==◌, if◌then◌else◌, Bool-cases, Memory, IsBelow, arith, first_from, first_from-IsFirstFrom,
  IsFirstFrom, ==→eq,
}
use aj.Fat.Entry.{
  not_found, first_cluster, scan_free, fat12_get_entry, fat12_set_entry, fat12_find_free,
  fat16_get_entry, fat16_find_free, fat12_ops, fat12_is_eof,
}
use aj.Fat.Entry.Fat12.{IsCluster, get_set_self, get_set_ne}

-- Writing entry `c`, below 2 ^ 30, of a FAT12 whose cells are bytes gives that entry the low 12 bits of the value,
-- and leaves every other entry below 2 ^ 30, also the neighbour in the same byte, as it was.
pub get_entry-set_entry :
    (d : Memory) (c c' v : ℕ)
    → IsBelow 256 d
    → IsCluster c
    → IsCluster c'
    → fat12_get_entry (fat12_set_entry d c v) c'
      ≡ (if c' == c then v % 2 ^ 12 else fat12_get_entry d c')
get_entry-set_entry d c c' v b h h' = elim (Bool-cases (c' == c)) [
  | inl e ↦ let z : c' ≡ c = ==→eq c' c e in rw (e, z) (get_set_self d c v b h)
  | inr e ↦ rw e (get_set_ne d c c' v b h h' (λ z. ground arith))
]

-- `r` is the first cluster from `start` (at least 2) below `limit` with entry 0, or `not_found`
-- where all of them are taken.
abbrev pub IsFirstFree : (ℕ → ℕ) → ℕ → ℕ → ℕ → Type 0
IsFirstFree entry limit start r =
    ((r ≡ not_found) × ((j : ℕ) → first_cluster start ≤ j → j < limit → entry j ≢ 0))
    ⊎ ((first_cluster start ≤ r)
        × (r < limit)
        × (entry r ≡ 0)
        × ((j : ℕ) → first_cluster start ≤ j → j < r → entry j ≢ 0))

not_zero : (a : ℕ) → (a == 0) ≡ false → a ≢ 0
not_zero a h = ground arith

scan_free-IsFirstFree :
    (entry : ℕ → ℕ) (limit start : ℕ) → IsFirstFree entry limit start (scan_free entry limit start)
unfolding scan_free
scan_free-IsFirstFree entry limit start =
    go (first_from (λ i. entry i == 0) (limit - first_cluster start) (first_cluster start))
      (first_from-IsFirstFrom _ _ _)
  where
    go :
        (o : Option ℕ)
        → IsFirstFrom (λ i. entry i == 0) (limit - first_cluster start) (first_cluster start) o
        → IsFirstFree entry limit start (elim o [ none ↦ not_found | some i ↦ i ])
    go none h = inl (refl, λ j a l. not_zero (entry j) (h j a (omega arith)))
    go (some i) h =
        inr
          (h.0, omega (arith, h.1), ==→eq (entry i) 0 h.2, λ j a l. not_zero (entry j) (h.3 j a l))

-- The search for a free cluster of a FAT12 from `start` returns the first cluster below 2880 with
-- entry 0, clusters 0 and 1 left out, and 0xFFFFFFFF exactly if there is none.
pub fat12_find_free-IsFirstFree :
    (d : Memory) (start : ℕ) → IsFirstFree (fat12_get_entry d) 2880 start (fat12_find_free d start)
unfolding fat12_find_free
fat12_find_free-IsFirstFree d start = scan_free-IsFirstFree (fat12_get_entry d) 2880 start

-- The search for a free cluster of a FAT16 from `start` returns the first cluster below 65525 with
-- entry 0, clusters 0 and 1 left out, and 0xFFFFFFFF exactly if there is none.
pub fat16_find_free-IsFirstFree :
    (d : Memory) (start : ℕ) → IsFirstFree (fat16_get_entry d) 65525 start (fat16_find_free d start)
unfolding fat16_find_free fat16_get_entry
fat16_find_free-IsFirstFree d start = scan_free-IsFirstFree (λ i. d i) 65525 start

-- In a FAT12 whose cells are bytes, a cluster that the search returned and that is then marked as the end of
-- a chain reads as such, and the next search from the same place does not return it again.
pub find_free-set_entry :
    (d : Memory) (start : ℕ)
    → IsBelow 256 d
    → fat12_find_free d start ≢ not_found
    → let d' = fat12_set_entry d (fat12_find_free d start) fat12_ops.eof_marker in
      (fat12_is_eof (fat12_get_entry d' (fat12_find_free d start)) ≡ true)
      × (fat12_find_free d' start ≢ fat12_find_free d start)
unfolding fat12_is_eof
find_free-set_entry d start b some_free = elim (fat12_find_free-IsFirstFree d start) [
  | inl h ↦ absurd (some_free h.0)
  | inr h ↦
      let k = fat12_find_free d start in
      let d' = fat12_set_entry d k 0xfff in
      let own : fat12_get_entry d' k ≡ 0xfff = get_set_self d k 0xfff b (omega (arith, h.1)) in
      (
        rw own,
        λ same. elim (fat12_find_free-IsFirstFree d' start) [
          | inl h' ↦ omega (arith, h.1, h'.0, same)
          | inr h' ↦ omega (arith, h'.2, ap (λ (t : ℕ). fat12_get_entry d' t) same, own)
        ],
      )
]
