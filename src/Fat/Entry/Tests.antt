-- ===== src/Fat/Entry/Tests.antt =====
-- Examples of the FAT entry operations of src/fatent_ops.c on small tables.
use aj.Common.{
  ◌≡◌, ◌≢◌, true, refl, if◌then◌else◌, ◌==◌, ◌%◌, ◌^◌, Memory, IsBelow, first_from, arith,
}
use aj.Fat.Entry.{
  not_found, fat12_get_entry, fat12_set_entry, fat12_find_free, scan_free, fat12_is_eof,
}
use aj.Fat.Entry.Laws.{
  IsFirstFree, get_entry-set_entry, fat12_find_free-IsFirstFree, find_free-set_entry,
}

abbrev empty_fat : Memory
empty_fat = λ _. 0

empty_fat-IsBelow : IsBelow 256 empty_fat
empty_fat-IsBelow = λ a. omega arith

set_then_get : fat12_get_entry (fat12_set_entry empty_fat 5 0xabc) 5 ≡ 0xabc
unfolding fat12_get_entry fat12_set_entry
set_then_get = refl

get_entry-set_entry_example :
    fat12_get_entry (fat12_set_entry empty_fat 5 0xfabc) 4
    ≡ (if 4 == 5 then 0xfabc % 2 ^ 12 else fat12_get_entry empty_fat 4)
get_entry-set_entry_example =
    get_entry-set_entry empty_fat 5 4 0xfabc empty_fat-IsBelow (omega arith) (omega arith)

fat12_find_free-IsFirstFree_example :
    IsFirstFree (fat12_get_entry empty_fat) 2880 7 (fat12_find_free empty_fat 7)
fat12_find_free-IsFirstFree_example = fat12_find_free-IsFirstFree empty_fat 7

first_is_free : fat12_find_free empty_fat 7 ≡ 7
unfolding fat12_find_free fat12_get_entry scan_free first_from
first_is_free = refl

finds_free : fat12_find_free empty_fat 7 ≢ not_found
finds_free h = omega (arith, first_is_free, h)

find_free-set_entry_example :
    (fat12_is_eof (
        fat12_get_entry
          (fat12_set_entry empty_fat (fat12_find_free empty_fat 7) 0xfff)
          (fat12_find_free empty_fat 7))
      ≡ true)
    × (fat12_find_free (fat12_set_entry empty_fat (fat12_find_free empty_fat 7) 0xfff) 7
        ≢ fat12_find_free empty_fat 7)
find_free-set_entry_example = find_free-set_entry empty_fat 7 empty_fat-IsBelow finds_free
