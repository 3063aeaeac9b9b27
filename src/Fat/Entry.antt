-- ===== src/Fat/Entry.antt =====
-- src/fatent_ops.c: the operations on the entries of a FAT. A FAT12 is an array of bytes, a FAT16
-- one of 16-bit words (`uint16_t *`); both are functions of the index.
pub mod Fat12
pub mod Laws
mod Tests
use aj.Common.{
  ℕ, ◌+◌, ◌-◌, ◌*◌, ◌/◌, ◌^◌, bit_and, bit_or, Bool, ◌&&◌, Option, none, some, ◌==◌, ltb, leb,
  if◌then◌else◌, Memory, store, u8, u16, u32, first_from,
}

-- `struct fatent_ops`, without `entry_count`'s context, which no implementation reads.
pub record FatentOps : Type 0 where
  pub get_entry : Memory → ℕ → ℕ
  pub set_entry : Memory → ℕ → ℕ → Memory
  pub find_free : Memory → ℕ → ℕ
  pub is_eof : ℕ → Bool
  pub is_bad : ℕ → Bool
  pub eof_marker : ℕ
  pub bad_marker : ℕ
  pub entry_size : ℕ
  pub entry_count : ℕ

-- The value of `find_free` when there is no free cluster.
abbrev pub not_found : ℕ
not_found = 0xffff_ffff

-- `i = (start >= 2) ? start : 2`
abbrev pub first_cluster : ℕ → ℕ
first_cluster start = if leb 2 start then start else 2

pub fat12_get_entry : Memory → ℕ → ℕ
fat12_get_entry fat cluster =
    let offset = u32 (cluster + cluster / 2) in
    let low = fat offset in
    let high = fat (u32 (offset + 1)) in
    bit_and
      (if bit_and cluster 1 == 0
        then u16 (bit_or low (bit_and high 0x0f * 2 ^ 8))
        else u16 (bit_or (low / 2 ^ 4) (high * 2 ^ 4)))
      0x0fff

pub fat12_set_entry : Memory → ℕ → ℕ → Memory
fat12_set_entry fat cluster value =
    let offset = u32 (cluster + cluster / 2) in
    let next = u32 (offset + 1) in
    if bit_and cluster 1 == 0
    then (let fat' = store fat offset (u8 (bit_and value 0xff)) in
        store fat' next (u8 (bit_or (bit_and (fat' next) 0xf0) (bit_and (value / 2 ^ 8) 0x0f))))
    else (let fat' =
          store fat offset (u8 (bit_or (bit_and (fat offset) 0x0f) (bit_and value 0x0f * 2 ^ 4))) in
        store fat' next (u8 (bit_and (value / 2 ^ 4) 0xff)))

-- The loop of `find_free`: the first cluster below `limit` whose entry is 0.
scan_free : (ℕ → ℕ) → ℕ → ℕ → ℕ
scan_free entry limit start =
    let first = first_cluster start in
    elim (first_from (λ i. entry i == 0) (limit - first) first) [ none ↦ not_found | some i ↦ i ]

pub fat12_find_free : Memory → ℕ → ℕ
unfolding scan_free
fat12_find_free fat start = scan_free (fat12_get_entry fat) 2880 start

pub fat12_is_eof : ℕ → Bool
fat12_is_eof value = leb 0xff8 value && leb value 0xfff

pub fat12_is_bad : ℕ → Bool
fat12_is_bad value = value == 0xff7

pub fat16_get_entry : Memory → ℕ → ℕ
fat16_get_entry fat cluster = fat cluster

pub fat16_set_entry : Memory → ℕ → ℕ → Memory
fat16_set_entry fat cluster value = store fat cluster (u16 value)

pub fat16_find_free : Memory → ℕ → ℕ
unfolding scan_free
fat16_find_free fat start = scan_free (λ i. fat i) 65525 start

pub fat16_is_eof : ℕ → Bool
fat16_is_eof value = leb 0xfff8 value && leb value 0xffff

pub fat16_is_bad : ℕ → Bool
fat16_is_bad value = value == 0xfff7

abbrev pub fat12_ops : FatentOps
fat12_ops = record {
  get_entry = fat12_get_entry;
  set_entry = fat12_set_entry;
  find_free = fat12_find_free;
  is_eof = fat12_is_eof;
  is_bad = fat12_is_bad;
  eof_marker = 0xfff;
  bad_marker = 0xff7;
  entry_size = 12;
  entry_count = 2880;
}

abbrev pub fat16_ops : FatentOps
fat16_ops = record {
  get_entry = fat16_get_entry;
  set_entry = fat16_set_entry;
  find_free = fat16_find_free;
  is_eof = fat16_is_eof;
  is_bad = fat16_is_bad;
  eof_marker = 0xffff;
  bad_marker = 0xfff7;
  entry_size = 16;
  entry_count = 65525;
}
