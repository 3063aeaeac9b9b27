-- ===== src/Fat/Entry/Fat12.antt =====
-- The packed 12-bit entries of src/fatent_ops.c: reading and writing one of them as arithmetic on the
-- two bytes that hold it, and the laws of a write.
use aj.Common.{
  ℕ, ◌+◌, ◌*◌, ◌/◌, ◌%◌, ◌^◌, ◌<◌, ◌≡◌, ◌≢◌, bit_and, bit_or, false, inl, inr, ◌==◌, if◌then◌else◌,
  Bool-cases, Memory, store, IsBelow, store-IsBelow, u8, u16, arith, bit_and_low, bit_or_low,
  bit_or_high, bit_and_top_nibble,
}
use aj.Fat.Entry.{fat12_get_entry, fat12_set_entry}

abbrev offset : ℕ → ℕ
offset c = c + c / 2

-- A cluster number whose byte offset does not wrap.
abbrev pub IsCluster : ℕ → Type 0
IsCluster c = c < 2 ^ 30

-- An even cluster has its low byte and the low nibble of the next, an odd one the rest.
abbrev entry_of : ℕ → ℕ → ℕ → ℕ
entry_of c low high = if c % 2 == 0 then low + high % 16 * 256 else low / 16 + high * 16

bytes_of_entry :
    (c low high : ℕ)
    → low < 256
    → high < 256
    → bit_and
        (if bit_and c 1 == 0
          then u16 (bit_or low (bit_and high 0x0f * 2 ^ 8))
          else u16 (bit_or (low / 2 ^ 4) (high * 2 ^ 4)))
        0x0fff
      ≡ entry_of c low high
bytes_of_entry c low high l h =
    rw
      (
        bit_and_low 1 1 c (omega arith),
        bit_and_low 4 15 high (omega arith),
        bit_or_high 8 (high % 2 ^ 4) low l,
        bit_or_high 4 high (low / 2 ^ 4) (omega arith),
      )
      (ground (
        arith,
        bit_and_low 12 0xfff (u16 (low + high % 2 ^ 4 * 2 ^ 8)) (omega arith),
        bit_and_low 12 0xfff (u16 (low / 2 ^ 4 + high * 2 ^ 4)) (omega arith),
      ))

low_byte : (v : ℕ) → u8 (bit_and v 0xff) ≡ v % 256
low_byte v = omega (arith, bit_and_low 8 0xff v (omega arith))

-- The byte that an entry shares with the next one keeps the other's nibble.
keep_top :
    (x v : ℕ)
    → x < 256
    → u8 (bit_or (bit_and x 0xf0) (bit_and (v / 2 ^ 8) 0x0f)) ≡ x / 16 * 16 + v / 256 % 16
keep_top x v h =
    rw
      (
        bit_and_top_nibble x h,
        bit_and_low 4 15 (v / 2 ^ 8) (omega arith),
        bit_or_low 4 (x / 16) (v / 2 ^ 8 % 2 ^ 4) (omega arith),
      )
      (omega arith)

keep_bottom :
    (x v : ℕ) → u8 (bit_or (bit_and x 0x0f) (bit_and v 0x0f * 2 ^ 4)) ≡ x % 16 + v % 16 * 16
keep_bottom x v =
    rw
      (
        bit_and_low 4 15 x (omega arith),
        bit_and_low 4 15 v (omega arith),
        bit_or_high 4 (v % 2 ^ 4) (x % 2 ^ 4) (omega arith),
      )
      (omega arith)

module _ (d : Memory) (c : ℕ) (b : IsBelow 256 d) (h : IsCluster c) where
  fat12_get_entry-eq : fat12_get_entry d c ≡ entry_of c (d (offset c)) (d (offset c + 1))
  unfolding fat12_get_entry
  fat12_get_entry-eq =
      let o : (c + c / 2) % 2 ^ 32 ≡ offset c = omega arith in
      let o' : (offset c + 1) % 2 ^ 32 ≡ offset c + 1 = omega arith in
      rw (o, o')
        (bytes_of_entry c (d (offset c)) (d (offset c + 1)) (b (offset c)) (b (offset c + 1)))

  -- The two bytes after a write.
  new_low : ℕ → ℕ
  new_low v = if c % 2 == 0 then v % 256 else d (offset c) % 16 + v % 16 * 16

  new_high : ℕ → ℕ
  new_high v = if c % 2 == 0 then d (offset c + 1) / 16 * 16 + v / 256 % 16 else v / 16 % 256

  fat12_set_entry-eq :
      (v : ℕ)
      → fat12_set_entry d c v ≡ store (store d (offset c) (new_low v)) (offset c + 1) (new_high v)
  unfolding fat12_set_entry new_low new_high
  fat12_set_entry-eq v =
      let o : (c + c / 2) % 2 ^ 32 ≡ offset c = omega arith in
      let o' : (offset c + 1) % 2 ^ 32 ≡ offset c + 1 = omega arith in
      rw (o, o', bit_and_low 1 1 c (omega arith))
        (elim (Bool-cases (c % 2 == 0)) [
          | inl e ↦ rw (e, next_ne, low_byte v, keep_top (d (offset c + 1)) v (b _))
          | inr e ↦ rw (e, low_byte (v / 2 ^ 4), keep_bottom (d (offset c)) v)
        ])
    where
      next_ne : (offset c + 1 == offset c) ≡ false
      next_ne = ground arith

  new_low-lt : (v : ℕ) → new_low v < 256
  unfolding new_low
  new_low-lt v = ground (arith, b (offset c))

  new_high-lt : (v : ℕ) → new_high v < 256
  unfolding new_high
  new_high-lt v = ground (arith, b (offset c + 1))

  -- A write keeps the table an array of bytes.
  pub fat12_set_entry-IsBelow : (v : ℕ) → IsBelow 256 (fat12_set_entry d c v)
  fat12_set_entry-IsBelow v =
      rw (fat12_set_entry-eq v)
        (store-IsBelow 256 _ _ _ (store-IsBelow 256 d _ _ b (new_low-lt v)) (new_high-lt v))

-- The entry that is written, read back.
pub get_set_self :
    (d : Memory) (c v : ℕ)
    → IsBelow 256 d
    → IsCluster c
    → fat12_get_entry (fat12_set_entry d c v) c ≡ v % 2 ^ 12
unfolding new_low new_high
get_set_self d c v b h =
    rw
      (
        fat12_get_entry-eq (fat12_set_entry d c v) c (fat12_set_entry-IsBelow d c b h v) h,
        fat12_set_entry-eq d c b h v,
      )
      (ground (arith, b (offset c), b (offset c + 1)))

-- Any other entry, though it may share a byte with the one that is written.
pub get_set_ne :
    (d : Memory) (c c' v : ℕ)
    → IsBelow 256 d
    → IsCluster c
    → IsCluster c'
    → c ≢ c'
    → fat12_get_entry (fat12_set_entry d c v) c' ≡ fat12_get_entry d c'
unfolding new_low new_high
get_set_ne d c c' v b h h' ne =
    rw
      (
        fat12_get_entry-eq (fat12_set_entry d c v) c' (fat12_set_entry-IsBelow d c b h v) h',
        fat12_set_entry-eq d c b h v,
        fat12_get_entry-eq d c' b h',
      )
      (ground (arith, b (offset c), b (offset c + 1), b (offset c'), b (offset c' + 1)))
