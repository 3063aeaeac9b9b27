-- ===== src/Net/Checksum.antt =====
-- The Internet checksum, `net_checksum` of src/ip4.c: the sum of the 16-bit words as the machine reads them, the
-- low byte first, folded to 16 bits and complemented.
use aj.Common.{
  ℕ, zero, suc, ◌+◌, ◌-◌, ◌*◌, ◌/◌, ◌%◌, ◌^◌, ◌≤◌, ◌<◌, ◌≡◌, ◌≢◌, refl, inl, inr, true, false, ◌==◌,
  ltb, if◌then◌else◌, Bool-cases, Memory, u32, arith,
}
pub mod Standard
pub mod Stored

-- The loop over the words, from byte `start` on, and the last byte if their number is odd.
unfoldable pub add_words : Memory → ℕ → ℕ → ℕ → ℕ
add_words m start zero sum = sum
add_words m start (suc zero) sum = u32 (sum + m start)
add_words m start (suc (suc n)) sum =
    add_words m (start + 2) n (u32 (sum + (m start + 2 ^ 8 * m (start + 1))))

-- `while (sum >> 16) sum = (sum & 0xFFFF) + (sum >> 16)`, `n` rounds at most.
unfoldable pub fold : ℕ → ℕ → ℕ
fold zero sum = sum
fold (suc n) sum =
    let rest = fold n (u32 (sum % 2 ^ 16 + sum / 2 ^ 16)) in if sum / 2 ^ 16 == 0 then sum else rest

-- Two rounds are enough for a word of 32 bits.
abbrev pub fold_rounds : ℕ
fold_rounds = 2

-- A length of 2 ^ 31 and more is negative as an `int`: the loops then read nothing.
abbrev pub as_length : ℕ → ℕ
as_length len = if ltb len (2 ^ 31) then len else 0

unfoldable pub net_checksum : Memory → ℕ → ℕ → ℕ
unfolding add_words fold
net_checksum m start len = 2 ^ 16 - 1 - fold fold_rounds (add_words m start (as_length len) 0)
