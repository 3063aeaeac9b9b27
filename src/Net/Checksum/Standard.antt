-- ===== src/Net/Checksum/Standard.antt =====
-- The checksum of src/ip4.c and the standard one, which reads words in network order.
use aj.Common.{
  ℕ, zero, suc, ◌+◌, ◌-◌, ◌*◌, ◌/◌, ◌%◌, ◌^◌, ◌≤◌, ◌<◌, ◌≡◌, refl, inl, inr, false, ◌==◌,
  if◌then◌else◌, Bool-cases, Memory, IsBelow, u32, arith,
}
use aj.Net.Checksum.{add_words, fold, fold_rounds, as_length, net_checksum}

-- The sum of the words, with the low byte first, and in network order.
unfoldable pub word_sum : Memory → ℕ → ℕ → ℕ
word_sum m start zero = 0
word_sum m start (suc zero) = m start
word_sum m start (suc (suc n)) = m start + 2 ^ 8 * m (start + 1) + word_sum m (start + 2) n

unfoldable pub network_sum : Memory → ℕ → ℕ → ℕ
network_sum m start zero = 0
network_sum m start (suc zero) = 2 ^ 8 * m start
network_sum m start (suc (suc n)) = 2 ^ 8 * m start + m (start + 1) + network_sum m (start + 2) n

-- The sum in ones' complement of 16 bits: the value from 1 to 65535 that is the same modulo 65535, and 0 for 0.
abbrev pub ones_sum : ℕ → ℕ
ones_sum s = if s == 0 then 0 else (s - 1) % 65535 + 1

-- The two bytes of a word in the other order.
abbrev pub swap : ℕ → ℕ
swap x = x % 2 ^ 8 * 2 ^ 8 + x / 2 ^ 8

pub fold-ones_sum : (s : ℕ) → s < 2 ^ 32 → fold fold_rounds s ≡ ones_sum s
unfolding fold
fold-ones_sum s h = ground arith

pub add_words-word_sum :
    (m : Memory) (start n sum : ℕ)
    → sum < 2 ^ 32
    → add_words m start n sum ≡ u32 (sum + word_sum m start n)
unfolding add_words word_sum
add_words-word_sum m start zero sum h = omega arith
add_words-word_sum m start (suc zero) sum h = refl
add_words-word_sum m start (suc (suc n)) sum h = omega (
  arith,
  add_words-word_sum m (start + 2) n (u32 (sum + (m start + 2 ^ 8 * m (start + 1)))) (omega arith),
)

-- 256 times the sum is the sum in network order and a multiple of 65535.
word_sum_swapped :
    (m : Memory) (start n : ℕ)
    → (h : ℕ) × (2 ^ 8 * word_sum m start n ≡ network_sum m start n + 65535 * h)
unfolding word_sum network_sum
word_sum_swapped m start zero = (0, refl)
word_sum_swapped m start (suc zero) = (0, omega arith)
word_sum_swapped m start (suc (suc n)) =
    let (h, e) = word_sum_swapped m (start + 2) n in (m (start + 1) + h, omega (arith, e))

module _ (m : Memory) (bytes : IsBelow 256 m) where
  pub word_sum-le : (start n : ℕ) → word_sum m start n ≤ 32768 * n + 255
  unfolding word_sum
  word_sum-le start zero = omega arith
  word_sum-le start (suc zero) = omega (arith, bytes start)
  word_sum-le start (suc (suc n)) =
      omega (arith, bytes start, bytes (start + 1), word_sum-le (start + 2) n)

  pub net_checksum-word_sum :
      (start len : ℕ)
      → len ≤ 2 ^ 16
      → net_checksum m start len ≡ 65535 - ones_sum (word_sum m start len)
  unfolding net_checksum
  net_checksum-word_sum start len l =
      let small : word_sum m start len < 2 ^ 32 = omega (arith, word_sum-le start len) in
      let e : as_length len ≡ len = ground arith in
      let sum : add_words m start len 0 ≡ word_sum m start len =
        omega (arith, add_words-word_sum m start len 0 (omega arith), small) in
      rw (e, sum, fold-ones_sum _ small)

word_sum-network_sum :
    (m : Memory) (start n : ℕ) → word_sum m start n ≤ 2 ^ 8 * network_sum m start n
unfolding word_sum network_sum
word_sum-network_sum m start zero = omega arith
word_sum-network_sum m start (suc zero) = omega arith
word_sum-network_sum m start (suc (suc n)) = omega (arith, word_sum-network_sum m (start + 2) n)

swap-positive :
    (a b h : ℕ)
    → 0 < a
    → 0 < b
    → 2 ^ 8 * a ≡ b + 65535 * h
    → swap (65535 - ((a - 1) % 65535 + 1)) ≡ 65535 - ((b - 1) % 65535 + 1)
swap-positive a b h l k e = omega (arith, e, l, k)

swap-ones_sum :
    (a b h : ℕ)
    → a ≤ 2 ^ 8 * b
    → 2 ^ 8 * a ≡ b + 65535 * h
    → swap (65535 - ones_sum a) ≡ 65535 - ones_sum b
swap-ones_sum a b h l e = elim (Bool-cases (a == 0)) [
  | inl z ↦
      let none_a : a ≡ 0 = ground arith in
      let none_b : b ≡ 0 = omega (arith, e, none_a) in rw (none_a, none_b) refl
  | inr z ↦
      let some_b : (b == 0) ≡ false = ground (arith, e) in
      rw (z, some_b) (swap-positive a b h (ground arith) (ground arith) e)
]

-- For bytes and a length of at most 65536, the checksum that the code computes from words with the low byte
-- first is the standard one, the complement of the sum in ones' complement of the words in network order, with
-- its two bytes swapped. So stored with the low byte first it is the standard one in network order.
pub net_checksum-standard :
    (m : Memory) (start len : ℕ)
    → IsBelow 256 m
    → len ≤ 2 ^ 16
    → swap (net_checksum m start len) ≡ 65535 - ones_sum (network_sum m start len)
net_checksum-standard m start len bytes l =
    let (h, e) = word_sum_swapped m start len in
    rw (net_checksum-word_sum m bytes start len l) (
      swap-ones_sum (word_sum m start len) (network_sum m start len) h
        (word_sum-network_sum m start len) e)
