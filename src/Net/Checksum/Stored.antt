-- ===== src/Net/Checksum/Stored.antt =====
-- Bytes that the network code stores, and the checksum over them.
use aj.Common.{
  ℕ, zero, suc, ◌+◌, ◌-◌, ◌%◌, ◌≤◌, ◌<◌, ◌≡◌, ◌⊎◌, refl, ap, sym, ◌∙◌, true, false, List, [], ◌∷◌,
  ◌==◌, ltb, leb, length, get_or, Memory, IsBelow, arith,
}
use aj.Net.Pbuf.{store_list}
use aj.Net.Checksum.Standard.{word_sum, ones_sum}

-- Every element is a byte.
abbrev pub AllBytes : List ℕ → Type 0
AllBytes [] = Unit
AllBytes (b ∷ bs) = (b < 256) × AllBytes bs

get_or-AllBytes : (bs : List ℕ) (i : ℕ) → AllBytes bs → get_or bs i 0 < 256
get_or-AllBytes [] i h = omega arith
get_or-AllBytes (b ∷ bs) zero h = h.0
get_or-AllBytes (b ∷ bs) (suc i) h = get_or-AllBytes bs i h.1

pub store_list-IsBelow :
    (m : Memory) (start : ℕ) (bs : List ℕ)
    → IsBelow 256 m
    → AllBytes bs
    → IsBelow 256 (store_list m start bs)
unfolding store_list
store_list-IsBelow m start bs h b a = ground (arith, h a, get_or-AllBytes bs (a - start) b)

pub store_list-inside :
    (m : Memory) (start : ℕ) (bs : List ℕ) (i : ℕ)
    → i < length bs
    → store_list m start bs (start + i) ≡ get_or bs i 0
unfolding store_list
store_list-inside m start bs i h =
    let e : start + i - start ≡ i = omega arith in
    let low : leb start (start + i) ≡ true = ground arith in
    let high : ltb (start + i) (start + length bs) ≡ true = ground arith in rw (low, high, e) refl

pub store_list-outside :
    (m : Memory) (start : ℕ) (bs : List ℕ) (a : ℕ)
    → (a < start) ⊎ (start + length bs ≤ a)
    → store_list m start bs a ≡ m a
unfolding store_list
store_list-outside m start bs a h = ground arith

-- The sum of words depends on the bytes alone.
pub word_sum-same :
    (m m' : Memory) (a b n : ℕ)
    → ((i : ℕ) → i < n → m (a + i) ≡ m' (b + i))
    → word_sum m a n ≡ word_sum m' b n
unfolding word_sum
word_sum-same m m' a b zero h = refl
word_sum-same m m' a b (suc zero) h =
    let x : a + 0 ≡ a = omega arith in
    let y : b + 0 ≡ b = omega arith in omega (arith, ap m x, ap m' y, h 0)
word_sum-same m m' a b (suc (suc n)) h =
    let x : a + 0 ≡ a = omega arith in
    let y : b + 0 ≡ b = omega arith in
    omega (
      arith,
      ap m x,
      ap m' y,
      h 0,
      h 1,
      word_sum-same m m' (a + 2) (b + 2) n (λ i l.
          let u : a + 2 + i ≡ a + (2 + i) = omega arith in
          let v : b + 2 + i ≡ b + (2 + i) = omega arith in
          ap m u ∙ h (2 + i) (omega arith) ∙ sym (ap m' v)),
    )

-- The bytes of a list, as memory from 0 on.
abbrev pub listed : List ℕ → Memory
listed bs i = get_or bs i 0

pub word_sum-store_list :
    (m : Memory) (start : ℕ) (bs : List ℕ)
    → word_sum (store_list m start bs) start (length bs) ≡ word_sum (listed bs) 0 (length bs)
word_sum-store_list m start bs =
    word_sum-same (store_list m start bs) (listed bs) start 0 (length bs) (λ i l.
      let z : 0 + i ≡ i = omega arith in
      store_list-inside m start bs i l ∙ sym (ap (λ (t : ℕ). get_or bs t 0) z))

ones_sum_positive : (s : ℕ) → 0 < s → ones_sum (s + (65535 - ones_sum s)) ≡ 65535
ones_sum_positive s h =
    let e : (s == 0) ≡ false = ground arith in
    let f : (s + (65535 - ((s - 1) % 65535 + 1)) == 0) ≡ false = ground arith in
    rw (e, f) (omega arith)

pub ones_sum-complement : (s : ℕ) → ones_sum (s + (65535 - ones_sum s)) ≡ 65535
ones_sum-complement zero = refl
ones_sum-complement (suc s) = ones_sum_positive (suc s) (omega arith)
