-- ===== src/Common/Words.antt =====
-- The bit operations at variables, as arithmetic: `&` with a mask of low ones is a remainder, and
-- `|` of fields that do not overlap is a sum.
use Prim.Native.Nat.{
  ℕ, zero, suc, ◌+◌, ◌*◌, ◌/◌, ◌%◌, ◌^◌, ◌≤◌, ◌<◌, min, max, digits, bit_and, bit_or,
  bit_and-bitwise, bit_or-bitwise,
}
use mathlib.Core.Path.{◌≡◌, refl, ap, ◌∙◌}
use native.Mathlib.Nat.{
  pow-suc, one-le-pow, div-add-mod, mod-lt, mod-eq_of_lt, add-mul-mod_self_right,
}
use mathlib.Core.Bool.{Bool, true, ◌&&◌}
use aj.Common.Tests.{◌==◌, ==→eq}
use native.Mathlib.Omega.{arith}

abbrev pub u8 : ℕ → ℕ
u8 n = n % 256

abbrev pub u16 : ℕ → ℕ
u16 n = n % 65536

abbrev pub u32 : ℕ → ℕ
u32 n = n % 2 ^ 32

abbrev pub u64 : ℕ → ℕ
u64 n = n % 2 ^ 64

-- The number of rounds does not matter once it is enough.
enough_rounds :
    (z : ℕ → ℕ) (f : ℕ → ℕ → ℕ) (n m a b : ℕ) → a ≤ n → a ≤ m → digits z f n a b ≡ digits z f m a b
enough_rounds z f zero zero a b p q = refl
enough_rounds z f zero (suc m) zero b p q = refl
enough_rounds z f (suc n) zero zero b p q = refl
enough_rounds z f (suc n) (suc m) zero b p q = refl
enough_rounds z f zero m (suc a) b p q = absurd (omega arith)
enough_rounds z f (suc n) zero (suc a) b p q = absurd (omega arith)
enough_rounds z f (suc n) (suc m) (suc a) b p q =
    ap (λ (t : ℕ). t * 2 + f (suc a % 2) (b % 2))
      (enough_rounds z f n m (suc a / 2) (b / 2) (omega arith) (omega arith))

and_digit : (a b : ℕ) → bit_and a b ≡ bit_and (a / 2) (b / 2) * 2 + min (a % 2) (b % 2)
and_digit zero b = omega (arith, bit_and-bitwise 0 b, bit_and-bitwise 0 (b / 2))
and_digit (suc a) b = omega (
  arith,
  bit_and-bitwise (suc a) b,
  bit_and-bitwise (suc a / 2) (b / 2),
  enough_rounds (λ b. zero) min a (suc a / 2) (suc a / 2) (b / 2) (omega arith) (omega arith),
)

or_digit : (a b : ℕ) → bit_or a b ≡ bit_or (a / 2) (b / 2) * 2 + max (a % 2) (b % 2)
or_digit zero b = omega (arith, bit_or-bitwise 0 b, bit_or-bitwise 0 (b / 2))
or_digit (suc a) b = omega (
  arith,
  bit_or-bitwise (suc a) b,
  bit_or-bitwise (suc a / 2) (b / 2),
  enough_rounds (λ b. b) max a (suc a / 2) (suc a / 2) (b / 2) (omega arith) (omega arith),
)

and-zero_below : (n a : ℕ) → a ≤ n → bit_and a 0 ≡ 0
and-zero_below n zero h = refl
and-zero_below zero (suc a) h = absurd (omega arith)
and-zero_below (suc n) (suc a) h =
    omega (arith, and_digit (suc a) 0, and-zero_below n (suc a / 2) (omega arith))

or-zero_below : (n a : ℕ) → a ≤ n → bit_or a 0 ≡ a
or-zero_below n zero h = refl
or-zero_below zero (suc a) h = absurd (omega arith)
or-zero_below (suc n) (suc a) h =
    omega (arith, or_digit (suc a) 0, or-zero_below n (suc a / 2) (omega arith))

pub bit_and-zero : (a : ℕ) → bit_and a 0 ≡ 0
bit_and-zero a = and-zero_below a a (omega arith)

pub bit_or-zero : (a : ℕ) → bit_or a 0 ≡ a
bit_or-zero a = or-zero_below a a (omega arith)

pub mod_of_parts : (d q r a : ℕ) → a ≡ r + q * d → r < d → a % d ≡ r
mod_of_parts d q r a e h = rw e (add-mul-mod_self_right r q d ∙ mod-eq_of_lt h)

pow_double : (k : ℕ) → 2 ^ suc k ≡ 2 * 2 ^ k
pow_double k = omega (arith, pow-suc 2 k)

mod_double : (p a : ℕ) → 0 < p → a % (2 * p) ≡ a / 2 % p * 2 + a % 2
mod_double p a h =
    mod_of_parts (2 * p) (a / 2 / p) (a / 2 % p * 2 + a % 2) a
      (omega (arith, div-add-mod (a / 2) p)) (omega (arith, mod-lt (a / 2) h))

-- `a & (2^k - 1)`, with the mask given by its value.
pub bit_and_low : (k m a : ℕ) → m + 1 ≡ 2 ^ k → bit_and a m ≡ a % 2 ^ k
bit_and_low zero m a e = let z : m ≡ 0 = omega arith in rw z (omega (arith, bit_and-zero a))
bit_and_low (suc k) m a e = omega (
  arith,
  and_digit a m,
  ap (λ (t : ℕ). a % t) (pow_double k),
  pow_double k,
  one-le-pow k 2,
  mod_double (2 ^ k) a (omega (arith, one-le-pow k 2 (omega arith))),
  bit_and_low k (m / 2) (a / 2) (omega (arith, pow_double k)),
)

-- `(q << k) | r` for a field `r` of `k` bits.
pub bit_or_low : (k q r : ℕ) → r < 2 ^ k → bit_or (q * 2 ^ k) r ≡ q * 2 ^ k + r
bit_or_low zero q r h = let z : r ≡ 0 = omega arith in rw z (omega (arith, bit_or-zero (q * 1)))
bit_or_low (suc k) q r h = omega (
  arith,
  or_digit (q * 2 ^ suc k) r,
  shifted,
  ap (λ (t : ℕ). bit_or t (r / 2)) halved,
  bit_or_low k q (r / 2) (omega (arith, pow_double k)),
)
  where
    shifted : q * 2 ^ suc k ≡ 2 * (q * 2 ^ k)
    shifted = omega (arith, ap (λ (t : ℕ). q * t) (pow_double k))

    halved : q * 2 ^ suc k / 2 ≡ q * 2 ^ k
    halved = omega (arith, shifted)

or_comm_below : (n a b : ℕ) → a ≤ n → bit_or a b ≡ bit_or b a
or_comm_below n zero b h = omega (arith, bit_or-bitwise 0 b, bit_or-zero b)
or_comm_below zero (suc a) b h = absurd (omega arith)
or_comm_below (suc n) (suc a) b h = omega (
  arith,
  or_digit (suc a) b,
  or_digit b (suc a),
  or_comm_below n (suc a / 2) (b / 2) (omega arith),
)

pub bit_or_comm : (a b : ℕ) → bit_or a b ≡ bit_or b a
bit_or_comm a b = or_comm_below a a b (omega arith)

-- `r | (q << k)` for a field `r` of `k` bits.
pub bit_or_high : (k q r : ℕ) → r < 2 ^ k → bit_or r (q * 2 ^ k) ≡ r + q * 2 ^ k
bit_or_high k q r h = omega (arith, bit_or_comm r (q * 2 ^ k), bit_or_low k q r h)

-- A test that holds of each number below a bound, found by trying them.
unfoldable pub every_value : (ℕ → Bool) → ℕ → Bool
every_value test zero = true
every_value test (suc top) = every_value test top && test top

pub every_value_holds :
    (test : ℕ → Bool) (bound a : ℕ) → a < bound → every_value test bound ≡ true → test a ≡ true
unfolding every_value
every_value_holds test (suc top) a l all = ground (arith, every_value_holds test top a)
every_value_holds test zero a l all = elim l [ ]

top_nibble_table : every_value (λ x. bit_and x 0xf0 == x / 16 * 16) 256 ≡ true
unfolding every_value
top_nibble_table = refl

pub bit_and_top_nibble : (x : ℕ) → x < 256 → bit_and x 0xf0 ≡ x / 16 * 16
bit_and_top_nibble x h = ==→eq _ _ (every_value_holds _ 256 x h top_nibble_table)

and_even : (a m : ℕ) → bit_and a (m * 2) ≡ bit_and (a / 2) m * 2
and_even a m =
    let half : m * 2 / 2 ≡ m = omega arith in
    omega (arith, and_digit a (m * 2), ap (λ (t : ℕ). bit_and (a / 2) t) half)

-- `a & 0xFFFFFF00`
pub bit_and_high_24 : (a : ℕ) → bit_and a 0xffff_ff00 ≡ a / 256 % 2 ^ 24 * 256
bit_and_high_24 a =
    let e0 : bit_and a 0xffff_ff00 ≡ bit_and (a / 2) 0x7fff_ff80 * 2 = and_even a 0x7fff_ff80 in
    let e1 : bit_and (a / 2) 0x7fff_ff80 ≡ bit_and (a / 2 / 2) 0x3fff_ffc0 * 2 =
      and_even (a / 2) 0x3fff_ffc0 in
    let e2 : bit_and (a / 2 / 2) 0x3fff_ffc0 ≡ bit_and (a / 2 / 2 / 2) 0x1fff_ffe0 * 2 =
      and_even (a / 2 / 2) 0x1fff_ffe0 in
    let e3 : bit_and (a / 2 / 2 / 2) 0x1fff_ffe0 ≡ bit_and (a / 2 / 2 / 2 / 2) 0x0fff_fff0 * 2 =
      and_even (a / 2 / 2 / 2) 0x0fff_fff0 in
    let e4 : bit_and (a / 2 / 2 / 2 / 2) 0x0fff_fff0
        ≡ bit_and (a / 2 / 2 / 2 / 2 / 2) 0x07ff_fff8 * 2 =
      and_even (a / 2 / 2 / 2 / 2) 0x07ff_fff8 in
    let e5 : bit_and (a / 2 / 2 / 2 / 2 / 2) 0x07ff_fff8
        ≡ bit_and (a / 2 / 2 / 2 / 2 / 2 / 2) 0x03ff_fffc * 2 =
      and_even (a / 2 / 2 / 2 / 2 / 2) 0x03ff_fffc in
    let e6 : bit_and (a / 2 / 2 / 2 / 2 / 2 / 2) 0x03ff_fffc
        ≡ bit_and (a / 2 / 2 / 2 / 2 / 2 / 2 / 2) 0x01ff_fffe * 2 =
      and_even (a / 2 / 2 / 2 / 2 / 2 / 2) 0x01ff_fffe in
    let e7 : bit_and (a / 2 / 2 / 2 / 2 / 2 / 2 / 2) 0x01ff_fffe
        ≡ bit_and (a / 2 / 2 / 2 / 2 / 2 / 2 / 2 / 2) 0x00ff_ffff * 2 =
      and_even (a / 2 / 2 / 2 / 2 / 2 / 2 / 2) 0x00ff_ffff in
    omega (
      arith,
      e0,
      e1,
      e2,
      e3,
      e4,
      e5,
      e6,
      e7,
      bit_and_low 24 0xff_ffff (a / 2 / 2 / 2 / 2 / 2 / 2 / 2 / 2) refl,
    )
