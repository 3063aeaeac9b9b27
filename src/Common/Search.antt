-- ===== src/Common/Search.antt =====
-- The loop `for (i = 0; i < N; i++) if (p(a[i])) return i;`, and the number of entries with `p`.
use Prim.Native.Nat.{ℕ, zero, suc, ◌+◌, ◌<◌, ◌≤◌}
use mathlib.Core.Path.{◌≡◌, refl}
use mathlib.Core.Bool.{Bool, true, false}
use mathlib.Core.List.{List, [], ◌∷◌}
use mathlib.Core.Option
use mathlib.Core.Option.{Option, none, some}
use mathlib.Core.Logic.{◌≢◌, inl, inr}
use native.Mathlib.Omega.{arith}
use aj.Common.Tests.{◌==◌, ==→eq, if◌then◌else◌, Bool-cases, to_ℕ}
use aj.Common.Lists.{length, get_elem?, modify}

module _ {ℓ} {A : Type ℓ} where
  unfoldable pub find_index : (A → Bool) → List A → Option ℕ
  find_index p [] = none
  find_index p (x ∷ xs) = if p x then some 0 else Option.map suc (find_index p xs)

  unfoldable pub count_if : (A → Bool) → List A → ℕ
  count_if p [] = 0
  count_if p (x ∷ xs) = to_ℕ (p x) + count_if p xs

  -- What the loop returns: the first index with `p`, or `none` if no entry has it.
  abbrev pub IsFirst : (A → Bool) → List A → Option ℕ → Type ℓ
  IsFirst p xs none = (j : ℕ) (y : A) → get_elem? xs j ≡ some y → p y ≡ false
  IsFirst p xs (some i) =
      ((x : A) × (get_elem? xs i ≡ some x) × (p x ≡ true))
      × ((j : ℕ) (y : A) → j < i → get_elem? xs j ≡ some y → p y ≡ false)

  none-cons :
      (p : A → Bool) (x : A) (xs : List A)
      → p x ≡ false
      → IsFirst p xs none
      → IsFirst p (x ∷ xs) none
  none-cons p x xs e h zero y q = let z : x ≡ y = cc in rw (← z) e
  none-cons p x xs e h (suc j) y q = h j y q

  before-cons :
      (p : A → Bool) (x : A) (xs : List A) (i : ℕ)
      → p x ≡ false
      → ((j : ℕ) (y : A) → j < i → get_elem? xs j ≡ some y → p y ≡ false)
      → (j : ℕ) (y : A) → j < suc i
      → get_elem? (x ∷ xs) j ≡ some y
      → p y ≡ false
  before-cons p x xs i e h zero y l q = let z : x ≡ y = cc in rw (← z) e
  before-cons p x xs i e h (suc j) y l q = h j y (omega arith) q

  IsFirst-cons :
      (p : A → Bool) (x : A) (xs : List A) (o : Option ℕ)
      → p x ≡ false
      → IsFirst p xs o
      → IsFirst p (x ∷ xs) (Option.map suc o)
  IsFirst-cons p x xs none e h = none-cons p x xs e h
  IsFirst-cons p x xs (some i) e h = (h.0, before-cons p x xs i e h.1)

  pub find_index-IsFirst : (p : A → Bool) (xs : List A) → IsFirst p xs (find_index p xs)
  unfolding find_index
  find_index-IsFirst p [] = λ j y q. absurd (cc q)
  find_index-IsFirst p (x ∷ xs) = elim (Bool-cases (p x)) [
    | inl e ↦ rw e ((x, refl, e), λ j y l q. absurd (omega arith))
    | inr e ↦ rw e (IsFirst-cons p x xs (find_index p xs) e (find_index-IsFirst p xs))
  ]

  pub find_index-some :
      (p : A → Bool) (xs : List A) {i : ℕ} → find_index p xs ≡ some i → IsFirst p xs (some i)
  find_index-some p xs h = rw h at (find_index-IsFirst p xs)

  pub find_index-none : (p : A → Bool) (xs : List A) → find_index p xs ≡ none → IsFirst p xs none
  find_index-none p xs h = rw h at (find_index-IsFirst p xs)

  -- Two answers that are both the first are the same one.
  pub find_index_unique :
      (p : A → Bool) (xs : List A) (i : ℕ) → IsFirst p xs (some i) → find_index p xs ≡ some i
  unfolding find_index
  find_index_unique p [] i ((x, q, t), f) = absurd (cc q)
  find_index_unique p (x ∷ xs) zero ((y, q, t), f) =
      let z : x ≡ y = cc in let e : p x ≡ true = rw z t in rw e
  find_index_unique p (x ∷ xs) (suc i) (w, f) = rw (
    f 0 x (omega arith) refl,
    find_index_unique p xs i (w, λ j y l q. f (suc j) y (omega arith) q),
  )

  pub count_if-modify :
      (p : A → Bool) (xs : List A) (i : ℕ) (f : A → A) {x : A}
      → get_elem? xs i ≡ some x
      → count_if p (modify xs i f) + to_ℕ (p x) ≡ count_if p xs + to_ℕ (p (f x))
  unfolding count_if
  count_if-modify p [] i f h = absurd (cc h)
  count_if-modify p (y ∷ xs) zero f {x} h = let z : y ≡ x = cc in rw z (omega arith)
  count_if-modify p (y ∷ xs) (suc i) f h = omega (arith, count_if-modify p xs i f h)

  pub count_if-le : (p : A → Bool) (xs : List A) → count_if p xs ≤ length xs
  unfolding count_if
  count_if-le p [] = omega arith
  count_if-le p (x ∷ xs) = ground (arith, count_if-le p xs)

  -- If the search fails there is no entry to count.
  pub count_if-zero : (p : A → Bool) (xs : List A) → IsFirst p xs none → count_if p xs ≡ 0
  unfolding count_if
  count_if-zero p [] h = refl
  count_if-zero p (x ∷ xs) h = rw (h 0 x refl, count_if-zero p xs (λ j y q. h (suc j) y q))

  pub count_if-pos :
      (p : A → Bool) (xs : List A) (i : ℕ) {x : A}
      → get_elem? xs i ≡ some x
      → p x ≡ true
      → 0 < count_if p xs
  unfolding count_if
  count_if-pos p [] i h e = absurd (cc h)
  count_if-pos p (y ∷ xs) zero {x} h e = let z : y ≡ x = cc in rw (z, e) (omega arith)
  count_if-pos p (y ∷ xs) (suc i) h e = omega (arith, count_if-pos p xs i h e)

-- The loop `for (; i < end; i++) if (p(i)) return i;`, with `n` rounds left.
unfoldable pub first_from : (ℕ → Bool) → ℕ → ℕ → Option ℕ
first_from p zero i = none
first_from p (suc n) i = let rest = first_from p n (i + 1) in if p i then some i else rest

abbrev pub IsFirstFrom : (ℕ → Bool) → ℕ → ℕ → Option ℕ → Type 0
IsFirstFrom p n i none = (j : ℕ) → i ≤ j → j < i + n → p j ≡ false
IsFirstFrom p n i (some k) =
    (i ≤ k) × (k < i + n) × (p k ≡ true) × ((j : ℕ) → i ≤ j → j < k → p j ≡ false)

IsFirstFrom-suc :
    (p : ℕ → Bool) (n i : ℕ) (o : Option ℕ)
    → p i ≡ false
    → IsFirstFrom p n (i + 1) o
    → IsFirstFrom p (suc n) i o
IsFirstFrom-suc p n i none e h = λ j a b. ground (arith, h j)
IsFirstFrom-suc p n i (some k) e h = (omega arith, omega arith, h.2, λ j a b. ground (arith, h.3 j))

pub first_from-IsFirstFrom : (p : ℕ → Bool) (n i : ℕ) → IsFirstFrom p n i (first_from p n i)
unfolding first_from
first_from-IsFirstFrom p zero i = λ j a b. absurd (omega arith)
first_from-IsFirstFrom p (suc n) i = elim (Bool-cases (p i)) [
  | inl e ↦ rw e (omega arith, omega arith, e, λ j a b. absurd (omega arith))
  | inr e ↦ rw e (IsFirstFrom-suc p n i _ e (first_from-IsFirstFrom p n (i + 1)))
]

pub first_from-none : (p : ℕ → Bool) (n i : ℕ) → first_from p n i ≡ none → IsFirstFrom p n i none
first_from-none p n i h = rw h at (first_from-IsFirstFrom p n i)

pub first_from-some :
    (p : ℕ → Bool) (n i : ℕ) {k : ℕ} → first_from p n i ≡ some k → IsFirstFrom p n i (some k)
first_from-some p n i h = rw h at (first_from-IsFirstFrom p n i)

-- The sum of `f` over the indices below `n`.
unfoldable pub sum_below : (ℕ → ℕ) → ℕ → ℕ
sum_below f zero = 0
sum_below f (suc n) = f n + sum_below f n

pub sum_below-le : (f : ℕ → ℕ) (n : ℕ) → ((j : ℕ) → f j ≤ 1) → sum_below f n ≤ n
unfolding sum_below
sum_below-le f zero h = omega arith
sum_below-le f (suc n) h = omega (arith, h n, sum_below-le f n h)

pub sum_below_same :
    (f g : ℕ → ℕ) (n : ℕ) → ((j : ℕ) → j < n → f j ≡ g j) → sum_below f n ≡ sum_below g n
unfolding sum_below
sum_below_same f g zero h = refl
sum_below_same f g (suc n) h =
    omega (arith, h n (omega arith), sum_below_same f g n (λ j l. h j (omega arith)))

-- A change at one index changes the sum by as much.
pub sum_below_change :
    (f g : ℕ → ℕ) (n i : ℕ)
    → i < n
    → ((j : ℕ) → j ≢ i → f j ≡ g j)
    → sum_below f n + g i ≡ sum_below g n + f i
unfolding sum_below
sum_below_change f g zero i l h = absurd (omega arith)
sum_below_change f g (suc n) i l h = elim (Bool-cases (n == i)) [
  | inl e ↦
      let z : n ≡ i = ==→eq n i e in
      let rest : sum_below f n ≡ sum_below g n =
        sum_below_same f g n (λ j b. h j (λ q. omega arith)) in
      rw z (omega (arith, rw z at rest))
  | inr e ↦
      let ne : n ≢ i = λ q. ground arith in
      omega (arith, h n ne, sum_below_change f g n i (omega arith) h)
]

pub sum_below-zero : (f : ℕ → ℕ) (n : ℕ) → ((j : ℕ) → f j ≡ 0) → sum_below f n ≡ 0
unfolding sum_below
sum_below-zero f zero h = refl
sum_below-zero f (suc n) h = omega (arith, h n, sum_below-zero f n h)
