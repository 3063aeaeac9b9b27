-- ===== src/Common/Update.antt =====
-- Searches through an array after one of its entries has changed.
use Prim.Native.Nat.{ℕ, zero, suc}
use mathlib.Core.Path.{◌≡◌, refl, sym, ap, ◌∙◌}
use mathlib.Core.Bool.{Bool, true, false}
use mathlib.Core.Logic.{◌≢◌, ◌⊎◌, inl, inr}
use mathlib.Core.List.{List, [], ◌∷◌}
use mathlib.Core.Option
use mathlib.Core.Option.{Option, none, some}
use native.Mathlib.Omega.{arith}
use aj.Common.Tests.{◌==◌, ==→eq, Bool-cases}
use aj.Common.Lists.{get_elem?, modify, get_elem?-modify_self, get_elem?-modify_ne}
use aj.Common.Search.{find_index, IsFirst, find_index-IsFirst}

module _ {ℓ} {A : Type ℓ} (p : A → Bool) where
  -- A change that keeps the value of the test keeps the answer.
  pub find_index-modify_same :
      (xs : List A) (i : ℕ) (f : A → A)
      → ((x : A) → get_elem? xs i ≡ some x → p (f x) ≡ p x)
      → find_index p (modify xs i f) ≡ find_index p xs
  unfolding find_index
  find_index-modify_same [] i f h = refl
  find_index-modify_same (x ∷ xs) zero f h = rw (h x refl)
  find_index-modify_same (x ∷ xs) (suc i) f h = rw (find_index-modify_same xs i f h)

  -- The one entry that has come to satisfy the test is the answer.
  pub find_index-modify_new :
      (xs : List A) (i : ℕ) (f : A → A) {x : A}
      → find_index p xs ≡ none
      → get_elem? xs i ≡ some x
      → p (f x) ≡ true
      → find_index p (modify xs i f) ≡ some i
  unfolding find_index
  find_index-modify_new [] i f n q e = absurd (cc q)
  find_index-modify_new (y ∷ xs) zero f {x} n q e = let z : y ≡ x = cc in rw (z, e)
  find_index-modify_new (y ∷ xs) (suc i) f n q e = elim (Bool-cases (p y)) [
    | inl t ↦ absurd (cc (rw t at n))
    | inr t ↦ rw (t, find_index-modify_new xs i f (rest _ (rw t at n)) q e)
  ]
    where
      rest : (o : Option ℕ) → Option.map suc o ≡ none → o ≡ none
      rest none h = refl
      rest (some m) h = absurd (cc h)

-- An entry of an array after a change in slot `i`: it is the changed one, or it was there before.
pub get_elem?-modify_cases {ℓ} :
    {A : Type ℓ} (xs : List A) (i : ℕ) (f : A → A) (j : ℕ) (y : A)
    → get_elem? (modify xs i f) j ≡ some y
    → ((x : A) × (i ≡ j) × (get_elem? xs i ≡ some x) × (f x ≡ y))
      ⊎ ((i ≢ j) × (get_elem? xs j ≡ some y))
get_elem?-modify_cases {A = A} xs i f j y q = elim (Bool-cases (i == j)) [
  | inl e ↦
      let z : i ≡ j = ==→eq i j e in
      let (x, r, t) =
        changed (get_elem? xs i) (
          sym (get_elem?-modify_self xs i f) ∙ ap (λ (t : ℕ). get_elem? (modify xs i f) t) z ∙ q) in
      inl (x, z, r, t)
  | inr e ↦
      let ne : i ≢ j = λ z. ground arith in inr (ne, sym (get_elem?-modify_ne xs i j f ne) ∙ q)
]
  where
    changed : (o : Option A) → Option.map f o ≡ some y → (x : A) × (o ≡ some x) × (f x ≡ y)
    changed none e = absurd (cc e)
    changed (some x) e = (x, refl, cc)

-- A field of the entry that a search has found.
unfoldable pub field_at {ℓ κ} : {A : Type ℓ} {B : Type κ} → (A → B) → List A → Option ℕ → Option B
field_at g xs none = none
field_at g xs (some i) = Option.map g (get_elem? xs i)

module _ {ℓ κ} {A : Type ℓ} {B : Type κ} (g : A → B) (p : A → Bool) where
  -- A change of an entry that is not found, before and after, is not seen.
  pub field_at-modify_other :
      (xs : List A) (i : ℕ) (f : A → A)
      → ((x : A) → get_elem? xs i ≡ some x → (p x ≡ false) × (p (f x) ≡ false))
      → field_at g (modify xs i f) (find_index p (modify xs i f)) ≡ field_at g xs (find_index p xs)
  field_at-modify_other xs i f h = rw same (go (find_index p xs) (find_index-IsFirst p xs))
    where
      same : find_index p (modify xs i f) ≡ find_index p xs
      same = find_index-modify_same p xs i f (λ x q. rw ((h x q).0, (h x q).1))

      apart : (j : ℕ) (x : A) → get_elem? xs j ≡ some x → p x ≡ true → i ≢ j
      apart j x q t e = cc ((h x (rw e q)).0)

      go : (o : Option ℕ) → IsFirst p xs o → field_at g (modify xs i f) o ≡ field_at g xs o
      go none w = unfold field_at in refl
      go (some j) w =
          unfold field_at in rw (get_elem?-modify_ne xs i j f (apart j w.0.0 w.0.1 w.0.2))

  -- A change of the entry that is found is seen.
  pub field_at-modify_own :
      (xs : List A) (i : ℕ) (f : A → A) (x : A)
      → find_index p (modify xs i f) ≡ some i
      → get_elem? xs i ≡ some x
      → field_at g (modify xs i f) (find_index p (modify xs i f)) ≡ some (g (f x))
  unfolding field_at
  field_at-modify_own xs i f x e q = rw (e, get_elem?-modify_self xs i f, q) refl
