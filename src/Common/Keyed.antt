-- ===== src/Common/Keyed.antt =====
-- Tables in which at most one entry satisfies a test: an entry that is added, changed or taken away.
use Prim.Native.Nat.{ℕ}
use mathlib.Core.Path.{◌≡◌, refl, sym, ap, ◌∙◌}
use mathlib.Core.Bool.{Bool, true, false}
use mathlib.Core.Logic.{inl, inr}
use mathlib.Core.List.{List}
use mathlib.Core.Option.{Option, none, some}
use aj.Common.Lists.{get_elem?, modify}
use aj.Common.Search.{find_index, IsFirst, find_index-IsFirst, find_index-some, find_index-none}
use aj.Common.Update.{get_elem?-modify_cases}

module _ {ℓ} {A : Type ℓ} (p : A → Bool) where
  -- No two entries satisfy the test.
  abbrev pub OnlyOne : List A → Type ℓ
  OnlyOne xs =
      (i j : ℕ) (x y : A)
      → get_elem? xs i ≡ some x
      → get_elem? xs j ≡ some y
      → p x ≡ true
      → p y ≡ true
      → i ≡ j

  -- The entry that satisfied the test no longer does: none does.
  pub find_index-modify_gone :
      (xs : List A) (i : ℕ) (f : A → A)
      → OnlyOne xs
      → find_index p xs ≡ some i
      → ((x : A) → get_elem? xs i ≡ some x → p (f x) ≡ false)
      → find_index p (modify xs i f) ≡ none
  find_index-modify_gone xs i f one e gone = go _ (find_index-IsFirst p (modify xs i f))
    where
      at_i : (x : A) × (get_elem? xs i ≡ some x) × (p x ≡ true)
      at_i = (find_index-some p xs e).0

      go : (o : Option ℕ) → IsFirst p (modify xs i f) o → o ≡ none
      go none g = refl
      go (some j) ((y, q, t), before) = elim (get_elem?-modify_cases xs i f j y q) [
        | inl a ↦
            let off : p (f a.0) ≡ false = gone a.0 a.2 in
            let on : p (f a.0) ≡ true = ap p a.3 ∙ t in absurd (cc (off, on))
        | inr a ↦ absurd (a.0 (one i j at_i.0 y at_i.1 a.1 at_i.2 t))
      ]

  -- A change that makes no other entry satisfy the test.
  pub OnlyOne-modify :
      (xs : List A) (i : ℕ) (f : A → A)
      → ((x : A) → get_elem? xs i ≡ some x → p (f x) ≡ true → p x ≡ true)
      → OnlyOne xs
      → OnlyOne (modify xs i f)
  OnlyOne-modify xs i f keep one j k y z q r u v =
      let (y', q', u') = before j y q u in
      let (z', r', v') = before k z r v in one j k y' z' q' r' u' v'
    where
      before :
          (j : ℕ) (y : A)
          → get_elem? (modify xs i f) j ≡ some y
          → p y ≡ true
          → (x : A) × (get_elem? xs j ≡ some x) × (p x ≡ true)
      before j y q u = elim (get_elem?-modify_cases xs i f j y q) [
        | inl a ↦ (a.0, ap (λ (t : ℕ). get_elem? xs t) (sym a.1) ∙ a.2, keep a.0 a.2 (ap p a.3 ∙ u))
        | inr a ↦ (y, a.1, u)
      ]

  -- A change where no entry satisfied the test.
  pub OnlyOne-modify_new :
      (xs : List A) (i : ℕ) (f : A → A) → find_index p xs ≡ none → OnlyOne (modify xs i f)
  OnlyOne-modify_new xs i f e j k y z q r u v = sym (here j y q u) ∙ here k z r v
    where
      here : (j : ℕ) (y : A) → get_elem? (modify xs i f) j ≡ some y → p y ≡ true → i ≡ j
      here j y q u = elim (get_elem?-modify_cases xs i f j y q) [
        | inl a ↦ a.1
        | inr a ↦ let off : p y ≡ false = find_index-none p xs e j y a.1 in absurd (cc (off, u))
      ]

  -- The entry that satisfies the test is the one that is found.
  pub find_index-OnlyOne :
      (xs : List A) (i : ℕ) (x : A)
      → OnlyOne xs
      → get_elem? xs i ≡ some x
      → p x ≡ true
      → find_index p xs ≡ some i
  find_index-OnlyOne xs i x one q t = go (find_index p xs) (find_index-IsFirst p xs)
    where
      go : (o : Option ℕ) → IsFirst p xs o → o ≡ some i
      go none g = let off : p x ≡ false = g i x q in absurd (cc (off, t))
      go (some j) ((y, r, u), before) = ap some (one j i y x r q u t)
