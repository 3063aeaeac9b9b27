-- ===== src/Common/Bytes.antt =====
-- The comparison of two strings of bytes.
use Prim.Native.Nat.{ℕ}
use mathlib.Core.Path.{◌≡◌, refl}
use mathlib.Core.Bool.{Bool, true, false, ◌&&◌}
use mathlib.Core.List.{List, [], ◌∷◌}
use mathlib.Core.Logic.{inl, inr}
use aj.Common.Tests.{◌==◌, ==→eq, ==-refl, Bool-cases}

unfoldable pub same_bytes : List ℕ → List ℕ → Bool
same_bytes [] [] = true
same_bytes [] (b ∷ bs) = false
same_bytes (a ∷ as') [] = false
same_bytes (a ∷ as') (b ∷ bs) = a == b && same_bytes as' bs

pub same_bytes-eq : (as' bs : List ℕ) → same_bytes as' bs ≡ true → as' ≡ bs
unfolding same_bytes
same_bytes-eq [] [] h = refl
same_bytes-eq [] (b ∷ bs) h = absurd (cc h)
same_bytes-eq (a ∷ as') [] h = absurd (cc h)
same_bytes-eq (a ∷ as') (b ∷ bs) h = elim (Bool-cases (a == b)) [
  | inl e ↦ rw (==→eq a b e, same_bytes-eq as' bs (rw e at h))
  | inr e ↦ absurd (cc (rw e at h))
]

pub same_bytes_refl : (as' : List ℕ) → same_bytes as' as' ≡ true
unfolding same_bytes
same_bytes_refl [] = refl
same_bytes_refl (a ∷ as') = rw (==-refl a, same_bytes_refl as')
