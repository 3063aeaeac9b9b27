-- ===== src/Common/Store.antt =====
-- A region of memory as a function from its indices, and stores into it.
use Prim.Native.Nat.{ℕ, ◌<◌}
use native.Mathlib.Omega.{arith}
use aj.Common.Tests.{◌==◌, if◌then◌else◌}

abbrev pub Memory : Type 0
Memory = ℕ → ℕ

abbrev pub store {ℓ} : {A : Type ℓ} → (ℕ → A) → ℕ → A → ℕ → A
store m a v x = if x == a then v else m x

-- Every cell holds a value of its width.
abbrev pub IsBelow : ℕ → Memory → Type 0
IsBelow w m = (a : ℕ) → m a < w

pub store-IsBelow : (w : ℕ) (m : Memory) (a v : ℕ) → IsBelow w m → v < w → IsBelow w (store m a v)
store-IsBelow w m a v h l x = ground (arith, h x)
