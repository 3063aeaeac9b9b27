-- ===== src/Vm64/Walk.antt =====
-- The walk of the processor through the tables of src/vm64.c, and their entries.
use aj.Common.{
  ℕ, zero, suc, ◌+◌, ◌*◌, ◌/◌, ◌%◌, ◌^◌, ◌≤◌, ◌<◌, ◌≡◌, ◌≢◌, ◌⊎◌, refl, inl, inr, bit_or,
  bit_or_low, bit_or_high, Bool, true, false, not, ◌&&◌, Option, none, some, ◌==◌, if◌then◌else◌,
  Bool-cases, Memory, store, arith,
}
use aj.Vm64.{is_present, addr_of, entry, zero_table}

-- The index of an address in a table of a level, 0 for the last tables.
abbrev pub index : ℕ → ℕ → ℕ
index v zero = v / 2 ^ 12 % 512
index v (suc zero) = v / 2 ^ 21 % 512
index v (suc (suc zero)) = v / 2 ^ 30 % 512
index v (suc (suc (suc k))) = v / 2 ^ 39 % 512

-- The flags of an entry: PTE_W, PTE_U, PTE_NX, and the page size of an entry for a page of 1 GB or 2 MB,
-- which only the tables of the levels 2 and 1 have.
abbrev pub can_write : ℕ → Bool
can_write e = e / 2 % 2 == 1

abbrev pub is_user : ℕ → Bool
is_user e = e / 4 % 2 == 1

abbrev pub no_execute : ℕ → Bool
no_execute e = e / 2 ^ 63 % 2 == 1

abbrev pub is_large : ℕ → ℕ → Bool
is_large zero e = false
is_large (suc zero) e = e / 2 ^ 7 % 2 == 1
is_large (suc (suc zero)) e = e / 2 ^ 7 % 2 == 1
is_large (suc (suc (suc k))) e = false

-- The entry leads to a table, or from a last table to a page.
abbrev pub is_link : ℕ → ℕ → Bool
is_link k e = is_present e && not (is_large k e)

-- What the processor finds at an address: the frame of 4 KB, and what may be done with it.
pub record Page : Type 0 where
  pub frame : ℕ
  pub writable : Bool
  pub user : Bool
  pub executable : Bool

-- What an entry leaves of the rights below it.
unfoldable pub restrict : ℕ → Option Page → Option Page
restrict e none = none
restrict e (some p) = some (record {
  frame = p.frame;
  writable = can_write e && p.writable;
  user = is_user e && p.user;
  executable = not (no_execute e) && p.executable;
})

pub restrict-none : (e : ℕ) → restrict e none ≡ none
unfolding restrict
restrict-none e = refl

-- The frame of an address in a large page.
abbrev pub large_frame : ℕ → ℕ → ℕ → ℕ
large_frame zero e v = 0
large_frame (suc zero) e v = e % 2 ^ 52 / 2 ^ 21 * 2 ^ 21 + v % 2 ^ 21 / 2 ^ 12 * 2 ^ 12
large_frame (suc (suc k)) e v = e % 2 ^ 52 / 2 ^ 30 * 2 ^ 30 + v % 2 ^ 30 / 2 ^ 12 * 2 ^ 12

abbrev pub all_rights : ℕ → Page
all_rights f = record { frame = f; writable = true; user = true; executable = true }

-- An entry of a table of level `k`, with what is found below it.
unfoldable pub follow : ℕ → ℕ → ℕ → Option Page → Option Page
unfolding restrict
follow k e v below =
    if not (is_present e)
    then none
    else if is_large k e
    then restrict e (some (all_rights (large_frame k e v)))
    else restrict e below

-- The walk through `k` levels of tables from `t` on, to the page.
unfoldable pub walk : Memory → ℕ → ℕ → ℕ → Option Page
unfolding follow
walk m zero t v = some (all_rights t)
walk m (suc k) t v =
    let rest = walk m k (addr_of (m (t + 8 * index v k))) v in
    follow k (m (t + 8 * index v k)) v rest

pub walk_link :
    (m : Memory) (n t v : ℕ)
    → is_link n (m (t + 8 * index v n)) ≡ true
    → walk m (suc n) t v
      ≡ restrict (m (t + 8 * index v n)) (walk m n (addr_of (m (t + 8 * index v n))) v)
unfolding walk follow
walk_link m n t v e =
    let p : is_present (m (t + 8 * index v n)) ≡ true = ground (arith, e) in
    let l : is_large n (m (t + 8 * index v n)) ≡ false = ground (arith, e) in rw (p, l) refl

-- An entry that is no link ends the walk, whatever else is in memory.
pub walk_end :
    (m m' : Memory) (n t v : ℕ)
    → is_link n (m (t + 8 * index v n)) ≡ false
    → m' (t + 8 * index v n) ≡ m (t + 8 * index v n)
    → walk m' (suc n) t v ≡ walk m (suc n) t v
unfolding walk follow
walk_end m m' n t v e same = elim (Bool-cases (is_present (m (t + 8 * index v n)))) [
  | inl p ↦
      let l : is_large n (m (t + 8 * index v n)) ≡ true = ground (arith, p, e) in
      rw (same, p, l) refl
  | inr p ↦ rw (same, p) refl
]

pub walk_absent :
    (m : Memory) (n t v : ℕ)
    → is_present (m (t + 8 * index v n)) ≡ false
    → walk m (suc n) t v ≡ none
unfolding walk follow
walk_absent m n t v e = rw e refl

pub index-lt : (v k : ℕ) → index v k < 512
index-lt v zero = omega arith
index-lt v (suc zero) = omega arith
index-lt v (suc (suc zero)) = omega arith
index-lt v (suc (suc (suc k))) = omega arith

-- An entry's address and its flags come out again.
pub entry-flags :
    (q low nx : ℕ)
    → q < 2 ^ 40
    → low < 8
    → low % 2 ≡ 1
    → low / 2 % 2 ≡ 1
    → nx ≤ 1
    → let e = entry (q * 2 ^ 12) low nx in
      (addr_of e ≡ q * 2 ^ 12)
      × ((n : ℕ) → is_link n e ≡ true)
      × (is_present e ≡ true)
      × (can_write e ≡ true)
      × (is_user e ≡ (low / 4 == 1))
      × (no_execute e ≡ (nx == 1))
unfolding entry
entry-flags q low nx a b c w d =
    let e : bit_or (q * 2 ^ 12) low ≡ q * 2 ^ 12 + low = bit_or_low 12 q low (omega arith) in
    let f : bit_or (bit_or (q * 2 ^ 12) low) (nx * 2 ^ 63) ≡ q * 2 ^ 12 + low + nx * 2 ^ 63 =
      rw e (bit_or_high 63 nx (q * 2 ^ 12 + low) (omega arith)) in
    let sum : ℕ = q * 2 ^ 12 + low + nx * 2 ^ 63 in
    let p : (sum % 2 == 1) ≡ true = ground (arith, c) in
    let l : (sum / 2 ^ 7 % 2 == 1) ≡ false = ground (arith, b) in
    let u : sum / 4 % 2 ≡ low / 4 = omega (arith, b) in
    let x : sum / 2 ^ 63 % 2 ≡ nx = omega (arith, a, b, d) in
    rw f
      (omega (arith, a, b, d), λ n. small n sum p l, p, ground (arith, b, w), rw u refl, rw x refl)
  where
    small : (n e : ℕ) → (e % 2 == 1) ≡ true → (e / 2 ^ 7 % 2 == 1) ≡ false → is_link n e ≡ true
    small zero e p l = rw p refl
    small (suc zero) e p l = rw (p, l) refl
    small (suc (suc zero)) e p l = rw (p, l) refl
    small (suc (suc (suc n))) e p l = rw p refl

-- A new table `tn` of zeroes, and an entry `e` at `p` for it.
module _ (m : Memory) (tn p e : ℕ) where
  abbrev pub linked_in : Memory
  linked_in = store (zero_table m tn) p e

  pub linked_else : (a : ℕ) → a ≢ p → (a < tn) ⊎ (tn + 4096 ≤ a) → linked_in a ≡ m a
  unfolding zero_table
  linked_else a n o = ground arith

  pub linked_zero : (a : ℕ) → a ≢ p → tn ≤ a → a < tn + 4096 → linked_in a ≡ 0
  unfolding zero_table
  linked_zero a n l h = ground arith

  pub linked_at : linked_in p ≡ e
  linked_at = ground arith
