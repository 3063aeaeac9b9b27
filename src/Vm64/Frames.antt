-- ===== src/Vm64/Frames.antt =====
-- The frames that src/vm64.c takes for its tables.
use aj.Common.{
  ℕ, ◌+◌, ◌*◌, ◌/◌, ◌%◌, ◌^◌, ◌≤◌, ◌<◌, inl, inr, Bool, true, if◌then◌else◌, Bool-cases, arith,
}
use aj.Pmm64.{Pmm64, frames, pmm64_alloc_frame}
use aj.Pmm64.Laws.{IsPmm64, taken, alloc_frame-Allocates}
use aj.Vm64.{Vm, is_present, entry, next_level, set_page, vm64_map_user}

-- The allocator `m'` is valid, and every frame that `m` has taken is still taken.
abbrev pub Takes : Pmm64 → Pmm64 → Type 0
Takes m m' = IsPmm64 m' × ((i : ℕ) → i < frames → taken m i ≤ taken m' i)

alloc_frame-Takes : (m : Pmm64) → IsPmm64 m → Takes m (pmm64_alloc_frame m).0
alloc_frame-Takes m h = (
  (alloc_frame-Allocates h).1,
  λ i l. elim (alloc_frame-Allocates h).0 [
    | inl a ↦ ground (arith, a.1)
    | inr a ↦ ground (arith, a.3, a.5 i)
  ],
)

next_level-Takes :
    (user : Bool) (s : Vm) (p : ℕ) → IsPmm64 s.pmm → Takes s.pmm (next_level user s p).0.pmm
unfolding next_level
next_level-Takes user s p h = elim (Bool-cases (is_present (s.mem p))) [
  | inl e ↦ rw e (h, λ i l. omega arith)
  | inr e ↦ rw e (alloc_frame-Takes s.pmm h)
]

set_page-Takes :
    (user : Bool) (s : Vm) (v e : ℕ) → IsPmm64 s.pmm → Takes s.pmm (set_page user s v e).pmm
unfolding set_page
set_page-Takes user s v e h =
    let a = next_level user s (s.cr3 + 8 * (v / 2 ^ 39 % 512)) in
    let b = next_level user a.0 (a.1 + 8 * (v / 2 ^ 30 % 512)) in
    let ta = next_level-Takes user s (s.cr3 + 8 * (v / 2 ^ 39 % 512)) h in
    let tb = next_level-Takes user a.0 (a.1 + 8 * (v / 2 ^ 30 % 512)) ta.0 in
    let tc = next_level-Takes user b.0 (b.1 + 8 * (v / 2 ^ 21 % 512)) tb.0 in
    (tc.0, λ i l. omega (arith, ta.1 i l, tb.1 i l, tc.1 i l))

pub vm64_map_user-Takes :
    (s : Vm) (v p : ℕ) (noexec : Bool)
    → IsPmm64 s.pmm
    → Takes s.pmm (vm64_map_user s v p noexec).pmm
unfolding vm64_map_user
vm64_map_user-Takes s v p noexec h = set_page-Takes true s v (entry p 7 (if noexec then 1 else 0)) h
