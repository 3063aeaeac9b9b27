-- ===== src/Pmm64/Tests.antt =====
-- Examples of the frame allocator of src/pmm64.c from its start.
use aj.Common.{◌+◌, ◌*◌, ◌≤◌, ◌≡◌, [], ◌∷◌, refl, arith, first_from}
use aj.Pmm64.{
  Pmm64, frame_size, start_address, bm_tst, take_frame, pmm64_init, pmm64_alloc_frame,
  pmm64_free_frame,
}
use aj.Pmm64.Laws.{IsPmm64, Allocates, Releases, taken, alloc_frame-Allocates, free_frame-Releases}
use aj.Pmm64.Owners.{Run, start, alloc, occurrences, init-IsPmm64, Run-bitmap}

abbrev at_start : Pmm64
at_start = pmm64_init (λ _. 0)

first_address : (pmm64_alloc_frame at_start).1 ≡ start_address
unfolding pmm64_init pmm64_alloc_frame take_frame bm_tst first_from
first_address = refl

alloc_frame-Allocates_example :
    Allocates at_start (pmm64_alloc_frame at_start) × IsPmm64 (pmm64_alloc_frame at_start).0
alloc_frame-Allocates_example = alloc_frame-Allocates init-IsPmm64

abbrev one_out : Pmm64
one_out = (pmm64_alloc_frame at_start).0

free_frame-Releases_example :
    Releases one_out start_address (pmm64_free_frame one_out start_address)
    × IsPmm64 (pmm64_free_frame one_out start_address)
free_frame-Releases_example =
    free_frame-Releases (alloc_frame-Allocates init-IsPmm64).1 start_address

one_alloc : Run one_out ((pmm64_alloc_frame at_start).1 ∷ [])
one_alloc = alloc start (λ z. omega (arith, first_address, z))

Run-bitmap_example :
    (occurrences (start_address + 0 * frame_size) ((pmm64_alloc_frame at_start).1 ∷ [])
      ≡ taken one_out 0)
    × (occurrences (start_address + 0 * frame_size) ((pmm64_alloc_frame at_start).1 ∷ []) ≤ 1)
Run-bitmap_example = Run-bitmap one_alloc 0 (omega arith)
