-- ===== src/Pmm64.antt =====
-- The bitmap frame allocator of the x86-64 kernel, src/pmm64.c. The statics of the file are the
-- fields of `Pmm64`; the bitmap is a region of bytes. The serial output of `pmm64_init` is left out.
use aj.Common.{
  ℕ, ◌+◌, ◌-◌, ◌*◌, ◌/◌, ◌^◌, bit_and, bit_or, Bool, not, ◌&&◌, ◌||◌, Option, none, some, ◌==◌, ltb,
  leb, if◌then◌else◌, Memory, store, u8, u32, first_from,
}
pub mod Bitmap
pub mod Laws
mod Tests
pub mod Owners

abbrev pub frame_size : ℕ
frame_size = 4096

abbrev pub start_address : ℕ
start_address = 0x800000

abbrev pub ram_end : ℕ
ram_end = 0x20000000

-- (RAM_END - START) / FRAME
abbrev pub frames : ℕ
frames = 129024

pub record Pmm64 : Type 0 where
  pub frame_bitmap : Memory
  pub frames_used : ℕ
  pub lowest_free_hint : ℕ

pub bm_set : Memory → ℕ → Memory
bm_set m idx = store m (idx / 2 ^ 3) (u8 (bit_or (m (idx / 2 ^ 3)) (u8 (2 ^ bit_and idx 7))))

-- `(u8)~(1u << k)` is 255 - 2 ^ k.
pub bm_clr : Memory → ℕ → Memory
bm_clr m idx = store m (idx / 2 ^ 3) (u8 (bit_and (m (idx / 2 ^ 3)) (255 - 2 ^ bit_and idx 7)))

pub bm_tst : Memory → ℕ → ℕ
bm_tst m idx = bit_and (m (idx / 2 ^ 3) / 2 ^ bit_and idx 7) 1

-- The bitmap is in .bss, so it is zero when the kernel starts; `pmm64_init` does not touch it.
unfoldable pub pmm64_init : Memory → Pmm64
pmm64_init bss = record { frame_bitmap = bss; frames_used = 0; lowest_free_hint = 0 }

-- The loop body at the first free frame, and the return where there is none.
take_frame : Pmm64 → Option ℕ → Pmm64 × ℕ
take_frame s none = (s, 0)
take_frame s (some i) = (
  record {
    frame_bitmap = bm_set s.frame_bitmap i;
    frames_used = u32 (s.frames_used + 1);
    lowest_free_hint = if i == frames - 1 then 0 else i + 1;
  },
  start_address + i * frame_size,
)

-- The address of a frame, or 0 where none is left.
pub pmm64_alloc_frame : Pmm64 → Pmm64 × ℕ
unfolding take_frame
pmm64_alloc_frame s = take_frame s (
    first_from (λ i. bm_tst s.frame_bitmap i == 0) (frames - s.lowest_free_hint) s.lowest_free_hint)

-- The guard of the release, and its effect on a taken frame.
is_bad_address : ℕ → Bool
is_bad_address phys =
    ltb phys start_address || leb ram_end phys || not (bit_and phys (frame_size - 1) == 0)

give_back : Pmm64 → ℕ → Pmm64
give_back s idx = record {
  frame_bitmap = bm_clr s.frame_bitmap idx;
  frames_used = u32 (s.frames_used + 2 ^ 32 - 1);
  lowest_free_hint = if ltb idx s.lowest_free_hint then idx else s.lowest_free_hint;
}

pub pmm64_free_frame : Pmm64 → ℕ → Pmm64
pmm64_free_frame s phys =
    if is_bad_address phys
    then s
    else (let idx = u32 ((phys - start_address) / frame_size) in
        if bm_tst s.frame_bitmap idx == 0 then s else give_back s idx)

pub pmm64_used : Pmm64 → ℕ
pmm64_used s = s.frames_used

pub pmm64_total : ℕ
pmm64_total = frames
