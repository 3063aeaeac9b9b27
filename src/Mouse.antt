-- ===== src/Mouse.antt =====
-- The PS/2 mouse, src/mouse.c and include/mouse.h: the ring that the interrupt fills, and the decoder that a poll
-- feeds from it. The set-up of the controller is left out; the size of the screen is an argument.
use aj.Common.{
  ℕ, zero, suc, ◌+◌, ◌-◌, ◌*◌, ◌/◌, ◌%◌, ◌^◌, Bool, true, false, not, ◌&&◌, List, [], ◌∷◌, ◌==◌,
  ltb, leb, if◌then◌else◌, modify, get_or,
}
pub mod Queue
pub mod Cursor
mod Tests

-- The integers of C.
pub data ℤ : Type 0 where
  pos negsuc : ℕ → ℤ

abbrev pub mouse_ring : ℕ
mouse_ring = 64

abbrev pub mouse_accel : ℕ
mouse_accel = 3

-- `mouse_bytes`, `mouse_r` and `mouse_w`.
pub record Ring : Type 0 where
  pub bytes : List ℕ
  pub r : ℕ
  pub w : ℕ

-- `mouse_state_t`, with the buttons as a byte.
pub record MouseState : Type 0 where
  pub x : ℤ
  pub y : ℤ
  pub dx : ℤ
  pub dy : ℤ
  pub buttons : ℕ

-- The other variables of src/mouse.c: the bytes of the packet so far, and the click that has not been asked for.
pub record Decoder : Type 0 where
  pub packet : List ℕ
  pub cur : MouseState
  pub click_pending : Bool
  pub click_x : ℤ
  pub click_y : ℤ

-- `mouse_irq_handler` with the byte that the controller gives.
unfoldable pub irq_handler : Ring → ℕ → Ring
irq_handler q b =
    let next = (q.w + 1) % mouse_ring in
    if next == q.r then q else record q { bytes = modify q.bytes q.w (λ _. b); w = next }

-- A byte as an `int8_t`, and a number as an `int16_t`.
abbrev pub int8 : ℕ → ℤ
int8 b = if ltb b 128 then pos b else negsuc (255 - b)

abbrev pub int16 : ℕ → ℤ
int16 n = if ltb (n % 2 ^ 16) (2 ^ 15) then pos (n % 2 ^ 16) else negsuc (2 ^ 16 - 1 - n % 2 ^ 16)

infixl 20 ◌+ℤ◌
abbrev pub ◌+ℤ◌ : ℤ → ℤ → ℤ
pos a +ℤ pos b = pos (a + b)
pos a +ℤ negsuc b = if ltb b a then pos (a - suc b) else negsuc (b - a)
negsuc a +ℤ pos b = if ltb a b then pos (b - suc a) else negsuc (a - b)
negsuc a +ℤ negsuc b = negsuc (suc (a + b))

abbrev pub neg : ℤ → ℤ
neg (pos zero) = pos zero
neg (pos (suc n)) = negsuc n
neg (negsuc n) = pos (suc n)

-- `v * mouse_accel`
abbrev pub scaled : ℤ → ℤ
scaled (pos n) = pos (n * mouse_accel)
scaled (negsuc n) = negsuc (suc n * mouse_accel - 1)

-- Less than 0 becomes 0, and `size` and more becomes `size - 1`; a screen has a size of 1 at least.
unfoldable pub on_screen : ℕ → ℤ → ℕ
on_screen size (negsuc n) = 0
on_screen size (pos n) = if leb size n then size - 1 else n

-- A value cut to those of an `int8_t`.
unfoldable pub cut_int8 : ℤ → ℤ
cut_int8 (pos n) = if ltb 127 n then pos 127 else pos n
cut_int8 (negsuc n) = if ltb 127 n then negsuc 127 else negsuc n

-- The movement of a full packet: none where the overflow bit is set.
abbrev pub movement : ℕ → ℕ → ℕ → ℤ
movement flags bit b = if flags / bit % 2 == 1 then pos 0 else int8 b

-- The part of `mouse_push_process` after the third byte.
unfoldable pub move : ℕ → ℕ → Decoder → ℕ → ℕ → ℕ → Decoder
unfolding on_screen cut_int8
move sw sh d flags bx by' =
    let adx = scaled (movement flags 64 bx) in
    let ady = scaled (neg (movement flags 128 by')) in
    let x = int16 (on_screen sw (d.cur.x +ℤ adx)) in
    let y = int16 (on_screen sh (d.cur.y +ℤ ady)) in
    let pressed = flags % 2 == 1 && not (d.cur.buttons % 2 == 1) in
    record {
      packet = [];
      cur = record { x = x; y = y; dx = cut_int8 adx; dy = cut_int8 ady; buttons = flags % 8 };
      click_pending = if pressed then true else d.click_pending;
      click_x = if pressed then x else d.click_x;
      click_y = if pressed then y else d.click_y;
    }

-- `mouse_push_process`, by the number of bytes that the packet has; it never has more than two.
unfoldable pub push_bytes : ℕ → ℕ → Decoder → List ℕ → ℕ → Decoder
unfolding move
push_bytes sw sh d [] b = if b / 8 % 2 == 1 then record d { packet = b ∷ [] } else d
push_bytes sw sh d (a ∷ []) b = record d { packet = a ∷ b ∷ [] }
push_bytes sw sh d (a ∷ c ∷ rest) b = move sw sh d a c b

unfoldable pub push_process : ℕ → ℕ → Decoder → ℕ → Decoder
unfolding push_bytes
push_process sw sh d b = push_bytes sw sh d d.packet b

-- One round of the loop of `mouse_poll`.
unfoldable pub poll_round : ℕ → ℕ → Ring × Decoder → Ring × Decoder
unfolding push_process
poll_round sw sh (q, d) =
    if q.r == q.w
    then (q, d)
    else (record q { r = (q.r + 1) % mouse_ring }, push_process sw sh d (get_or q.bytes q.r 0))

-- `mouse_poll`: a ring holds at most 63 bytes, so 63 rounds are enough.
unfoldable pub poll_rounds : ℕ → ℕ → ℕ → Ring × Decoder → Ring × Decoder
unfolding poll_round
poll_rounds zero sw sh s = s
poll_rounds (suc n) sw sh s = poll_rounds n sw sh (poll_round sw sh s)

abbrev pub mouse_poll : ℕ → ℕ → Ring × Decoder → Ring × Decoder
mouse_poll sw sh s = poll_rounds 63 sw sh s

-- `mouse_left_clicked`, which takes the click.
unfoldable pub left_clicked : Decoder → Decoder × Bool
left_clicked d = if d.click_pending then (record d { click_pending = false }, true) else (d, false)

-- The variables that `mouse_init` sets.
unfoldable pub mouse_init : ℕ → ℕ → Ring × Decoder → Ring × Decoder
mouse_init sw sh (q, d) = (
  record q { r = 0; w = 0 },
  record d {
    packet = [];
    click_pending = false;
    cur = record { x = int16 (sw / 2); y = int16 (sh / 2); dx = pos 0; dy = pos 0; buttons = 0 };
  },
)
