-- ===== src/Mouse/Cursor.antt =====
-- Where the cursor of src/mouse.c can be.
use aj.Common.{
  ℕ, ◌/◌, ◌%◌, ◌^◌, ◌≤◌, ◌<◌, ◌≡◌, refl, inl, inr, true, not, ◌&&◌, List, [], ◌∷◌, ◌==◌, ltb,
  Bool-cases, length, arith,
}
use aj.Mouse.{
  ℤ, pos, negsuc, Decoder, int16, on_screen, ◌+ℤ◌, scaled, neg, movement, move, push_bytes,
  push_process, Ring, mouse_init,
}
use aj.Mouse.Queue.{push_all}

-- A coordinate on a screen of a size.
abbrev pub IsOn : ℕ → ℤ → Type 0
IsOn size v = (n : ℕ) × (v ≡ pos n) × (n < size)

-- The cursor and a click that waits are on the screen, and a packet has at most two bytes so far.
pub record IsDecoder (sw sh : ℕ) (d : Decoder) : Type 0 where
  pub short : length d.packet ≤ 2
  pub x_on : IsOn sw d.cur.x
  pub y_on : IsOn sh d.cur.y
  pub click_on : d.click_pending ≡ true → IsOn sw d.click_x × IsOn sh d.click_y

on_screen-lt : (size : ℕ) (v : ℤ) → 0 < size → on_screen size v < size
unfolding on_screen
on_screen-lt size (pos n) h = ground arith
on_screen-lt size (negsuc n) h = h

int16-IsOn : (size n : ℕ) → size ≤ 2 ^ 15 → n < size → IsOn size (int16 n)
int16-IsOn size n l h =
    let small : ltb (n % 2 ^ 16) (2 ^ 15) ≡ true = ground arith in
    let same : n % 2 ^ 16 ≡ n = omega arith in rw (small, same) (n, refl, h)

module _ (sw sh : ℕ) (w : 0 < sw) (h : 0 < sh) (wl : sw ≤ 2 ^ 15) (hl : sh ≤ 2 ^ 15) where
  placed : (size : ℕ) (v : ℤ) → 0 < size → size ≤ 2 ^ 15 → IsOn size (int16 (on_screen size v))
  placed size v p l = int16-IsOn size (on_screen size v) l (on_screen-lt size v p)

  move-IsDecoder :
      (d : Decoder) (flags bx by' : ℕ)
      → IsDecoder sw sh d
      → IsDecoder sw sh (move sw sh d flags bx by')
  unfolding move
  move-IsDecoder d flags bx by' k =
      let x = placed sw (d.cur.x +ℤ scaled (movement flags 64 bx)) w wl in
      let y = placed sh (d.cur.y +ℤ scaled (neg (movement flags 128 by'))) h hl in
      record {
        short = omega arith;
        x_on = x;
        y_on = y;
        click_on = elim (Bool-cases (flags % 2 == 1 && not (d.cur.buttons % 2 == 1))) [
          | inl e ↦ rw e (λ t. (x, y))
          | inr e ↦ rw e k.click_on
        ];
      }

  push_bytes-IsDecoder :
      (d : Decoder) (bs : List ℕ) (b : ℕ)
      → IsDecoder sw sh d
      → IsDecoder sw sh (push_bytes sw sh d bs b)
  unfolding push_bytes
  push_bytes-IsDecoder d [] b k = elim (Bool-cases (b / 8 % 2 == 1)) [
    | inl e ↦
        rw e (record { short = omega arith; x_on = k.x_on; y_on = k.y_on; click_on = k.click_on })
    | inr e ↦ rw e k
  ]
  push_bytes-IsDecoder d (a ∷ []) b k = record {
    short = omega arith;
    x_on = k.x_on;
    y_on = k.y_on;
    click_on = k.click_on;
  }
  push_bytes-IsDecoder d (a ∷ c ∷ bs) b k = move-IsDecoder d a c b k

  push_all-IsDecoder :
      (bs : List ℕ) (d : Decoder) → IsDecoder sw sh d → IsDecoder sw sh (push_all sw sh d bs)
  unfolding push_all push_process
  push_all-IsDecoder [] d k = k
  push_all-IsDecoder (b ∷ bs) d k =
      push_all-IsDecoder bs (push_process sw sh d b) (push_bytes-IsDecoder d d.packet b k)

-- Whatever bytes the mouse sends after it is set up, the cursor and a click that waits stay on the screen, on a
-- screen of at most 32768 pixels in each direction, and no packet has more than three bytes.
pub mouse_init-IsDecoder :
    (sw sh : ℕ) (s : Ring × Decoder) (bs : List ℕ)
    → 0 < sw
    → 0 < sh
    → sw ≤ 2 ^ 15
    → sh ≤ 2 ^ 15
    → IsDecoder sw sh (push_all sw sh (mouse_init sw sh s).1 bs)
unfolding mouse_init
mouse_init-IsDecoder sw sh (q, d) bs w h wl hl =
    push_all-IsDecoder sw sh w h wl hl bs (mouse_init sw sh (q, d)).1 (record {
      short = omega arith;
      x_on = int16-IsOn sw (sw / 2) wl (omega arith);
      y_on = int16-IsOn sh (sh / 2) hl (omega arith);
      click_on = λ t. absurd (cc t);
    })
