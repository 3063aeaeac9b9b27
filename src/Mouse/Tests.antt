-- ===== src/Mouse/Tests.antt =====
-- Examples of the mouse of src/mouse.c.
use aj.Common.{ℕ, ◌≡◌, false, List, [], ◌∷◌, replicate, length-replicate, arith}
use aj.Mouse.{pos, Ring, Decoder, mouse_init}
use aj.Mouse.Queue.{
  IsRing, queued, push_all, Event, interrupt, polled, happen, in_order, happen-in_order,
}
use aj.Mouse.Cursor.{IsDecoder, mouse_init-IsDecoder}

-- A ring whose end is in its middle, with two bytes in it.
abbrev wrapped : Ring
wrapped = record { bytes = replicate 64 9; r = 63; w = 1 }

wrapped-IsRing : IsRing wrapped
wrapped-IsRing = record {
  whole = length-replicate {A = ℕ} 64 9;
  r_lt = omega arith;
  w_lt = omega arith;
}

abbrev rest : Decoder
rest = record {
  packet = [];
  cur = record { x = pos 10; y = pos 10; dx = pos 0; dy = pos 0; buttons = 0 };
  click_pending = false;
  click_x = pos 0;
  click_y = pos 0;
}

abbrev events : List Event
events = interrupt 8 ∷ polled ∷ interrupt 200 ∷ polled ∷ polled ∷ polled ∷ []

happen-in_order_example :
    let (q', d') = happen 640 480 events (wrapped, rest) in
    IsRing q' × ((queued q', d') ≡ in_order 640 480 events (queued wrapped) rest)
happen-in_order_example = happen-in_order 640 480 events wrapped rest wrapped-IsRing

mouse_init-IsDecoder_example :
    IsDecoder 640 480
      (push_all 640 480 (mouse_init 640 480 (wrapped, rest)).1 (9 ∷ 200 ∷ 3 ∷ 8 ∷ []))
mouse_init-IsDecoder_example =
    mouse_init-IsDecoder 640 480 (wrapped, rest) (9 ∷ 200 ∷ 3 ∷ 8 ∷ []) (omega arith) (omega arith)
      (omega arith) (omega arith)
