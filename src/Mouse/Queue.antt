-- ===== src/Mouse/Queue.antt =====
-- The ring of src/mouse.c as a queue.
use aj.Common.{
  ℕ, zero, suc, ◌+◌, ◌-◌, ◌%◌, ◌≤◌, ◌<◌, ◌≡◌, ◌≢◌, refl, ap, ◌∙◌, inl, inr, true, false, List, [],
  ◌∷◌, ◌++◌, ◌==◌, ltb, if◌then◌else◌, Bool-cases, length, length-modify, modify, get_or,
  get_or-modify_ne, get_or-modify_self, arith,
}
use aj.Mouse.{
  Ring, Decoder, mouse_ring, irq_handler, push_process, poll_round, poll_rounds, mouse_poll,
}

-- The indices are in range.
pub record IsRing (q : Ring) : Type 0 where
  pub whole : length q.bytes ≡ mouse_ring
  pub r_lt : q.r < mouse_ring
  pub w_lt : q.w < mouse_ring

-- `n` bytes from an index on, round the end.
unfoldable pub segment : List ℕ → ℕ → ℕ → List ℕ
segment bytes i zero = []
segment bytes i (suc n) = get_or bytes i 0 ∷ segment bytes ((i + 1) % mouse_ring) n

abbrev pub fill : Ring → ℕ
fill q = (q.w + mouse_ring - q.r) % mouse_ring

-- The bytes that wait, the oldest first.
abbrev pub queued : Ring → List ℕ
queued q = segment q.bytes q.r (fill q)

length-segment : (bytes : List ℕ) (i n : ℕ) → length (segment bytes i n) ≡ n
unfolding segment
length-segment bytes i zero = refl
length-segment bytes i (suc n) = ap suc (length-segment bytes ((i + 1) % mouse_ring) n)

segment-modify :
    (bytes : List ℕ) (i n w b : ℕ)
    → length bytes ≡ mouse_ring
    → i < mouse_ring
    → w < mouse_ring
    → n < mouse_ring
    → (i + n) % mouse_ring ≡ w
    → segment (modify bytes w (λ _. b)) i (suc n) ≡ segment bytes i n ++ (b ∷ [])
unfolding segment
segment-modify bytes i zero w b l a c d e =
    let same : i ≡ w = omega arith in
    rw (same, get_or-modify_self bytes w (λ _. b) 0 (omega arith)) refl
segment-modify bytes i (suc n) w b l a c d e =
    let apart : w ≢ i = omega arith in
    rw (get_or-modify_ne bytes w i (λ _. b) 0 apart) (
      ap (λ (t : List ℕ). get_or bytes i 0 ∷ t)
        (segment-modify bytes ((i + 1) % mouse_ring) n w b l (omega arith) c (omega arith)
          (omega arith)))

-- A byte that comes in is the last of the queue, unless 63 wait.
abbrev pub added : List ℕ → ℕ → List ℕ
added bs b = if ltb (length bs) 63 then bs ++ (b ∷ []) else bs

pub irq_handler-added :
    (q : Ring) (b : ℕ)
    → IsRing q
    → IsRing (irq_handler q b) × (queued (irq_handler q b) ≡ added (queued q) b)
unfolding irq_handler
irq_handler-added q b h = elim (Bool-cases ((q.w + 1) % mouse_ring == q.r)) [
  | inl e ↦
      let n : fill q ≡ 63 = ground (arith, e, h.r_lt, h.w_lt) in
      let full : ltb (length (queued q)) 63 ≡ false =
        rw (length-segment q.bytes q.r (fill q), n) refl in
      rw (e, full) (h, refl)
  | inr e ↦
      let n : fill q < 63 = ground (arith, e, h.r_lt, h.w_lt) in
      let room : ltb (length (queued q)) 63 ≡ true =
        rw (length-segment q.bytes q.r (fill q)) (ground arith) in
      let more : ((q.w + 1) % mouse_ring + mouse_ring - q.r) % mouse_ring ≡ suc (fill q) =
        ground (arith, e, h.r_lt, h.w_lt) in
      rw (e, room, more)
        (
          record {
            whole = length-modify q.bytes q.w (λ _. b) ∙ h.whole;
            r_lt = h.r_lt;
            w_lt = omega arith;
          },
          segment-modify q.bytes q.r (fill q) q.w b h.whole h.r_lt h.w_lt (omega arith)
              (omega (arith, h.r_lt, h.w_lt)),
        )
]

-- What a round of the poll does: it passes the oldest byte to the decoder, if there is one.
pub record Takes (q q' : Ring) (sw sh : ℕ) (d d' : Decoder) : Type 0 where
  pub valid : IsRing q'
  pub none_left : queued q ≡ [] → (queued q' ≡ []) × (d' ≡ d)
  pub oldest :
      (b : ℕ) (bs : List ℕ) → queued q ≡ b ∷ bs → (queued q' ≡ bs) × (d' ≡ push_process sw sh d b)

pub poll_round-Takes :
    (q : Ring) (d : Decoder) (sw sh : ℕ)
    → IsRing q
    → let (q', d') = poll_round sw sh (q, d) in Takes q q' sw sh d d'
unfolding poll_round
poll_round-Takes q d sw sh h = elim (Bool-cases (q.r == q.w)) [
  | inl e ↦
      let n : fill q ≡ 0 = ground (arith, e, h.r_lt, h.w_lt) in
      let nothing : queued q ≡ [] = unfold segment in rw n refl in
      rw e (record {
        valid = h;
        none_left = λ z. (z, refl);
        oldest = λ b bs z. absurd (cc (nothing, z));
      })
  | inr e ↦
      let n : fill q ≡ suc (fill q - 1) = ground (arith, e, h.r_lt, h.w_lt) in
      let less : fill (record q { r = (q.r + 1) % mouse_ring }) ≡ fill q - 1 =
        ground (arith, e, h.r_lt, h.w_lt) in
      let first : queued q
          ≡ get_or q.bytes q.r 0 ∷ segment q.bytes ((q.r + 1) % mouse_ring) (fill q - 1) =
        ap (segment q.bytes q.r) n ∙ (unfold segment in refl) in
      let rest : queued (record q { r = (q.r + 1) % mouse_ring })
          ≡ segment q.bytes ((q.r + 1) % mouse_ring) (fill q - 1) =
        ap (segment q.bytes ((q.r + 1) % mouse_ring)) less in
      rw e (record {
        valid = record { whole = h.whole; r_lt = omega arith; w_lt = h.w_lt };
        none_left = λ z. absurd (cc (first, z));
        oldest = λ b bs z. (rest ∙ cc (first, z), ap (push_process sw sh d) (cc (first, z)));
      })
]

-- The decoder on a queue: the bytes one after the other.
unfoldable pub push_all : ℕ → ℕ → Decoder → List ℕ → Decoder
push_all sw sh d [] = d
push_all sw sh d (b ∷ bs) = push_all sw sh (push_process sw sh d b) bs

poll_rounds-all :
    (n : ℕ) (q : Ring) (d : Decoder) (sw sh : ℕ) (bs : List ℕ)
    → IsRing q
    → queued q ≡ bs
    → length bs ≤ n
    → let (q', d') = poll_rounds n sw sh (q, d) in
      IsRing q' × (queued q' ≡ []) × (d' ≡ push_all sw sh d bs)
unfolding poll_rounds push_all
poll_rounds-all zero q d sw sh [] h e l = (h, e, refl)
poll_rounds-all zero q d sw sh (b ∷ bs) h e l = absurd (omega arith)
poll_rounds-all (suc n) q d sw sh [] h e l =
    let t = poll_round-Takes q d sw sh h in
    let (q', d') = poll_round sw sh (q, d) in
    let (e', k) = t.none_left e in
    let (v, w, x) =
      poll_rounds-all n (poll_round sw sh (q, d)).0 (poll_round sw sh (q, d)).1 sw sh [] t.valid e'
        (omega arith) in
    (v, w, x ∙ k)
poll_rounds-all (suc n) q d sw sh (b ∷ bs) h e l =
    let t = poll_round-Takes q d sw sh h in
    let (e', k) = t.oldest b bs e in
    let (v, w, x) =
      poll_rounds-all n (poll_round sw sh (q, d)).0 (poll_round sw sh (q, d)).1 sw sh bs t.valid e'
        (omega arith) in
    (v, w, x ∙ ap (λ (y : Decoder). push_all sw sh y bs) k)

-- From a ring whose indices are in range, the loop of a poll ends within its 63 rounds with an empty ring, and
-- the decoder has been given every byte that waited, the oldest first.
pub mouse_poll-all :
    (q : Ring) (d : Decoder) (sw sh : ℕ)
    → IsRing q
    → let (q', d') = mouse_poll sw sh (q, d) in
      IsRing q' × (queued q' ≡ []) × (d' ≡ push_all sw sh d (queued q))
mouse_poll-all q d sw sh h =
    poll_rounds-all 63 q d sw sh (queued q) h refl
      (omega (arith, length-segment q.bytes q.r (fill q)))

-- What happens to the ring: an interrupt with a byte, or a round of the poll.
pub data Event : Type 0 where
  interrupt : ℕ → Event
  polled : Event

unfoldable pub happen : ℕ → ℕ → List Event → Ring × Decoder → Ring × Decoder
happen sw sh [] s = s
happen sw sh (interrupt b ∷ es) (q, d) = happen sw sh es (irq_handler q b, d)
happen sw sh (polled ∷ es) s = happen sw sh es (poll_round sw sh s)

-- The same on a queue of at most 63 bytes.
unfoldable pub in_order : ℕ → ℕ → List Event → List ℕ → Decoder → List ℕ × Decoder
in_order sw sh [] bs d = (bs, d)
in_order sw sh (interrupt b ∷ es) bs d = in_order sw sh es (added bs b) d
in_order sw sh (polled ∷ es) [] d = in_order sw sh es [] d
in_order sw sh (polled ∷ es) (b ∷ bs) d = in_order sw sh es bs (push_process sw sh d b)

happen_from :
    (sw sh : ℕ) (es : List Event) (q : Ring) (d d0 : Decoder) (bs : List ℕ)
    → IsRing q
    → queued q ≡ bs
    → d ≡ d0
    → let (q', d') = happen sw sh es (q, d) in
      IsRing q' × ((queued q', d') ≡ in_order sw sh es bs d0)
unfolding happen in_order
happen_from sw sh [] q d d0 bs h e k = (h, λ i. (e i, k i))
happen_from sw sh (interrupt b ∷ es) q d d0 bs h e k =
    let (v, a) = irq_handler-added q b h in
    happen_from sw sh es (irq_handler q b) d d0 (added bs b) v (a ∙ ap (λ t. added t b) e) k
happen_from sw sh (polled ∷ es) q d d0 [] h e k =
    let t = poll_round-Takes q d sw sh h in
    let (e', z) = t.none_left e in
    happen_from sw sh es (poll_round sw sh (q, d)).0 (poll_round sw sh (q, d)).1 d0 [] t.valid e'
      (z ∙ k)
happen_from sw sh (polled ∷ es) q d d0 (b ∷ bs) h e k =
    let t = poll_round-Takes q d sw sh h in
    let (e', z) = t.oldest b bs e in
    happen_from sw sh es (poll_round sw sh (q, d)).0 (poll_round sw sh (q, d)).1
      (push_process sw sh d0 b) bs t.valid e' (z ∙ ap (λ (y : Decoder). push_process sw sh y b) k)

-- From a ring whose indices are in range, in whatever order interrupts and rounds of the poll follow each
-- other, the ring is a queue of at most 63 bytes: a byte that comes in when 63 wait is lost, and every other
-- byte reaches the decoder once, in the order of arrival.
pub happen-in_order :
    (sw sh : ℕ) (es : List Event) (q : Ring) (d : Decoder)
    → IsRing q
    → let (q', d') = happen sw sh es (q, d) in
      IsRing q' × ((queued q', d') ≡ in_order sw sh es (queued q) d)
happen-in_order sw sh es q d h = happen_from sw sh es q d d (queued q) h refl refl
