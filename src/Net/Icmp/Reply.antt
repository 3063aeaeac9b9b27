-- ===== src/Net/Icmp/Reply.antt =====
-- The echo reply of src/icmp.c.
use aj.Common.{
  ℕ, zero, suc, ◌+◌, ◌-◌, ◌/◌, ◌%◌, ◌^◌, ◌≤◌, ◌<◌, ◌≡◌, ◌≢◌, ◌⊎◌, refl, ap, sym, ◌∙◌, inl, inr,
  false, some, [], ◌∷◌, ltb, Memory, IsBelow, arith,
}
use aj.Net.Pbuf.{Pbuf, byte, store_list}
use aj.Net.Checksum.{net_checksum}
use aj.Net.Checksum.Stored.{
  store_list-IsBelow, store_list-inside, store_list-outside, word_sum-same, ones_sum-complement,
}
use aj.Net.Checksum.Standard.{word_sum, ones_sum, net_checksum-word_sum}
use aj.Net.Ip4.{Net, proto_icmp, ip4_output}
use aj.Net.Icmp.{
  Icmp, type_echo_reply, type_echo_request, blank_reply, echo_reply, reply_with, icmp_input,
}

-- A word that is stored at byte 2 of an area where it was 0 is added to the sum.
word_sum-stored :
    (m : Memory) (start n v : ℕ)
    → 4 ≤ n
    → m (start + 2) ≡ 0
    → m (start + 3) ≡ 0
    → word_sum (store_list m (start + 2) (v % 2 ^ 8 ∷ v / 2 ^ 8 ∷ [])) start n
      ≡ word_sum m start n + v
unfolding word_sum
word_sum-stored m start (suc (suc (suc (suc n)))) v h a b =
    let bs = v % 2 ^ 8 ∷ v / 2 ^ 8 ∷ [] in
    let m' = store_list m (start + 2) bs in
    let rest : word_sum m' (start + 2 + 2) n ≡ word_sum m (start + 2 + 2) n =
      word_sum-same m' m (start + 2 + 2) (start + 2 + 2) n
        (λ i l. store_list-outside m (start + 2) bs (start + 2 + 2 + i) (inr (omega arith))) in
    let zero_at : start + 2 + 0 ≡ start + 2 = omega arith in
    let third_at : start + 2 + 1 ≡ start + 3 = omega arith in
    let b' : m (start + 2 + 1) ≡ 0 = ap m third_at ∙ b in
    omega (
      arith,
      rest,
      a,
      b',
      store_list-outside m (start + 2) bs start (inl (omega arith)),
      store_list-outside m (start + 2) bs (start + 1) (inl (omega arith)),
      ap m' zero_at,
      store_list-inside m (start + 2) bs 0 (omega arith),
      store_list-inside m (start + 2) bs 1 (omega arith),
    )
word_sum-stored m start (suc (suc (suc zero))) v h a b = omega arith
word_sum-stored m start (suc (suc zero)) v h a b = omega arith
word_sum-stored m start (suc zero) v h a b = omega arith
word_sum-stored m start zero v h a b = omega arith

beside : (x i : ℕ) → i ≢ 2 → i ≢ 3 → (x + i < x + 2) ⊎ (x + 2 + 2 ≤ x + i)
beside x i a b = ground arith

-- The bytes of a reply without its checksum.
module _ (p : Pbuf) where
  abbrev typed : Memory
  typed = store_list p.buffer p.payload (type_echo_reply ∷ [])

  blank-IsBelow : IsBelow 256 p.buffer → IsBelow 256 (blank_reply p)
  unfolding blank_reply
  blank-IsBelow h =
      store_list-IsBelow typed (p.payload + 2) (0 ∷ 0 ∷ [])
        (store_list-IsBelow p.buffer p.payload (type_echo_reply ∷ []) h (omega arith)) (omega arith)

  blank_at_2 : blank_reply p (p.payload + 2) ≡ 0
  unfolding blank_reply
  blank_at_2 =
      let e : p.payload + 2 + 0 ≡ p.payload + 2 = omega arith in
      ap (store_list typed (p.payload + 2) (0 ∷ 0 ∷ [])) (sym e)
      ∙ store_list-inside typed (p.payload + 2) (0 ∷ 0 ∷ []) 0 (omega arith)

  blank_at_3 : blank_reply p (p.payload + 3) ≡ 0
  unfolding blank_reply
  blank_at_3 =
      let e : p.payload + 2 + 1 ≡ p.payload + 3 = omega arith in
      ap (store_list typed (p.payload + 2) (0 ∷ 0 ∷ [])) (sym e)
      ∙ store_list-inside typed (p.payload + 2) (0 ∷ 0 ∷ []) 1 (omega arith)

  -- The reply differs from the request in the type and the checksum.
  reply_else : (i : ℕ) → i ≢ 0 → i ≢ 2 → i ≢ 3 → byte (echo_reply p) i ≡ byte p i
  unfolding echo_reply blank_reply
  reply_else i a b c =
      let chksum = net_checksum (blank_reply p) p.payload p.len in
      store_list-outside (blank_reply p) (p.payload + 2) (chksum % 2 ^ 8 ∷ chksum / 2 ^ 8 ∷ [])
        (p.payload + i) (beside p.payload i b c)
      ∙ store_list-outside typed (p.payload + 2) (0 ∷ 0 ∷ []) (p.payload + i)
          (beside p.payload i b c)
      ∙ store_list-outside p.buffer p.payload (type_echo_reply ∷ []) (p.payload + i)
          (inr (omega arith))

  reply_type : byte (echo_reply p) 0 ≡ type_echo_reply
  unfolding echo_reply blank_reply
  reply_type =
      let chksum = net_checksum (blank_reply p) p.payload p.len in
      store_list-outside (blank_reply p) (p.payload + 2) (chksum % 2 ^ 8 ∷ chksum / 2 ^ 8 ∷ [])
        (p.payload + 0) (inl (omega arith))
      ∙ store_list-outside typed (p.payload + 2) (0 ∷ 0 ∷ []) (p.payload + 0) (inl (omega arith))
      ∙ store_list-inside p.buffer p.payload (type_echo_reply ∷ []) 0 (omega arith)

  reply_checks :
      IsBelow 256 p.buffer
      → 8 ≤ p.len
      → p.len ≤ 2 ^ 16
      → net_checksum (echo_reply p).buffer p.payload p.len ≡ 0
  unfolding echo_reply
  reply_checks bytes low high =
      let m = blank_reply p in
      let below = blank-IsBelow bytes in
      let chksum = net_checksum m p.payload p.len in
      let w = word_sum m p.payload p.len in
      let c : chksum ≡ 65535 - ones_sum w = net_checksum-word_sum m below p.payload p.len high in
      let bs = chksum % 2 ^ 8 ∷ chksum / 2 ^ 8 ∷ [] in
      net_checksum-word_sum (store_list m (p.payload + 2) bs)
        (store_list-IsBelow m (p.payload + 2) bs below (omega (arith, c))) p.payload p.len high
      ∙ ap (λ (t : ℕ). 65535 - ones_sum t)
          (word_sum-stored m p.payload p.len chksum (omega arith) blank_at_2 blank_at_3
            ∙ ap (λ (t : ℕ). w + t) c)
      ∙ ap (λ (t : ℕ). 65535 - t) (ones_sum-complement w)

request_answered :
    (t : Icmp) (s : Net) (p : Pbuf) (src ttl : ℕ)
    → 8 ≤ p.len
    → byte p 0 ≡ type_echo_request
    → icmp_input t s p src ttl ≡ (
      t,
      (ip4_output s (echo_reply p) src proto_icmp).0,
      some (ip4_output s (echo_reply p) src proto_icmp).1,
    )
unfolding icmp_input reply_with
request_answered t s p src ttl low e = let a : ltb p.len 8 ≡ false = ground arith in rw (a, e) refl

-- An echo request of 8 to 65536 bytes is answered to its sender with a packet of the same length, whose type
-- is that of a reply, whose bytes from the fifth on (the identifier, the sequence number and the data) and
-- whose code are those of the request, and whose checksum is right: the sum over all of it checks.
pub icmp_input-echo_reply :
    (t : Icmp) (s : Net) (p : Pbuf) (src ttl : ℕ)
    → IsBelow 256 p.buffer
    → 8 ≤ p.len
    → p.len ≤ 2 ^ 16
    → byte p 0 ≡ type_echo_request
    → (q : Pbuf) × (icmp_input t s p src ttl
        ≡ (t, (ip4_output s q src proto_icmp).0, some (ip4_output s q src proto_icmp).1))
      × (q.payload ≡ p.payload)
      × (q.len ≡ p.len)
      × (byte q 0 ≡ type_echo_reply)
      × (byte q 1 ≡ byte p 1)
      × ((i : ℕ) → 4 ≤ i → byte q i ≡ byte p i)
      × (net_checksum q.buffer q.payload q.len ≡ 0)
unfolding echo_reply
icmp_input-echo_reply t s p src ttl bytes low high e = (
  echo_reply p,
  request_answered t s p src ttl low e,
  refl,
  refl,
  reply_type p,
  reply_else p 1 (omega arith) (omega arith) (omega arith),
  λ i l. reply_else p i (omega arith) (omega arith) (omega arith),
  reply_checks p bytes low high,
)
