-- ===== src/Net/Ip4/Loopback.antt =====
-- A packet that src/ip4.c sends to the machine's own address, and that comes in again.
use aj.Common.{
  ℕ, ◌+◌, ◌-◌, ◌*◌, ◌/◌, ◌%◌, ◌^◌, ◌≤◌, ◌<◌, ◌≡◌, ◌≢◌, refl, ap, ◌∙◌, inr, true, false, ◌==◌,
  ==-refl, ltb, leb, if◌then◌else◌, Bool, Option, some, get_or, IsBelow, u32, arith,
}
use aj.Arp.{get_if_ip}
use aj.Net.Pbuf.{Pbuf, byte, write, field_16, field_32, advance, retreat, shorten, pbuf_size}
use aj.Net.Checksum.{net_checksum}
use aj.Net.Ip4.{
  Net, Fate, freed, to_icmp, to_udp, to_tcp, header_bytes, header_length, with_header,
  is_well_formed, policy_filter, after_filter, trim, is_for_us, accept, deliver, ip4_input,
  proto_icmp, proto_udp, proto_tcp, looped, route, is_own, send, ip4_output_ttl,
}
use aj.Net.Ip4.Header.{net_checksum-with_header}
use aj.Net.Checksum.Stored.{store_list-inside, store_list-outside}

-- A packet with a header of 20 bytes and the right length, for the first interface.
pub record IsLocal (s : Net) (q : Pbuf) : Type 0 where
  pub version : byte q 0 ≡ 0x45
  pub whole : field_16 q 2 ≡ q.len
  pub long_enough : 20 ≤ q.len
  pub checked : net_checksum q.buffer q.payload 20 ≡ 0
  pub destination : field_32 q 16 ≡ get_if_ip s.arp 0

lets :
    (s : Net) (q : Pbuf) (hl : ℕ)
    → field_32 q 16 ≡ get_if_ip s.arp 0
    → (policy_filter s q hl).1 ≡ true
unfolding policy_filter
lets s q hl e =
    let t : (field_32 q 16 == get_if_ip s.arp 0) ≡ true = rw e (==-refl (get_if_ip s.arp 0)) in
    rw t (ground arith)

after_filter-lets :
    (r : Net × Bool) (q : Pbuf) (hl : ℕ)
    → r.1 ≡ true
    → (after_filter r q hl).1 ≡ accept r.0 (trim q) hl
unfolding after_filter
after_filter-lets (s, true) q hl e = refl
after_filter-lets (s, false) q hl e = absurd (cc e)

trim-whole : (q : Pbuf) → field_16 q 2 ≡ q.len → trim q ≡ some q
unfolding trim
trim-whole q e =
    let a : ltb (field_16 q 2) q.len ≡ false = ground (arith, e) in
    let b : ltb q.len (field_16 q 2) ≡ false = ground (arith, e) in rw (a, b) refl

for_us :
    (s : Net) (q : Pbuf) (hl : ℕ)
    → field_32 q 16 ≡ get_if_ip s.arp 0
    → get_if_ip s.arp 0 ≢ 0
    → is_for_us s q hl ≡ true
unfolding is_for_us
for_us s q hl e nz =
    let a : (get_if_ip s.arp 0 == 0) ≡ false = ground arith in
    let t : (field_32 q 16 == get_if_ip s.arp 0) ≡ true = rw e (==-refl (get_if_ip s.arp 0)) in
    rw (a, t) refl

well_formed :
    {s : Net} {q : Pbuf} → IsLocal s q → (is_well_formed q ≡ true) × (header_length q ≡ 20)
unfolding is_well_formed
well_formed {s} {q} h =
    let hl : header_length q ≡ 20 = ap (λ (t : ℕ). t % 16 * 4) h.version in
    let v : byte q 0 / 16 ≡ 4 = ap (λ (t : ℕ). t / 16) h.version in
    let l : ltb q.len 20 ≡ false = ground (arith, h.long_enough) in
    (rw (hl, v, h.checked, l) refl, hl)

pub ip4_input-IsLocal :
    {s : Net} {q : Pbuf} → IsLocal s q → get_if_ip s.arp 0 ≢ 0 → (ip4_input s q).1 ≡ deliver q 20
unfolding ip4_input
ip4_input-IsLocal {s} {q} h nz =
    let s' = record s { rx_count = u32 (s.rx_count + 1) } in
    let (w, hl) = well_formed h in
    let r = policy_filter s' q 20 in
    let us : is_for_us r.0 q 20 ≡ true = unfold policy_filter in for_us r.0 q 20 h.destination nz in
    let taken : accept r.0 (some q) 20 ≡ deliver q 20 = unfold accept in rw us refl in
    rw (w, hl)
      (after_filter-lets r q 20 (lets s' q 20 h.destination)
        ∙ ap (λ (o : Option Pbuf). accept r.0 o 20) (trim-whole q h.whole)
        ∙ taken)

-- What a protocol gets: its packet, with the source and the time to live or the destination.
abbrev pub handed : ℕ → ℕ → ℕ → ℕ → Pbuf → Fate
handed proto src ttl dst rest =
    if proto == proto_icmp
    then to_icmp src ttl rest
    else if proto == proto_udp
    then to_udp src dst rest
    else if proto == proto_tcp
    then to_tcp src dst rest
    else freed

pub deliver-handed :
    (q : Pbuf) (proto src ttl dst : ℕ)
    → byte q 9 ≡ proto
    → byte q 8 ≡ ttl
    → field_32 q 12 ≡ src
    → field_32 q 16 ≡ dst
    → q.payload + 20 < pbuf_size
    → deliver q 20 ≡ handed proto src ttl dst (shorten (record q { payload = q.payload + 20 }) 20)
unfolding deliver advance
deliver-handed q proto src ttl dst a b c d l =
    let e : ltb (q.payload + 20) pbuf_size ≡ true = ground arith in rw (a, b, c, d, e) refl

pub field_32-bytes :
    (v : ℕ)
    → v < 2 ^ 32
    → (v / 2 ^ 24 % 2 ^ 8 * 2 ^ 8 + v / 2 ^ 16 % 2 ^ 8) * 2 ^ 16
        + (v / 2 ^ 8 % 2 ^ 8 * 2 ^ 8 + v % 2 ^ 8)
      ≡ v
field_32-bytes v h = omega arith

-- The fields of a packet whose header has just been written.
module _ (q : Pbuf) (ttl proto src dst : ℕ) where
  abbrev pub sent : Pbuf
  sent = with_header q ttl proto src dst

  abbrev pub chksum : ℕ
  chksum = net_checksum (write q (header_bytes q.len ttl proto 0 src dst)).buffer q.payload 20

  pub header_byte :
      (i : ℕ) → i < 20 → byte sent i ≡ get_or (header_bytes q.len ttl proto chksum src dst) i 0
  unfolding with_header
  header_byte i l =
      store_list-inside q.buffer q.payload (header_bytes q.len ttl proto chksum src dst) i l

  pub sent_beyond : (a : ℕ) → q.payload + 20 ≤ a → sent.buffer a ≡ q.buffer a
  unfolding with_header
  sent_beyond a le =
      store_list-outside q.buffer q.payload (header_bytes q.len ttl proto chksum src dst) a
        (inr (omega arith))

  pub sent-IsLocal :
      {s : Net}
      → IsBelow 256 q.buffer
      → q.len ≤ 65515
      → ttl < 256
      → proto < 256
      → dst ≡ get_if_ip s.arp 0
      → dst < 2 ^ 32
      → IsLocal s sent
  unfolding with_header
  sent-IsLocal {s} bytes l a b e d = record {
    version = header_byte 0 (omega arith);
    whole = omega (arith, header_byte 2 (omega arith), header_byte 3 (omega arith));
    long_enough = omega arith;
    checked = net_checksum-with_header q ttl proto src dst bytes a b;
    destination = omega (
      arith,
      e,
      field_32-bytes dst d,
      header_byte 16 (omega arith),
      header_byte 17 (omega arith),
      header_byte 18 (omega arith),
      header_byte 19 (omega arith),
    );
  }

  -- The protocol's part of it: the packet as it was, with the room for the header before it.
  sent-handed :
      q.len ≤ 65515
      → q.payload + 20 < pbuf_size
      → src < 2 ^ 32
      → dst < 2 ^ 32
      → (rest : Pbuf) × (deliver sent 20 ≡ handed proto src ttl dst rest)
        × (rest.payload ≡ q.payload + 20)
        × (rest.len ≡ q.len)
        × ((a : ℕ) → q.payload + 20 ≤ a → rest.buffer a ≡ q.buffer a)
  unfolding with_header
  sent-handed l b c d = (
    shorten (record sent { payload = q.payload + 20 }) 20,
    deliver-handed sent proto src ttl dst (header_byte 9 (omega arith))
        (header_byte 8 (omega arith))
        (omega (
          arith,
          field_32-bytes src c,
          header_byte 12 (omega arith),
          header_byte 13 (omega arith),
          header_byte 14 (omega arith),
          header_byte 15 (omega arith),
        ))
        (omega (
          arith,
          field_32-bytes dst d,
          header_byte 16 (omega arith),
          header_byte 17 (omega arith),
          header_byte 18 (omega arith),
          header_byte 19 (omega arith),
        ))
        b,
    refl,
    omega arith,
    sent_beyond,
  )

pub retreat-room :
    (p : Pbuf)
    → 20 ≤ p.payload
    → p.payload < pbuf_size
    → retreat p 20 ≡ some (record p { payload = p.payload - 20 })
unfolding retreat
retreat-room p a b =
    let e : leb 20 p.payload ≡ true = ground arith in
    let f : ltb (p.payload - 20) pbuf_size ≡ true = ground arith in rw (e, f) refl

pub send-own :
    (s : Net) (q : Pbuf) (dst proto ttl : ℕ)
    → dst ≡ get_if_ip s.arp 0
    → send s dst proto ttl (some q)
      ≡ looped (with_header q ttl proto (get_if_ip s.arp (route s dst)) dst)
unfolding send
send-own s q dst proto ttl own =
    let here : (dst == get_if_ip s.arp 0) ≡ true = rw own (==-refl (get_if_ip s.arp 0)) in
    let e : is_own s dst ≡ true = ground (arith, here) in rw e refl

-- A packet of at most 65515 bytes with room for a header, sent to the machine's own first address, comes in
-- again at once and passes every check. The protocol gets it with the bytes and the length that it was sent
-- with, and the address of the interface that the route has as the source.
pub ip4_output-ip4_input :
    (s : Net) (p : Pbuf) (dst proto ttl : ℕ)
    → IsBelow 256 p.buffer
    → 20 ≤ p.payload
    → p.payload < pbuf_size
    → p.len ≤ 65515
    → ttl < 256
    → proto < 256
    → dst ≡ get_if_ip s.arp 0
    → dst ≢ 0
    → dst < 2 ^ 32
    → get_if_ip s.arp (route s dst) < 2 ^ 32
    → let (s', out) = ip4_output_ttl s p dst proto ttl in
      (q : Pbuf) × (out ≡ looped q)
      × ((rest : Pbuf) × ((ip4_input s' q).1
            ≡ handed proto (get_if_ip s.arp (route s dst)) ttl dst rest)
          × (rest.payload ≡ p.payload)
          × (rest.len ≡ p.len)
          × ((a : ℕ) → p.payload ≤ a → rest.buffer a ≡ p.buffer a))
unfolding ip4_output_ttl
ip4_output-ip4_input s p dst proto ttl bytes room inside l a b own nz d c =
    let src = get_if_ip s.arp (route s dst) in
    let q0 = record p { payload = p.payload - 20 } in
    let s' = record s { tx_count = u32 (s.tx_count + 1) } in
    let off = retreat-room p room inside in
    let (rest, f, g, h, k) = sent-handed q0 ttl proto src dst l (omega arith) c d in
    (
      with_header q0 ttl proto src dst,
      ap (send s dst proto ttl) off ∙ send-own s q0 dst proto ttl own,
      (
        rest,
        ip4_input-IsLocal {s = s'} (sent-IsLocal q0 ttl proto src dst {s = s'} bytes l a b own d)
              (λ z. nz (own ∙ z))
            ∙ f,
        g ∙ omega arith,
        h,
        λ x le. k x (omega arith),
      ),
    )
