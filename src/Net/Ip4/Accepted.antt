-- ===== src/Net/Ip4/Accepted.antt =====
-- The packets that src/ip4.c hands to a protocol.
use aj.Common.{
  ℕ, ◌+◌, ◌-◌, ◌/◌, ◌^◌, ◌≤◌, ◌≡◌, ◌⊎◌, refl, ap, sym, subst, ◌∙◌, inl, inr, true, false, Option,
  none, some, ◌==◌, ==→eq, ==-refl, ltb, if◌then◌else◌, Bool, Bool-cases, u32, Memory, IsBelow,
  arith,
}
use aj.Arp.{get_if_ip}
use aj.Auth.{is_authenticated}
use aj.Net.Pbuf.{Pbuf, byte, field_16, field_32, shorten, advance, or_stay}
use aj.Net.Checksum.{net_checksum}
use aj.Net.Checksum.Standard.{ones_sum, network_sum, swap, net_checksum-standard}
use aj.Net.Ip4.{
  Net, Fate, freed, to_icmp, to_udp, to_tcp, header_length, is_well_formed, policy_filter,
  after_filter, trim, is_for_us, accept, deliver, ip4_input, proto_icmp, proto_udp, proto_tcp,
  ip_broadcast, ip_loopback,
}
use aj.Net.Ip4.Filter.{Bootstrap, is_bootstrap-Bootstrap}

-- The packet that a protocol is handed.
abbrev pub given : Fate → Option Pbuf
given freed = none
given (to_icmp src ttl p) = some p
given (to_udp src dst p) = some p
given (to_tcp src dst p) = some p

-- The packet with the length that its header says, and without padding.
abbrev pub cut : Pbuf → Pbuf
cut q = record q {
  len = field_16 q 2;
  tot_len = if field_16 q 2 == q.len then q.tot_len else field_16 q 2;
}

-- The protocol by the number in the header, with what it is told of the packet besides the rest.
abbrev pub Handed : Pbuf → Pbuf → Fate → Type 0
Handed q rest f =
    ((byte q 9 ≡ proto_icmp) × (f ≡ to_icmp (field_32 q 12) (byte q 8) rest))
    ⊎ (((byte q 9 ≡ proto_udp) × (f ≡ to_udp (field_32 q 12) (field_32 q 16) rest))
        ⊎ ((byte q 9 ≡ proto_tcp) × (f ≡ to_tcp (field_32 q 12) (field_32 q 16) rest)))

-- The destinations of this machine, once it has an address, and before that.
abbrev pub ForUs : Net → Pbuf → Type 0
ForUs s q =
    (field_32 q 16 ≡ get_if_ip s.arp 0)
    ⊎ ((field_32 q 16 ≡ get_if_ip s.arp 1)
        ⊎ ((field_32 q 16 ≡ ip_broadcast)
            ⊎ ((field_32 q 16 ≡ ip_loopback)
                ⊎ ((get_if_ip s.arp 0 ≡ 0)
                    × (get_if_ip s.arp 1 ≡ 0)
                    × (((byte q 9 ≡ proto_udp) × (field_16 q (header_length q + 2) ≡ 68))
                        ⊎ ((field_32 q 16 ≡ 0) ⊎ (field_32 q 16 ≡ s.dhcp_offered_ip)))))))

-- What holds of a packet of which a protocol is handed `rest`.
pub record Accepted (s : Net) (q rest : Pbuf) : Type 0 where
  pub version : byte q 0 / 16 ≡ 4
  pub whole_header : (20 ≤ q.len) × (header_length q ≤ q.len)
  pub checksum : ones_sum (network_sum q.buffer q.payload (header_length q)) ≡ 65535
  pub allowed :
      ((is_authenticated s.tick s.sessions (field_32 q 12)).1 ≡ true)
      ⊎ ((field_32 q 16 ≡ get_if_ip s.arp 0) ⊎ Bootstrap q (header_length q))
  pub for_us : ForUs s q
  pub complete : field_16 q 2 ≤ q.len
  pub handed : Handed q rest (ip4_input s q).1
  pub rest_len : rest.len ≡ u32 (field_16 q 2 + 2 ^ 32 - header_length q)
  pub same : rest.buffer ≡ q.buffer

given-deliver :
    (q rest : Pbuf) (hl : ℕ)
    → given (deliver q hl) ≡ some rest
    → Handed q rest (deliver q hl) × (shorten (or_stay q (advance q hl)) hl ≡ rest)
unfolding deliver
given-deliver q rest hl e = elim (Bool-cases (byte q 9 == proto_icmp)) [
  | inl a ↦
      let z : shorten (or_stay q (advance q hl)) hl ≡ rest = cc (rw a at e) in
      (inl (ground arith, rw (a, z) refl), z)
  | inr a ↦ elim (Bool-cases (byte q 9 == proto_udp)) [
    | inl b ↦
        let z : shorten (or_stay q (advance q hl)) hl ≡ rest = cc (rw (a, b) at e) in
        (inr (inl (ground arith, rw (a, b, z) refl)), z)
    | inr b ↦ elim (Bool-cases (byte q 9 == proto_tcp)) [
      | inl c ↦
          let z : shorten (or_stay q (advance q hl)) hl ≡ rest = cc (rw (a, b, c) at e) in
          (inr (inr (ground arith, rw (a, b, c, z) refl)), z)
      | inr c ↦ absurd (cc (rw (a, b, c) at e))
    ]
  ]
]

advance-keeps :
    (q : Pbuf) (hl : ℕ)
    → ((or_stay q (advance q hl)).len ≡ q.len) × ((or_stay q (advance q hl)).buffer ≡ q.buffer)
unfolding advance
advance-keeps q hl = elim (Bool-cases (ltb (q.payload + hl) 2048)) [
  | inl a ↦ rw a (refl, refl)
  | inr a ↦ rw a (refl, refl)
]

trim-cut : (q p : Pbuf) → trim q ≡ some p → (p ≡ cut q) × (field_16 q 2 ≤ q.len)
unfolding trim
trim-cut q p e = elim (Bool-cases (ltb (field_16 q 2) q.len)) [
  | inl a ↦
      let n : (field_16 q 2 == q.len) ≡ false = ground (arith, a) in
      (rw n (sym (cc (rw a at e))), ground (arith, a))
  | inr a ↦ elim (Bool-cases (ltb q.len (field_16 q 2))) [
    | inl b ↦ absurd (cc (rw (a, b) at e))
    | inr b ↦
        let same : field_16 q 2 ≡ q.len = ground (arith, a, b) in
        let n : (field_16 q 2 == q.len) ≡ true = rw same (==-refl q.len) in
        let k : q ≡ p = cc (rw (a, b) at e) in
        (rw n (sym k ∙ ap (λ (v : ℕ). record q { len = v }) (sym same)), omega (arith, same))
  ]
]

-- The packet behind the filter.
accept-given :
    (s : Net) (o : Option Pbuf) (rest : Pbuf) (hl : ℕ)
    → given (accept s o hl) ≡ some rest
    → (p : Pbuf) × (o ≡ some p)
      × (is_for_us s p hl ≡ true)
      × (given (deliver p hl) ≡ some rest)
      × (accept s o hl ≡ deliver p hl)
unfolding accept
accept-given s none rest hl e = absurd (cc e)
accept-given s (some p) rest hl e = elim (Bool-cases (is_for_us s p hl)) [
  | inl a ↦ (p, refl, a, rw a at e, rw a refl)
  | inr a ↦ absurd (cc (rw a at e))
]

after_filter-given :
    (r : Net × Bool) (q rest : Pbuf) (hl : ℕ)
    → given (after_filter r q hl).1 ≡ some rest
    → (r.1 ≡ true)
      × (given (accept r.0 (trim q) hl) ≡ some rest)
      × ((after_filter r q hl).1 ≡ accept r.0 (trim q) hl)
unfolding after_filter
after_filter-given (s, true) q rest hl e = (refl, e, refl)
after_filter-given (s, false) q rest hl e = absurd (cc e)

ip4_input-given :
    (s : Net) (q rest : Pbuf)
    → given (ip4_input s q).1 ≡ some rest
    → let hl = header_length q in
      let r = policy_filter (record s { rx_count = u32 (s.rx_count + 1) }) q hl in
      (is_well_formed q ≡ true)
      × (given (after_filter r q hl).1 ≡ some rest)
      × ((ip4_input s q).1 ≡ (after_filter r q hl).1)
unfolding ip4_input
ip4_input-given s q rest e = elim (Bool-cases (is_well_formed q)) [
  | inl a ↦ (a, rw a at e, rw a refl)
  | inr a ↦ absurd (cc (rw a at e))
]

-- A header that is well-formed, by its parts.
well_formed-parts :
    (q : Pbuf)
    → is_well_formed q ≡ true
    → (byte q 0 / 16 ≡ 4)
      × ((20 ≤ q.len) × (header_length q ≤ q.len))
      × (net_checksum q.buffer q.payload (header_length q) ≡ 0)
unfolding is_well_formed
well_formed-parts q e =
    (ground (arith, e), (ground (arith, e), ground (arith, e)), ground (arith, e))

-- A checksum of 0 is a sum of the words, the checksum's own among them, with all bits set.
zero-checksum :
    (m : Memory) (start len : ℕ)
    → IsBelow 256 m
    → len ≤ 2 ^ 16
    → net_checksum m start len ≡ 0
    → ones_sum (network_sum m start len) ≡ 65535
zero-checksum m start len bytes l e =
    let st = net_checksum-standard m start len bytes l in
    let z : swap (net_checksum m start len) ≡ 0 = rw e refl in ground (arith, st, z)

is_for_us-ForUs : (s : Net) (q : Pbuf) → is_for_us s q (header_length q) ≡ true → ForUs s q
unfolding is_for_us
is_for_us-ForUs s q e = elim (Bool-cases (field_32 q 16 == get_if_ip s.arp 0)) [
  | inl a ↦ inl (==→eq _ _ a)
  | inr a ↦ elim (Bool-cases (field_32 q 16 == get_if_ip s.arp 1)) [
    | inl b ↦ inr (inl (==→eq _ _ b))
    | inr b ↦ elim (Bool-cases (field_32 q 16 == ip_broadcast)) [
      | inl c ↦ inr (inr (inl (==→eq _ _ c)))
      | inr c ↦ elim (Bool-cases (field_32 q 16 == ip_loopback)) [
        | inl d ↦ inr (inr (inr (inl (==→eq _ _ d))))
        | inr d ↦ inr (inr (inr (inr (unset a b c d))))
      ]
    ]
  ]
]
  where
    unset :
        (field_32 q 16 == get_if_ip s.arp 0) ≡ false
        → (field_32 q 16 == get_if_ip s.arp 1) ≡ false
        → (field_32 q 16 == ip_broadcast) ≡ false
        → (field_32 q 16 == ip_loopback) ≡ false
        → (get_if_ip s.arp 0 ≡ 0)
          × (get_if_ip s.arp 1 ≡ 0)
          × (((byte q 9 ≡ proto_udp) × (field_16 q (header_length q + 2) ≡ 68))
              ⊎ ((field_32 q 16 ≡ 0) ⊎ (field_32 q 16 ≡ s.dhcp_offered_ip)))
    unset a b c d =
        let x : get_if_ip s.arp 0 ≡ 0 = ground (arith, a, b, c, d, e) in
        let y : get_if_ip s.arp 1 ≡ 0 = ground (arith, a, b, c, d, e) in
        (
          x,
          y,
          elim (Bool-cases (field_32 q 16 == 0)) [
            | inl z ↦ inr (inl (==→eq _ _ z))
            | inr z ↦ elim (Bool-cases (field_32 q 16 == s.dhcp_offered_ip)) [
              | inl w ↦ inr (inr (==→eq _ _ w))
              | inr w ↦ inl (
                ground (arith, a, b, c, d, e, x, y, z, w),
                ground (arith, a, b, c, d, e, x, y, z, w),
              )
            ]
          ],
        )

policy_filter-passes :
    (s : Net) (q : Pbuf) (hl : ℕ)
    → (policy_filter s q hl).1 ≡ true
    → ((is_authenticated s.tick s.sessions (field_32 q 12)).1 ≡ true)
      ⊎ ((field_32 q 16 ≡ get_if_ip s.arp 0) ⊎ Bootstrap q hl)
unfolding policy_filter
policy_filter-passes s q hl e =
    elim (Bool-cases ((is_authenticated s.tick s.sessions (field_32 q 12)).1)) [
      | inl a ↦ inl a
      | inr a ↦ elim (Bool-cases (field_32 q 16 == get_if_ip s.arp 0)) [
        | inl b ↦ inr (inl (==→eq _ _ b))
        | inr b ↦ inr (inr (is_bootstrap-Bootstrap q hl (rw (a, b) at e)))
      ]
    ]

-- A packet of bytes that is handed to ICMP, UDP or TCP has passed every check: its header is whole, of
-- version 4, and the standard sum of its words in ones' complement is 65535; its source has a session that has not expired, or it
-- is for the first interface or one of the services that anyone may reach; its destination is an address of
-- this machine, the broadcast address or the loopback address, or, before the machine has an address, it is
-- for the DHCP client; and the bytes that it says to have are there. The protocol is the one of its number,
-- and is told the source, with the time to live or the destination. Its bytes are unchanged. The length that
-- the protocol is told is that of the packet less the header's modulo 2 ^ 32, so it wraps round where the
-- packet says to be shorter than its own header.
pub ip4_input-Accepted :
    (s : Net) (q rest : Pbuf)
    → IsBelow 256 q.buffer
    → given (ip4_input s q).1 ≡ some rest
    → Accepted s q rest
unfolding policy_filter is_for_us
ip4_input-Accepted s q rest bytes e =
    let hl = header_length q in
    let s' = record s { rx_count = u32 (s.rx_count + 1) } in
    let (w, f, f') = ip4_input-given s q rest e in
    let (a, g, g') = after_filter-given (policy_filter s' q hl) q rest hl f in
    let (p, t, us, d, d') = accept-given (policy_filter s' q hl).0 (trim q) rest hl g in
    let (k, c) = trim-cut q p t in
    let (known, r) = given-deliver p rest hl d in
    let l : (or_stay p (advance p hl)).len ≡ field_16 q 2 =
      (advance-keeps p hl).0 ∙ ap (λ (x : Pbuf). x.len) k in
    let b : (or_stay p (advance p hl)).buffer ≡ q.buffer =
      (advance-keeps p hl).1 ∙ ap (λ (x : Pbuf). x.buffer) k in
    let ours : is_for_us s (cut q) hl ≡ true = ap (λ (x : Pbuf). is_for_us s x hl) (sym k) ∙ us in
    let parts = well_formed-parts q w in
    record {
      version = parts.0;
      whole_header = parts.1;
      checksum = zero-checksum q.buffer q.payload hl bytes (omega arith) parts.2;
      allowed = policy_filter-passes s' q hl a;
      for_us = is_for_us-ForUs s (cut q) ours;
      complete = c;
      handed =
          subst (Handed q rest) (sym (f' ∙ g' ∙ d'))
            (subst (λ (x : Pbuf). Handed x rest (deliver p hl)) k known);
      rest_len = sym (ap (λ (x : Pbuf). x.len) r) ∙ ap (λ (v : ℕ). u32 (v + 2 ^ 32 - hl)) l;
      same = sym (ap (λ (x : Pbuf). x.buffer) r) ∙ b;
    }
