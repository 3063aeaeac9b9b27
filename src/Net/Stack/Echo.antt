-- ===== src/Net/Stack/Echo.antt =====
-- A datagram between two echo ports of the machine itself.
use aj.Common.{
  ℕ, zero, suc, ◌+◌, ◌^◌, ◌≤◌, ◌<◌, ◌≡◌, ◌≢◌, refl, ap, sym, ◌∙◌, inl, inr, true, false, none, some,
  ltb, Bool, Bool-cases, u32, arith,
}
use aj.Arp.{Arp, get_if_ip}
use aj.Net.Pbuf.{Pbuf, field_16, pbuf_size}
use aj.Net.Ip4.{
  Net, to_udp, ip4_input, is_well_formed, header_length, policy_filter, after_filter, route,
}
use aj.Net.Ip4.Loopback.{IsLocal}
use aj.Net.Icmp.{Icmp}
use aj.Net.Udp.{udp_output, udp_input, echo_to, udp_header_size}
use aj.Net.Udp.Loopback.{Carries, packet, packet-Carries, packet-IsLocal, counted, udp_output-own}
use aj.Net.Udp.Arrival.{datagram, data_of, arrives, datagram_ports, datagram_len, datagram-data}
use aj.Net.Stack.{after_udp, protocol, turn, turns_from, turns}

-- The machine's first address, which it reaches from itself.
pub record IsHome (s : Net) : Type 0 where
  pub set : get_if_ip s.arp 0 ≢ 0
  pub word : get_if_ip s.arp 0 < 2 ^ 32
  pub direct : route s (get_if_ip s.arp 0) ≡ 0

-- A packet from the own address to itself, with a datagram from port 7 to port 7.
pub record IsEcho (s : Net) (q : Pbuf) : Type 0 where
  pub home : IsHome s
  pub local : IsLocal s q
  pub data_part : Pbuf
  pub carries : Carries q data_part (get_if_ip s.arp 0) 7 7
  pub inside : data_part.payload < pbuf_size
  pub small : data_part.len ≤ 65507

-- What `ip4_input` leaves as it was.
pub record Keeps (s s' : Net) : Type 0 where
  pub arp : s'.arp ≡ s.arp
  pub if_nm : s'.if_nm ≡ s.if_nm

after_filter-Keeps : (r : Net × Bool) (q : Pbuf) (hl : ℕ) → Keeps r.0 (after_filter r q hl).0
unfolding after_filter
after_filter-Keeps (s, true) q hl = record { arp = refl; if_nm = refl }
after_filter-Keeps (s, false) q hl = record { arp = refl; if_nm = refl }

ip4_input-Keeps : (s : Net) (q : Pbuf) → Keeps s (ip4_input s q).0
unfolding ip4_input policy_filter
ip4_input-Keeps s q = elim (Bool-cases (is_well_formed q)) [
  | inl e ↦
      let k =
        after_filter-Keeps
          (policy_filter (record s { rx_count = u32 (s.rx_count + 1) }) q (header_length q)) q
          (header_length q) in
      rw e (record { arp = k.arp; if_nm = k.if_nm })
  | inr e ↦ rw e (record { arp = refl; if_nm = refl })
]

IsHome-Keeps : {s s' : Net} → Keeps s s' → IsHome s → IsHome s'
unfolding route
IsHome-Keeps {s} {s'} k h = record {
  set = rw k.arp h.set;
  word = rw k.arp h.word;
  direct = rw (k.arp, k.if_nm) h.direct;
}

-- The call that answers a datagram with an echo.
udp_input-echoed :
    (s : Net) (d rest : Pbuf) (src dst src_port : ℕ)
    → 8 ≤ d.len
    → field_16 d 0 ≡ src_port
    → field_16 d 2 ≡ 7
    → data_of d ≡ rest
    → udp_input s d src dst ≡ echo_to (udp_output s rest src 7 src_port)
unfolding udp_input
udp_input-echoed s d rest src dst src_port l a b c =
    let e : ltb d.len udp_header_size ≡ false = ground arith in rw (a, b, c, e) refl

-- An echo makes the next one.
turn-IsEcho :
    (t : Icmp) (s : Net) (q : Pbuf)
    → IsEcho s q
    → (u : Icmp × Net) × (q' : Pbuf) × (turn (t, s) q ≡ (u, some q')) × IsEcho u.1 q'
unfolding turn protocol echo_to after_udp
turn-IsEcho t s q h =
    let s1 = (ip4_input s q).0 in
    let k = ip4_input-Keeps s q in
    let home = IsHome-Keeps {s = s} {s' = s1} k h.home in
    let own = get_if_ip s1.arp 0 in
    let same : get_if_ip s.arp 0 ≡ own = ap (λ (a : Arp). get_if_ip a 0) (sym k.arp) in
    let rest = record h.data_part { buffer = q.buffer; tot_len = q.tot_len } in
    let q' = packet rest 7 7 own own in
    let room : 28 ≤ rest.payload = omega (arith, h.carries.before) in
    let ports = datagram_ports h.local h.carries h.inside h.small in
    let source : get_if_ip s1.arp (route s1 own) ≡ own = ap (get_if_ip s1.arp) home.direct in
    (
      (t, counted s1),
      q',
      ap (λ f. protocol t (s1, f))
            (arrives h.local h.carries h.inside h.small h.home.set
              ∙ ap (λ a. to_udp a a (datagram q)) same)
          ∙ ap (after_udp t) (
              udp_input-echoed s1 (datagram q) rest own own 7
                (omega (arith, datagram_len h.local h.carries h.inside h.small)) ports.0 ports.1
                (datagram-data h.local h.carries h.inside h.small)
              ∙ ap echo_to (udp_output-own s1 rest own 7 7 room h.inside refl))
          ∙ ap (λ a. ((t, counted s1), some (packet rest 7 7 a own))) source,
      record {
        home = IsHome-Keeps {s = s1} {s' = counted s1} (record { arp = refl; if_nm = refl }) home;
        local =
            packet-IsLocal rest 7 7 own own room h.small {s = counted s1} h.carries.bytes refl
              home.word;
        data_part = rest;
        carries =
            packet-Carries rest 7 7 own own room h.small h.carries.bytes home.word (omega arith)
              (omega arith);
        inside = h.inside;
        small = h.small;
      },
    )

-- A packet that carries a datagram from port 7 of the machine's own address to port 7 of that address is
-- accepted and answered by itself: for every n, n calls of `ip4_input` inside each other do not end. The state
-- has an address for the first interface, and the route to it is through that interface.
pub turns-IsEcho : (n : ℕ) (t : Icmp) (s : Net) (q : Pbuf) → IsEcho s q → turns n (t, s) q ≢ none
unfolding turns turns_from
turns-IsEcho zero t s q h = λ e. absurd (cc e)
turns-IsEcho (suc n) t s q h =
    let ((t', s'), q', e, h') = turn-IsEcho t s q h in
    let deeper = turns-IsEcho n t' s' q' h' in rw e deeper
