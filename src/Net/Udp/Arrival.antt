-- ===== src/Net/Udp/Arrival.antt =====
-- A datagram that comes in, and the one that the machine sent to itself.
use aj.Common.{
  ℕ, ◌+◌, ◌-◌, ◌^◌, ◌≤◌, ◌<◌, ◌≡◌, ◌≢◌, refl, ap, sym, ◌∙◌, true, false, some, ◌==◌, ltb,
  if◌then◌else◌, IsBelow, u32, arith,
}
use aj.Arp.{get_if_ip}
use aj.Net.Pbuf.{Pbuf, byte, field_16, advance, shorten, or_stay, pbuf_size}
use aj.Net.Ip4.{Net, to_udp, ip4_input, proto_udp, looped, route}
use aj.Net.Ip4.Loopback.{IsLocal, ip4_input-IsLocal, deliver-handed}
use aj.Net.Udp.{
  udp_header_size, udp_output, udp_input, Datagram, unserved, to_dhcp_client, to_dhcp_server,
  to_dns_server, to_dns_client,
}
use aj.Net.Udp.Loopback.{Carries, packet, packet-Carries, packet-IsLocal, counted, udp_output-own}

-- The datagram in a packet, and the data in a datagram.
abbrev pub datagram : Pbuf → Pbuf
datagram q = shorten (record q { payload = q.payload + 20 }) 20

abbrev pub data_of : Pbuf → Pbuf
data_of d = shorten (or_stay d (advance d udp_header_size)) udp_header_size

advance-header :
    (d : Pbuf)
    → d.payload + 8 < pbuf_size
    → advance d 8 ≡ some (record d { payload = d.payload + 8 })
unfolding advance
advance-header d h = let e : ltb (d.payload + 8) pbuf_size ≡ true = ground arith in rw e refl

-- A packet for us that carries a datagram.
module _ {s : Net} {q p : Pbuf} {src src_port dst_port : ℕ} (local : IsLocal s q)
    (carries : Carries q p src src_port dst_port) (inside : p.payload < pbuf_size)
    (small : p.len ≤ 65507) where
  pub arrives :
      get_if_ip s.arp 0 ≢ 0 → (ip4_input s q).1 ≡ to_udp src (get_if_ip s.arp 0) (datagram q)
  arrives nz =
      ip4_input-IsLocal local nz
      ∙ deliver-handed q proto_udp src (byte q 8) (get_if_ip s.arp 0) carries.is_udp refl
          carries.source local.destination (omega (arith, carries.before))

  byte-datagram : (i : ℕ) → byte (datagram q) i ≡ byte q (20 + i)
  byte-datagram i = ap q.buffer (omega arith)

  pub datagram_ports :
      (field_16 (datagram q) 0 ≡ src_port)
      × (field_16 (datagram q) 2 ≡ dst_port)
      × (field_16 (datagram q) 4 ≡ p.len + 8)
  datagram_ports = (
    omega (arith, byte-datagram 0, byte-datagram 1, carries.from_port),
    omega (arith, byte-datagram 2, byte-datagram 3, carries.to_port),
    omega (arith, byte-datagram 4, byte-datagram 5, carries.size),
  )

  pub datagram_len : (datagram q).len ≡ p.len + 8
  datagram_len = omega (arith, carries.longer)

  pub datagram-data : data_of (datagram q) ≡ record p { buffer = q.buffer; tot_len = q.tot_len }
  datagram-data =
      let a = advance-header (datagram q) (omega (arith, carries.before)) in
      let e : q.payload + 20 + 8 ≡ p.payload = omega (arith, carries.before) in
      let l : u32 (u32 (q.len + 2 ^ 32 - 20) + 2 ^ 32 - 8) ≡ p.len =
        omega (arith, carries.longer) in
      ap (λ o. shorten (or_stay (datagram q) o) udp_header_size) a
      ∙ ap (λ (v : ℕ). shorten (record q { payload = v; len = u32 (q.len + 2 ^ 32 - 20) }) 8) e
      ∙ ap (λ (v : ℕ). record p { buffer = q.buffer; tot_len = q.tot_len; len = v }) l

-- The service that a datagram goes to with its data, for a port that is not the echo's.
abbrev pub served : ℕ → ℕ → ℕ → ℕ → Pbuf → Datagram
served src_port dst_port src dst rest =
    if dst_port == 68
    then to_dhcp_client src dst rest
    else if dst_port == 67
    then to_dhcp_server rest
    else if dst_port == 53
    then to_dns_server src src_port dst_port rest
    else if src_port == 53
    then to_dns_client rest
    else unserved

udp_input-served :
    (s : Net) (d rest : Pbuf) (src dst src_port dst_port : ℕ)
    → 8 ≤ d.len
    → field_16 d 0 ≡ src_port
    → field_16 d 2 ≡ dst_port
    → data_of d ≡ rest
    → dst_port ≢ 7
    → udp_input s d src dst ≡ (s, served src_port dst_port src dst rest)
unfolding udp_input
udp_input-served s d rest src dst src_port dst_port l a b c n =
    let e : ltb d.len udp_header_size ≡ false = ground arith in
    let f : (dst_port == 7) ≡ false = ground arith in rw (a, b, c, e, f) (ground arith)

-- A datagram of at most 65507 bytes of data with room for the headers, sent to the machine's own first
-- address, which is not 0, and to a port that is not the echo service's, comes in again at once, is accepted,
-- and reaches the service of its port with the sender's address and port, and with the data as it was sent.
-- Ports and addresses are words of 16 and 32 bits.
pub udp_output-udp_input :
    (s : Net) (p : Pbuf) (dst src_port dst_port : ℕ)
    → IsBelow 256 p.buffer
    → 28 ≤ p.payload
    → p.payload < pbuf_size
    → p.len ≤ 65507
    → dst ≡ get_if_ip s.arp 0
    → dst ≢ 0
    → dst < 2 ^ 32
    → get_if_ip s.arp (route s dst) < 2 ^ 32
    → src_port < 2 ^ 16
    → dst_port < 2 ^ 16
    → dst_port ≢ 7
    → let (s', out) = udp_output s p dst src_port dst_port in
      let src = get_if_ip s.arp (route s dst) in
      (q : Pbuf) × (out ≡ looped q)
      × ((d : Pbuf) × ((ip4_input s' q).1 ≡ to_udp src dst d)
          × ((rest : Pbuf) × (udp_input (ip4_input s' q).0 d src dst
                ≡ ((ip4_input s' q).0, served src_port dst_port src dst rest))
              × (rest.payload ≡ p.payload)
              × (rest.len ≡ p.len)
              × ((a : ℕ) → p.payload ≤ a → rest.buffer a ≡ p.buffer a)))
udp_output-udp_input s p dst src_port dst_port bytes room inside small own nz d c b1 b2 n =
    let src = get_if_ip s.arp (route s dst) in
    let q = packet p src_port dst_port src dst in
    let local = packet-IsLocal p src_port dst_port src dst room small {s = counted s} bytes own d in
    let carries = packet-Carries p src_port dst_port src dst room small bytes c b1 b2 in
    let sent = udp_output-own s p dst src_port dst_port room inside own in
    let ports = datagram_ports local carries inside small in
    let rest = record p { buffer = q.buffer; tot_len = q.tot_len } in
    (
      q,
      ap (λ r. r.1) sent,
      (
        datagram q,
        ap (λ (t : Net). (ip4_input t q).1) (ap (λ r. r.0) sent)
            ∙ arrives local carries inside small (λ z. nz (own ∙ z))
            ∙ ap (λ t. to_udp src t (datagram q)) (sym own),
        (
          rest,
          udp_input-served (ip4_input (udp_output s p dst src_port dst_port).0 q).0 (datagram q)
              rest src dst src_port dst_port
              (omega (arith, datagram_len local carries inside small)) ports.0 ports.1
              (datagram-data local carries inside small) n,
          refl,
          refl,
          carries.same,
        ),
      ),
    )
