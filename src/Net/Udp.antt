-- ===== src/Net/Udp.antt =====
-- UDP, src/udp.c: the service of a port, and the header of a datagram that goes out.
use aj.Common.{
  ℕ, ◌+◌, ◌-◌, ◌*◌, ◌/◌, ◌%◌, ◌^◌, Bool, true, false, Option, none, some, List, [], ◌∷◌, ◌++◌, ◌==◌,
  ltb, if◌then◌else◌, u16, u32,
}
use aj.Net.Pbuf.{Pbuf, advance, retreat, or_stay, shorten, field_16, bytes_16, write}
use aj.Net.Ip4.{Net, SentPacket, no_room, proto_udp, ip4_output}
pub mod Loopback
pub mod Arrival

abbrev pub udp_header_size : ℕ
udp_header_size = 8

-- `src_port`, `dst_port`, `len` and `chksum`, which stays 0.
abbrev pub udp_header_bytes : ℕ → ℕ → ℕ → List ℕ
udp_header_bytes src_port dst_port len =
    bytes_16 src_port
    ++ bytes_16 dst_port
    ++ bytes_16 (u16 (u16 len + udp_header_size))
    ++ (0 ∷ 0 ∷ [])

unfoldable pub with_udp_header : Pbuf → ℕ → ℕ → Pbuf
with_udp_header p src_port dst_port = record (write p (udp_header_bytes src_port dst_port p.len)) {
  len = u32 (p.len + udp_header_size);
}

-- A packet without room for the header is freed.
unfoldable pub output_at : Net → Option Pbuf → ℕ → ℕ → ℕ → Net × SentPacket
unfolding with_udp_header
output_at s none dst src_port dst_port = (s, no_room)
output_at s (some p) dst src_port dst_port =
    ip4_output s (with_udp_header p src_port dst_port) dst proto_udp

unfoldable pub udp_output : Net → Pbuf → ℕ → ℕ → ℕ → Net × SentPacket
unfolding output_at
udp_output s p dst src_port dst_port = output_at s (retreat p udp_header_size) dst src_port dst_port

-- What becomes of a datagram: it is freed, is sent back, or goes to a service without its header, with what that
-- is told: the DHCP client, the DHCP server, the DNS server (with the two ports), the DNS client.
pub data Datagram : Type 0 where
  unserved : Datagram
  echoed : SentPacket → Datagram
  to_dhcp_client : ℕ → ℕ → Pbuf → Datagram
  to_dhcp_server : Pbuf → Datagram
  to_dns_server : ℕ → ℕ → ℕ → Pbuf → Datagram
  to_dns_client : Pbuf → Datagram

unfoldable pub echo_to : Net × SentPacket → Net × Datagram
echo_to (s, out) = (s, echoed out)

-- The header comes off, and the port tells the service.
unfoldable pub udp_input : Net → Pbuf → ℕ → ℕ → Net × Datagram
unfolding udp_output echo_to
udp_input s p src dst =
    let src_port = field_16 p 0 in
    let dst_port = field_16 p 2 in
    let rest = shorten (or_stay p (advance p udp_header_size)) udp_header_size in
    if ltb p.len udp_header_size
    then (s, unserved)
    else if dst_port == 7
    then echo_to (udp_output s rest src dst_port src_port)
    else if dst_port == 68
    then (s, to_dhcp_client src dst rest)
    else if dst_port == 67
    then (s, to_dhcp_server rest)
    else if dst_port == 53
    then (s, to_dns_server src src_port dst_port rest)
    else if src_port == 53
    then (s, to_dns_client rest)
    else (s, unserved)
