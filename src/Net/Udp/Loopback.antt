-- ===== src/Net/Udp/Loopback.antt =====
-- A datagram that src/udp.c sends to the machine's own address.
use aj.Common.{
  ℕ, ◌+◌, ◌-◌, ◌*◌, ◌/◌, ◌%◌, ◌^◌, ◌≤◌, ◌<◌, ◌≡◌, refl, ap, ◌∙◌, inr, true, some, ltb, leb, get_or,
  IsBelow, u32, arith,
}
use aj.Arp.{get_if_ip}
use aj.Net.Pbuf.{Pbuf, byte, field_16, field_32, retreat, pbuf_size}
use aj.Net.Checksum.Stored.{store_list-IsBelow, store_list-inside, store_list-outside}
use aj.Net.Ip4.{Net, with_header, proto_udp, looped, route, send, ip4_output_ttl}
use aj.Net.Ip4.Header.{with_header-IsBelow}
use aj.Net.Ip4.Loopback.{
  IsLocal, header_byte, sent_beyond, sent-IsLocal, field_32-bytes, send-own, retreat-room,
}
use aj.Net.Udp.{udp_header_bytes, with_udp_header, output_at, udp_output}

-- A packet `q` that carries a datagram between two ports from `src`, with the data of `p`.
pub record Carries (q p : Pbuf) (src src_port dst_port : ℕ) : Type 0 where
  pub bytes : IsBelow 256 q.buffer
  pub is_udp : byte q 9 ≡ proto_udp
  pub source : field_32 q 12 ≡ src
  pub from_port : field_16 q 20 ≡ src_port
  pub to_port : field_16 q 22 ≡ dst_port
  pub size : field_16 q 24 ≡ p.len + 8
  pub before : q.payload + 28 ≡ p.payload
  pub longer : q.len ≡ p.len + 28
  pub same : (a : ℕ) → p.payload ≤ a → q.buffer a ≡ p.buffer a

bytes_16-value : (v : ℕ) → v < 2 ^ 16 → v / 2 ^ 8 % 2 ^ 8 * 2 ^ 8 + v % 2 ^ 8 ≡ v
bytes_16-value v h = omega arith

-- A datagram with a header for UDP, and then one for IPv4.
module _ (p : Pbuf) (src_port dst_port : ℕ) where
  abbrev pub inner : Pbuf
  inner = with_udp_header (record p { payload = p.payload - 8 }) src_port dst_port

  abbrev pub packet : ℕ → ℕ → Pbuf
  packet src dst = with_header (record inner { payload = p.payload - 8 - 20 }) 64 proto_udp src dst

  module _ (src dst : ℕ) (room : 28 ≤ p.payload) (small : p.len ≤ 65507) where
    -- A byte of the datagram's header in the packet.
    inner_byte :
        (i : ℕ)
        → i < 8
        → byte (packet src dst) (20 + i) ≡ get_or (udp_header_bytes src_port dst_port p.len) i 0
    unfolding with_udp_header with_header
    inner_byte i l =
        let at_inner : p.payload - 8 - 20 + (20 + i) ≡ p.payload - 8 + i = omega arith in
        sent_beyond (record inner { payload = p.payload - 8 - 20 }) 64 proto_udp src dst
          (p.payload - 8 - 20 + (20 + i)) (omega arith)
        ∙ ap inner.buffer at_inner
        ∙ store_list-inside p.buffer (p.payload - 8) (udp_header_bytes src_port dst_port p.len) i l

    inner-IsBelow : IsBelow 256 p.buffer → IsBelow 256 inner.buffer
    unfolding with_udp_header
    inner-IsBelow bytes =
        store_list-IsBelow p.buffer (p.payload - 8) (udp_header_bytes src_port dst_port p.len) bytes
          (omega arith)

    pub packet-Carries :
        IsBelow 256 p.buffer
        → src < 2 ^ 32
        → src_port < 2 ^ 16
        → dst_port < 2 ^ 16
        → Carries (packet src dst) p src src_port dst_port
    unfolding with_udp_header with_header
    packet-Carries bytes a b c =
        let q = record inner { payload = p.payload - 8 - 20 } in
        let field = header_byte q 64 proto_udp src dst in
        record {
          bytes =
              with_header-IsBelow q 64 proto_udp src dst (inner-IsBelow bytes) (omega arith)
                (omega arith);
          is_udp = field 9 (omega arith);
          source = omega (
            arith,
            field_32-bytes src a,
            field 12 (omega arith),
            field 13 (omega arith),
            field 14 (omega arith),
            field 15 (omega arith),
          );
          from_port = omega (arith, inner_byte 0 (omega arith), inner_byte 1 (omega arith));
          to_port = omega (arith, inner_byte 2 (omega arith), inner_byte 3 (omega arith));
          size = omega (arith, inner_byte 4 (omega arith), inner_byte 5 (omega arith));
          before = omega arith;
          longer = omega arith;
          same = λ x le.
              sent_beyond q 64 proto_udp src dst x (omega arith)
              ∙ store_list-outside p.buffer (p.payload - 8)
                  (udp_header_bytes src_port dst_port p.len) x (inr (omega arith));
        }

    pub packet-IsLocal :
        {s : Net}
        → IsBelow 256 p.buffer
        → dst ≡ get_if_ip s.arp 0
        → dst < 2 ^ 32
        → IsLocal s (packet src dst)
    packet-IsLocal {s} bytes e d =
        let q = record inner { payload = p.payload - 8 - 20 } in
        let l : inner.len ≤ 65515 = unfold with_udp_header in omega arith in
        sent-IsLocal q 64 proto_udp src dst {s = s} (inner-IsBelow bytes) l (omega arith)
          (omega arith) e d

retreat-header :
    (p : Pbuf)
    → 8 ≤ p.payload
    → p.payload < pbuf_size
    → retreat p 8 ≡ some (record p { payload = p.payload - 8 })
unfolding retreat
retreat-header p a b =
    let e : leb 8 p.payload ≡ true = ground arith in
    let f : ltb (p.payload - 8) pbuf_size ≡ true = ground arith in rw (e, f) refl

abbrev pub counted : Net → Net
counted s = record s { tx_count = u32 (s.tx_count + 1) }

-- A datagram for the own address is a packet that comes in again.
pub udp_output-own :
    (s : Net) (p : Pbuf) (dst src_port dst_port : ℕ)
    → 28 ≤ p.payload
    → p.payload < pbuf_size
    → dst ≡ get_if_ip s.arp 0
    → udp_output s p dst src_port dst_port
      ≡ (counted s, looped (packet p src_port dst_port (get_if_ip s.arp (route s dst)) dst))
unfolding udp_output output_at ip4_output_ttl with_udp_header
udp_output-own s p dst src_port dst_port room inside own =
    let q = inner p src_port dst_port in
    let a = retreat-header p (omega arith) inside in
    let b = retreat-room q (omega arith) (omega arith) in
    let c = send-own s (record q { payload = p.payload - 8 - 20 }) dst proto_udp 64 own in
    ap (λ o. output_at s o dst src_port dst_port) a
    ∙ ap (λ o. (counted s, send s dst proto_udp 64 o)) b
    ∙ ap (λ o. (counted s, o)) c
