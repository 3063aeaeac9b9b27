-- ===== src/Net/Icmp.antt =====
-- ICMP, src/icmp.c: echo requests are answered, and what `ping` and `traceroute` wait for is kept.
use aj.Common.{
  ℕ, ◌+◌, ◌-◌, ◌*◌, ◌/◌, ◌%◌, ◌^◌, Bool, true, false, not, ◌&&◌, ◌||◌, Option, none, some, List, [],
  ◌∷◌, ◌==◌, ltb, leb, if◌then◌else◌, Memory, u32,
}
use aj.Net.Pbuf.{Pbuf, byte, field_16, store_list}
use aj.Net.Checksum.{net_checksum}
use aj.Net.Ip4.{Net, SentPacket, proto_icmp, ip4_output}
pub mod Reply

abbrev pub type_echo_reply : ℕ
type_echo_reply = 0

abbrev pub type_echo_request : ℕ
type_echo_request = 8

abbrev pub type_time_exceeded : ℕ
type_time_exceeded = 11

-- The variables of src/icmp.c.
pub record Icmp : Type 0 where
  pub last_reply_src : ℕ
  pub last_reply_id : ℕ
  pub last_reply_seq : ℕ
  pub last_reply_ttl : ℕ
  pub reply_count : ℕ
  pub last_exceeded_src : ℕ
  pub last_exceeded_tick : ℕ
  pub last_exceeded_id : ℕ
  pub last_exceeded_seq : ℕ

-- The request with the type of a reply, and no checksum.
unfoldable pub blank_reply : Pbuf → Memory
blank_reply p =
    store_list (store_list p.buffer p.payload (type_echo_reply ∷ [])) (p.payload + 2) (0 ∷ 0 ∷ [])

-- The reply, with the checksum over all of it.
unfoldable pub echo_reply : Pbuf → Pbuf
unfolding blank_reply
echo_reply p =
    let chksum = net_checksum (blank_reply p) p.payload p.len in
    record p {
      buffer = store_list (blank_reply p) (p.payload + 2) (chksum % 2 ^ 8 ∷ chksum / 2 ^ 8 ∷ []);
    }

-- The length of the header of the packet that a message about an exceeded time quotes.
abbrev pub quoted_header_length : Pbuf → ℕ
quoted_header_length p = byte p 8 % 16 * 4

-- Whether the message quotes an echo request in full.
unfoldable pub is_our_probe : Pbuf → Bool
is_our_probe p =
    leb 36 p.len
    && leb (8 + quoted_header_length p + 8) p.len
    && byte p (8 + quoted_header_length p) == type_echo_request

unfoldable pub with_exceeded : Icmp → ℕ → Pbuf → ℕ → Icmp
unfolding is_our_probe
with_exceeded t tick p src =
    if is_our_probe p
    then record t {
      last_exceeded_src = src;
      last_exceeded_tick = tick;
      last_exceeded_id = field_16 p (8 + quoted_header_length p + 4);
      last_exceeded_seq = field_16 p (8 + quoted_header_length p + 6);
    }
    else t

abbrev pub with_reply : Icmp → Pbuf → ℕ → ℕ → Icmp
with_reply t p src ttl = record t {
  last_reply_src = src;
  last_reply_id = field_16 p 4;
  last_reply_seq = field_16 p 6;
  last_reply_ttl = ttl;
  reply_count = u32 (t.reply_count + 1);
}

unfoldable pub reply_with : Icmp → Net × SentPacket → Icmp × Net × Option SentPacket
reply_with t (s, out) = (t, s, some out)

-- `icmp_input`; `none` where the packet is freed and nothing goes out.
unfoldable pub icmp_input : Icmp → Net → Pbuf → ℕ → ℕ → Icmp × Net × Option SentPacket
unfolding with_exceeded reply_with echo_reply
icmp_input t s p src ttl =
    if ltb p.len 8
    then (t, s, none)
    else if byte p 0 == type_echo_request
    then reply_with t (ip4_output s (echo_reply p) src proto_icmp)
    else if byte p 0 == type_echo_reply
    then (with_reply t p src ttl, s, none)
    else if byte p 0 == type_time_exceeded
    then (with_exceeded t s.tick p src, s, none)
    else (t, s, none)
