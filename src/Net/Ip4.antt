-- ===== src/Net/Ip4.antt =====
-- IPv4, src/ip4.c: the firewall, the checks of a packet that comes in, and the header and the route of one that
-- goes out. A packet that is handed on is a value that says to whom.
use aj.Common.{
  ℕ, ◌+◌, ◌-◌, ◌*◌, ◌/◌, ◌%◌, ◌^◌, bit_and, Bool, true, false, not, ◌&&◌, ◌||◌, Option, none, some,
  List, [], ◌∷◌, ◌++◌, ◌==◌, ltb, leb, if◌then◌else◌, get_or, u16, u32,
}
use aj.Arp.{Arp, Mac, get_if_ip, get_mac_for_ip}
use aj.Auth.{Session, is_authenticated}
use aj.Net.Pbuf.{
  Pbuf, advance, retreat, or_stay, shorten, byte, field_16, field_32, bytes_16, bytes_32, write,
}
use aj.Net.Checksum.{net_checksum}
pub mod Header
pub mod Loopback
pub mod Filter
pub mod Accepted

abbrev pub proto_icmp : ℕ
proto_icmp = 1

abbrev pub proto_tcp : ℕ
proto_tcp = 6

abbrev pub proto_udp : ℕ
proto_udp = 17

abbrev pub ip_loopback : ℕ
ip_loopback = 0x7f00_0001

abbrev pub ip_broadcast : ℕ
ip_broadcast = 0xffff_ffff

-- The statics of src/ip4.c, with what it reads of the ARP cache, the sessions, the DHCP client and the timer.
pub record Net : Type 0 where
  pub rx_count : ℕ
  pub tx_count : ℕ
  pub policy_drop_count : ℕ
  pub netmask : ℕ
  pub gateway : ℕ
  pub if_nm : ℕ × ℕ
  pub if_gw : ℕ × ℕ
  pub arp : Arp
  pub sessions : List Session
  pub dhcp_offered_ip : ℕ
  pub tick : ℕ

-- `ip4_init`
pub ip4_init : Net → Net
ip4_init s = record s { netmask = 0xffff_ff00; gateway = 0x0a00_0202 }

-- The entry of a pair for interface 0 or 1, and 0 for any other.
abbrev pub of_if : ℕ × ℕ → ℕ → ℕ
of_if (a, b) iface = if iface == 0 then a else if iface == 1 then b else 0

abbrev pub set_of_if : ℕ × ℕ → ℕ → ℕ → ℕ × ℕ
set_of_if (a, b) iface v = if iface == 0 then (v, b) else if iface == 1 then (a, v) else (a, b)

-- `ip4_set_netmask_ip` and `ip4_set_gateway_ip`, for an interface that is not negative.
pub ip4_set_netmask_ip : Net → ℕ → ℕ → Net
ip4_set_netmask_ip s iface mask = record s {
  netmask = if iface == 0 then mask else s.netmask;
  if_nm = set_of_if s.if_nm iface mask;
}

pub ip4_set_gateway_ip : Net → ℕ → ℕ → Net
ip4_set_gateway_ip s iface gw = record s {
  gateway = if iface == 0 then gw else s.gateway;
  if_gw = set_of_if s.if_gw iface gw;
}

-- `v_hl`, whose low half is the header's length in words.
abbrev pub header_length : Pbuf → ℕ
header_length p = byte p 0 % 16 * 4

-- The services that anyone may reach.
abbrev pub is_bootstrap : Pbuf → ℕ → Bool
is_bootstrap p hl =
    let dport = field_16 p (hl + 2) in
    if byte p 9 == proto_udp
    then not (ltb p.len (hl + 8)) && (dport == 67 || dport == 68 || dport == 53)
    else if byte p 9 == proto_tcp
    then not (ltb p.len (hl + 20)) && (dport == 80 || dport == 22)
    else false

-- `ip4_policy_filter`: the look at the sessions also refreshes or ends one.
unfoldable pub policy_filter : Net → Pbuf → ℕ → Net × Bool
policy_filter s p hl =
    let (sessions, known) = is_authenticated s.tick s.sessions (field_32 p 12) in
    (
      record s { sessions = sessions },
      known || field_32 p 16 == get_if_ip s.arp 0 || is_bootstrap p hl,
    )

-- What becomes of a packet: it is freed, or goes to a protocol with its source, and its time to live or its
-- destination.
pub data Fate : Type 0 where
  freed : Fate
  to_icmp : ℕ → ℕ → Pbuf → Fate
  to_udp to_tcp : ℕ → ℕ → Pbuf → Fate

-- A packet for us, by its destination.
unfoldable pub is_for_us : Net → Pbuf → ℕ → Bool
is_for_us s p hl =
    let dst = field_32 p 16 in
    let ip0 = get_if_ip s.arp 0 in
    let ip1 = get_if_ip s.arp 1 in
    if not (ip0 == 0) || not (ip1 == 0)
    then dst == ip0 || dst == ip1 || dst == ip_broadcast || dst == ip_loopback
    else (byte p 9 == proto_udp && leb (hl + 8) p.len && field_16 p (hl + 2) == 68)
      || (dst == ip_broadcast
          || dst == ip_loopback
          || dst == 0
          || (not (s.dhcp_offered_ip == 0) && dst == s.dhcp_offered_ip))

-- The header comes off, `pbuf_header(p, hl)` and `p->len -= hl`, and the protocol gets the rest.
unfoldable pub deliver : Pbuf → ℕ → Fate
deliver p hl =
    let rest = shorten (or_stay p (advance p hl)) hl in
    if byte p 9 == proto_icmp
    then to_icmp (field_32 p 12) (byte p 8) rest
    else if byte p 9 == proto_udp
    then to_udp (field_32 p 12) (field_32 p 16) rest
    else if byte p 9 == proto_tcp
    then to_tcp (field_32 p 12) (field_32 p 16) rest
    else freed

-- The padding comes off, and a packet that is shorter than it says is dropped.
unfoldable pub trim : Pbuf → Option Pbuf
trim p =
    let ip_len = field_16 p 2 in
    if ltb ip_len p.len
    then some (record p { len = ip_len; tot_len = ip_len })
    else if ltb p.len ip_len
    then none
    else some p

unfoldable pub accept : Net → Option Pbuf → ℕ → Fate
unfolding is_for_us deliver
accept s none hl = freed
accept s (some p) hl = if is_for_us s p hl then deliver p hl else freed

unfoldable pub after_filter : Net × Bool → Pbuf → ℕ → Net × Fate
unfolding trim accept
after_filter (s, true) p hl = (s, accept s (trim p) hl)
after_filter (s, false) p hl =
    (record s { policy_drop_count = u32 (s.policy_drop_count + 1) }, freed)

-- The checks of the header by itself.
unfoldable pub is_well_formed : Pbuf → Bool
is_well_formed p =
    not (ltb p.len 20)
    && byte p 0 / 16 == 4
    && not (ltb p.len (header_length p))
    && net_checksum p.buffer p.payload (header_length p) == 0

unfoldable pub ip4_input : Net → Pbuf → Net × Fate
unfolding is_well_formed policy_filter after_filter
ip4_input s p =
    let s' = record s { rx_count = u32 (s.rx_count + 1) } in
    if is_well_formed p
    then after_filter (policy_filter s' p (header_length p)) p (header_length p)
    else (s', freed)

-- Whether an interface has an address, and `dst` is in its subnet.
abbrev pub on_subnet : Net → ℕ → ℕ → Bool
on_subnet s dst iface =
    not (get_if_ip s.arp iface == 0)
    && not (of_if s.if_nm iface == 0)
    && bit_and dst (of_if s.if_nm iface) == bit_and (get_if_ip s.arp iface) (of_if s.if_nm iface)

-- The interface for a destination; the second one is looked at first.
unfoldable pub route : Net → ℕ → ℕ
route s dst =
    if on_subnet s dst 1
    then 1
    else if on_subnet s dst 0
    then 0
    else if get_if_ip s.arp 0 == 0 && not (get_if_ip s.arp 1 == 0)
    then 1
    else 0

-- The 20 bytes of the header, for a packet of `len` bytes; the checksum has its low byte first.
abbrev pub header_bytes : ℕ → ℕ → ℕ → ℕ → ℕ → ℕ → List ℕ
header_bytes len ttl proto chksum src dst =
    (0x45 ∷ 0 ∷ [])
    ++ bytes_16 (u16 (u16 len + 20))
    ++ (0 ∷ 0 ∷ 0 ∷ 0 ∷ ttl ∷ proto ∷ chksum % 2 ^ 8 ∷ chksum / 2 ^ 8 ∷ [])
    ++ bytes_32 src
    ++ bytes_32 dst

unfoldable pub with_header : Pbuf → ℕ → ℕ → ℕ → ℕ → Pbuf
with_header p ttl proto src dst =
    let blank = write p (header_bytes p.len ttl proto 0 src dst) in
    let chksum = net_checksum blank.buffer p.payload 20 in
    record (write p (header_bytes p.len ttl proto chksum src dst)) { len = u32 (p.len + 20) }

-- The gateway, where the destination is outside the subnet.
unfoldable pub next_hop : Net → ℕ → ℕ → ℕ
next_hop s iface dst =
    let ip = get_if_ip s.arp iface in
    let nm = if of_if s.if_nm iface == 0 then s.netmask else of_if s.if_nm iface in
    let gw = if of_if s.if_gw iface == 0 then s.gateway else of_if s.if_gw iface in
    if not (ip == 0) && not (nm == 0) && not (gw == 0) && not (bit_and dst nm == bit_and ip nm)
    then gw
    else dst

-- What becomes of a packet that goes out: it is dropped as it has no room for the header; it comes back in;
-- it goes to a card for a hardware address; or it is dropped, and the address asked for.
pub data SentPacket : Type 0 where
  no_room : SentPacket
  looped : Pbuf → SentPacket
  broadcast : Pbuf → SentPacket
  to_card : ℕ → Mac → Pbuf → SentPacket
  asked : ℕ → SentPacket

abbrev pub is_own : Net → ℕ → Bool
is_own s dst = dst / 2 ^ 24 == 0x7f || dst == get_if_ip s.arp 0 || dst == get_if_ip s.arp 1

unfoldable pub to_hop : ℕ → Pbuf → ℕ → Option Mac → SentPacket
to_hop iface p hop none = asked hop
to_hop iface p hop (some mac) = to_card iface mac p

unfoldable pub send : Net → ℕ → ℕ → ℕ → Option Pbuf → SentPacket
unfolding with_header next_hop to_hop
send s dst proto ttl none = no_room
send s dst proto ttl (some p) =
    let iface = route s dst in
    let q = with_header p ttl proto (get_if_ip s.arp iface) dst in
    let hop = next_hop s iface dst in
    if is_own s dst
    then looped q
    else if dst == ip_broadcast
    then broadcast q
    else to_hop iface q hop (get_mac_for_ip s.arp hop)

unfoldable pub ip4_output_ttl : Net → Pbuf → ℕ → ℕ → ℕ → Net × SentPacket
unfolding route send
ip4_output_ttl s p dst proto ttl =
    (record s { tx_count = u32 (s.tx_count + 1) }, send s dst proto ttl (retreat p 20))

abbrev pub ip4_output : Net → Pbuf → ℕ → ℕ → Net × SentPacket
ip4_output s p dst proto = ip4_output_ttl s p dst proto 64
