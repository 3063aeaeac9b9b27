-- ===== src/Dhcpd.antt =====
-- The DHCP server, src/dhcpd.c and include/dhcpd.h: the configuration, the leases, and the answer to a
-- packet. The card's own address is an argument. A field of a packet is its value in host order; the
-- options are bytes.
use aj.Common.{
  ℕ, zero, suc, ◌+◌, ◌-◌, ◌*◌, ◌/◌, ◌%◌, ◌^◌, bit_and, bit_or, Bool, true, false, not, ◌&&◌, ◌||◌,
  Option, none, some, List, [], ◌∷◌, ◌++◌, map, ◌==◌, ltb, leb, if◌then◌else◌, length, modify,
  get_or, take, find_index, same_bytes, u32, Memory,
}
pub mod Leases
pub mod Pool
pub mod Options
mod Tests

abbrev pub max_leases : ℕ
max_leases = 50

-- `struct dhcp_config`
pub record Config : Type 0 where
  pub server_ip : ℕ
  pub start_ip : ℕ
  pub end_ip : ℕ
  pub netmask : ℕ
  pub gateway : ℕ
  pub dns : ℕ
  pub lease_time : ℕ

-- `struct dhcp_lease`
pub record Lease : Type 0 where
  pub ip : ℕ
  pub mac : List ℕ
  pub expiry : ℕ
  pub in_use : Bool

pub record Dhcpd : Type 0 where
  pub config : Config
  pub leases : List Lease

-- `(my_ip & 0xFFFFFF00) | host`
abbrev pub in_net : ℕ → ℕ → ℕ
in_net my_ip host = bit_or (bit_and my_ip 0xffff_ff00) host

abbrev pub config_for : ℕ → Config
config_for my_ip = record {
  server_ip = my_ip;
  start_ip = in_net my_ip 50;
  end_ip = in_net my_ip 100;
  netmask = 0x00ff_ffff;
  gateway = my_ip;
  dns = my_ip;
  lease_time = 3600;
}

-- `dhcpd_init`, with the address of the card.
unfoldable pub dhcpd_init : ℕ → Dhcpd → Dhcpd
dhcpd_init card_ip s = record {
  config = config_for (if card_ip == 0 then 10 * 2 ^ 24 + 2 * 2 ^ 8 + 15 else card_ip);
  leases = map {A = Lease} (λ l. record l { in_use = false }) s.leases;
}

unfoldable pub dhcpd_reinit : ℕ → Dhcpd → Dhcpd
dhcpd_reinit my_ip s = if my_ip == 0 then s else record s {
  config = record s.config {
    server_ip = my_ip;
    start_ip = in_net my_ip 50;
    end_ip = in_net my_ip 100;
    gateway = my_ip;
    dns = my_ip;
  };
}

abbrev pub is_for : List ℕ → Lease → Bool
is_for mac l = l.in_use && same_bytes l.mac mac

-- `(start_ip & 0xFFFFFF00) | ((start_ip & 0xFF) + i)`
abbrev pub lease_ip : Config → ℕ → ℕ
lease_ip config i = bit_or (bit_and config.start_ip 0xffff_ff00) (bit_and config.start_ip 0xff + i)

-- The lease in slot `i` for a new client; a slot whose address is past the pool stays unused.
unfoldable pub new_lease : Config → List Lease → List ℕ → ℕ → List Lease × Option ℕ
new_lease config leases mac i =
    if ltb config.end_ip (lease_ip config i)
    then (modify leases i (λ l. record l { mac = mac; in_use = false }), none)
    else (
      modify leases i
          (λ _. record { ip = lease_ip config i; mac = mac; expiry = 0; in_use = true }),
      some i,
    )

unfoldable pub first_unused : Config → List Lease → List ℕ → Option ℕ → List Lease × Option ℕ
unfolding new_lease
first_unused config leases mac none = (leases, none)
first_unused config leases mac (some i) = new_lease config leases mac i

unfoldable pub lease_at : Config → List Lease → List ℕ → Option ℕ → List Lease × Option ℕ
unfolding first_unused
lease_at config leases mac (some i) = (leases, some i)
lease_at config leases mac none =
    first_unused config leases mac (find_index (λ l. not l.in_use) leases)

-- `dhcpd_find_lease`: the index of the client's lease.
unfoldable pub find_lease : Config → List Lease → List ℕ → List Lease × Option ℕ
unfolding lease_at
find_lease config leases mac = lease_at config leases mac (find_index (is_for mac) leases)

abbrev pub add_option : ℕ → List ℕ → List ℕ
add_option code bytes = code ∷ length bytes ∷ bytes

-- The four bytes of a word, the high one first.
abbrev pub add_u32_option : ℕ → ℕ → List ℕ
add_u32_option code val = add_option code (
    bit_and (val / 2 ^ 24) 0xff
    ∷ bit_and (val / 2 ^ 16) 0xff
    ∷ bit_and (val / 2 ^ 8) 0xff
    ∷ bit_and val 0xff
    ∷ [])

-- The options of a reply of a type.
unfoldable pub reply_options : Config → ℕ → ℕ → List ℕ
reply_options config current_ip type =
    add_option 53 (type ∷ [])
    ++ add_u32_option 54 current_ip
    ++ add_u32_option 51 config.lease_time
    ++ add_u32_option 1 config.netmask
    ++ add_u32_option 3 current_ip
    ++ add_u32_option 6 current_ip
    ++ (255 ∷ [])

-- The fields of `struct dhcp_packet` before the options, without the two names that are always zero.
pub record Packet : Type 0 where
  pub op : ℕ
  pub htype : ℕ
  pub hlen : ℕ
  pub hops : ℕ
  pub xid : ℕ
  pub secs : ℕ
  pub flags : ℕ
  pub ciaddr : ℕ
  pub yiaddr : ℕ
  pub siaddr : ℕ
  pub giaddr : ℕ
  pub chaddr : List ℕ
  pub cookie : ℕ

abbrev pub magic_cookie : ℕ
magic_cookie = 0x6382_5363

-- `offsetof(struct dhcp_packet, options)`, which is `sizeof(struct dhcp_packet) - 308`.
abbrev pub header_size : ℕ
header_size = 240

-- `dhcpd_send_reply`: the header, the options, and the length of the packet that is sent.
unfoldable pub send_reply : Config → ℕ → Packet → ℕ → Lease → Packet × List ℕ × ℕ
unfolding reply_options
send_reply config card_ip req type lease =
    let current_ip = if card_ip == 0 then config.server_ip else card_ip in
    let opts = reply_options config current_ip type in
    (
      record {
        op = 2;
        htype = 1;
        hlen = 6;
        hops = 0;
        xid = req.xid;
        secs = 0;
        flags = req.flags;
        ciaddr = 0;
        yiaddr = lease.ip;
        siaddr = current_ip;
        giaddr = 0;
        chaddr = take 16 req.chaddr;
        cookie = magic_cookie;
      },
      opts,
      header_size + length opts,
    )

-- The loop over the options, at most `n` of them, from byte `at` up to `end`.
unfoldable pub scan_options : ℕ → Memory → ℕ → ℕ → ℕ → ℕ
scan_options zero m at end type = type
scan_options (suc n) m at end type =
    let padded = scan_options n m (at + 1) end type in
    let len = m (at + 1) in
    let told = scan_options n m (at + 2 + len) end (m (at + 2)) in
    let skipped = scan_options n m (at + 2 + len) end type in
    if not (ltb at end) || m at == 255
    then type
    else if m at == 0
    then padded
    else if m at == 53 && len == 1
    then told
    else skipped

-- The type of a message whose options end at `end`: each round takes a byte at least.
unfoldable pub message_type : Memory → ℕ → ℕ
unfolding scan_options
message_type m end = scan_options end m 0 end 0

abbrev pub no_lease : Lease
no_lease = record { ip = 0; mac = []; expiry = 0; in_use = false }

-- The reply to a client, if it gets a lease and there is a buffer for the packet.
unfoldable pub reply_to :
    ℕ → Bool → Packet → ℕ → Config → List Lease × Option ℕ → Dhcpd × Option (Packet × List ℕ × ℕ)
unfolding send_reply
reply_to card_ip buffer req type config (leases, none) =
    (record { config = config; leases = leases }, none)
reply_to card_ip buffer req type config (leases, some i) = (
  record { config = config; leases = leases },
  if buffer then some (send_reply config card_ip req type (get_or leases i no_lease)) else none,
)

-- `dhcpd_handle_packet` on a packet of `len` bytes: its header, and its bytes from the options on.
-- `buffer` tells whether `pbuf_alloc` gives one, and `primary` whether the packet came in on the first card.
unfoldable pub handle_packet :
    ℕ → Bool → Bool → Dhcpd → Packet → Memory → ℕ → Dhcpd × Option (Packet × List ℕ × ℕ)
unfolding find_lease message_type reply_to
handle_packet card_ip buffer primary s pkt options len =
    let type = message_type options (len - header_size) in
    let found = find_lease s.config s.leases (take 6 pkt.chaddr) in
    if ltb len header_size || not (pkt.op == 1) || not (pkt.cookie == magic_cookie)
    then (s, none)
    else if type == 1
    then (if primary then reply_to card_ip buffer pkt 2 s.config found else (s, none))
    else if type == 3
    then reply_to card_ip buffer pkt 5 s.config found
    else (s, none)
