-- ===== src/Arp.antt =====
-- The ARP cache and the ARP messages of the network stack, src/arp.c and include/arp.h. The gateway,
-- the timer and the cards' addresses are arguments; a header is its fields in host order, and the
-- device numbers of the card driver are `none` where they are negative.
use aj.Common.{
  ℕ, zero, suc, ◌+◌, ◌-◌, ◌*◌, ◌%◌, ◌^◌, bit_and, Bool, true, false, not, ◌&&◌, ◌||◌, Option, none,
  some, List, [], ◌∷◌, map, ◌==◌, ltb, leb, if◌then◌else◌, modify, replicate, get_elem?, find_index,
  field_at, is_some,
}
pub mod Laws
pub mod Cache
mod Tests

abbrev pub arp_cache_size : ℕ
arp_cache_size = 16

abbrev pub Mac : Type 0
Mac = List ℕ

-- `arp_entry_t`
pub record ArpEntry : Type 0 where
  pub ip : ℕ
  pub mac : Mac
  pub last_tick : ℕ
  pub valid : Bool

pub record Arp : Type 0 where
  pub cache : List ArpEntry
  pub ip0 : ℕ
  pub ip1 : ℕ

-- `arp_init`: every entry is invalid, and the first interface has 10.0.2.15.
unfoldable pub arp_init : Arp → Arp
arp_init s = record s {
  cache = map {A = ArpEntry} (λ e. record e { valid = false }) s.cache;
  ip0 = 10 * 2 ^ 24 + 2 * 2 ^ 8 + 15;
}

abbrev pub has_ip : ℕ → ArpEntry → Bool
has_ip ip e = e.valid && e.ip == ip

-- An entry that may be evicted: any but the gateway's.
abbrev pub evictable : ℕ → ArpEntry → Bool
evictable gateway e = e.valid && not (not (gateway == 0) && e.ip == gateway)

-- The loop for the least recently used entry; among equals the last one wins.
unfoldable pub find_victim : ℕ → List ArpEntry → ℕ → ℕ → Option ℕ → Option ℕ
find_victim gateway [] i oldest victim = victim
find_victim gateway (e ∷ es) i oldest victim =
    let better = evictable gateway e && leb e.last_tick oldest in
    find_victim gateway es (i + 1) (if better then e.last_tick else oldest)
      (if better then some i else victim)

abbrev pub fresh_entry : ℕ → Mac → ℕ → ArpEntry
fresh_entry ip mac tick = record { ip = ip; mac = mac; last_tick = tick; valid = true }

-- The slot for a new address: an empty one, else the victim.
unfoldable pub slot_for : ℕ → List ArpEntry → Option ℕ → Option ℕ
unfolding find_victim
slot_for gateway cache (some i) = some i
slot_for gateway cache none = find_victim gateway cache 0 0xffff_ffff none

unfoldable pub write_slot : List ArpEntry → ArpEntry → Option ℕ → List ArpEntry
write_slot cache e none = cache
write_slot cache e (some i) = modify cache i (λ _. e)

unfoldable pub put_entry : ℕ → List ArpEntry → ℕ → Mac → ℕ → Option ℕ → List ArpEntry
unfolding slot_for write_slot
put_entry gateway cache ip mac tick (some i) =
    modify cache i (λ e. record e { mac = mac; last_tick = tick })
put_entry gateway cache ip mac tick none =
    write_slot cache (fresh_entry ip mac tick)
      (slot_for gateway cache (find_index (λ e. not e.valid) cache))

-- `arp_update_cache`
unfoldable pub update_cache : ℕ → ℕ → List ArpEntry → ℕ → Mac → List ArpEntry
unfolding put_entry
update_cache gateway tick cache ip mac =
    put_entry gateway cache ip mac tick (find_index (has_ip ip) cache)

unfoldable pub lookup_cache : List ArpEntry → ℕ → Option Mac
lookup_cache cache ip = field_at (λ e. e.mac) cache (find_index (has_ip ip) cache)

abbrev pub broadcast_mac : Mac
broadcast_mac = replicate 6 0xff

-- `arp_get_mac_for_ip`; `none` is its 0.
unfoldable pub get_mac_for_ip : Arp → ℕ → Option Mac
unfolding lookup_cache
get_mac_for_ip s ip =
    if ip == 0xffff_ffff || bit_and ip 0xff00_0000 == 0xff00_0000
    then some broadcast_mac
    else lookup_cache s.cache ip

unfoldable pub get_if_ip : Arp → ℕ → ℕ
get_if_ip s iface = if iface == 0 then s.ip0 else if iface == 1 then s.ip1 else 0

unfoldable pub set_if_ip : Arp → ℕ → ℕ → Arp
set_if_ip s iface ip =
    if iface == 0 then record s { ip0 = ip } else if iface == 1 then record s { ip1 = ip } else s

unfoldable pub is_our_ip : Arp → ℕ → Bool
is_our_ip s ip = ip == s.ip0 || ip == s.ip1

-- The fields of `struct arp_hdr` that the code reads or writes.
pub record ArpHeader : Type 0 where
  pub opcode : ℕ
  pub src_mac : Mac
  pub src_ip : ℕ
  pub dst_mac : Mac
  pub dst_ip : ℕ

-- The card numbers `e1000_default_device` and `e1000_active_rx_device`, and the cards' addresses.
pub record Cards : Type 0 where
  pub default_device : Option ℕ
  pub active_rx : Option ℕ
  pub macs : ℕ → Mac

abbrev pub valid_device : Option ℕ → Bool
valid_device none = false
valid_device (some d) = ltb d 2

-- `(device >= 0 && device < 2) ? device : 0`
abbrev pub tx_device : Option ℕ → ℕ
tx_device none = 0
tx_device (some d) = if ltb d 2 then d else 0

-- What becomes of the buffer of a message: it is freed, or sent with a new header to an address.
pub data Sent : Type 0 where
  freed : Sent
  reply : ArpHeader → Mac → Sent

abbrev pub answer : Mac → ArpHeader → Sent
answer mac h =
    reply
      (record {
        opcode = 2;
        src_mac = mac;
        src_ip = h.dst_ip;
        dst_mac = h.src_mac;
        dst_ip = h.src_ip;
      })
      h.src_mac

-- `arp_input` on a buffer of `len` bytes that starts with the header `h`.
unfoldable pub arp_input : ℕ → ℕ → Arp → Cards → ℕ → ArpHeader → Arp × Cards × Sent
unfolding update_cache
arp_input gateway tick s cards len h =
    let s' = record s { cache = update_cache gateway tick s.cache h.src_ip h.src_mac } in
    let cards' =
      if valid_device cards.active_rx
      then record cards { default_device = cards.active_rx }
      else cards in
    if ltb len 28
    then (s, cards, freed)
    else if not (h.dst_ip == s.ip0) && not (h.dst_ip == s.ip1)
    then (s', cards, freed)
    else if h.opcode == 2
    then (s', cards, freed)
    else if h.opcode == 1
    then (s', cards', answer (cards'.macs (tx_device cards'.default_device)) h)
    else (s', cards', freed)
