-- ===== src/Net/Eth.antt =====
-- Ethernet, src/eth.c: a frame that comes in goes to ARP or to IPv4, and one that goes out gets its header. The
-- card is an argument: whether it takes the bytes.
use aj.Common.{
  ℕ, ◌+◌, Option, none, some, List, ◌++◌, ◌==◌, ltb, leb, if◌then◌else◌, take, Memory, u16, u32,
}
use aj.Arp.{Mac}
use aj.Net.Pbuf.{Pbuf, advance, retreat, shorten, field_16, bytes_16, write}

abbrev pub eth_header_size : ℕ
eth_header_size = 14

abbrev pub type_arp : ℕ
type_arp = 0x0806

abbrev pub type_ip : ℕ
type_ip = 0x0800

-- The counters of src/eth.c.
pub record Eth : Type 0 where
  pub rx_count : ℕ
  pub tx_count : ℕ
  pub tx_attempt_count : ℕ
  pub tx_fail_count : ℕ

pub data Frame : Type 0 where
  ignored : Frame
  to_arp to_ip4 : Pbuf → Frame

-- `if (p->len >= sizeof(struct eth_hdr)) p->len -= sizeof(struct eth_hdr)`
abbrev pub off_header : Pbuf → Pbuf
off_header p = if leb eth_header_size p.len then shorten p eth_header_size else p

-- The two tests of the type; a packet whose header cannot come off is freed.
unfoldable pub by_type : ℕ → Option Pbuf → Frame
by_type type none = ignored
by_type type (some p) =
    if type == type_arp
    then to_arp (off_header p)
    else if type == type_ip
    then to_ip4 (off_header p)
    else ignored

unfoldable pub ethernet_input : Eth → Pbuf → Eth × Frame
unfolding by_type
ethernet_input t p = if ltb p.len eth_header_size then (t, ignored) else (
  record t { rx_count = u32 (t.rx_count + 1) },
  by_type (field_16 p 12) (advance p eth_header_size),
)

-- The header's 14 bytes, for addresses of six bytes.
abbrev pub frame_header : Mac → Mac → ℕ → List ℕ
frame_header dst src type = take 6 dst ++ take 6 src ++ bytes_16 type

unfoldable pub with_frame_header : Pbuf → Mac → Mac → ℕ → Pbuf
with_frame_header p dst src type = record (write p (frame_header dst src type)) {
  len = u32 (p.len + eth_header_size);
}

-- `e1000_tx_send_raw`: from the bytes from an index on and their number, a result that is 0 where it fails.
abbrev pub Card : Type 0
Card = Memory → ℕ → ℕ → ℕ

unfoldable pub transmit : Eth → Card → Option Pbuf → Mac → Mac → ℕ → Eth × Option ℕ
unfolding with_frame_header
transmit t card none dst src type = (t, none)
transmit t card (some p) dst src type =
    let q = with_frame_header p dst src type in
    let ret = card q.buffer q.payload (u16 q.len) in
    let t' = record t { tx_attempt_count = u32 (t.tx_attempt_count + 1) } in
    if ret == 0
    then (record t' { tx_fail_count = u32 (t.tx_fail_count + 1) }, some ret)
    else (record t' { tx_count = u32 (t.tx_count + 1) }, some ret)

-- `ethernet_output` with the address of the default card as `src`; `none` is its -1.
unfoldable pub ethernet_output : Eth → Card → Pbuf → Mac → Mac → ℕ → Eth × Option ℕ
unfolding transmit
ethernet_output t card p dst src type = transmit t card (retreat p eth_header_size) dst src type
