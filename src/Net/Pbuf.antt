-- ===== src/Net/Pbuf.antt =====
-- The packet buffers of src/pbuf.c and include/pbuf.h: 2048 bytes, with the payload from an index on. The
-- fields of a packet in network order, from include/net.h.
use aj.Common.{
  ℕ, ◌+◌, ◌-◌, ◌*◌, ◌/◌, ◌%◌, ◌^◌, ◌&&◌, Option, none, some, List, [], ◌∷◌, ltb, leb, if◌then◌else◌,
  length, get_or, Memory, u32,
}

abbrev pub pbuf_size : ℕ
pbuf_size = 2048

abbrev pub pbuf_headroom : ℕ
pbuf_headroom = 64

-- `struct pbuf`, without the link to the next one: `buffer` is `buffer_s`, and `payload` an index of it.
pub record Pbuf : Type 0 where
  pub buffer : Memory
  pub payload : ℕ
  pub len : ℕ
  pub tot_len : ℕ

-- `pbuf_alloc`, where `kmalloc` has given memory with some bytes in it.
abbrev pub pbuf_alloc : Memory → Pbuf
pbuf_alloc m = record { buffer = m; payload = pbuf_headroom; len = 0; tot_len = 0 }

-- `pbuf_header` with an offset of `n`, and of `- n`; `none` is its -1.
unfoldable pub advance : Pbuf → ℕ → Option Pbuf
advance p n =
    if ltb (p.payload + n) pbuf_size then some (record p { payload = p.payload + n }) else none

unfoldable pub retreat : Pbuf → ℕ → Option Pbuf
retreat p n =
    if leb n p.payload && ltb (p.payload - n) pbuf_size
    then some (record p { payload = p.payload - n })
    else none

-- A call whose result is not looked at.
abbrev pub or_stay : Pbuf → Option Pbuf → Pbuf
or_stay p none = p
or_stay p (some q) = q

-- `p->len -= n`
abbrev pub shorten : Pbuf → ℕ → Pbuf
shorten p n = record p { len = u32 (p.len + 2 ^ 32 - n) }

abbrev pub byte : Pbuf → ℕ → ℕ
byte p i = p.buffer (p.payload + i)

-- `ntohs` and `ntohl` of the field at byte `i`.
abbrev pub field_16 : Pbuf → ℕ → ℕ
field_16 p i = byte p i * 2 ^ 8 + byte p (i + 1)

abbrev pub field_32 : Pbuf → ℕ → ℕ
field_32 p i = field_16 p i * 2 ^ 16 + field_16 p (i + 2)

-- The bytes of `htons` and `htonl` of a value.
abbrev pub bytes_16 : ℕ → List ℕ
bytes_16 v = v / 2 ^ 8 % 2 ^ 8 ∷ v % 2 ^ 8 ∷ []

abbrev pub bytes_32 : ℕ → List ℕ
bytes_32 v = v / 2 ^ 24 % 2 ^ 8 ∷ v / 2 ^ 16 % 2 ^ 8 ∷ v / 2 ^ 8 % 2 ^ 8 ∷ v % 2 ^ 8 ∷ []

-- Bytes stored from an index on.
unfoldable pub store_list : Memory → ℕ → List ℕ → Memory
store_list m start bytes a =
    if leb start a && ltb a (start + length bytes) then get_or bytes (a - start) 0 else m a

abbrev pub write : Pbuf → List ℕ → Pbuf
write p bytes = record p { buffer = store_list p.buffer p.payload bytes }
