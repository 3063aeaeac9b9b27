-- ===== src/Net/Ip4/Header.antt =====
-- The header that src/ip4.c writes: its bytes, and its checksum.
use aj.Common.{ℕ, ◌+◌, ◌-◌, ◌^◌, ◌<◌, ◌≡◌, ap, ◌∙◌, IsBelow, arith}
use aj.Net.Pbuf.{Pbuf, store_list, write}
use aj.Net.Checksum.{net_checksum}
use aj.Net.Checksum.Stored.{
  AllBytes, store_list-IsBelow, listed, word_sum-store_list, ones_sum-complement,
}
use aj.Net.Checksum.Standard.{word_sum, ones_sum, net_checksum-word_sum}
use aj.Net.Ip4.{header_bytes, with_header}

pub header-AllBytes :
    (len ttl proto chksum src dst : ℕ)
    → ttl < 256
    → proto < 256
    → chksum < 2 ^ 16
    → AllBytes (header_bytes len ttl proto chksum src dst)
header-AllBytes len ttl proto chksum src dst a b c = omega arith

-- The words of a header are those without the checksum, and the checksum.
header-word_sum :
    (len ttl proto chksum src dst : ℕ)
    → word_sum (listed (header_bytes len ttl proto chksum src dst)) 0 20
      ≡ word_sum (listed (header_bytes len ttl proto 0 src dst)) 0 20 + chksum
unfolding word_sum
header-word_sum len ttl proto chksum src dst = omega arith

-- The checksum over a stored header is that of its words.
checksum_of :
    (p : Pbuf) (ttl proto chksum src dst : ℕ)
    → IsBelow 256 p.buffer
    → ttl < 256
    → proto < 256
    → chksum < 2 ^ 16
    → let bs = header_bytes p.len ttl proto chksum src dst in
      net_checksum (store_list p.buffer p.payload bs) p.payload 20
      ≡ 65535 - ones_sum (word_sum (listed bs) 0 20)
checksum_of p ttl proto chksum src dst bytes a b c =
    let bs = header_bytes p.len ttl proto chksum src dst in
    net_checksum-word_sum (store_list p.buffer p.payload bs)
      (store_list-IsBelow p.buffer p.payload bs bytes
        (header-AllBytes p.len ttl proto chksum src dst a b c))
      p.payload 20 (omega arith)
    ∙ ap (λ (t : ℕ). 65535 - ones_sum t) (word_sum-store_list p.buffer p.payload bs)

-- The header that is written before a packet has a checksum that the check of a packet that comes in accepts.
pub net_checksum-with_header :
    (p : Pbuf) (ttl proto src dst : ℕ)
    → IsBelow 256 p.buffer
    → ttl < 256
    → proto < 256
    → net_checksum (with_header p ttl proto src dst).buffer p.payload 20 ≡ 0
unfolding with_header
net_checksum-with_header p ttl proto src dst bytes a b =
    let w = word_sum (listed (header_bytes p.len ttl proto 0 src dst)) 0 20 in
    let blank = checksum_of p ttl proto 0 src dst bytes a b (omega arith) in
    let c = 65535 - ones_sum w in
    rw blank (
      checksum_of p ttl proto c src dst bytes a b (omega arith)
      ∙ ap (λ (t : ℕ). 65535 - ones_sum t) (header-word_sum p.len ttl proto c src dst)
      ∙ ap (λ (t : ℕ). 65535 - t) (ones_sum-complement w))

pub with_header-IsBelow :
    (p : Pbuf) (ttl proto src dst : ℕ)
    → IsBelow 256 p.buffer
    → ttl < 256
    → proto < 256
    → IsBelow 256 (with_header p ttl proto src dst).buffer
unfolding with_header
with_header-IsBelow p ttl proto src dst bytes a b =
    let c = checksum_of p ttl proto 0 src dst bytes a b (omega arith) in
    let chksum =
      net_checksum (write p (header_bytes p.len ttl proto 0 src dst)).buffer p.payload 20 in
    store_list-IsBelow p.buffer p.payload (header_bytes p.len ttl proto chksum src dst) bytes
      (header-AllBytes p.len ttl proto chksum src dst a b (omega (arith, c)))
