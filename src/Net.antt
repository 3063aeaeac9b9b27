-- ===== src/Net.antt =====
-- The network stack below the sockets: packet buffers (src/pbuf.c), Ethernet (src/eth.c), IPv4 (src/ip4.c),
-- ICMP (src/icmp.c) and UDP (src/udp.c), with include/net.h.
pub mod Pbuf
pub mod Checksum
pub mod Ip4
pub mod Icmp
pub mod Udp
pub mod Eth
pub mod Stack
mod Tests
