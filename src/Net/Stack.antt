-- ===== src/Net/Stack.antt =====
-- What comes in again while a packet is handled: src/ip4.c hands a packet for the machine's own address back to
-- `ip4_input` inside the call that sends it, so src/icmp.c and src/udp.c may be entered again from below.
use aj.Common.{ℕ, zero, suc, Option, none, some}
use aj.Net.Pbuf.{Pbuf}
use aj.Net.Ip4.{
  Net, Fate, freed, to_icmp, to_udp, to_tcp, SentPacket, no_room, looped, broadcast, to_card, asked,
  ip4_input,
}
use aj.Net.Icmp.{Icmp, icmp_input}
use aj.Net.Udp.{
  udp_input, Datagram, unserved, echoed, to_dhcp_client, to_dhcp_server, to_dns_server,
  to_dns_client,
}
pub mod Echo

abbrev pub loops_back : SentPacket → Option Pbuf
loops_back (looped q) = some q
loops_back no_room = none
loops_back (broadcast q) = none
loops_back (to_card iface mac q) = none
loops_back (asked hop) = none

abbrev pub loops_back_opt : Option SentPacket → Option Pbuf
loops_back_opt none = none
loops_back_opt (some out) = loops_back out

unfoldable pub after_icmp : Icmp × Net × Option SentPacket → (Icmp × Net) × Option Pbuf
after_icmp (t, s, out) = ((t, s), loops_back_opt out)

unfoldable pub after_udp : Icmp → Net × Datagram → (Icmp × Net) × Option Pbuf
after_udp t (s, echoed out) = ((t, s), loops_back out)
after_udp t (s, unserved) = ((t, s), none)
after_udp t (s, to_dhcp_client src dst p) = ((t, s), none)
after_udp t (s, to_dhcp_server p) = ((t, s), none)
after_udp t (s, to_dns_server src from to p) = ((t, s), none)
after_udp t (s, to_dns_client p) = ((t, s), none)

-- The protocol's handler; what TCP and the services send is not followed.
unfoldable pub protocol : Icmp → Net × Fate → (Icmp × Net) × Option Pbuf
unfolding after_icmp after_udp
protocol t (s, freed) = ((t, s), none)
protocol t (s, to_icmp src ttl p) = after_icmp (icmp_input t s p src ttl)
protocol t (s, to_udp src dst p) = after_udp t (udp_input s p src dst)
protocol t (s, to_tcp src dst p) = ((t, s), none)

-- One call of `ip4_input`, up to the next one inside it.
unfoldable pub turn : Icmp × Net → Pbuf → (Icmp × Net) × Option Pbuf
unfolding protocol
turn (t, s) q = protocol t (ip4_input s q)

-- Calls inside calls, `n` deep: `none` where they have ended.
unfoldable pub turns_from :
    (Icmp × Net → Pbuf → Option Pbuf) → (Icmp × Net) × Option Pbuf → Option Pbuf
turns_from deeper (u, none) = none
turns_from deeper (u, some q) = deeper u q

unfoldable pub turns : ℕ → Icmp × Net → Pbuf → Option Pbuf
unfolding turns_from turn
turns zero u q = some q
turns (suc n) u q = turns_from (turns n) (turn u q)
