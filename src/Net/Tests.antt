-- ===== src/Net/Tests.antt =====
-- Examples of packets of the network stack.
use aj.Common.{
  ℕ, ◌-◌, ◌%◌, ◌^◌, ◌≤◌, ◌<◌, ◌≡◌, ◌≢◌, refl, ap, none, some, List, [], ◌∷◌, Memory, IsBelow, arith,
}
use aj.Arp.{get_if_ip}
use aj.Net.Pbuf.{Pbuf, byte}
use aj.Net.Checksum.{net_checksum}
use aj.Net.Checksum.Standard.{swap, ones_sum, network_sum, net_checksum-standard}
use aj.Auth.Firewall.{Event, login, sessions_after}
use aj.Net.Ip4.Filter.{Filters, policy_filter-Filters}
use aj.Net.Ip4.{Net, policy_filter, looped, route, to_udp, ip4_input, ip4_output, proto_icmp}
use aj.Net.Ip4.Accepted.{given, Accepted, ip4_input-Accepted}
use aj.Net.Icmp.{Icmp, icmp_input, type_echo_reply}
use aj.Net.Icmp.Reply.{icmp_input-echo_reply}
use aj.Net.Udp.{udp_output, udp_input}
use aj.Net.Udp.Loopback.{packet, packet-Carries, packet-IsLocal}
use aj.Net.Udp.Arrival.{datagram, arrives, served, udp_output-udp_input}
use aj.Net.Stack.{turns}
use aj.Net.Stack.Echo.{IsHome, IsEcho, turns-IsEcho}

abbrev own : ℕ
own = 0x0a00_020f

-- A machine with one address and no sessions.
abbrev home : Net
home = record {
  rx_count = 0;
  tx_count = 0;
  policy_drop_count = 0;
  netmask = 0xffff_ff00;
  gateway = 0x0a00_0202;
  if_nm = (0, 0);
  if_gw = (0, 0);
  arp = record { cache = []; ip0 = own; ip1 = 0 };
  sessions = [];
  dhcp_offered_ip = 0;
  tick = 0;
}

own_address : own ≡ get_if_ip home.arp 0
unfolding get_if_ip
own_address = refl

route-own : route home own ≡ 0
unfolding route get_if_ip
route-own = refl

own_source : get_if_ip home.arp (route home own) < 2 ^ 32
unfolding route get_if_ip
own_source = omega arith

-- The byte at each index, modulo 256.
abbrev ramp : Memory
ramp a = a % 256

ramp-IsBelow : IsBelow 256 ramp
ramp-IsBelow a = omega arith

abbrev text : Pbuf
text = record { buffer = ramp; payload = 72; len = 11; tot_len = 11 }

net_checksum-standard_example :
    swap (net_checksum ramp 3 5) ≡ 65535 - ones_sum (network_sum ramp 3 5)
net_checksum-standard_example = net_checksum-standard ramp 3 5 ramp-IsBelow (omega arith)

-- An echo request: its first byte is 8.
abbrev ping : Pbuf
ping = record { buffer = ramp; payload = 264; len = 11; tot_len = 11 }

abbrev quiet : Icmp
quiet = record {
  last_reply_src = 0;
  last_reply_id = 0;
  last_reply_seq = 0;
  last_reply_ttl = 0;
  reply_count = 0;
  last_exceeded_src = 0;
  last_exceeded_tick = 0;
  last_exceeded_id = 0;
  last_exceeded_seq = 0;
}

icmp_input-echo_reply_example :
    (q : Pbuf) × (icmp_input quiet home ping 0x0a00_0205 64 ≡ (
      quiet,
      (ip4_output home q 0x0a00_0205 proto_icmp).0,
      some (ip4_output home q 0x0a00_0205 proto_icmp).1,
    ))
    × (q.payload ≡ ping.payload)
    × (q.len ≡ ping.len)
    × (byte q 0 ≡ type_echo_reply)
    × (byte q 1 ≡ byte ping 1)
    × ((i : ℕ) → 4 ≤ i → byte q i ≡ byte ping i)
    × (net_checksum q.buffer q.payload q.len ≡ 0)
icmp_input-echo_reply_example =
    icmp_input-echo_reply quiet home ping 0x0a00_0205 64 ramp-IsBelow (omega arith) (omega arith)
      refl

udp_output-udp_input_example :
    let (s', out) = udp_output home text own 1000 68 in
    let src = get_if_ip home.arp (route home own) in
    (q : Pbuf) × (out ≡ looped q)
    × ((d : Pbuf) × ((ip4_input s' q).1 ≡ to_udp src own d)
        × ((rest : Pbuf) × (udp_input (ip4_input s' q).0 d src own
              ≡ ((ip4_input s' q).0, served 1000 68 src own rest))
            × (rest.payload ≡ text.payload)
            × (rest.len ≡ text.len)
            × ((a : ℕ) → text.payload ≤ a → rest.buffer a ≡ text.buffer a)))
udp_output-udp_input_example =
    udp_output-udp_input home text own 1000 68 ramp-IsBelow (omega arith) (omega arith)
      (omega arith) own_address (omega arith) (omega arith) own_source (omega arith) (omega arith)
      (omega arith)

-- A datagram from port 7 to port 7 of the machine itself.
abbrev echo : Pbuf
echo = packet text 7 7 own own

home-IsHome : IsHome home
unfolding get_if_ip
home-IsHome = record { set = omega arith; word = omega arith; direct = route-own }

echo-IsEcho : IsEcho home echo
unfolding get_if_ip
echo-IsEcho = record {
  home = home-IsHome;
  local =
      packet-IsLocal text 7 7 own own (omega arith) (omega arith) {s = home} ramp-IsBelow
        own_address (omega arith);
  data_part = text;
  carries =
      packet-Carries text 7 7 own own (omega arith) (omega arith) ramp-IsBelow (omega arith)
        (omega arith) (omega arith);
  inside = omega arith;
  small = omega arith;
}

turns-IsEcho_example : turns 1000 (quiet, home) echo ≢ none
turns-IsEcho_example = turns-IsEcho 1000 quiet home echo echo-IsEcho

given-echo : given (ip4_input home echo).1 ≡ some (datagram echo)
given-echo = ap given (
    arrives echo-IsEcho.local echo-IsEcho.carries echo-IsEcho.inside echo-IsEcho.small
      home-IsHome.set)

ip4_input-Accepted_example : Accepted home echo (datagram echo)
ip4_input-Accepted_example =
    ip4_input-Accepted home echo (datagram echo) echo-IsEcho.carries.bytes given-echo

-- Two log-ins, the last one first.
abbrev log_ins : List Event
log_ins = login 7 0x0a00_0206 ∷ login 5 0x0a00_0205 ∷ []

abbrev guarded : Net
guarded = record home { sessions = sessions_after log_ins; tick = 9 }

policy_filter-Filters_example : Filters log_ins guarded echo 20 (policy_filter guarded echo 20).1
policy_filter-Filters_example = policy_filter-Filters log_ins guarded echo 20 refl
