-- ===== src/Net/Ip4/Filter.antt =====
-- Whom the firewall of src/ip4.c lets through.
use aj.Common.{
  ℕ, ◌+◌, ◌≤◌, ◌≡◌, ◌≢◌, ◌⊎◌, refl, inl, inr, true, false, Bool, List, ◌==◌, ==→eq, ◌||◌,
  Bool-cases, arith,
}
use aj.Arp.{get_if_ip}
use aj.Auth.{is_authenticated}
use aj.Auth.Firewall.{Event, sessions_after, logged_in, allowed-logged_in}
use aj.Net.Pbuf.{Pbuf, byte, field_16, field_32}
use aj.Net.Ip4.{Net, policy_filter, is_bootstrap, proto_tcp, proto_udp}

-- A whole UDP header with a port of DHCP or DNS, or a whole TCP header with a port of HTTP or SSH.
abbrev pub Bootstrap : Pbuf → ℕ → Type 0
Bootstrap p hl =
    ((byte p 9 ≡ proto_udp)
      × (hl + 8 ≤ p.len)
      × ((field_16 p (hl + 2) ≡ 67) ⊎ ((field_16 p (hl + 2) ≡ 68) ⊎ (field_16 p (hl + 2) ≡ 53))))
    ⊎ ((byte p 9 ≡ proto_tcp)
        × (hl + 20 ≤ p.len)
        × ((field_16 p (hl + 2) ≡ 80) ⊎ (field_16 p (hl + 2) ≡ 22)))

pub is_bootstrap-Bootstrap : (p : Pbuf) (hl : ℕ) → is_bootstrap p hl ≡ true → Bootstrap p hl
is_bootstrap-Bootstrap p hl e = elim (Bool-cases (byte p 9 == proto_udp)) [
  | inl a ↦ inl (ground (arith, a, e), ground (arith, a, e), udp a)
  | inr a ↦ inr (ground (arith, a, e), ground (arith, a, e), tcp a)
]
  where
    udp :
        (byte p 9 == proto_udp) ≡ true
        → (field_16 p (hl + 2) ≡ 67) ⊎ ((field_16 p (hl + 2) ≡ 68) ⊎ (field_16 p (hl + 2) ≡ 53))
    udp a = elim (Bool-cases (field_16 p (hl + 2) == 67)) [
      | inl b ↦ inl (ground arith)
      | inr b ↦ elim (Bool-cases (field_16 p (hl + 2) == 68)) [
        | inl c ↦ inr (inl (ground arith))
        | inr c ↦ inr (inr (ground (arith, a, b, c, e)))
      ]
    ]

    tcp : (byte p 9 == proto_udp) ≡ false → (field_16 p (hl + 2) ≡ 80) ⊎ (field_16 p (hl + 2) ≡ 22)
    tcp a = elim (Bool-cases (field_16 p (hl + 2) == 80)) [
      | inl b ↦ inl (ground arith)
      | inr b ↦ inr (ground (arith, a, b, e))
    ]

Bootstrap-is_bootstrap : (p : Pbuf) (hl : ℕ) → Bootstrap p hl → is_bootstrap p hl ≡ true
Bootstrap-is_bootstrap p hl e = ground (arith, e)

-- Why a packet may pass: its source has logged in and not out since, it is for the first interface, or it is for
-- one of the services.
abbrev pub Reason : List Event → Net → Pbuf → ℕ → Type 0
Reason es s p hl =
    (logged_in es (field_32 p 12) ≡ true) ⊎ ((field_32 p 16 ≡ get_if_ip s.arp 0) ⊎ Bootstrap p hl)

-- What the filter answers: the packet passes, and there is a reason; or it does not, its source has
-- no session that has not expired, and it is neither for the first interface nor for one of the services.
abbrev pub Filters : List Event → Net → Pbuf → ℕ → Bool → Type 0
Filters es s p hl true = Reason es s p hl
Filters es s p hl false =
    ((is_authenticated s.tick (sessions_after es) (field_32 p 12)).1 ≡ false)
    × (field_32 p 16 ≢ get_if_ip s.arp 0)
    × ¬ Bootstrap p hl

Filters-cases :
    (es : List Event) (s : Net) (p : Pbuf) (hl : ℕ) (known home service : Bool)
    → (is_authenticated s.tick (sessions_after es) (field_32 p 12)).1 ≡ known
    → (field_32 p 16 == get_if_ip s.arp 0) ≡ home
    → is_bootstrap p hl ≡ service
    → Filters es s p hl (known || home || service)
Filters-cases es s p hl true home service a b c =
    inl (allowed-logged_in es s.tick (field_32 p 12) a)
Filters-cases es s p hl false true service a b c = inr (inl (==→eq _ _ b))
Filters-cases es s p hl false false true a b c = inr (inr (is_bootstrap-Bootstrap p hl c))
Filters-cases es s p hl false false false a b c = (
  a,
  λ z. ground (arith, b, z),
  λ z. let on : is_bootstrap p hl ≡ true = Bootstrap-is_bootstrap p hl z in absurd (cc (on, c)),
)

-- Whatever log-ins, log-outs and packets there have been since the start, a packet that the firewall lets
-- through comes from an address that has logged in and not out since, or is for the address of the first
-- interface, or for DHCP, DNS, HTTP or SSH with a whole header. A packet that it stops is none of the last
-- two, and its source has no session or an expired one.
pub policy_filter-Filters :
    (es : List Event) (s : Net) (p : Pbuf) (hl : ℕ)
    → s.sessions ≡ sessions_after es
    → Filters es s p hl (policy_filter s p hl).1
unfolding policy_filter
policy_filter-Filters es s p hl e = rw e (Filters-cases es s p hl _ _ _ refl refl refl)
