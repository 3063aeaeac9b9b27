-- ===== src/Dhcpd/Pool.antt =====
-- The pool of the DHCP server of src/dhcpd.c from its start: the addresses that its clients get.
use aj.Common.{
  ℕ, zero, suc, ◌+◌, ◌*◌, ◌/◌, ◌%◌, ◌^◌, ◌<◌, ◌≡◌, ◌≢◌, refl, ap, sym, ◌∙◌, inl, inr, true, false,
  not, ◌==◌, ltb, Bool-cases, Option-cases, Option, none, some, List, [], ◌∷◌, map, length,
  get_elem?, get_elem?-lt, find_index, IsFirst, find_index-IsFirst, find_index-modify_new,
  same_bytes_refl, bit_and, bit_or, bit_and_low, bit_or_low, bit_and_high_24, arith,
}
use aj.Dhcpd.{
  Config, Lease, Dhcpd, max_leases, config_for, in_net, dhcpd_init, is_for, lease_ip, new_lease,
  first_unused, lease_at, find_lease,
}
use aj.Dhcpd.Leases.{IsPool, find_lease-IsPool}

-- The pool of a network: the addresses from .50 to .99.
network : ℕ → ℕ
network my_ip = my_ip / 256 % 2 ^ 24 * 256

in_net-eq : (my_ip host : ℕ) → host < 256 → in_net my_ip host ≡ network my_ip + host
unfolding network
in_net-eq my_ip host h = omega (
  arith,
  ap (λ (t : ℕ). bit_or t host) (bit_and_high_24 my_ip),
  bit_or_low 8 (my_ip / 256 % 2 ^ 24) host,
)

lease_ip-eq :
    (my_ip i : ℕ) → i < max_leases → lease_ip (config_for my_ip) i ≡ network my_ip + (50 + i)
unfolding network
lease_ip-eq my_ip i h =
    let start : in_net my_ip 50 ≡ network my_ip + 50 = in_net-eq my_ip 50 (omega arith) in
    let low : bit_and (in_net my_ip 50) 0xff ≡ 50 =
      omega (arith, bit_and_low 8 255 (in_net my_ip 50) refl, start) in
    let high : bit_and (in_net my_ip 50) 0xffff_ff00 ≡ network my_ip =
      omega (arith, bit_and_high_24 (in_net my_ip 50), start) in
    rw (low, high) (bit_or_low 8 (my_ip / 256 % 2 ^ 24) (50 + i) (omega arith))

-- The leases after a series of clients, each with its address of 6 bytes, has asked for one.
unfoldable pub served : Config → List Lease → List (List ℕ) → List Lease
served config leases [] = leases
served config leases (mac ∷ macs) = served config (find_lease config leases mac).0 macs

served-IsPool :
    {config : Config} {leases : List Lease} (macs : List (List ℕ))
    → IsPool config leases
    → IsPool config (served config leases macs)
unfolding served
served-IsPool [] p = p
served-IsPool {config = config} {leases = leases} (mac ∷ macs) p =
    served-IsPool {leases = (find_lease config leases mac).0} macs (find_lease-IsPool mac p)

init-IsPool :
    (card_ip : ℕ) (s : Dhcpd)
    → length s.leases ≡ max_leases
    → IsPool (dhcpd_init card_ip s).config (dhcpd_init card_ip s).leases
unfolding dhcpd_init
init-IsPool card_ip s h = record {
  size = cleared s.leases ∙ h;
  address = λ i l q u. absurd (cc (unused s.leases i l q, u));
  one_each = λ i j l m q r u v e. absurd (cc (unused s.leases i l q, u));
}
  where
    cleared :
        (leases : List Lease)
        → length (map {A = Lease} (λ l. record l { in_use = false }) leases) ≡ length leases
    cleared [] = refl
    cleared (x ∷ xs) = ap suc (cleared xs)

    unused :
        (leases : List Lease) (i : ℕ) (l : Lease)
        → get_elem? (map {A = Lease} (λ l. record l { in_use = false }) leases) i ≡ some l
        → l.in_use ≡ false
    unused [] i l q = absurd (cc q)
    unused (x ∷ xs) zero l q =
        let z : record x { in_use = false } ≡ l = cc in ap (λ (t : Lease). t.in_use) (sym z)
    unused (x ∷ xs) (suc i) l q = unused xs i l q

-- The leases after a series of clients since the start of the server at address `my_ip`.
abbrev pub leases_after : ℕ → Dhcpd → List (List ℕ) → List Lease
leases_after my_ip s macs = served (dhcpd_init my_ip s).config (dhcpd_init my_ip s).leases macs

own_config : (my_ip : ℕ) (s : Dhcpd) → my_ip ≢ 0 → (dhcpd_init my_ip s).config ≡ config_for my_ip
unfolding dhcpd_init
own_config my_ip s nz = let e : (my_ip == 0) ≡ false = ground arith in rw e

slot_address :
    (my_ip : ℕ) (s : Dhcpd) (macs : List (List ℕ)) (i : ℕ) (l : Lease)
    → my_ip ≢ 0
    → length s.leases ≡ max_leases
    → get_elem? (leases_after my_ip s macs) i ≡ some l
    → l.in_use ≡ true
    → l.ip ≡ my_ip / 256 % 2 ^ 24 * 256 + (50 + i)
unfolding network
slot_address my_ip s macs i l nz h q u =
    let p = served-IsPool macs (init-IsPool my_ip s h) in
    let b : i < max_leases = omega (arith, get_elem?-lt (leases_after my_ip s macs) i q, p.size) in
    (p.address i l q u).0
    ∙ ap (λ (c : Config). lease_ip c i) (own_config my_ip s nz)
    ∙ lease_ip-eq my_ip i b

-- After the start of the server with its 50 leases at an address that is not 0, and any series of requests,
-- two different leases in use are for different clients and have different addresses, and the address of the
-- lease in slot `i` is .50 plus `i` in the network of the server's own address.
pub served-distinct :
    (my_ip : ℕ) (s : Dhcpd) (macs : List (List ℕ)) (i j : ℕ) (l m : Lease)
    → my_ip ≢ 0
    → length s.leases ≡ max_leases
    → get_elem? (leases_after my_ip s macs) i ≡ some l
    → get_elem? (leases_after my_ip s macs) j ≡ some m
    → l.in_use ≡ true
    → m.in_use ≡ true
    → i ≢ j
    → (l.mac ≢ m.mac) × (l.ip ≢ m.ip) × (l.ip ≡ my_ip / 256 % 2 ^ 24 * 256 + (50 + i))
served-distinct my_ip s macs i j l m nz h q r u v ne =
    let p = served-IsPool macs (init-IsPool my_ip s h) in
    let a = slot_address my_ip s macs i l nz h q u in
    let b = slot_address my_ip s macs j m nz h r v in
    (λ e. ne (p.one_each i j l m q r u v e), λ e. ne (omega (arith, a, b, e)), a)

module _ (config : Config) (leases : List Lease) (mac : List ℕ) where
  -- Slot `i` has become the client's, or was.
  abbrev Found : List Lease × Option ℕ → Type 0
  Found (after, o) = (i : ℕ) → o ≡ some i → find_index (is_for mac) after ≡ some i

  new_lease-Found :
      find_index (is_for mac) leases ≡ none
      → (i : ℕ) (x : Lease) → get_elem? leases i ≡ some x
      → Found (new_lease config leases mac i)
  unfolding new_lease
  new_lease-Found absent i x q = elim (Bool-cases (ltb config.end_ip (lease_ip config i))) [
    | inl e ↦ rw e (λ k r. absurd (cc r))
    | inr e ↦ rw e (λ k r.
        let z : i ≡ k = cc in
        find_index-modify_new (is_for mac) leases i
          (λ _. record { ip = lease_ip config i; mac = mac; expiry = 0; in_use = true }) absent q
          (same_bytes_refl mac)
        ∙ ap some z)
  ]

  find_lease-Found : Found (find_lease config leases mac)
  unfolding find_lease lease_at
  find_lease-Found = elim (Option-cases (find_index (is_for mac) leases)) [
    | inl e ↦ rw e (go e _ (find_index-IsFirst (λ (l : Lease). not l.in_use) leases))
    | inr e ↦ rw e.1 (λ k r. e.1 ∙ r)
  ]
    where
      go :
          find_index (is_for mac) leases ≡ none
          → (o : Option ℕ) → IsFirst (λ (l : Lease). not l.in_use) leases o
          → Found (first_unused config leases mac o)
      go e none g = unfold first_unused in λ k r. absurd (cc r)
      go e (some i) g = unfold first_unused in new_lease-Found e i g.0.0 g.0.1

-- A client that got a lease and asks again gets the same lease, and nothing changes.
pub find_lease_again :
    (config : Config) (leases : List Lease) (mac : List ℕ) (i : ℕ)
    → (find_lease config leases mac).1 ≡ some i
    → find_lease config (find_lease config leases mac).0 mac
      ≡ ((find_lease config leases mac).0, some i)
find_lease_again config leases mac i e =
    again (find_lease config leases mac).0 (find_lease-Found config leases mac i e)
  where
    again :
        (after : List Lease)
        → find_index (is_for mac) after ≡ some i
        → find_lease config after mac ≡ (after, some i)
    again after f = unfold find_lease lease_at in rw f refl
