-- ===== src/Dhcpd/Leases.antt =====
-- The leases of the DHCP server of src/dhcpd.c: the invariant of the table.
use aj.Common.{
  get_elem?-modify_cases, ℕ, ◌≤◌, ◌≡◌, ◌≢◌, refl, ap, sym, ◌∙◌, inl, inr, true, false, ltb,
  Bool-cases, Option-cases, Option, none, some, List, length, modify, get_elem?, length-modify,
  find_index, find_index-none, same_bytes, same_bytes_refl, arith,
}
use aj.Dhcpd.{
  Config, Lease, max_leases, is_for, lease_ip, new_lease, first_unused, lease_at, find_lease,
}

-- Every lease in use has the address of its slot, and no client has two.
pub record IsPool (config : Config) (leases : List Lease) : Type 0 where
  pub size : length leases ≡ max_leases
  pub address :
      (i : ℕ) (l : Lease)
      → get_elem? leases i ≡ some l
      → l.in_use ≡ true
      → (l.ip ≡ lease_ip config i) × (l.ip ≤ config.end_ip)
  pub one_each :
      (i j : ℕ) (l m : Lease)
      → get_elem? leases i ≡ some l
      → get_elem? leases j ≡ some m
      → l.in_use ≡ true
      → m.in_use ≡ true
      → l.mac ≡ m.mac
      → i ≡ j

-- Slot `i` changes to a lease that is unused, or has the slot's address and a client without a lease.
modify-IsPool :
    {config : Config} {leases : List Lease} (i : ℕ) (f : Lease → Lease)
    → IsPool config leases
    → ((x : Lease)
        → (f x).in_use ≡ true
        → ((f x).ip ≡ lease_ip config i)
          × ((f x).ip ≤ config.end_ip)
          × ((j : ℕ) (y : Lease)
              → get_elem? leases j ≡ some y
              → y.in_use ≡ true
              → (f x).mac ≢ y.mac))
    → IsPool config (modify leases i f)
modify-IsPool {config} {leases} i f p h = record {
  size = rw (length-modify leases i f) p.size;
  address = λ j l q u. elim (get_elem?-modify_cases leases i f j l q) [
    | inl a ↦
        let g = h a.0 (ap (λ (t : Lease). t.in_use) a.3 ∙ u) in
        (sym (ap (λ (t : Lease). t.ip) a.3) ∙ g.0 ∙ ap (lease_ip config) a.1, rw (← a.3) g.1)
    | inr a ↦ p.address j l a.1 u
  ];
  one_each = λ j k l m q r u v e. elim (get_elem?-modify_cases leases i f j l q) [
    | inl a ↦ elim (get_elem?-modify_cases leases i f k m r) [
      | inl b ↦ sym a.1 ∙ b.1
      | inr b ↦ absurd (
          (h a.0 (ap (λ (t : Lease). t.in_use) a.3 ∙ u)).2 k m b.1 v
            (ap (λ (t : Lease). t.mac) a.3 ∙ e))
    ]
    | inr a ↦ elim (get_elem?-modify_cases leases i f k m r) [
      | inl b ↦ absurd (
          (h b.0 (ap (λ (t : Lease). t.in_use) b.3 ∙ v)).2 j l a.1 u
            (ap (λ (t : Lease). t.mac) b.3 ∙ sym e))
      | inr b ↦ p.one_each j k l m a.1 b.1 u v e
    ]
  ];
}

module _ {config : Config} {leases : List Lease} (mac : List ℕ) (p : IsPool config leases) where
  new_lease-IsPool :
      find_index (is_for mac) leases ≡ none
      → (i : ℕ) → IsPool config (new_lease config leases mac i).0
  unfolding new_lease
  new_lease-IsPool absent i = elim (Bool-cases (ltb config.end_ip (lease_ip config i))) [
    | inl e ↦
        rw e
          (modify-IsPool i (λ l. record l { mac = mac; in_use = false }) p (λ x u. absurd (cc u)))
    | inr e ↦ rw e (
        modify-IsPool i
          (λ _. record { ip = lease_ip config i; mac = mac; expiry = 0; in_use = true }) p
          (λ x u. (refl, ground arith, λ j y q v same. no_other j y q v same)))
  ]
    where
      no_other : (j : ℕ) (y : Lease) → get_elem? leases j ≡ some y → y.in_use ≡ true → mac ≢ y.mac
      no_other j y q v same =
          let off : is_for mac y ≡ false = find_index-none (is_for mac) leases absent j y q in
          let on : same_bytes y.mac mac ≡ true = rw (← same) (same_bytes_refl mac) in ground arith

  pub find_lease-IsPool : IsPool config (find_lease config leases mac).0
  unfolding find_lease lease_at
  find_lease-IsPool = elim (Option-cases (find_index (is_for mac) leases)) [
    | inl e ↦ rw e (go e _)
    | inr e ↦ rw e.1 p
  ]
    where
      go :
          find_index (is_for mac) leases ≡ none
          → (o : Option ℕ) → IsPool config (first_unused config leases mac o).0
      go e none = unfold first_unused in p
      go e (some i) = unfold first_unused in new_lease-IsPool e i
