-- ===== src/Dhcpd/Tests.antt =====
-- Examples of the DHCP server of src/dhcpd.c, for a server at 10.0.2.15.
use aj.Common.{
  ℕ, ◌+◌, ◌*◌, ◌/◌, ◌%◌, ◌^◌, ◌≡◌, ◌≢◌, true, List, [], ◌∷◌, some, replicate, refl, arith,
  get_elem?, find_index, same_bytes, Memory,
}
use aj.Dhcpd.{
  Lease, Dhcpd, max_leases, config_for, dhcpd_init, find_lease, lease_at, first_unused, new_lease,
  no_lease, reply_options, scan_options,
}
use aj.Dhcpd.Options.{scan_options_enough}
use aj.Dhcpd.Pool.{served, leases_after, served-distinct, find_lease_again}

abbrev server : ℕ
server = 0x0a00020f

abbrev powered_on : Dhcpd
powered_on = record { config = config_for 0; leases = replicate max_leases no_lease }

abbrev client : ℕ → List ℕ
client n = 2 ∷ 0 ∷ 0 ∷ 0 ∷ 0 ∷ n ∷ []

abbrev two_clients : List (List ℕ)
two_clients = client 1 ∷ client 2 ∷ client 1 ∷ []

abbrev lease_of : ℕ → ℕ → Lease
lease_of host n = record { ip = 0x0a000200 + host; mac = client n; expiry = 0; in_use = true }

first_lease : get_elem? (leases_after server powered_on two_clients) 0 ≡ some (lease_of 50 1)
unfolding served dhcpd_init find_lease lease_at first_unused new_lease find_index same_bytes
first_lease = refl

second_lease : get_elem? (leases_after server powered_on two_clients) 1 ≡ some (lease_of 51 2)
unfolding served dhcpd_init find_lease lease_at first_unused new_lease find_index same_bytes
second_lease = refl

served-distinct_example :
    (client 1 ≢ client 2)
    × ((lease_of 50 1).ip ≢ (lease_of 51 2).ip)
    × (0x0a000232 ≡ server / 256 % 2 ^ 24 * 256 + (50 + 0))
served-distinct_example =
    served-distinct server powered_on two_clients 0 1 (lease_of 50 1) (lease_of 51 2)
      (λ z. omega (arith, z)) refl first_lease second_lease refl refl (λ z. omega (arith, z))

gets_first : (find_lease (config_for server) powered_on.leases (client 1)).1 ≡ some 0
unfolding find_lease lease_at first_unused new_lease find_index same_bytes
gets_first = refl

find_lease_again_example :
    find_lease
      (config_for server)
      (find_lease (config_for server) powered_on.leases (client 1)).0
      (client 1)
    ≡ ((find_lease (config_for server) powered_on.leases (client 1)).0, some 0)
find_lease_again_example =
    find_lease_again (config_for server) powered_on.leases (client 1) 0 gets_first

abbrev nothing : Memory
nothing = λ _. 0

scan_options_enough_example : scan_options 3 nothing 0 3 7 ≡ scan_options 9 nothing 0 3 7
scan_options_enough_example = scan_options_enough 3 9 nothing 0 3 7 (omega arith) (omega arith)

-- The option of the netmask has the bytes 0, 255, 255, 255.
netmask_bytes : get_elem? (reply_options (config_for server) server 5) 17 ≡ some 0
unfolding reply_options
netmask_bytes = refl
