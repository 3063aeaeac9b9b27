-- ===== src/Arp/Tests.antt =====
-- Examples of the ARP cache of src/arp.c from its start.
use aj.Common.{
  ℕ, zero, suc, ◌≡◌, false, List, [], ◌∷◌, some, replicate, refl, arith, get_elem?, find_index,
  field_at,
}
use aj.Arp.{
  ArpEntry, Mac, arp_cache_size, update_cache, put_entry, slot_for, write_slot, find_victim,
  lookup_cache,
}
use aj.Arp.Laws.{Learns}
use aj.Arp.Cache.{IsCache, update_cache-Learns}

abbrev empty_entry : ArpEntry
empty_entry = record { ip = 0; mac = []; last_tick = 0; valid = false }

abbrev empty_cache : List ArpEntry
empty_cache = replicate arp_cache_size empty_entry

all_empty :
    (n j : ℕ) (y : ArpEntry) → get_elem? (replicate n empty_entry) j ≡ some y → empty_entry ≡ y
all_empty zero j y q = absurd (cc q)
all_empty (suc n) zero y q = cc
all_empty (suc n) (suc j) y q = all_empty n j y q

empty_cache-IsCache : IsCache empty_cache
empty_cache-IsCache = record {
  size = refl;
  ticks = λ j y q. rw (← (all_empty 16 j y q)) (omega arith);
  unique = λ i j x y q r v w e. absurd (cc (rw (← (all_empty 16 i x q)) at v));
}

abbrev card : Mac
card = 0x52 ∷ 0x54 ∷ 0x00 ∷ 0x12 ∷ 0x34 ∷ 0x56 ∷ []

learnt : lookup_cache (update_cache 0x0a000202 7 empty_cache 0x0a000205 card) 0x0a000205 ≡ some card
unfolding lookup_cache update_cache put_entry slot_for write_slot find_index field_at find_victim
learnt = refl

update_cache-Learns_example :
    Learns 0x0a000202 empty_cache 0x0a000205 card
      (update_cache 0x0a000202 7 empty_cache 0x0a000205 card)
    × IsCache (update_cache 0x0a000202 7 empty_cache 0x0a000205 card)
update_cache-Learns_example =
    update_cache-Learns 0x0a000202 7 0x0a000205 card empty_cache-IsCache (omega arith)
