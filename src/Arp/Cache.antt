-- ===== src/Arp/Cache.antt =====
-- The invariant of the ARP cache of src/arp.c: 16 entries, no address in two of them, and ticks that
-- are words; and what learning an address does in a state that satisfies it.
use aj.Common.{
  get_elem?-modify_cases, ℕ, ◌+◌, ◌^◌, ◌<◌, ◌≡◌, ap, sym, ◌∙◌, inl, inr, true, not, Option, none,
  some, List, Bool-cases, Option-cases, length, modify, get_elem?, get_elem?_total, length-modify,
  find_index, IsFirst, find_index-IsFirst, find_index-some, find_index-none, arith,
}
use aj.Arp.{
  ArpEntry, Mac, arp_cache_size, has_ip, evictable, fresh_entry, slot_for, write_slot, put_entry,
  update_cache,
}
use aj.Arp.Laws.{refresh, IsOldest, find_victim-IsOldest, IsFull, Learns, refreshed, written}

pub record IsCache (cache : List ArpEntry) : Type 0 where
  pub size : length cache ≡ arp_cache_size
  pub ticks : (j : ℕ) (y : ArpEntry) → get_elem? cache j ≡ some y → y.last_tick < 2 ^ 32
  pub unique :
      (i j : ℕ) (x y : ArpEntry)
      → get_elem? cache i ≡ some x
      → get_elem? cache j ≡ some y
      → x.valid ≡ true
      → y.valid ≡ true
      → x.ip ≡ y.ip
      → i ≡ j

-- Slot `i` changes to an entry whose address no other entry has.
modify-IsCache :
    {cache : List ArpEntry} (i : ℕ) (f : ArpEntry → ArpEntry)
    → IsCache cache
    → ((x : ArpEntry)
        → get_elem? cache i ≡ some x
        → ((f x).last_tick < 2 ^ 32)
          × ((j : ℕ) (y : ArpEntry)
              → get_elem? cache j ≡ some y
              → y.valid ≡ true
              → y.ip ≡ (f x).ip
              → i ≡ j))
    → IsCache (modify cache i f)
modify-IsCache {cache} i f c h = record {
  size = rw (length-modify cache i f) c.size;
  ticks = λ j y q. elim (get_elem?-modify_cases cache i f j y q) [
    | inl z ↦ rw (← z.3) (h z.0 z.2).0
    | inr z ↦ c.ticks j y z.1
  ];
  unique = λ j k x y q r v w e. elim (get_elem?-modify_cases cache i f j x q) [
    | inl a ↦ elim (get_elem?-modify_cases cache i f k y r) [
      | inl b ↦ sym a.1 ∙ b.1
      | inr b ↦
          absurd (b.0 ((h a.0 a.2).1 k y b.1 w (sym e ∙ ap (λ (t : ArpEntry). t.ip) (sym a.3))))
    ]
    | inr a ↦ elim (get_elem?-modify_cases cache i f k y r) [
      | inl b ↦ absurd (a.0 ((h b.0 b.2).1 j x a.1 v (e ∙ ap (λ (t : ArpEntry). t.ip) (sym b.3))))
      | inr b ↦ c.unique j k x y a.1 b.1 v w e
    ]
  ];
}

module _ (gateway tick ip : ℕ) (mac : Mac) {cache : List ArpEntry} (c : IsCache cache)
    (word : tick < 2 ^ 32) where
  -- A full cache has an entry that is not the gateway's.
  IsFull-evictable :
      IsFull cache
      → (k : ℕ) × (x : ArpEntry) × (get_elem? cache k ≡ some x) × (evictable gateway x ≡ true)
  IsFull-evictable full =
      let (x, q) = get_elem?_total cache 0 (omega (arith, c.size)) in
      let (y, r) = get_elem?_total cache 1 (omega (arith, c.size)) in
      elim (Bool-cases (evictable gateway x)) [
        | inl e ↦ (0, x, q, e)
        | inr e ↦ (1, y, r, ground (arith, c.unique 0 1 x y q r, full 0 x q, full 1 y r))
      ]

  refreshed-IsCache :
      (i : ℕ)
      → find_index (has_ip ip) cache ≡ some i
      → IsCache (put_entry gateway cache ip mac tick (some i))
  unfolding put_entry
  refreshed-IsCache i e =
      let g = find_index-some (has_ip ip) cache e in
      modify-IsCache i (refresh gateway cache ip mac tick) c (λ x q.
        let z : g.0.0 ≡ x = cc in
        let t : has_ip ip x ≡ true = rw z at g.0.2 in
        (word, λ j y r v w. c.unique i j x y q r (ground arith) v (sym w)))

  module _ (absent : find_index (has_ip ip) cache ≡ none) where
    fresh-IsCache : (k : ℕ) → IsCache (modify cache k (λ _. fresh_entry ip mac tick))
    fresh-IsCache k =
        modify-IsCache k (λ _. fresh_entry ip mac tick) c
          (λ x q.
            (word, λ j y r v w. ground (arith, find_index-none (has_ip ip) cache absent j y r)))

    evicted :
        IsFull cache
        → (o : Option ℕ) → IsOldest gateway cache 0 0xffff_ffff none o
        → Learns gateway cache ip mac (write_slot cache (fresh_entry ip mac tick) o)
          × IsCache (write_slot cache (fresh_entry ip mac tick) o)
    unfolding write_slot
    evicted full none (inl (q, young)) =
        let (k, x, r, v) = IsFull-evictable full in
        absurd (omega (arith, young k x r v, c.ticks k x r))
    evicted full none (inr w) = absurd (cc w.2)
    evicted full (some i) (inl (q, young)) = absurd (cc q)
    evicted full (some i) (inr (k, x, e, q, v, le, all)) =
        let at_k : i ≡ 0 + k = cc in
        let z : i ≡ k = omega arith in
        let (own, others) = written gateway cache ip mac tick k x absent q in
        rw z (
          (
            own,
            λ other ne. elim (Bool-cases (has_ip other x)) [
              | inl t ↦ inr (full, (λ some_gateway. ground arith, (k, x, q, ground arith, v, all)))
              | inr t ↦ inl (others other ne t)
            ],
          ),
          fresh-IsCache k,
        )

    settled :
        (o : Option ℕ)
        → IsFirst (λ (e : ArpEntry). not e.valid) cache o
        → Learns gateway cache ip mac
            (write_slot cache (fresh_entry ip mac tick) (slot_for gateway cache o))
          × IsCache (write_slot cache (fresh_entry ip mac tick) (slot_for gateway cache o))
    unfolding slot_for
    settled none g =
        evicted (λ j y q. ground (arith, g j y q)) _
          (find_victim-IsOldest gateway cache 0 0xffff_ffff none)
    settled (some i) g =
        let (own, others) = written gateway cache ip mac tick i g.0.0 absent g.0.1 in
        unfold write_slot in
        ((own, λ other ne. inl (others other ne (ground (arith, g.0.2)))), fresh-IsCache i)

-- In a cache of 16 entries with no address twice, learning that `ip` has `mac` makes `mac` the answer for
-- `ip`. The answer for any other address stays, unless the cache was full; then the one entry that is
-- lost is not the gateway's and no entry but the gateway's is older. The cache is such a one again.
pub update_cache-Learns :
    {cache : List ArpEntry} (gateway tick ip : ℕ) (mac : Mac)
    → IsCache cache
    → tick < 2 ^ 32
    → Learns gateway cache ip mac (update_cache gateway tick cache ip mac)
      × IsCache (update_cache gateway tick cache ip mac)
unfolding update_cache
update_cache-Learns {cache} gateway tick ip mac c word =
    elim (Option-cases (find_index (has_ip ip) cache)) [
      | inl e ↦ rw e (
          unfold put_entry in
          settled gateway tick ip mac c word e _
            (find_index-IsFirst (λ (e : ArpEntry). not e.valid) cache))
      | inr e ↦ rw e.1 (
        refreshed gateway cache ip mac tick e.0 e.1,
        refreshed-IsCache gateway tick ip mac c word e.0 e.1,
      )
    ]
