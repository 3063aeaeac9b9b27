-- ===== src/Arp/Laws.antt =====
-- The ARP cache of src/arp.c: the choice of the entry to evict, and the answers after a new entry.
use aj.Common.{
  ℕ, zero, suc, ◌+◌, ◌≤◌, ◌<◌, ◌≡◌, ◌≢◌, ◌⊎◌, refl, ap, ◌∙◌, inl, inr, true, false, ◌&&◌, Option,
  none, some, List, [], ◌∷◌, leb, Bool-cases, modify, get_elem?, find_index, find_index-some,
  find_index-modify_same, find_index-modify_new, field_at-modify_other, field_at-modify_own, arith,
}
use aj.Arp.{ArpEntry, Mac, has_ip, evictable, find_victim, fresh_entry, put_entry, lookup_cache}

-- What the loop for the victim returns: the accumulated one, as no evictable entry is as old; or the
-- entry at `k`, which is evictable and not younger than the accumulated or any evictable one.
abbrev pub IsOldest : ℕ → List ArpEntry → ℕ → ℕ → Option ℕ → Option ℕ → Type 0
IsOldest gateway es i oldest victim r =
    ((r ≡ victim)
      × ((j : ℕ) (y : ArpEntry)
          → get_elem? es j ≡ some y
          → evictable gateway y ≡ true
          → oldest < y.last_tick))
    ⊎ ((k : ℕ) × (x : ArpEntry) × (r ≡ some (i + k))
        × (get_elem? es k ≡ some x)
        × (evictable gateway x ≡ true)
        × (x.last_tick ≤ oldest)
        × ((j : ℕ) (y : ArpEntry)
            → get_elem? es j ≡ some y
            → evictable gateway y ≡ true
            → x.last_tick ≤ y.last_tick))

pub find_victim-IsOldest :
    (gateway : ℕ) (es : List ArpEntry) (i oldest : ℕ) (victim : Option ℕ)
    → IsOldest gateway es i oldest victim (find_victim gateway es i oldest victim)
unfolding find_victim
find_victim-IsOldest g [] i oldest victim = inl (refl, λ j y q. absurd (cc q))
find_victim-IsOldest g (e ∷ es) i oldest victim =
    elim (Bool-cases (evictable g e && leb e.last_tick oldest)) [
      | inl b ↦ rw b (better b (find_victim-IsOldest g es (i + 1) e.last_tick (some i)))
      | inr b ↦ rw b (worse b (find_victim-IsOldest g es (i + 1) oldest victim))
    ]
  where
    at_head :
        (t : ℕ)
        → (evictable g e ≡ true → t ≤ e.last_tick)
        → ((j : ℕ) (y : ArpEntry)
            → get_elem? es j ≡ some y
            → evictable g y ≡ true
            → t ≤ y.last_tick)
        → (j : ℕ) (y : ArpEntry) → get_elem? (e ∷ es) j ≡ some y
        → evictable g y ≡ true
        → t ≤ y.last_tick
    at_head t h r zero y q v = let z : e ≡ y = cc in rw (← z) (h (rw z v))
    at_head t h r (suc j) y q v = r j y q v

    better :
        {r : Option ℕ}
        → (evictable g e && leb e.last_tick oldest) ≡ true
        → IsOldest g es (i + 1) e.last_tick (some i) r
        → IsOldest g (e ∷ es) i oldest victim r
    better b (inl (q, young)) = inr (
      0,
      e,
      q ∙ ap some (omega arith),
      refl,
      ground arith,
      ground arith,
      at_head e.last_tick (λ _. omega arith) (λ j y r v. omega (arith, young j y r v)),
    )
    better b (inr (k, x, q, own, v, le, all)) = inr (
      suc k,
      x,
      q ∙ ap some (omega arith),
      own,
      v,
      ground arith,
      at_head x.last_tick (λ _. le) all,
    )

    worse :
        {r : Option ℕ}
        → (evictable g e && leb e.last_tick oldest) ≡ false
        → IsOldest g es (i + 1) oldest victim r
        → IsOldest g (e ∷ es) i oldest victim r
    worse b (inl (q, young)) = inl (q, at_head (suc oldest) (λ v. ground arith) young)
    worse b (inr (k, x, q, own, v, le, all)) = inr (
      suc k,
      x,
      q ∙ ap some (omega arith),
      own,
      v,
      le,
      at_head x.last_tick (λ w. ground arith) all,
    )

-- Every entry is in use.
abbrev pub IsFull : List ArpEntry → Type 0
IsFull cache = (j : ℕ) (y : ArpEntry) → get_elem? cache j ≡ some y → y.valid ≡ true

-- What learning that `ip` has `mac` does to the answers of the cache: `ip` is found with `mac`; the gateway's
-- answer stays; and so does every other one, unless the cache was full and its entry a least recently
-- used one of those that are not the gateway's.
abbrev pub Learns : ℕ → List ArpEntry → ℕ → Mac → List ArpEntry → Type 0
Learns gateway cache ip mac cache' =
    (lookup_cache cache' ip ≡ some mac)
    × ((other : ℕ)
        → other ≢ ip
        → (lookup_cache cache' other ≡ lookup_cache cache other)
          ⊎ (IsFull cache
              × ((gateway ≢ 0 → other ≢ gateway)
                  × ((k : ℕ) × (x : ArpEntry) × (get_elem? cache k ≡ some x)
                      × (x.ip ≡ other)
                      × (evictable gateway x ≡ true)
                      × ((j : ℕ) (y : ArpEntry)
                          → get_elem? cache j ≡ some y
                          → evictable gateway y ≡ true
                          → x.last_tick ≤ y.last_tick)))))

module _ (gateway : ℕ) (cache : List ArpEntry) (ip : ℕ) (mac : Mac) (tick : ℕ) where
  abbrev pub refresh : ArpEntry → ArpEntry
  refresh e = record e { mac = mac; last_tick = tick }

  pub refreshed :
      (i : ℕ)
      → find_index (has_ip ip) cache ≡ some i
      → Learns gateway cache ip mac (put_entry gateway cache ip mac tick (some i))
  unfolding put_entry lookup_cache
  refreshed i e =
      let g = find_index-some (has_ip ip) cache e in
      let own = find_index-modify_same (has_ip ip) cache i refresh (λ x q. refl) ∙ e in
      (
        field_at-modify_own (λ (s : ArpEntry). s.mac) (has_ip ip) cache i refresh g.0.0 own g.0.1,
        λ other ne. inl (
            field_at-modify_other (λ (s : ArpEntry). s.mac) (has_ip other) cache i refresh
              (λ x q.
                let z : g.0.0 ≡ x = cc in
                let t : has_ip ip x ≡ true = rw z at g.0.2 in
                let off : has_ip other x ≡ false = ground arith in (off, off))),
      )

  -- Slot `i` gets a new entry.
  pub written :
      (i : ℕ) (x : ArpEntry)
      → find_index (has_ip ip) cache ≡ none
      → get_elem? cache i ≡ some x
      → (lookup_cache (modify cache i (λ _. fresh_entry ip mac tick)) ip ≡ some mac)
        × ((other : ℕ)
            → other ≢ ip
            → has_ip other x ≡ false
            → lookup_cache (modify cache i (λ _. fresh_entry ip mac tick)) other
              ≡ lookup_cache cache other)
  unfolding lookup_cache
  written i x e q =
      let new =
        find_index-modify_new (has_ip ip) cache i (λ _. fresh_entry ip mac tick) e q
          (ground arith) in
      (
        field_at-modify_own (λ (s : ArpEntry). s.mac) (has_ip ip) cache i
            (λ _. fresh_entry ip mac tick) x new q,
        λ other ne h.
            field_at-modify_other (λ (s : ArpEntry). s.mac) (has_ip other) cache i
              (λ _. fresh_entry ip mac tick)
              (λ y r. let z : x ≡ y = cc in (rw (← z) h, ground arith)),
      )
