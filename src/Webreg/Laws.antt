-- ===== src/Webreg/Laws.antt =====
-- Installation and lookup in the registry of src/webreg.c.
use aj.Common.{
  ℕ, ◌<◌, ◌≡◌, ◌≢◌, refl, sym, ◌∙◌, inl, inr, true, false, not, Option, none, some, List,
  Bool-cases, Option-cases, length, modify, get_elem?, find_index, IsFirst, find_index-IsFirst,
  find_index-some, find_index-none, find_index-modify_same, find_index-modify_new, take_all,
  field_at-modify_other, field_at-modify_own, modify-modify, arith,
}
use aj.Common.{same_bytes-eq, same_bytes_refl}
use aj.Webreg.{
  Slot, Webreg, webreg_appcap, stored_name, is_named, end_text, write_text, install_free,
  install_at, is_empty, webreg_install, webreg_lookup,
}

-- A name that is stored whole: no stop in it, and 31 bytes at most.
abbrev pub IsWhole : List ℕ → Type 0
IsWhole name = stored_name 31 name ≡ name

pub named-eq : (name : List ℕ) (s : Slot) → is_named name s ≡ true → s.name ≡ name
unfolding is_named
named-eq name s h = same_bytes-eq s.name name (ground arith)

not_named : (other : List ℕ) (s : Slot) → s.name ≢ other → is_named other s ≡ false
not_named other s ne = elim (Bool-cases (is_named other s)) [
  | inl e ↦ absurd (ne (named-eq other s e))
  | inr e ↦ e
]

-- What the installation of `text` under `name` does: the text is found under the name, and what is
-- found under any other name is as it was; or nothing changes, because every slot is used by another
-- name.
abbrev pub Installs : Webreg → List ℕ → List ℕ → Webreg × Option ℕ → Type 0
Installs slots name text (slots', none) =
    (slots' ≡ slots)
    × ((j : ℕ) (s : Slot)
        → get_elem? slots j ≡ some s
        → (s.used ≡ true) × (is_named name s ≡ false))
Installs slots name text (slots', some i) =
    (webreg_lookup slots' name ≡ some text)
    × ((other : List ℕ) → other ≢ name → webreg_lookup slots' other ≡ webreg_lookup slots other)

module _ (slots : Webreg) (name text : List ℕ) (short : length text < webreg_appcap) where
  write_text-eq :
      (s : Webreg) (i : ℕ)
      → write_text s i text ≡ modify s i (λ (x : Slot). record x { text = text })
  unfolding write_text
  write_text-eq s i =
      rw (take_all webreg_appcap text (omega (arith, short))) (unfold end_text in ground arith)

  fill : Slot → Slot
  fill x = record x { text = text }

  claim : Slot → Slot
  claim x = record x { used = true; name = stored_name 31 name }

  replaced :
      (i : ℕ)
      → find_index (is_named name) slots ≡ some i
      → Installs slots name text (write_text slots i text, some i)
  unfolding fill is_named webreg_lookup
  replaced i e =
      let g = find_index-some (is_named name) slots e in
      let own = find_index-modify_same (is_named name) slots i fill (λ x q. refl) ∙ e in
      rw (write_text-eq slots i) (
        field_at-modify_own (λ (s : Slot). s.text) (is_named name) slots i fill g.0.0 own g.0.1,
        λ other ne.
            field_at-modify_other (λ (s : Slot). s.text) (is_named other) slots i fill
              (λ x q.
                let z : g.0.0 ≡ x = cc in
                let off : is_named other x ≡ false =
                  not_named other x (λ m. ne (sym m ∙ named-eq name x (rw z at g.0.2))) in
                (off, off)),
      )

  module _ (whole : IsWhole name) (i : ℕ) (x : Slot) (q : get_elem? slots i ≡ some x) where
    claimed : Slot → Slot
    claimed s = fill (claim s)

    claimed_named : is_named name (claimed x) ≡ true
    unfolding claimed fill claim is_named
    claimed_named = rw whole (same_bytes_refl name)

    claimed_other : (other : List ℕ) → other ≢ name → is_named other (claimed x) ≡ false
    unfolding claimed fill claim
    claimed_other other ne = not_named other (claimed x) (λ m. ne (sym m ∙ whole))

    claimed_lookup :
        find_index (is_named name) slots ≡ none
        → webreg_lookup (modify slots i claimed) name ≡ some text
    unfolding fill claimed webreg_lookup
    claimed_lookup e =
        field_at-modify_own (λ (s : Slot). s.text) (is_named name) slots i claimed x
          (find_index-modify_new (is_named name) slots i claimed e q claimed_named) q

  unused : (s : Slot) → not s.used ≡ true → (other : List ℕ) → is_named other s ≡ false
  unfolding is_named
  unused s h other = ground arith

  added :
      (whole : IsWhole name) (o : Option ℕ)
      → IsFirst (λ (s : Slot). not s.used) slots o
      → find_index (is_named name) slots ≡ none
      → Installs slots name text (install_free slots name text o)
  unfolding install_free claim fill claimed webreg_lookup
  added whole none g e =
      (refl, λ j s q. (ground (arith, g j s q), find_index-none (is_named name) slots e j s q))
  added whole (some i) ((x, q, free), before) e =
      rw (write_text-eq (modify slots i claim) i, modify-modify slots i claim fill)
        (
          claimed_lookup whole i x q e,
          λ other ne.
              field_at-modify_other (λ (s : Slot). s.text) (is_named other) slots i
                (claimed whole i x q)
                (λ y r.
                  let z : x ≡ y = cc in
                  rw (← z) (unused x free other, claimed_other whole i x q other ne)),
        )

-- The installation of a short, non-empty text under a name that is stored whole makes exactly that text
-- the answer for that name and leaves the answers for all other names as they are; it is refused, and
-- changes nothing, only if all slots are used by other names.
pub webreg_install-Installs :
    (slots : Webreg) (name text : List ℕ)
    → IsWhole name
    → is_empty name ≡ false
    → is_empty text ≡ false
    → length text < webreg_appcap
    → Installs slots name text (webreg_install slots name text)
unfolding webreg_install install_at
webreg_install-Installs slots name text whole named filled short =
    rw (whole, named, filled)
      (elim (Option-cases (find_index (is_named name) slots)) [
        | inl e ↦ rw e (
            added slots name text short whole _
              (find_index-IsFirst (λ (s : Slot). not s.used) slots) e)
        | inr e ↦ rw e.1 (replaced slots name text short e.0 e.1)
      ])
