-- ===== src/Webreg/Cuts.antt =====
-- The edges of the registry of src/webreg.c: a name that is not stored whole, a text that fills a slot's
-- buffer, and the size of the list of the names.
use aj.Common.{
  ℕ, zero, suc, ◌+◌, ◌-◌, ◌≤◌, ◌≡◌, ◌≢◌, refl, ap, sym, inl, inr, true, false, ◌||◌, Option, none,
  some, List, [], ◌∷◌, ◌++◌, ◌==◌, leb, Bool-cases, length, length-append, length-take_le, modify,
  get_elem?, take, IsFirst, find_index-IsFirst, get_elem?-modify_self, field_at, arith, subst,
}
use mathlib.Core.Option
use aj.Webreg.{
  Slot, Webreg, webreg_appcap, stored_name, is_stop, is_named, end_text, write_text, install_free,
  install_at, is_empty, webreg_install, webreg_lookup, list_lines, webreg_list,
}
use aj.Webreg.Laws.{IsWhole, named-eq}

stored_name-stored_name :
    (n : ℕ) (name : List ℕ) → stored_name n (stored_name n name) ≡ stored_name n name
unfolding stored_name
stored_name-stored_name zero name = refl
stored_name-stored_name (suc n) [] = refl
stored_name-stored_name (suc n) (c ∷ cs) = elim (Bool-cases (is_stop c)) [
  | inl e ↦ rw e
  | inr e ↦ rw (e, e, stored_name-stored_name n cs)
]

-- A slot that is used has a name that is stored whole.
abbrev pub NameWhole : Slot → Type 0
NameWhole s = s.used ≡ true → IsWhole s.name

abbrev pub IsTidy : Webreg → Type 0
IsTidy slots = (j : ℕ) (s : Slot) → get_elem? slots j ≡ some s → NameWhole s

modify-IsTidy :
    (slots : Webreg) (i : ℕ) (f : Slot → Slot)
    → ((s : Slot) → NameWhole s → NameWhole (f s))
    → IsTidy slots
    → IsTidy (modify slots i f)
modify-IsTidy [] i f h t j s q = t j s q
modify-IsTidy (x ∷ xs) zero f h t zero s q = let z : f x ≡ s = cc in rw (← z) (h x (t 0 x refl))
modify-IsTidy (x ∷ xs) zero f h t (suc j) s q = t (suc j) s q
modify-IsTidy (x ∷ xs) (suc i) f h t zero s q = t 0 s q
modify-IsTidy (x ∷ xs) (suc i) f h t (suc j) s q = modify-IsTidy xs i f h (λ k. t (suc k)) j s q

write_text-IsTidy :
    (slots : Webreg) (i : ℕ) (text : List ℕ) → IsTidy slots → IsTidy (write_text slots i text)
unfolding write_text end_text
write_text-IsTidy slots i text t = elim (Bool-cases (leb webreg_appcap (length text))) [
  | inl e ↦
      rw e
        (modify-IsTidy _ (i + 1) (λ s. record s { used = false }) (λ s h u. absurd (cc u)) filled)
  | inr e ↦ rw e filled
]
  where
    fill : Slot → Slot
    fill = λ s. record s { text = take webreg_appcap text }

    filled : IsTidy (modify slots i fill)
    filled = modify-IsTidy slots i fill (λ s h. h) t

install_free-IsTidy :
    (slots : Webreg) (name text : List ℕ) (o : Option ℕ)
    → IsTidy slots
    → IsTidy (install_free slots name text o).0
unfolding install_free
install_free-IsTidy slots name text none t = t
install_free-IsTidy slots name text (some i) t = write_text-IsTidy _ i text (
    modify-IsTidy slots i (λ s. record s { used = true; name = stored_name 31 name })
      (λ s h u. stored_name-stored_name 31 name) t)

install_at-IsTidy :
    (slots : Webreg) (name text : List ℕ) (o : Option ℕ)
    → IsTidy slots
    → IsTidy (install_at slots name text o).0
unfolding install_at
install_at-IsTidy slots name text (some i) t = write_text-IsTidy slots i text t
install_at-IsTidy slots name text none t = install_free-IsTidy slots name text _ t

install-IsTidy :
    (slots : Webreg) (name text : List ℕ) → IsTidy slots → IsTidy (webreg_install slots name text).0
unfolding webreg_install
install-IsTidy slots name text t =
    elim (Bool-cases (is_empty text || is_empty (stored_name 31 name))) [
      | inl e ↦ rw e t
      | inr e ↦ rw e (install_at-IsTidy slots name text _ t)
    ]

never_found :
    (slots : Webreg) (name : List ℕ)
    → IsTidy slots
    → stored_name 31 name ≢ name
    → webreg_lookup slots name ≡ none
unfolding webreg_lookup
never_found slots name t cut = go _ (find_index-IsFirst (is_named name) slots)
  where
    go :
        (o : Option ℕ)
        → IsFirst (is_named name) slots o
        → field_at (λ (s : Slot). s.text) slots o ≡ none
    go none g = unfold field_at in refl
    go (some i) ((s, q, named), before) =
        absurd
          (cut (subst IsWhole (named-eq name s named) (t i s q (unfold is_named in ground arith))))

-- From a registry whose names are stored whole, as the empty one is, the installation of a text under
-- a name that is not (it has a '/', a '?' or a space, or over 31 bytes) is never found under that name,
-- also where it reports a slot; and the names in the registry are still stored whole.
pub cut_name-lookup :
    (slots : Webreg) (name text : List ℕ)
    → IsTidy slots
    → stored_name 31 name ≢ name
    → (webreg_lookup (webreg_install slots name text).0 name ≡ none)
      × IsTidy (webreg_install slots name text).0
cut_name-lookup slots name text t cut =
    let t' = install-IsTidy slots name text t in (never_found _ name t' cut, t')

-- That slot `i + 1`, if there is one, is not used.
abbrev NextUnused : Webreg × Option ℕ → Type 0
NextUnused (slots, none) = Unit
NextUnused (slots, some i) = (s : Slot) → get_elem? slots (i + 1) ≡ some s → s.used ≡ false

module _ (text : List ℕ) (long : leb webreg_appcap (length text) ≡ true) where
  write_text-NextUnused : (slots : Webreg) (i : ℕ) → NextUnused (write_text slots i text, some i)
  unfolding write_text end_text
  write_text-NextUnused slots i s = rw long (
      cleared _ (
        get_elem?-modify_self (modify slots i (λ s. record s { text = take webreg_appcap text }))
          (i + 1) (λ s. record s { used = false })))
    where
      cleared :
          (o : Option Slot) {r : Option Slot}
          → r ≡ Option.map (λ (s : Slot). record s { used = false }) o
          → r ≡ some s
          → s.used ≡ false
      cleared none e q = absurd (cc (e, q))
      cleared (some x) e q =
          let z : (record x { used = false }) ≡ s = cc in ap (λ (y : Slot). y.used) (sym z)

  install_free-NextUnused :
      (slots : Webreg) (name : List ℕ) (o : Option ℕ) → NextUnused (install_free slots name text o)
  unfolding install_free
  install_free-NextUnused slots name none = tt
  install_free-NextUnused slots name (some i) = write_text-NextUnused _ i

  install_at-NextUnused :
      (slots : Webreg) (name : List ℕ) (o : Option ℕ) → NextUnused (install_at slots name text o)
  unfolding install_at
  install_at-NextUnused slots name none = install_free-NextUnused slots name _
  install_at-NextUnused slots name (some i) = write_text-NextUnused slots i

  install-NextUnused :
      (slots : Webreg) (name : List ℕ) → NextUnused (webreg_install slots name text)
  unfolding webreg_install
  install-NextUnused slots name =
      elim (Bool-cases (is_empty text || is_empty (stored_name 31 name))) [
        | inl e ↦ rw e tt
        | inr e ↦ rw e (install_at-NextUnused slots name _)
      ]

-- The installation of a text of 20480 bytes or more that reports slot `i` makes slot `i + 1` unused: the
-- terminator that follows the cut text is the first byte of that slot. So it removes the application there.
pub install-removes_next :
    (slots : Webreg) (name text : List ℕ) (i : ℕ) (s : Slot)
    → webreg_appcap ≤ length text
    → (webreg_install slots name text).1 ≡ some i
    → get_elem? (webreg_install slots name text).0 (i + 1) ≡ some s
    → s.used ≡ false
install-removes_next slots name text i s long =
    go (webreg_install slots name text) (install-NextUnused text (ground arith) slots name)
  where
    go :
        (r : Webreg × Option ℕ)
        → NextUnused r
        → r.1 ≡ some i
        → get_elem? r.0 (i + 1) ≡ some s
        → s.used ≡ false
    go (t, none) h e q = absurd (cc e)
    go (t, some j) h e q = let z : j ≡ i = cc in h s (rw z q)

list_lines-zero : (slots : Webreg) → list_lines 0 slots ≡ []
unfolding list_lines
list_lines-zero [] = refl
list_lines-zero (x ∷ xs) = refl

line_length : (room : ℕ) (name : List ℕ) → length (take room name ++ (10 ∷ [])) ≤ room + 1
line_length room name =
    omega (arith, length-append (take room name) (10 ∷ []), length-take_le room name)

length-list_lines : (slots : Webreg) (room : ℕ) → length (list_lines room slots) ≤ room + 1
unfolding list_lines
length-list_lines [] room = omega arith
length-list_lines (x ∷ xs) room = elim (Bool-cases (room == 0)) [
  | inl e ↦ rw e (omega arith)
  | inr e ↦ elim (Bool-cases x.used) [
    | inl u ↦
        rw (e, u, length-append line (list_lines (room - length line) xs))
          (omega (arith, line_length room x.name, after (length-list_lines xs)))
    | inr u ↦ rw (e, u) (length-list_lines xs room)
  ]
]
  where
    line : List ℕ
    line = take room x.name ++ (10 ∷ [])

    after :
        ((r : ℕ) → length (list_lines r xs) ≤ r + 1)
        → length line + length (list_lines (room - length line) xs) ≤ room + 1
    after rest = elim (Bool-cases (leb room (length line))) [
      | inl e ↦
          let z : room - length line ≡ 0 = ground arith in
          rw (z, list_lines-zero xs) (omega (arith, line_length room x.name))
      | inr e ↦ ground (arith, rest (room - length line))
    ]

-- The list of the names fits the buffer with its terminator, whatever its size from 2 on.
pub length-webreg_list :
    (slots : Webreg) (cap : ℕ) → 2 ≤ cap → length (webreg_list slots cap) + 1 ≤ cap
unfolding webreg_list
length-webreg_list slots cap h = omega (arith, length-list_lines slots (cap - 2))
