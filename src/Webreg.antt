-- ===== src/Webreg.antt =====
-- The registry of installed web applications, src/webreg.c and include/webreg.h. A name is the bytes
-- of a C string before its terminator, a text the bytes of a buffer before its length.
use aj.Common.{
  ℕ, zero, suc, ◌+◌, ◌-◌, Bool, true, false, not, ◌&&◌, ◌||◌, Option, none, some, List, [], ◌∷◌,
  ◌++◌, map, ◌==◌, leb, if◌then◌else◌, length, modify, get_elem?, take, find_index, same_bytes,
  count_if, field_at, is_some, replicate,
}
pub mod Laws
pub mod Cuts
mod Tests

abbrev pub webreg_max : ℕ
webreg_max = 8

abbrev pub webreg_appcap : ℕ
webreg_appcap = 20480

-- `webreg_slot_t`
pub record Slot : Type 0 where
  pub used : Bool
  pub name : List ℕ
  pub text : List ℕ

abbrev pub Webreg : Type 0
Webreg = List Slot

-- The array at the start, all zeros.
abbrev pub no_apps : Webreg
no_apps = replicate webreg_max (record { used = false; name = []; text = [] })

abbrev pub name_eq : List ℕ → List ℕ → Bool
name_eq = same_bytes

-- '/', '?' and ' '
abbrev pub is_stop : ℕ → Bool
is_stop c = c == 47 || c == 63 || c == 32

-- The part of a name that is stored: up to a stop, and `n` bytes at most.
unfoldable pub stored_name : ℕ → List ℕ → List ℕ
stored_name zero cs = []
stored_name (suc n) [] = []
stored_name (suc n) (c ∷ cs) = if is_stop c then [] else c ∷ stored_name n cs

unfoldable pub is_named : List ℕ → Slot → Bool
is_named name s = s.used && name_eq s.name name

-- `buf[len] = 0`: if `len` is the size of `buf`, the byte that is cleared is the first of the next
-- slot's `used`, which is 0 or 1 in little-endian order.
unfoldable pub end_text : Webreg → ℕ → ℕ → Webreg
end_text slots i len =
    if leb webreg_appcap len then modify slots (i + 1) (λ s. record s { used = false }) else slots

-- The copy of the text, cut to the size of the buffer, with its end and its length.
unfoldable pub write_text : Webreg → ℕ → List ℕ → Webreg
unfolding end_text
write_text slots i text =
    end_text (modify slots i (λ s. record s { text = take webreg_appcap text })) i (length text)

unfoldable pub install_free : Webreg → List ℕ → List ℕ → Option ℕ → Webreg × Option ℕ
unfolding write_text
install_free slots name text none = (slots, none)
install_free slots name text (some i) = (
  write_text (modify slots i (λ s. record s { used = true; name = stored_name 31 name })) i text,
  some i,
)

unfoldable pub install_at : Webreg → List ℕ → List ℕ → Option ℕ → Webreg × Option ℕ
unfolding install_free
install_at slots name text (some i) = (write_text slots i text, some i)
install_at slots name text none = install_free slots name text (find_index (λ s. not s.used) slots)

abbrev pub is_empty : List ℕ → Bool
is_empty [] = true
is_empty (c ∷ cs) = false

-- `webreg_install`; `none` is its -1.
unfoldable pub webreg_install : Webreg → List ℕ → List ℕ → Webreg × Option ℕ
unfolding install_at
webreg_install slots name text =
    if is_empty text || is_empty (stored_name 31 name)
    then (slots, none)
    else install_at slots name text (find_index (is_named name) slots)

unfoldable pub webreg_lookup : Webreg → List ℕ → Option (List ℕ)
webreg_lookup slots name = field_at (λ s. s.text) slots (find_index (is_named name) slots)

pub webreg_count : Webreg → ℕ
webreg_count slots = count_if (λ s. s.used) slots

-- The lines of the list, where `room` bytes are left before the last two of the buffer.
unfoldable pub list_lines : ℕ → Webreg → List ℕ
list_lines room [] = []
list_lines room (s ∷ slots) =
    let line = take room s.name ++ (10 ∷ []) in
    let skipped = list_lines room slots in
    let more = list_lines (room - length line) slots in
    if room == 0 then [] else if not s.used then skipped else line ++ more

unfoldable pub webreg_list : Webreg → ℕ → List ℕ
unfolding list_lines
webreg_list slots cap = list_lines (cap - 2) slots

-- The null pointer, `none`, matches every slot.
abbrev pub matches : Option (List ℕ) → Slot → Bool
matches none s = true
matches (some name) s = name_eq s.name name

abbrev pub is_removed : Option (List ℕ) → Slot → Bool
is_removed name s = s.used && matches name s

unfoldable pub webreg_remove : Webreg → Option (List ℕ) → Webreg × Bool
webreg_remove slots name = (
  map (λ (s : Slot). if is_removed name s then record s { used = false } else s) slots,
  is_some (find_index (is_removed name) slots),
)
