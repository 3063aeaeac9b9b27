-- ===== src/Webreg/Tests.antt =====
-- Examples of the registry of src/webreg.c.
use aj.Common.{
  ℕ, zero, suc, ◌+◌, ◌≤◌, ◌≡◌, ◌≢◌, false, List, [], ◌∷◌, some, none, replicate, refl, arith,
  length, get_elem?, find_index, same_bytes, length-replicate,
}
use aj.Webreg.{
  Slot, Webreg, no_apps, webreg_appcap, is_named, stored_name, webreg_install, install_at,
  install_free, write_text, end_text, webreg_lookup, webreg_list,
}
use aj.Webreg.Laws.{Installs, webreg_install-Installs}
use aj.Webreg.Cuts.{IsTidy, cut_name-lookup, install-removes_next, length-webreg_list}

-- The names "app" and "my app".
abbrev app : List ℕ
app = 97 ∷ 112 ∷ 112 ∷ []

abbrev my_app : List ℕ
my_app = 109 ∷ 121 ∷ 32 ∷ 97 ∷ 112 ∷ 112 ∷ []

abbrev script : List ℕ
script = 1 ∷ 2 ∷ 3 ∷ []

app_whole : stored_name 31 app ≡ app
unfolding stored_name
app_whole = refl

webreg_install-Installs_example : Installs no_apps app script (webreg_install no_apps app script)
webreg_install-Installs_example =
    webreg_install-Installs no_apps app script app_whole refl refl (omega arith)

abbrev no_app : Slot
no_app = record { used = false; name = []; text = [] }

all_unused : (n j : ℕ) (s : Slot) → get_elem? (replicate n no_app) j ≡ some s → no_app ≡ s
all_unused zero j s q = absurd (cc q)
all_unused (suc n) zero s q = cc
all_unused (suc n) (suc j) s q = all_unused n j s q

no_apps-IsTidy : IsTidy no_apps
no_apps-IsTidy j s q u = absurd (cc (rw (← (all_unused 8 j s q)) at u))

my_app_cut : stored_name 31 my_app ≢ my_app
unfolding stored_name
my_app_cut e = cc e

cut_name-lookup_example :
    (webreg_lookup (webreg_install no_apps my_app script).0 my_app ≡ none)
    × IsTidy (webreg_install no_apps my_app script).0
cut_name-lookup_example = cut_name-lookup no_apps my_app script no_apps-IsTidy my_app_cut

-- Two applications, and then a text of 20480 bytes for the first one.
abbrev two_apps : Webreg
two_apps = (webreg_install (webreg_install no_apps app script).0 (98 ∷ []) script).0

abbrev long_text : List ℕ
long_text = replicate 20480 65

long_text-length : webreg_appcap ≤ length long_text
long_text-length = omega (arith, length-replicate {A = ℕ} 20480 65)

reported : (webreg_install two_apps app long_text).1 ≡ some 0
unfolding webreg_install install_at install_free write_text end_text find_index is_named same_bytes
    stored_name
reported = refl

abbrev second_slot : Slot
second_slot = record { used = false; name = 98 ∷ []; text = script }

second_after : get_elem? (webreg_install two_apps app long_text).0 1 ≡ some second_slot
unfolding webreg_install install_at install_free write_text end_text find_index is_named same_bytes
    stored_name
second_after = refl

install-removes_next_example : second_slot.used ≡ false
install-removes_next_example =
    install-removes_next two_apps app long_text 0 second_slot long_text-length reported second_after

length-webreg_list_example : length (webreg_list two_apps 64) + 1 ≤ 64
length-webreg_list_example = length-webreg_list two_apps 64 (omega arith)
