-- ===== src/Auth/Tests.antt =====
-- Examples of the sessions of src/auth.c.
use aj.Common.{ℕ, List, [], ◌∷◌}
use aj.Auth.{set_authenticated, is_authenticated}
use aj.Auth.Table.{IsTable, Checks, is_authenticated-Checks}
use aj.Auth.LogIn.{LogsIn, set_authenticated-LogsIn}
use aj.Auth.Firewall.{Event, login, packet, sessions_after, sessions_after-Explained}

abbrev alice : ℕ
alice = 0x0a00_0205

abbrev bob : ℕ
bob = 0x0a00_0206

-- The last event is the first of the list.
abbrev events : List Event
events = packet 7 bob ∷ login 5 alice ∷ []

events-IsTable : IsTable (sessions_after events)
events-IsTable = (sessions_after-Explained events).1

is_authenticated-Checks_example :
    Checks 9 (sessions_after events) alice (is_authenticated 9 (sessions_after events) alice)
is_authenticated-Checks_example =
    is_authenticated-Checks 9 (sessions_after events) alice events-IsTable

set_authenticated-LogsIn_example :
    LogsIn 9 (sessions_after events) bob (set_authenticated 9 (sessions_after events) bob)
    × IsTable (set_authenticated 9 (sessions_after events) bob)
set_authenticated-LogsIn_example =
    set_authenticated-LogsIn 9 (sessions_after events) bob events-IsTable
