-- ===== src/Auth.antt =====
-- The sessions of the firewall, src/auth.c: the addresses that have logged in, each with the tick at which it
-- was last seen. The timer is an argument; a difference of ticks wraps round as in C.
use aj.Common.{
  ℕ, ◌+◌, ◌-◌, ◌*◌, ◌^◌, Bool, true, false, not, ◌&&◌, Option, none, some, List, map, ◌==◌, ltb,
  if◌then◌else◌, modify, get_or, find_index, field_at, u32,
}
pub mod Table
pub mod LogIn
pub mod Firewall
mod Tests

abbrev pub max_auth_ips : ℕ
max_auth_ips = 50

abbrev pub timeout_ticks : ℕ
timeout_ticks = 5 * 60 * 100

-- `struct auth_entry`
pub record Session : Type 0 where
  pub ip : ℕ
  pub last_seen : ℕ
  pub valid : Bool

abbrev pub no_session : Session
no_session = record { ip = 0; last_seen = 0; valid = false }

pub auth_init : List Session → List Session
auth_init sessions = map {A = Session} (λ s. record s { valid = false }) sessions

abbrev pub is_of : ℕ → Session → Bool
is_of ip s = s.valid && s.ip == ip

-- `pit_ticks - last_seen > AUTH_TIMEOUT_TICKS`
abbrev pub expired : ℕ → ℕ → Bool
expired tick last_seen = ltb timeout_ticks (u32 (tick + 2 ^ 32 - last_seen))

-- The slot for a new session: an unused one, else the first that has expired.
unfoldable pub session_slot : ℕ → List Session → Option ℕ → Option ℕ
session_slot tick sessions (some i) = some i
session_slot tick sessions none = find_index (λ s. expired tick s.last_seen) sessions

unfoldable pub put_session : ℕ → List Session → ℕ → Option ℕ → List Session
put_session tick sessions ip none = sessions
put_session tick sessions ip (some i) =
    modify sessions i (λ _. record { ip = ip; last_seen = tick; valid = true })

unfoldable pub refresh_or_put : ℕ → List Session → ℕ → Option ℕ → List Session
unfolding put_session session_slot
refresh_or_put tick sessions ip (some i) = modify sessions i (λ s. record s { last_seen = tick })
refresh_or_put tick sessions ip none =
    put_session tick sessions ip
      (session_slot tick sessions (find_index (λ s. not s.valid) sessions))

unfoldable pub set_authenticated : ℕ → List Session → ℕ → List Session
unfolding refresh_or_put
set_authenticated tick sessions ip =
    refresh_or_put tick sessions ip (find_index (is_of ip) sessions)

unfoldable pub check_at : ℕ → List Session → Option ℕ → List Session × Bool
check_at tick sessions none = (sessions, false)
check_at tick sessions (some i) =
    if expired tick (get_or sessions i no_session).last_seen
    then (modify sessions i (λ s. record s { valid = false }), false)
    else (modify sessions i (λ s. record s { last_seen = tick }), true)

-- `auth_is_authenticated`: it also refreshes the session, or ends it.
unfoldable pub is_authenticated : ℕ → List Session → ℕ → List Session × Bool
unfolding check_at
is_authenticated tick sessions ip = check_at tick sessions (find_index (is_of ip) sessions)

unfoldable pub end_session : List Session → Option ℕ → List Session
end_session sessions none = sessions
end_session sessions (some i) = modify sessions i (λ s. record s { valid = false })

unfoldable pub logout : List Session → ℕ → List Session
unfolding end_session
logout sessions ip = end_session sessions (find_index (is_of ip) sessions)
