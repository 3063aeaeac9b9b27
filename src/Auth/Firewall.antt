-- ===== src/Auth/Firewall.antt =====
-- The sessions of src/auth.c over time: log-ins, log-outs and packets, in any order.
use aj.Common.{
  ℕ, ◌≡◌, ◌≢◌, refl, sym, ap, ◌∙◌, inl, inr, Bool, true, false, Option, none, some, List, [], ◌∷◌,
  ◌==◌, ==→eq, if◌then◌else◌, Bool-cases, replicate, zero, suc, get_elem?, field_at, IsFirst,
  find_index-IsFirst, arith,
}
use aj.Auth.{
  Session, no_session, max_auth_ips, is_of, auth_init, set_authenticated, is_authenticated, logout,
}
use aj.Auth.Table.{seen, IsTable, Others, Checks, is_authenticated-Checks, logout-ends}
use aj.Auth.LogIn.{LogsIn, set_authenticated-LogsIn}

-- A log-in or a packet of an address at a tick, or a log-out.
pub data Event : Type 0 where
  login packet : ℕ → ℕ → Event
  leave : ℕ → Event

-- The table after some events, the last one first.
unfoldable pub sessions_after : List Event → List Session
sessions_after [] = auth_init (replicate max_auth_ips no_session)
sessions_after (login tick ip ∷ es) = set_authenticated tick (sessions_after es) ip
sessions_after (packet tick ip ∷ es) = (is_authenticated tick (sessions_after es) ip).0
sessions_after (leave ip ∷ es) = logout (sessions_after es) ip

-- The last event of the address that is a log-in or a log-out is a log-in.
unfoldable pub logged_in : List Event → ℕ → Bool
logged_in [] a = false
logged_in (login tick ip ∷ es) a = if a == ip then true else logged_in es a
logged_in (packet tick ip ∷ es) a = logged_in es a
logged_in (leave ip ∷ es) a = if a == ip then false else logged_in es a

-- Every address with a session has logged in, and not out since.
abbrev pub Explained : List Event → List Session → Type 0
Explained es ss = (a t : ℕ) → seen ss a ≡ some t → logged_in es a ≡ true

init-unseen :
    (ss : List Session) (j : ℕ) (x : Session)
    → get_elem? (auth_init ss) j ≡ some x
    → x.valid ≡ false
unfolding auth_init
init-unseen [] j x q = absurd (cc q)
init-unseen (s ∷ ss) zero x q = let z : record s { valid = false } ≡ x = cc q in rw (← z) refl
init-unseen (s ∷ ss) (suc j) x q = init-unseen ss j x (unfold auth_init in q)

init-IsTable : (ss : List Session) → IsTable (auth_init ss)
init-IsTable ss ip i j x y q r u v =
    let off : x.valid ≡ false = init-unseen ss i x q in absurd (ground arith)

init-Explained : (ss : List Session) → Explained [] (auth_init ss)
unfolding seen field_at
init-Explained ss a t h = absurd (go _ (find_index-IsFirst (is_of a) (auth_init ss)) h)
  where
    go :
        (o : Option ℕ)
        → IsFirst (is_of a) (auth_init ss) o
        → field_at (λ (s : Session). s.last_seen) (auth_init ss) o ≢ some t
    go none g h = absurd (cc h)
    go (some i) ((x, q, u), before) h =
        let off : x.valid ≡ false = init-unseen ss i x q in absurd (ground arith)

-- Who has a session after a packet had one before.
packet_seen :
    (tick : ℕ) (ss : List Session) (ip : ℕ) (r : List Session × Bool)
    → Checks tick ss ip r
    → (a t : ℕ) → seen r.0 a ≡ some t
    → (u : ℕ) × (seen ss a ≡ some u)
packet_seen tick ss ip (ss', true) ((v, q, f), own, others, table) a t r =
    elim (Bool-cases (a == ip)) [
      | inl e ↦ let z : a ≡ ip = ==→eq a ip e in (v, ap (seen ss) z ∙ q)
      | inr e ↦ (t, sym (others a (λ z. ground arith)) ∙ r)
    ]
packet_seen tick ss ip (ss', false) (f, own, others, table) a t r = elim (Bool-cases (a == ip)) [
  | inl e ↦ let z : a ≡ ip = ==→eq a ip e in absurd (cc (own, r, z))
  | inr e ↦ (t, sym (others a (λ z. ground arith)) ∙ r)
]

packet-IsTable :
    (tick : ℕ) (ss : List Session) (ip : ℕ) (r : List Session × Bool)
    → Checks tick ss ip r
    → IsTable r.0
packet-IsTable tick ss ip (ss', true) c = c.3
packet-IsTable tick ss ip (ss', false) c = c.3

login-Explained :
    (es : List Event) (tick : ℕ) (ss ss' : List Session) (ip : ℕ)
    → LogsIn tick ss ip ss'
    → Explained es ss
    → Explained (login tick ip ∷ es) ss'
unfolding logged_in
login-Explained es tick ss ss' ip h x a t r = elim (Bool-cases (a == ip)) [
  | inl e ↦ rw e
  | inr e ↦ rw e (elim h [
    | inl w ↦ elim (w.1 a (λ z. ground arith)) [
      | inl same ↦ x a t (sym same ∙ r)
      | inr lost ↦ absurd (cc (lost.0, r))
    ]
    | inr w ↦ x a t (ap (λ (z : List Session). seen z a) (sym w.0) ∙ r)
  ])
]

packet-Explained :
    (es : List Event) (tick : ℕ) (ss : List Session) (ip : ℕ) (r : List Session × Bool)
    → Checks tick ss ip r
    → Explained es ss
    → Explained (packet tick ip ∷ es) r.0
unfolding logged_in
packet-Explained es tick ss ip r c x a t q =
    let (u, w) = packet_seen tick ss ip r c a t q in x a u w

leave-Explained :
    (es : List Event) (ss ss' : List Session) (ip : ℕ)
    → seen ss' ip ≡ none
    → Others ss ss' ip
    → Explained es ss
    → Explained (leave ip ∷ es) ss'
unfolding logged_in
leave-Explained es ss ss' ip gone others x a t r = elim (Bool-cases (a == ip)) [
  | inl e ↦ let z : a ≡ ip = ==→eq a ip e in absurd (cc (gone, r, z))
  | inr e ↦ rw e (x a t (sym (others a (λ z. ground arith)) ∙ r))
]

pub sessions_after-Explained :
    (es : List Event) → Explained es (sessions_after es) × IsTable (sessions_after es)
unfolding sessions_after
sessions_after-Explained [] = (init-Explained _, init-IsTable _)
sessions_after-Explained (login tick ip ∷ es) =
    let (x, h) = sessions_after-Explained es in
    let (l, t) = set_authenticated-LogsIn tick (sessions_after es) ip h in
    (login-Explained es tick (sessions_after es) _ ip l x, t)
sessions_after-Explained (packet tick ip ∷ es) =
    let (x, h) = sessions_after-Explained es in
    let c = is_authenticated-Checks tick (sessions_after es) ip h in
    (
      packet-Explained es tick (sessions_after es) ip _ c x,
      packet-IsTable tick (sessions_after es) ip _ c,
    )
sessions_after-Explained (leave ip ∷ es) =
    let (x, h) = sessions_after-Explained es in
    let (gone, others, table) = logout-ends (sessions_after es) ip h in
    (leave-Explained es (sessions_after es) _ ip gone others x, table)

-- An address that `auth_is_authenticated` finds, whatever log-ins, log-outs and packets there have been since the
-- start, has logged in, and has not logged out since then.
pub allowed-logged_in :
    (es : List Event) (tick ip : ℕ)
    → (is_authenticated tick (sessions_after es) ip).1 ≡ true
    → logged_in es ip ≡ true
allowed-logged_in es tick ip =
    let (x, h) = sessions_after-Explained es in
    go x _ (is_authenticated-Checks tick (sessions_after es) ip h)
  where
    go :
        Explained es (sessions_after es)
        → (r : List Session × Bool) → Checks tick (sessions_after es) ip r
        → r.1 ≡ true
        → logged_in es ip ≡ true
    go x (ss', true) ((t, q, f), own, others, table) e = x ip t q
    go x (ss', false) c e = absurd (cc e)
