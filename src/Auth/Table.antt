-- ===== src/Auth/Table.antt =====
-- The table of src/auth.c as a function from addresses to the tick at which each was last seen.
use aj.Common.{
  ℕ, ◌≡◌, ◌≢◌, refl, sym, ap, ◌∙◌, inl, inr, Bool, true, false, Option, none, some, List,
  Bool-cases, modify, get_elem?, get_or-get_elem?, find_index, IsFirst, find_index-IsFirst,
  find_index-modify_same, field_at, field_at-modify_other, field_at-modify_own, OnlyOne,
  find_index-modify_gone, OnlyOne-modify, arith,
}
use aj.Auth.{Session, no_session, is_of, expired, check_at, is_authenticated, end_session, logout}

-- When an address was last seen, if it has a session.
unfoldable pub seen : List Session → ℕ → Option ℕ
seen ss ip = field_at (λ s. s.last_seen) ss (find_index (is_of ip) ss)

-- No address has two sessions.
abbrev pub IsTable : List Session → Type 0
IsTable ss = (ip : ℕ) → OnlyOne (is_of ip) ss

-- A change of the sessions that leaves the others as they are.
abbrev pub Others : List Session → List Session → ℕ → Type 0
Others ss ss' ip = (other : ℕ) → other ≢ ip → seen ss' other ≡ seen ss other

abbrev close : Session → Session
close s = record s { valid = false }

not_other : (ip other : ℕ) (x : Session) → other ≢ ip → is_of ip x ≡ true → is_of other x ≡ false
not_other ip other x ne t = ground arith

-- The session of `ip` is `x`, in slot `i`.
module _ (ss : List Session) (ip i : ℕ) (x : Session) (h : IsTable ss)
    (e : find_index (is_of ip) ss ≡ some i) (q : get_elem? ss i ≡ some x)
    (t : is_of ip x ≡ true) where
  off : (other : ℕ) (y : Session) → other ≢ ip → get_elem? ss i ≡ some y → is_of other y ≡ false
  off other y ne r =
      let z : x ≡ y = cc (q, r) in not_other ip other y ne (ap (is_of ip) (sym z) ∙ t)

  -- The session is seen again at `tick`.
  pub refreshed :
      (tick : ℕ)
      → let ss' = modify ss i (λ s. record s { last_seen = tick }) in
        (seen ss' ip ≡ some tick) × Others ss ss' ip × IsTable ss'
  unfolding seen
  refreshed tick =
      let f : Session → Session = λ s. record s { last_seen = tick } in
      let own = find_index-modify_same (is_of ip) ss i f (λ x q. refl) ∙ e in
      (
        field_at-modify_own (λ (s : Session). s.last_seen) (is_of ip) ss i f x own q,
        λ other ne.
            field_at-modify_other (λ (s : Session). s.last_seen) (is_of other) ss i f
              (λ y r. (off other y ne r, off other y ne r)),
        λ a. OnlyOne-modify (is_of a) ss i f (λ y r u. u) (h a),
      )

  -- The session ends.
  closed :
      (seen (modify ss i close) ip ≡ none)
      × Others ss (modify ss i close) ip
      × IsTable (modify ss i close)
  unfolding seen
  closed =
      let gone : find_index (is_of ip) (modify ss i close) ≡ none =
        find_index-modify_gone (is_of ip) ss i close (h ip) e (λ y r. refl) in
      (
        rw gone (unfold field_at in refl),
        λ other ne.
            field_at-modify_other (λ (s : Session). s.last_seen) (is_of other) ss i close
              (λ y r. (off other y ne r, refl)),
        λ a. OnlyOne-modify (is_of a) ss i close (λ y r u. absurd (cc u)) (h a),
      )

  pub seen_found : seen ss ip ≡ some x.last_seen
  unfolding seen field_at
  seen_found = rw (e, q) refl

-- What a check of `ip` at `tick` does: it succeeds exactly if the address was seen at most five minutes ago,
-- and is then seen at `tick`; otherwise it has no session afterwards.
abbrev pub Checks : ℕ → List Session → ℕ → List Session × Bool → Type 0
Checks tick ss ip (ss', true) =
    ((t : ℕ) × (seen ss ip ≡ some t) × (expired tick t ≡ false))
    × (seen ss' ip ≡ some tick)
    × Others ss ss' ip
    × IsTable ss'
Checks tick ss ip (ss', false) =
    ((t : ℕ) → seen ss ip ≡ some t → expired tick t ≡ true)
    × (seen ss' ip ≡ none)
    × Others ss ss' ip
    × IsTable ss'

-- A check of an address in a table without doubles succeeds exactly if the address was seen at most 30000
-- ticks ago; then the session is refreshed, else it is ended. No other session changes.
pub is_authenticated-Checks :
    (tick : ℕ) (ss : List Session) (ip : ℕ)
    → IsTable ss
    → Checks tick ss ip (is_authenticated tick ss ip)
unfolding is_authenticated
is_authenticated-Checks tick ss ip h =
    go (find_index (is_of ip) ss) refl (find_index-IsFirst (is_of ip) ss)
  where
    go :
        (o : Option ℕ)
        → find_index (is_of ip) ss ≡ o
        → IsFirst (is_of ip) ss o
        → Checks tick ss ip (check_at tick ss o)
    go none e g =
        let unseen : seen ss ip ≡ none = unfold seen field_at in rw e refl in
        unfold check_at in ((λ t q. absurd (cc (unseen, q))), unseen, (λ other ne. refl), h)
    go (some i) e ((x, q, t), before) =
        let c = closed ss ip i x h e q t in
        let r = refreshed ss ip i x h e q t tick in
        let at_i = get_or-get_elem? ss i x no_session q in
        elim (Bool-cases (expired tick x.last_seen)) [
          | inl late ↦
              unfold check_at in
              rw (at_i, late)
                (
                  (λ u w.
                      let z : x.last_seen ≡ u = cc (seen_found ss ip i x h e q t, w) in
                      ap (expired tick) (sym z) ∙ late),
                  c.0,
                  c.1,
                  c.2,
                )
          | inr fresh ↦
              unfold check_at in
              rw (at_i, fresh) ((x.last_seen, seen_found ss ip i x h e q t, fresh), r.0, r.1, r.2)
        ]

-- After a log-out from a table without doubles the address has no session, and no other session changes.
pub logout-ends :
    (ss : List Session) (ip : ℕ)
    → IsTable ss
    → (seen (logout ss ip) ip ≡ none) × Others ss (logout ss ip) ip × IsTable (logout ss ip)
unfolding logout
logout-ends ss ip h = go (find_index (is_of ip) ss) refl (find_index-IsFirst (is_of ip) ss)
  where
    go :
        (o : Option ℕ)
        → find_index (is_of ip) ss ≡ o
        → IsFirst (is_of ip) ss o
        → (seen (end_session ss o) ip ≡ none)
          × Others ss (end_session ss o) ip
          × IsTable (end_session ss o)
    go none e g = unfold end_session in ((unfold seen field_at in rw e refl), (λ other ne. refl), h)
    go (some i) e ((x, q, t), before) = unfold end_session in closed ss ip i x h e q t
