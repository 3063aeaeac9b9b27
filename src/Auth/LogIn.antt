-- ===== src/Auth/LogIn.antt =====
-- A log-in to the table of src/auth.c.
use aj.Common.{
  ℕ, ◌≡◌, ◌≢◌, ◌⊎◌, refl, sym, ap, ◌∙◌, inl, inr, true, false, not, Option, none, some, List, ◌==◌,
  ==→eq, Bool-cases, modify, get_elem?, find_index, IsFirst, find_index-IsFirst,
  find_index-modify_new, field_at, field_at-modify_other, field_at-modify_own, OnlyOne,
  find_index-OnlyOne, find_index-modify_gone, OnlyOne-modify, OnlyOne-modify_new, arith, subst,
}
use aj.Auth.{Session, is_of, expired, session_slot, put_session, refresh_or_put, set_authenticated}
use aj.Auth.Table.{seen, IsTable, refreshed, seen_found}

-- What a log-in of `ip` at `tick` does: the address is seen at `tick`, and another one
-- loses its session only if that has expired; or nothing changes, as all slots are used and none has expired.
abbrev pub LogsIn : ℕ → List Session → ℕ → List Session → Type 0
LogsIn tick ss ip ss' =
    ((seen ss' ip ≡ some tick)
      × ((other : ℕ)
          → other ≢ ip
          → (seen ss' other ≡ seen ss other)
            ⊎ ((seen ss' other ≡ none)
                × ((t : ℕ) × (seen ss other ≡ some t) × (expired tick t ≡ true)))))
    ⊎ ((ss' ≡ ss)
        × ((j : ℕ) (x : Session)
            → get_elem? ss j ≡ some x
            → (x.valid ≡ true) × (expired tick x.last_seen ≡ false)))

module _ (tick : ℕ) (ss : List Session) (ip : ℕ) (h : IsTable ss)
    (absent : find_index (is_of ip) ss ≡ none) where
  abbrev fresh : Session
  fresh = record { ip = ip; last_seen = tick; valid = true }

  -- The new session takes slot `i`.
  written :
      (i : ℕ) (x : Session)
      → get_elem? ss i ≡ some x
      → (x.valid ≡ false) ⊎ (expired tick x.last_seen ≡ true)
      → LogsIn tick ss ip (modify ss i (λ _. fresh)) × IsTable (modify ss i (λ _. fresh))
  unfolding seen
  written i x q free =
      let new = find_index-modify_new (is_of ip) ss i (λ _. fresh) absent q (ground arith) in
      (
        inl (
          field_at-modify_own (λ (s : Session). s.last_seen) (is_of ip) ss i (λ _. fresh) x new q,
          λ other ne. elim (Bool-cases (is_of other x)) [
            | inl t ↦ inr (lost other ne t)
            | inr t ↦ inl (
                field_at-modify_other (λ (s : Session). s.last_seen) (is_of other) ss i (λ _. fresh)
                  (λ y r.
                    let z : x ≡ y = cc (q, r) in (ap (is_of other) (sym z) ∙ t, ground arith)))
          ],
        ),
        λ a. elim (Bool-cases (a == ip)) [
          | inl z ↦
              let w : a ≡ ip = ==→eq a ip z in
              subst (λ (b : ℕ). OnlyOne (is_of b) (modify ss i (λ _. fresh))) (sym w)
                (OnlyOne-modify_new (is_of ip) ss i (λ _. fresh) absent)
          | inr z ↦
              OnlyOne-modify (is_of a) ss i (λ _. fresh) (λ y r u. absurd (ground arith)) (h a)
        ],
      )
    where
      lost :
          (other : ℕ)
          → other ≢ ip
          → is_of other x ≡ true
          → (field_at
                (λ (s : Session). s.last_seen)
                (modify ss i (λ _. fresh))
                (find_index (is_of other) (modify ss i (λ _. fresh)))
              ≡ none)
            × ((t : ℕ) × (field_at (λ (s : Session). s.last_seen) ss (find_index (is_of other) ss)
                  ≡ some t)
                × (expired tick t ≡ true))
      lost other ne t =
          let only : find_index (is_of other) ss ≡ some i =
            find_index-OnlyOne (is_of other) ss i x (h other) q t in
          let gone : find_index (is_of other) (modify ss i (λ _. fresh)) ≡ none =
            find_index-modify_gone (is_of other) ss i (λ _. fresh) (h other) only
              (λ y r. ground arith) in
          (
            rw gone (unfold field_at in refl),
            (
              x.last_seen,
              seen_found ss other i x h only q t,
              elim free [ inl f ↦ absurd (ground arith) | inr f ↦ f ],
            ),
          )

  placed :
      (o : Option ℕ)
      → IsFirst (λ (s : Session). not s.valid) ss o
      → LogsIn tick ss ip (put_session tick ss ip (session_slot tick ss o))
        × IsTable (put_session tick ss ip (session_slot tick ss o))
  unfolding put_session session_slot
  placed (some i) ((x, q, f), before) = written i x q (inl (ground arith))
  placed none g =
      late (find_index (λ (s : Session). expired tick s.last_seen) ss)
        (find_index-IsFirst (λ (s : Session). expired tick s.last_seen) ss)
    where
      late :
          (o : Option ℕ)
          → IsFirst (λ (s : Session). expired tick s.last_seen) ss o
          → LogsIn tick ss ip (put_session tick ss ip o) × IsTable (put_session tick ss ip o)
      late none k = (inr (refl, λ j y q. (ground (arith, g j y q), k j y q)), h)
      late (some i) ((x, q, f), before) = written i x q (inr f)

-- A log-in to a table without doubles makes the address seen at `tick`, and another address
-- loses its session only if that has expired; or it changes nothing, and then every slot has a session that has
-- not expired. The table still has no doubles.
pub set_authenticated-LogsIn :
    (tick : ℕ) (ss : List Session) (ip : ℕ)
    → IsTable ss
    → LogsIn tick ss ip (set_authenticated tick ss ip) × IsTable (set_authenticated tick ss ip)
unfolding set_authenticated
set_authenticated-LogsIn tick ss ip h =
    go (find_index (is_of ip) ss) refl (find_index-IsFirst (is_of ip) ss)
  where
    go :
        (o : Option ℕ)
        → find_index (is_of ip) ss ≡ o
        → IsFirst (is_of ip) ss o
        → LogsIn tick ss ip (refresh_or_put tick ss ip o) × IsTable (refresh_or_put tick ss ip o)
    go none e g =
        unfold refresh_or_put in
        placed tick ss ip h e _ (find_index-IsFirst (λ (s : Session). not s.valid) ss)
    go (some i) e ((x, q, t), before) =
        let r = refreshed ss ip i x h e q t tick in
        unfold refresh_or_put in (inl (r.0, λ other ne. inl (r.1 other ne)), r.2)
