-- ===== src/Portal/Sessions/Laws.antt =====
-- The operations of the session store of portal/sessions.py.
use modular_discord_bot_oper.Common.{
  ℕ, zero, suc, ◌+◌, ◌<◌, ◌≤◌, String, Option, none, some, [], ◌∷◌, ◌≡◌, ◌≢◌, refl, ◌∙◌, arith,
  length, ltb, eq_iff, eq_refl, Bool-cases, Option-cases, inl, inr,
}
use modular_discord_bot_oper.Common.Dict.{
  Dict, lookup, insert, erase, lookup-insert, lookup-erase, lookup-insert_self,
}
use modular_discord_bot_oper.Portal.Sessions.{
  PortalSession, SessionStore, is_live, live_part, cleanup, oldest, evict, new_session, create, get,
  invalidate, rotate,
}
use modular_discord_bot_oper.Portal.Sessions.Room.{
  IsKeyed, length-insert-le, IsKeyed-erase, IsKeyed-live_part, evict-total, evict-lt,
  IsKeyed-insert, IsKeyed-evict, lookup-IsKeyed,
}

-- A session that `get` returns was in the store, has reached neither limit, and is the same but for
-- the time it was last seen.
pub get-IsLive :
    (id : String) (now : ℕ) (store : SessionStore) {session : PortalSession}
    → (get id now store).0 ≡ some session
    → (old : PortalSession) × (lookup id store.sessions ≡ some old)
      × (now < old.absolute_expires_at)
      × (now < old.last_seen_at + store.idle_timeout)
      × (session ≡ record old { last_seen_at = now })
unfolding get is_live
get-IsLive id now store {session} h = elim (Option-cases (lookup id store.sessions)) [
  | inl absent ↦ absurd (cc (rw (absent, get) at h))
  | inr (old, found) ↦ elim (Bool-cases (is_live store.idle_timeout now old)) [
    | inr dead ↦ absurd (cc (rw (found, dead, get) at h))
    | inl live ↦ (old, found, ground arith, ground arith, cc (rw (found, live, get) at h))
  ]
]

-- Reading a session, which renews it or removes it, keeps each session under its own id.
get-IsKeyed :
    (id : String) (now : ℕ) (store : SessionStore)
    → IsKeyed store.sessions
    → IsKeyed (get id now store).1.sessions
unfolding get
get-IsKeyed id now store keyed = elim (Option-cases (lookup id store.sessions)) [
  | inl absent ↦ rw (absent, get) keyed
  | inr (old, found) ↦ elim (Bool-cases (is_live store.idle_timeout now old)) [
    | inl live ↦
        rw (found, live, get)
          (IsKeyed-insert id (record old { last_seen_at = now }) store.sessions
            (lookup-IsKeyed id store.sessions keyed found) keyed)
    | inr dead ↦ rw (found, dead, get) (IsKeyed-erase id store.sessions keyed)
  ]
]

-- What is not in a dict is in no part of it.
lookup-live_part :
    (id : String) (idle now : ℕ) (d : Dict PortalSession)
    → lookup id d ≡ none
    → lookup id (live_part idle now d) ≡ none
unfolding lookup live_part
lookup-live_part id idle now [] h = refl
lookup-live_part id idle now ((k, v) ∷ d) h = ground (arith, lookup-live_part id idle now d)

lookup-evict :
    (id : String) (fuel limit : ℕ) (d : Dict PortalSession) {kept : Dict PortalSession}
    → lookup id d ≡ none
    → evict fuel limit d ≡ some kept
    → lookup id kept ≡ none
unfolding evict
lookup-evict id fuel limit [] absent h = ground arith
lookup-evict id zero limit ((k, v) ∷ d) absent h = ground arith
lookup-evict id (suc fuel) limit ((k, v) ∷ d) absent h =
    elim (Bool-cases (ltb (length ((k, v) ∷ d)) limit)) [
      | inl room ↦ ground arith
      | inr full ↦
          (let old = (oldest v d).session_id in
            lookup-evict id fuel limit (erase old ((k, v) ∷ d))
              (ground (arith, lookup-erase old id ((k, v) ∷ d))) (rw full at h))
    ]

module _ (token csrf : String) (identity : Option String) (revision cleaned now : ℕ)
    (store : SessionStore) where
  -- Where each session stands under its own id and the limit is not zero, the loop that makes room
  -- ends: `create` returns a session, which the store then has, and the store holds at most as many as
  -- its limit, each still under its own id.
  pub create-total :
      0 < store.max_sessions
      → IsKeyed store.sessions
      → (session : PortalSession) × (after : SessionStore) × (create token csrf identity revision
            cleaned now store
          ≡ some (session, after))
        × (length after.sessions ≤ store.max_sessions)
        × (lookup token after.sessions ≡ some session)
        × IsKeyed after.sessions
  unfolding create cleanup
  create-total positive keyed =
      let d = live_part store.idle_timeout cleaned store.sessions in
      let live = IsKeyed-live_part store.idle_timeout cleaned store.sessions keyed in
      let (kept, e) = evict-total (length d) store.max_sessions d (omega arith) positive live in
      let made = new_session token csrf identity revision now store.absolute_timeout in
      (
        made,
        record store { sessions = insert token made kept },
        rw (e, create) refl,
        omega (arith, evict-lt (length d) store.max_sessions d e, length-insert-le token made kept),
        lookup-insert_self token made kept,
        IsKeyed-insert token made kept refl (IsKeyed-evict (length d) store.max_sessions d live e),
      )

  create-fresh :
      (id : String) {session : PortalSession} {after : SessionStore}
      → id ≢ token
      → lookup id store.sessions ≡ none
      → create token csrf identity revision cleaned now store ≡ some (session, after)
      → lookup id after.sessions ≡ none
  unfolding create cleanup
  create-fresh id {after = after} ne absent h =
      let d = live_part store.idle_timeout cleaned store.sessions in
      elim (Option-cases (evict (length d) store.max_sessions d)) [
        | inl failed ↦ absurd (cc (rw (failed, create) at h))
        | inr (kept, e) ↦
            (let made = new_session token csrf identity revision now store.absolute_timeout in
              let same : record store { sessions = insert token made kept } ≡ after =
                cc (rw (e, create) at h) in
              let gone =
                lookup-evict id (length d) store.max_sessions d
                  (lookup-live_part id store.idle_timeout cleaned store.sessions absent) e in
              rw⁻¹ same (ground (arith, lookup-insert token id made kept, eq_iff token id, gone)))
      ]

-- After a rotation the old session's id is unknown to the store.
pub rotate-forgets :
    (id token csrf identity : String) (revision cleaned now : ℕ) (store : SessionStore)
    {session : PortalSession} {after : SessionStore}
    → id ≢ token
    → rotate id token csrf identity revision cleaned now store ≡ some (session, after)
    → lookup id after.sessions ≡ none
unfolding rotate invalidate
rotate-forgets id token csrf identity revision cleaned now store ne h =
    create-fresh token csrf (some identity) revision cleaned now (invalidate id store) id ne
      (lookup-erase id id store.sessions ∙ rw eq_refl refl) h
