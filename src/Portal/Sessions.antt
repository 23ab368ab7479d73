-- ===== src/Portal/Sessions.antt =====
-- `MemorySessionStore` of portal/sessions.py. The clock's readings and the new tokens are arguments;
-- the dict keeps its keys in the order of their insertion.
pub mod Room
pub mod Laws
use modular_discord_bot_oper.Common.{
  ℕ, zero, suc, ◌+◌, String, Bool, true, false, Option, none, some, List, [], ◌∷◌, ◌&&◌, ltb, leb,
  length, str_eq, if◌then◌else◌,
}
use modular_discord_bot_oper.Common.Dict.{Dict, lookup, insert, erase}

pub record PortalSession : Type 0 where
  pub session_id : String
  pub csrf_token : String
  pub identity_id : Option String
  pub created_at : ℕ
  pub last_seen_at : ℕ
  pub absolute_expires_at : ℕ
  pub session_revision : ℕ

pub record SessionStore : Type 0 where
  pub idle_timeout : ℕ
  pub absolute_timeout : ℕ
  pub max_sessions : ℕ
  pub sessions : Dict PortalSession

-- Neither of the two limits is reached.
unfoldable pub is_live : ℕ → ℕ → PortalSession → Bool
is_live idle now session =
    ltb now session.absolute_expires_at && ltb now (session.last_seen_at + idle)

unfoldable pub live_part : ℕ → ℕ → Dict PortalSession → Dict PortalSession
live_part idle now [] = []
live_part idle now ((k, v) ∷ d) =
    let rest = live_part idle now d in if is_live idle now v then (k, v) ∷ rest else rest

-- `cleanup`, without its count
unfoldable pub cleanup : ℕ → SessionStore → SessionStore
unfolding live_part
cleanup now store = record store { sessions = live_part store.idle_timeout now store.sessions }

-- `min(..., key=lambda item: item.last_seen_at)`: the first of the least.
unfoldable pub oldest : PortalSession → Dict PortalSession → PortalSession
oldest least [] = least
oldest least ((k, v) ∷ d) = oldest (if ltb v.last_seen_at least.last_seen_at then v else least) d

-- The `while` loop of `create` with `fuel` rounds left; `none` is the `ValueError` of `min` on an
-- empty dict, or no round left.
unfoldable pub evict : ℕ → ℕ → Dict PortalSession → Option (Dict PortalSession)
evict fuel limit [] = if ltb 0 limit then some [] else none
evict zero limit ((k, v) ∷ d) = if ltb (length ((k, v) ∷ d)) limit then some ((k, v) ∷ d) else none
evict (suc fuel) limit ((k, v) ∷ d) =
    let rest = evict fuel limit (erase (oldest v d).session_id ((k, v) ∷ d)) in
    if ltb (length ((k, v) ∷ d)) limit then some ((k, v) ∷ d) else rest

-- The session that `create` makes.
abbrev pub new_session : String → String → Option String → ℕ → ℕ → ℕ → PortalSession
new_session token csrf identity revision now absolute = record {
  session_id = token;
  csrf_token = csrf;
  identity_id = identity;
  created_at = now;
  last_seen_at = now;
  absolute_expires_at = now + absolute;
  session_revision = revision;
}

-- `create`: `cleaned` and `now` are the two readings of the clock.
unfoldable pub create :
    String
    → String
    → Option String
    → ℕ
    → ℕ
    → ℕ
    → SessionStore
    → Option (PortalSession × SessionStore)
create token csrf identity revision cleaned now store =
    elim (evict (length (cleanup cleaned store).sessions) store.max_sessions
      (cleanup cleaned store).sessions) [
        | none ↦ none
        | some kept ↦ some (
          new_session token csrf identity revision now store.absolute_timeout,
          record store {
            sessions =
                insert token (new_session token csrf identity revision now store.absolute_timeout)
                  kept;
          },
        )
      ]

unfoldable pub get : String → ℕ → SessionStore → Option PortalSession × SessionStore
get id now store = elim (lookup id store.sessions) [
  | none ↦ (none, store)
  | some session ↦
      if is_live store.idle_timeout now session
      then (
        some (record session { last_seen_at = now }),
        record store {
          sessions = insert id (record session { last_seen_at = now }) store.sessions;
        },
      )
      else (none, record store { sessions = erase id store.sessions })
]

unfoldable pub invalidate : String → SessionStore → SessionStore
invalidate id store = record store { sessions = erase id store.sessions }

unfoldable pub rotate :
    String
    → String
    → String
    → String
    → ℕ
    → ℕ
    → ℕ
    → SessionStore
    → Option (PortalSession × SessionStore)
rotate id token csrf identity revision cleaned now store =
    create token csrf (some identity) revision cleaned now (invalidate id store)

abbrev is_of : String → Option String → Bool
is_of identity none = false
is_of identity (some j) = str_eq j identity

unfoldable pub without_identity : String → Dict PortalSession → Dict PortalSession
without_identity identity [] = []
without_identity identity ((k, v) ∷ d) =
    let rest = without_identity identity d in
    if is_of identity v.identity_id then rest else (k, v) ∷ rest

-- `invalidate_identity`, without its count
unfoldable pub invalidate_identity : String → SessionStore → SessionStore
unfolding without_identity
invalidate_identity identity store = record store {
  sessions = without_identity identity store.sessions;
}
