-- ===== src/Portal/Identities/SessionTable.antt =====
-- `SQLiteSessionStore` of portal/sessions.py over the table `portal_sessions`. `digest` is the
-- SHA-256 of a token; the clock's readings and the new tokens are arguments.
use modular_discord_bot_oper.Common.{
  ℕ, ◌+◌, String, Bool, true, Option, none, some, List, [], ◌∷◌, ◌++◌, map, not, ◌&&◌, ◌||◌, ltb,
  leb, length, select, any, is_some, str_eq, if◌then◌else◌, Result, ok, err,
}
use modular_discord_bot_oper.Portal.Sessions.{PortalSession, new_session}
use modular_discord_bot_oper.Portal.Identities.{
  Database, StoredSession, IdentityError, integrity, find_by_id, first, without_sessions,
}

pub record Settings : Type 0 where
  pub idle_timeout : ℕ
  pub absolute_timeout : ℕ
  pub max_sessions : ℕ

abbrev pub has_digest : String → StoredSession → Bool
has_digest d s = str_eq s.token_digest d

-- `now >= absolute or now - seen >= self.idle_timeout`
abbrev pub is_over : Settings → ℕ → StoredSession → Bool
is_over set now s = leb s.absolute_expires_at now || leb (s.last_seen_at + set.idle_timeout) now

-- `cleanup`, without its count: `now` and `cutoff_now` are the two readings of the clock.
unfoldable pub cleanup : Settings → ℕ → ℕ → Database → Database
cleanup set now cutoff_now db = record db {
  sessions =
      select
        (λ s.
          not (leb s.absolute_expires_at now || leb (s.last_seen_at + set.idle_timeout) cutoff_now))
        db.sessions;
}

-- `ORDER BY last_seen_at LIMIT 1`: a row that was seen the longest ago.
unfoldable pub least_seen : StoredSession → List StoredSession → StoredSession
least_seen least [] = least
least_seen least (s ∷ ss) =
    least_seen (if ltb s.last_seen_at least.last_seen_at then s else least) ss

-- The deletion of `create`: every row with that row's key.
unfoldable pub delete_least : List StoredSession → List StoredSession
unfolding least_seen
delete_least [] = []
delete_least (s ∷ ss) =
    let least = least_seen s ss in select (λ t. not (has_digest least.token_digest t)) (s ∷ ss)

-- The foreign key of the table.
abbrev pub is_known : Option String → Database → Bool
is_known none db = true
is_known (some id) db = is_some (find_by_id id db)

module _ (digest : String → String) where
  abbrev pub stored : PortalSession → StoredSession
  stored s = record {
    token_digest = digest s.session_id;
    csrf_token = s.csrf_token;
    identity_id = s.identity_id;
    session_revision = s.session_revision;
    created_at = s.created_at;
    last_seen_at = s.last_seen_at;
    absolute_expires_at = s.absolute_expires_at;
  }

  -- The transaction of `create`: a row that the constraints refuse undoes the deletion too.
  unfoldable pub insert_session :
      Settings → PortalSession → Database → Result IdentityError PortalSession × Database
  unfolding delete_least
  insert_session set s db =
      let rows =
        if leb set.max_sessions (length db.sessions)
        then delete_least db.sessions
        else db.sessions in
      if is_known s.identity_id db && not (any (has_digest (digest s.session_id)) rows)
      then (ok s, record db { sessions = rows ++ stored s ∷ [] })
      else (err integrity, db)

  unfoldable pub create :
      Settings
      → (token csrf : String) → Option String
      → (revision cleaned cutoff now : ℕ) → Database
      → Result IdentityError PortalSession × Database
  unfolding insert_session cleanup
  create set token csrf identity revision cleaned cutoff now db =
      insert_session set (new_session token csrf identity revision now set.absolute_timeout)
        (cleanup set cleaned cutoff db)

  abbrev pub seen : ℕ → StoredSession → StoredSession
  seen now s = record s { last_seen_at = now }

  unfoldable pub get : Settings → String → ℕ → Database → Option PortalSession × Database
  get set token now db = elim (first (has_digest (digest token)) db.sessions) [
    | none ↦ (none, db)
    | some row ↦
        if is_over set now row
        then (
          none,
          record db { sessions = select (λ s. not (has_digest (digest token) s)) db.sessions },
        )
        else (
          some (record {
            session_id = token;
            csrf_token = row.csrf_token;
            identity_id = row.identity_id;
            created_at = row.created_at;
            last_seen_at = now;
            absolute_expires_at = row.absolute_expires_at;
            session_revision = row.session_revision;
          }),
          record db {
            sessions = map (λ s. if has_digest (digest token) s then seen now s else s) db.sessions;
          },
        )
  ]

  unfoldable pub invalidate : String → Database → Database
  invalidate token db = record db {
    sessions = select (λ s. not (has_digest (digest token) s)) db.sessions;
  }

  unfoldable pub rotate :
      Settings
      → (session token csrf : String) → String
      → (revision cleaned cutoff now : ℕ) → Database
      → Result IdentityError PortalSession × Database
  unfolding invalidate create
  rotate set session token csrf identity revision cleaned cutoff now db =
      create set token csrf (some identity) revision cleaned cutoff now (invalidate session db)

-- `invalidate_identity`, without its count
unfoldable pub invalidate_identity : String → Database → Database
unfolding without_sessions
invalidate_identity id db = record db { sessions = without_sessions id db.sessions }
