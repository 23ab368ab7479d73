-- ===== src/Portal/Identities.antt =====
-- portal/identity.py: `PortalIdentity`, `SQLiteIdentityStore` and `PortalAuthenticator`. The database
-- holds the identities and the sessions in the order of their insertion; sets are lists. The clock's
-- readings and new ids are arguments, and the calls are taken one after another.
pub mod Examples
pub mod Sound
pub mod Updates
pub mod Preserved
pub mod SessionTable
pub mod Commands
pub mod Access
pub mod Audited
use modular_discord_bot_oper.Common.{
  ℕ, ◌+◌, String, Bool, true, false, Option, none, some, List, [], ◌∷◌, ◌++◌, map, not, ◌==◌, ◌&&◌,
  ◌||◌, leb, ltb, length, select, any, all, is_some, str_eq, if◌then◌else◌, Result, ok, err,
}
use modular_discord_bot_oper.Common.Text.{codes, text_length}
use modular_discord_bot_oper.Common.Fallible.{◌>>=◌, ◌>>◌, refuse, ensure}
use modular_discord_bot_oper.Portal.Authorization.{Principal, known_permissions, contains}

pub record PortalIdentity : Type 0 where
  pub identity_id : String
  pub login : String
  pub password_hash : String
  pub enabled : Bool
  pub permissions : List String
  pub bot_ids : Option (List String)
  pub created_at : ℕ
  pub updated_at : ℕ
  pub last_login_at : Option ℕ
  pub session_revision : ℕ
  pub administrator : Bool
  pub row_version : ℕ

-- A row of `portal_sessions`.
pub record StoredSession : Type 0 where
  pub token_digest : String
  pub csrf_token : String
  pub identity_id : Option String
  pub session_revision : ℕ
  pub created_at : ℕ
  pub last_seen_at : ℕ
  pub absolute_expires_at : ℕ

pub record Database : Type 0 where
  pub identities : List PortalIdentity
  pub sessions : List StoredSession

-- The exceptions; `integrity` is the database's `IntegrityError`.
pub data IdentityError : Type 0 where
  invalid_login unknown_permission unknown_bot identity_not_found : IdentityError
  concurrently_modified last_administrator integrity : IdentityError
  passwords_differ password_length usage : IdentityError

-- `CANONICAL_BOT_IDS`
abbrev pub canonical_bot_ids : List String
canonical_bot_ids = "cda-admin" ∷ "cda-pay" ∷ "unbot" ∷ "rpa-admin" ∷ []

unfoldable pub principal : PortalIdentity → Principal
principal i = record {
  principal_id = i.identity_id;
  permissions = if i.administrator then known_permissions else i.permissions;
  bot_ids = if i.administrator then none else i.bot_ids;
}

abbrev pub known_bots : Option (List String) → Bool
known_bots none = true
known_bots (some bots) = all (contains canonical_bot_ids) bots

-- `_validate`
unfoldable pub validate :
    String → List String → Option (List String) → Result IdentityError (Unit {0})
unfolding text_length codes
validate login permissions bots =
    refuse
      ((text_length login == 0) || ltb 128 (text_length login) || any (λ c. ltb c 32) (codes login))
      invalid_login
    >> ensure (all (contains known_permissions) permissions) unknown_permission
    >> ensure (known_bots bots) unknown_bot

-- The first of a list that passes a test.
abbrev pub first {ℓ} : {A : Type ℓ} → (A → Bool) → List A → Option A
first p [] = none
first p (x ∷ xs) = let rest = first p xs in if p x then some x else rest

unfoldable pub find_by_id : String → Database → Option PortalIdentity
find_by_id id db = first (λ i. str_eq i.identity_id id) db.identities

-- The keyword arguments of `admin_update`: `none` is one that was not given.
pub record Update : Type 0 where
  pub password_hash : Option String
  pub enabled : Option Bool
  pub permissions : Option (List String)
  pub bot_ids : Option (Option (List String))
  pub administrator : Option Bool
  pub expected_version : Option ℕ

abbrev pub given {ℓ} : {A : Type ℓ} → Option A → A → A
given none old = old
given (some new) old = new

abbrev pub is_false : Option Bool → Bool
is_false (some false) = true
is_false _ = false

abbrev pub is_version : Option ℕ → ℕ → Bool
is_version none version = true
is_version (some expected) version = version == expected

abbrev pub is_administrator : PortalIdentity → Bool
is_administrator i = i.enabled && i.administrator

-- `SELECT COUNT(*) ... WHERE enabled=1 AND administrator=1`
unfoldable pub administrators : List PortalIdentity → ℕ
administrators is = length (select is_administrator is)

-- The check of `admin_update` before its transaction.
unfoldable pub revalidate : String → Update → Database → Result IdentityError (Unit {0})
unfolding find_by_id validate
revalidate id u db =
    if is_some u.permissions || is_some u.bot_ids
    then elim (find_by_id id db) [
      | none ↦ err identity_not_found
      | some current ↦
          validate current.login (given u.permissions current.permissions)
            (given u.bot_ids current.bot_ids)
    ]
    else ok tt

-- The checks of its transaction.
unfoldable pub check_row : String → Update → Database → Result IdentityError (Unit {0})
unfolding find_by_id administrators
check_row id u db = elim (find_by_id id db) [
  | none ↦ err identity_not_found
  | some row ↦
      ensure (is_version u.expected_version row.row_version) concurrently_modified
      >> refuse
          ((is_false u.enabled || is_false u.administrator)
            && row.administrator
            && leb (administrators db.identities) 1)
          last_administrator
]

abbrev pub updated : Update → ℕ → PortalIdentity → PortalIdentity
updated u now row = record row {
  password_hash = given u.password_hash row.password_hash;
  enabled = given u.enabled row.enabled;
  permissions = given u.permissions row.permissions;
  bot_ids = given u.bot_ids row.bot_ids;
  administrator = given u.administrator row.administrator;
  updated_at = now;
  session_revision = row.session_revision + 1;
  row_version = row.row_version + 1;
}

-- `UPDATE ... WHERE identity_id=...`
unfoldable pub write_row :
    String → (PortalIdentity → PortalIdentity) → List PortalIdentity → List PortalIdentity
write_row id f = map (λ i. if str_eq i.identity_id id then f i else i)

abbrev pub is_of : String → StoredSession → Bool
is_of id s = elim s.identity_id [ none ↦ false | some owner ↦ str_eq owner id ]

-- `DELETE FROM portal_sessions WHERE identity_id=...`
unfoldable pub without_sessions : String → List StoredSession → List StoredSession
without_sessions id = select (λ s. not (is_of id s))

unfoldable pub admin_update :
    String → Update → ℕ → Database → Result IdentityError (Option PortalIdentity) × Database
unfolding revalidate check_row write_row without_sessions find_by_id
admin_update id u now db = elim (revalidate id u db >> check_row id u db) [
  | err e ↦ (err e, db)
  | ok _ ↦
      let db' = record db {
        identities = write_row id (updated u now) db.identities;
        sessions = without_sessions id db.sessions;
      } in
      (ok (find_by_id id db'), db')
]

abbrev pub no_update : Update
no_update = record {
  password_hash = none;
  enabled = none;
  permissions = none;
  bot_ids = none;
  administrator = none;
  expected_version = none;
}

unfoldable pub set_enabled :
    String → Bool → ℕ → Database → Result IdentityError (Option PortalIdentity) × Database
unfolding admin_update
set_enabled id enabled now = admin_update id (record no_update { enabled = some enabled }) now

unfoldable pub record_login : String → ℕ → Database → Database
unfolding write_row
record_login id at db = record db {
  identities =
      write_row id (λ i. record i { last_login_at = some at; updated_at = at }) db.identities;
}

abbrev pub new_identity :
    String → String → String → List String → Option (List String) → Bool → ℕ → PortalIdentity
new_identity id login password permissions bots administrator now = record {
  identity_id = id;
  login = login;
  password_hash = password;
  enabled = true;
  permissions = permissions;
  bot_ids = bots;
  created_at = now;
  updated_at = now;
  last_login_at = none;
  session_revision = 0;
  administrator = administrator;
  row_version = 0;
}

-- `same_login` is the `NOCASE` comparison of the `login` column.
module _ (same_login : String → String → Bool) where
  unfoldable pub find_by_login : String → Database → Option PortalIdentity
  find_by_login login db = first (λ i. same_login i.login login) db.identities

  -- A row that the primary key and the unique column admit.
  abbrev pub is_new : PortalIdentity → List PortalIdentity → Bool
  is_new new is =
      not (any (λ i. str_eq i.identity_id new.identity_id || same_login i.login new.login) is)

  unfoldable pub create :
      PortalIdentity → Database → Result IdentityError (Option PortalIdentity) × Database
  unfolding validate find_by_id
  create new db =
      elim (validate new.login new.permissions new.bot_ids
        >> ensure (is_new new db.identities) integrity) [
          | err e ↦ (err e, db)
          | ok _ ↦
              let db' = record db { identities = db.identities ++ new ∷ [] } in
              (ok (find_by_id new.identity_id db'), db')
        ]

  -- `verify` is `verify_password`, `dummy` the hash that an unknown login is checked against.
  unfoldable pub authenticate :
      (verify : String → String → Bool)
      → (dummy : String) → String
      → String
      → ℕ
      → Database
      → Option PortalIdentity × Database
  unfolding find_by_login record_login
  authenticate verify dummy login password now db =
      let found = find_by_login login db in
      let valid = verify password (elim found [ none ↦ dummy | some i ↦ i.password_hash ]) in
      elim found [
        | none ↦ (none, db)
        | some i ↦
            if i.enabled && valid then (some i, record_login i.identity_id now db) else (none, db)
      ]
