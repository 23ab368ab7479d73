-- ===== src/Portal/Identities/Commands.antt =====
-- The commands of portal/admin.py, with what they write to the audit log. Passwords, new ids and the
-- clock's readings are inputs; the salted hash of a password is a parameter.
use modular_discord_bot_oper.Common.{
  ℕ, String, Bool, true, false, Option, none, some, List, [], ◌∷◌, ◌++◌, not, ◌||◌, ltb, select,
  str_eq, if◌then◌else◌, Result, ok, err,
}
use modular_discord_bot_oper.Common.Text.{text_length}
use modular_discord_bot_oper.Common.Fallible.{◌>>=◌, ◌>>◌, refuse, ensure}
use modular_discord_bot_oper.Portal.Authorization.{known_permissions, contains}
use modular_discord_bot_oper.Portal.Identities.{
  PortalIdentity, Database, IdentityError, usage, identity_not_found, passwords_differ,
  password_length, integrity, canonical_bot_ids, Update, no_update, find_by_id, find_by_login,
  admin_update, create, new_identity,
}

pub data Change : Type 0 where
  password enable disable promote demote : Change
  grant revoke restrict unrestrict : String → Change

-- A change has its target, an id or a login.
pub data Command : Type 0 where
  list_identities catalog : Command
  create_identity : (login : String) → (administrator : Bool) → Command
  show_identity : (target : String) → Command
  change : (target : String) → Change → Command

-- What a run reads: the two entries of a password, a new id and the time.
pub record Inputs : Type 0 where
  pub entered : String
  pub confirmed : String
  pub identity_id : String
  pub now : ℕ

pub record Event : Type 0 where
  pub event : String
  pub target_identity_id : String
  pub permission : Option String
  pub bot_id : Option String

pub record Console : Type 0 where
  pub database : Database
  pub audit : List Event

-- The `choices` of the argument parser.
unfoldable pub check_usage : Change → Result IdentityError (Unit {0})
check_usage (grant p) = ensure (contains known_permissions p) usage
check_usage (revoke p) = ensure (contains known_permissions p) usage
check_usage (restrict b) = ensure (contains canonical_bot_ids b) usage
check_usage (unrestrict b) = ensure (contains canonical_bot_ids b) usage
check_usage _ = ok tt

-- `set.add` and `set.discard`
abbrev pub with_item : String → List String → List String
with_item x xs = if contains xs x then xs else x ∷ xs

abbrev pub without_item : String → List String → List String
without_item x = select (λ y. not (str_eq x y))

abbrev pub with_bot : String → Option (List String) → List String
with_bot b none = b ∷ []
with_bot b (some bots) = with_item b bots

abbrev pub success : String → String → Option String → Option String → Event
success event target permission bot = record {
  event = event;
  target_identity_id = target;
  permission = permission;
  bot_id = bot;
}

unfoldable pub event_of : Change → String → Event
event_of password id = success "portal.identity.password_changed" id none none
event_of enable id = success "portal.identity.enabled" id none none
event_of disable id = success "portal.identity.disabled" id none none
event_of promote id = success "portal.identity.admin_status_changed" id none none
event_of demote id = success "portal.identity.admin_status_changed" id none none
event_of (grant p) id = success "portal.identity.permission_granted" id (some p) none
event_of (revoke p) id = success "portal.identity.permission_revokeed" id (some p) none
event_of (restrict b) id = success "portal.identity.bot_restriction_changed" id none (some b)
event_of (unrestrict b) id = success "portal.identity.bot_restriction_changed" id none (some b)

module _ (same_login : String → String → Bool) (encode : String → String) where
  -- `_password` and `hash_password`
  unfoldable pub read_hash : Inputs → Result IdentityError String
  unfolding text_length
  read_hash i =
      ensure (str_eq i.entered i.confirmed) passwords_differ
      >> refuse (ltb (text_length i.entered) 12 || ltb 1024 (text_length i.entered)) password_length
      >> ok (encode i.entered)

  -- `_identity`
  unfoldable pub target_identity : String → Database → Result IdentityError PortalIdentity
  unfolding find_by_id find_by_login
  target_identity value db = elim (find_by_id value db) [
    | some i ↦ ok i
    | none ↦ elim (find_by_login same_login value db) [
      | some i ↦ ok i
      | none ↦ err identity_not_found
    ]
  ]

  -- The arguments of `admin_update` for a change.
  unfoldable pub change_of : Inputs → Change → PortalIdentity → Result IdentityError Update
  unfolding read_hash
  change_of inputs c i =
      let at_version = record no_update { expected_version = some i.row_version } in
      elim c [
        | password ↦
            read_hash inputs >>= λ hash. ok (record at_version { password_hash = some hash })
        | enable ↦ ok (record at_version { enabled = some true })
        | disable ↦ ok (record at_version { enabled = some false })
        | promote ↦ ok (record at_version { administrator = some true })
        | demote ↦ ok (record at_version { administrator = some false })
        | grant p ↦ ok (record at_version { permissions = some (with_item p i.permissions) })
        | revoke p ↦ ok (record at_version { permissions = some (without_item p i.permissions) })
        | restrict b ↦ ok (record at_version { bot_ids = some (some (with_bot b i.bot_ids)) })
        | unrestrict b ↦ ok (record at_version { bot_ids = some none })
      ]

  -- The identity that a change is of, and the arguments of its `admin_update`.
  unfoldable pub requested :
      Inputs → String → Change → Database → Result IdentityError (PortalIdentity × Update)
  unfolding check_usage target_identity change_of
  requested inputs target c db =
      check_usage c >> target_identity target db >>= λ i. change_of inputs c i >>= λ u. ok (i, u)

  -- A change of an identity, from the look-up of its target on.
  unfoldable pub run_change :
      Inputs → String → Change → Console → Result IdentityError (Unit {0}) × Console
  unfolding requested admin_update event_of
  run_change inputs target c con = elim (requested inputs target c con.database) [
    | err e ↦ (err e, con)
    | ok (i, u) ↦
        let (answer, db) = admin_update i.identity_id u inputs.now con.database in
        elim answer [
          | err e ↦ (err e, record con { database = db })
          | ok _ ↦ (
            ok tt,
            record {
              database = db;
              audit =
                  con.audit
                  ++ event_of c i.identity_id
                    ∷ success "portal.sessions.revoked" i.identity_id none none
                    ∷ [];
            },
          )
        ]
  ]

  unfoldable pub run_create :
      Inputs → String → Bool → Console → Result IdentityError (Unit {0}) × Console
  unfolding read_hash create
  run_create inputs login administrator con = elim (read_hash inputs) [
    | err e ↦ (err e, con)
    | ok hash ↦
        let new = new_identity inputs.identity_id login hash [] none administrator inputs.now in
        let (answer, db) = create same_login new con.database in
        elim answer [
          | err e ↦ (err e, record con { database = db })
          | ok _ ↦ (
            ok tt,
            record {
              database = db;
              audit =
                  con.audit ++ success "portal.identity.created" inputs.identity_id none none ∷ [];
            },
          )
        ]
  ]

  -- `main`, without what it prints
  unfoldable pub run_command :
      Inputs → Command → Console → Result IdentityError (Unit {0}) × Console
  unfolding target_identity run_change run_create
  run_command inputs list_identities con = (ok tt, con)
  run_command inputs catalog con = (ok tt, con)
  run_command inputs (create_identity login administrator) con =
      run_create inputs login administrator con
  run_command inputs (show_identity target) con =
      (target_identity target con.database >>= (λ _. ok tt), con)
  run_command inputs (change target c) con = run_change inputs target c con

  -- A series of runs.
  unfoldable pub run_commands : List (Inputs × Command) → Console → Console
  unfolding run_command
  run_commands [] con = con
  run_commands ((inputs, command) ∷ rest) con = run_commands rest (run_command inputs command con).1

-- The exit status of `main`; an `IntegrityError` is not caught and ends in a traceback.
unfoldable pub exit_status : Result IdentityError (Unit {0}) → ℕ
exit_status (ok _) = 0
exit_status (err integrity) = 1
exit_status (err _) = 2
