-- ===== src/Portal/Resources/Service.antt =====
-- `ResourceAdapter` and `ResourceService` of portal/resources.py. An adapter is a record of its
-- operations on a state; the catalog is a parameter of the service's state, as is the audit log.
use modular_discord_bot_oper.Common.{
  String, Bool, true, false, Option, none, some, List, [], ◌∷◌, ◌++◌, map, not, ◌&&◌, ◌||◌, ltb,
  str_eq, if◌then◌else◌, Result, ok, err, Exec, pure, modify, require, or_raise, lift, ◌>>=◌, ◌>>◌,
  ◌≡◌,
}
use modular_discord_bot_oper.Common.Dict.{Dict, lookup}
use modular_discord_bot_oper.Common.Json.{Json, str}
use modular_discord_bot_oper.Common.Text.{text_length, is_cog_id}
use modular_discord_bot_oper.Portal.Authorization.{Principal, Authorizer}
use modular_discord_bot_oper.Portal.Resources.{
  ConfigField, ConfigurationResource, ResourceError, resource_not_found, resource_read_only,
  permission_denied, stale_revision, foreign, definitions, validate_values,
}

pub record Snapshot : Type 0 where
  pub values : Dict Json
  pub revision : String

-- The configuration part of `ResourceAdapter`, on a state.
pub record Adapter (S : Type 0) : Type 0 where
  pub read : ConfigurationResource → S → Result ResourceError Snapshot
  pub write : ConfigurationResource → Dict Json → String → S → Result ResourceError Snapshot × S

-- What the services rely on: a write that fails changes nothing; one that succeeds was of the
-- revision that was expected; values that the adapter serves are read as they were written, and
-- what it reads of a resource that it serves values of are such.
pub record IsLawful {S : Type 0} (a : Adapter S)
    (Serves : ConfigurationResource → Dict Json → Type 0) : Type 0 where
  pub refused :
      (r : ConfigurationResource) (d : Dict Json) (expected : String) (s : S) {e : ResourceError}
      → (a.write r d expected s).0 ≡ err e
      → (a.write r d expected s).1 ≡ s
  pub current :
      (r : ConfigurationResource) (d : Dict Json) (expected : String) (s : S)
      {before after : Snapshot}
      → a.read r s ≡ ok before
      → (a.write r d expected s).0 ≡ ok after
      → before.revision ≡ expected
  pub written :
      (r : ConfigurationResource) (d : Dict Json) (expected : String) (s : S) {after : Snapshot}
      → Serves r d
      → (a.write r d expected s).0 ≡ ok after
      → (later : Snapshot) × (a.read r (a.write r d expected s).1 ≡ ok later)
        × (later.revision ≡ after.revision)
        × ((k : String) → lookup k later.values ≡ lookup k d)
  pub readable :
      (r : ConfigurationResource) (s : S) (d : Dict Json) {snapshot : Snapshot}
      → Serves r d
      → a.read r s ≡ ok snapshot
      → Serves r snapshot.values

pub record AuditEvent : Type 0 where
  pub name : String
  pub actor : String
  pub resource_id : String
  pub request_id : String
  pub result : String
  pub revision_before : Option String
  pub revision_after : Option String
  pub changed_fields : List String

pub record Change : Type 0 where
  pub field_id : String
  pub old_value : Option Json
  pub new_value : Json
  pub restart_required : Bool

pub record Preview : Type 0 where
  pub resource : ConfigurationResource
  pub expected_revision : String
  pub proposed_revision : String
  pub values : Dict Json
  pub changes : List Change

-- `TRUSTED_CONFIGURATION_CATALOG`: its keys are pairs of a bot and a resource.
abbrev pub Catalog : Type 0
Catalog = List ((String × String) × ConfigurationResource)

abbrev pub find_resource : String → String → Catalog → Option ConfigurationResource
find_resource bot id [] = none
find_resource bot id (((b, r), item) ∷ rest) =
    let later = find_resource bot id rest in
    if str_eq b bot && str_eq r id then some item else later

pub record Resources (S : Type 0) : Type 0 where
  pub store : S
  pub audit : List AuditEvent

-- `except ResourceError`
abbrev pub is_resource_error : ResourceError → Bool
is_resource_error foreign = false
is_resource_error _ = true

-- The state of the service is the adapter's, with the audit log. `revision_of` is `_revision`,
-- `same_value` Python's `==` on values.
module _ {S : Type 0} (a : Adapter S) (catalog : Catalog) (can : Authorizer)
    (revision_of : Dict Json → String) (same_value : Json → Json → Bool) where
  abbrev Task : Type 0 → Type 0
  Task A = Exec (Resources S) ResourceError A

  abbrev audited :
      String
      → String
      → ConfigurationResource
      → String
      → String
      → Option String
      → Option String
      → List String
      → Resources S
      → Resources S
  audited name actor r request result before after fields s = record s {
    audit =
        s.audit
        ++ record {
          name = name;
          actor = actor;
          resource_id = r.resource_id;
          request_id = request;
          result = result;
          revision_before = before;
          revision_after = after;
          changed_fields = fields;
        }
          ∷ [];
  }

  -- `_config`
  unfoldable pub resolve : String → String → Result ResourceError ConfigurationResource
  unfolding text_length
  resolve bot id =
      if ltb 64 (text_length id) || not (is_cog_id id)
      then err resource_not_found
      else elim (find_resource bot id catalog) [ none ↦ err resource_not_found | some r ↦ ok r ]

  abbrev pub read_now : ConfigurationResource → Exec (Resources S) ResourceError Snapshot
  read_now r s = (a.read r s.store, s)

  abbrev pub write_now :
      ConfigurationResource → Dict Json → String → Exec (Resources S) ResourceError Snapshot
  write_now r d expected s =
      let (answer, store) = a.write r d expected s.store in (answer, record s { store = store })

  unfoldable pub get_config :
      Principal
      → String
      → String
      → String
      → Exec (Resources S) ResourceError (ConfigurationResource × Snapshot)
  unfolding resolve
  get_config actor bot id request = do
    r ← lift (resolve bot id)
    require (can actor r.read_permission (some bot)) permission_denied
    snapshot ← read_now r
    modify (
        audited "config.viewed" actor.principal_id r request "succeeded" none
          (some snapshot.revision) [])
    pure (r, snapshot)

  -- `current.values.get(name) != value`
  abbrev pub differs : Option Json → Json → Bool
  differs none v = true
  differs (some old) v = not (same_value old v)

  abbrev pub change_entry : Dict ConfigField → Dict Json → String → Json → Change
  change_entry fs current name v =
      let sensitive : Bool = elim (lookup name fs) [ none ↦ false | some f ↦ f.is_sensitive ] in
      record {
        field_id = name;
        old_value = if sensitive then some (str "changed") else lookup name current;
        new_value = if sensitive then str "changed" else v;
        restart_required = elim (lookup name fs) [ none ↦ false | some f ↦ f.restart_required ];
      }

  unfoldable pub changes_of : Dict ConfigField → Dict Json → Dict Json → List Change
  changes_of fs current [] = []
  changes_of fs current ((name, v) ∷ d) =
      let rest = changes_of fs current d in
      if differs (lookup name current) v then change_entry fs current name v ∷ rest else rest

  unfoldable pub preview :
      Principal
      → String
      → String
      → Dict Json
      → String
      → String
      → Exec (Resources S) ResourceError Preview
  unfolding resolve validate_values changes_of definitions
  preview actor bot id submitted expected request = do
    r ← lift (resolve bot id)
    edit ← or_raise r.edit_permission resource_read_only
    require (can actor edit (some bot)) permission_denied
    values ← lift (validate_values r submitted)
    current ← read_now r
    require (str_eq current.revision expected) stale_revision
    let changes = changes_of (definitions r.fields []) current.values values
    modify (
        audited "config.previewed" actor.principal_id r request "succeeded" (some current.revision)
          (some (revision_of values)) (map (λ (c : Change). c.field_id) changes))
    pure (record {
      resource = r;
      expected_revision = expected;
      proposed_revision = revision_of values;
      values = values;
      changes = changes;
    })

  -- The `try` statement of `commit`, with what follows it.
  unfoldable pub finish_commit :
      Principal
      → String
      → Preview
      → Result ResourceError Snapshot
      → Exec (Resources S) ResourceError Snapshot
  finish_commit actor request p (err e) s = (
    err e,
    (if is_resource_error e
        then audited "config.change_failed" actor.principal_id p.resource request "failed"
            (some p.expected_revision) none [] s
        else s),
  )
  finish_commit actor request p (ok snapshot) s = (
    ok snapshot,
    audited "config.changed" actor.principal_id p.resource request "succeeded"
        (some p.expected_revision) (some snapshot.revision)
        (map (λ (c : Change). c.field_id) p.changes) s,
  )

  unfoldable pub commit :
      Principal
      → String
      → String
      → Dict Json
      → String
      → String
      → Exec (Resources S) ResourceError Snapshot
  unfolding preview finish_commit
  commit actor bot id submitted expected request = do
    p ← preview actor bot id submitted expected request
    (λ s.
        let (answer, s') = write_now p.resource p.values expected s in
        finish_commit actor request p answer s')
