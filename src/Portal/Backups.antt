-- ===== src/Portal/Backups.antt =====
-- portal/backups.py, for one bot. A backup's directory is its record with the values that it saved;
-- the files' syntax and digests are left out, and `is_intact` says whether `_parse_manifest` lets
-- the directory pass. New ids, clock readings and the disk's failures are inputs.
pub mod Examples
pub mod Restore
pub mod Recovery
pub mod Stale
pub mod Safety
pub mod Outcome
use modular_discord_bot_oper.Common.{
  ℕ, ◌+◌, ◌-◌, ◌*◌, String, Bool, true, false, Option, none, some, List, [], ◌∷◌, ◌++◌, map,
  reverse, not, ◌&&◌, ◌||◌, leb, ltb, length, take, select, any, is_some, str_eq, if◌then◌else◌,
  Result, ok, err,
}
use modular_discord_bot_oper.Common.Dict.{Dict, lookup, insert, erase}
use modular_discord_bot_oper.Common.Fallible.{◌>>=◌, ◌>>◌, refuse, ensure}
use modular_discord_bot_oper.Common.Json.{Json}
use modular_discord_bot_oper.Common.Text.{is_hex_id}
use modular_discord_bot_oper.Portal.Authorization.{Principal, Authorizer, contains}
use modular_discord_bot_oper.Portal.Resources.{ConfigurationResource, ResourceError, foreign}
use modular_discord_bot_oper.Portal.Resources.Service.{Snapshot, Adapter}

pub data BackupError : Type 0 where
  permission_denied backup_not_found backup_integrity_failed backup_storage_full : BackupError
  persistence_failed restore_in_progress stale_restore_preview backup_incompatible : BackupError
  restore_failed_rolled_back manual_recovery_required backup_corrupt : BackupError
  backup_in_progress : BackupError
  -- an error of the resource's adapter, which is not caught
  of_resource : ResourceError → BackupError

-- A `ManifestEntry` with the values of its member.
pub record Saved : Type 0 where
  pub resource_id : String
  pub revision : String
  pub size : ℕ
  pub values : Dict Json

pub record BackupRecord : Type 0 where
  pub backup_id : String
  pub plan_id : String
  pub created_at : ℕ
  pub creator : String
  pub total_bytes : ℕ
  pub resources : List Saved
  pub safety_snapshot : Bool
  pub is_intact : Bool

-- `BackupPlan`, with the ids of its resources.
pub record BackupPlan : Type 0 where
  pub plan_id : String
  pub resources : List String
  pub retention : ℕ

-- What a preview remembers.
pub record PreviewEntry : Type 0 where
  pub actor : String
  pub bot_id : String
  pub backup_id : String
  pub revisions : Dict String
  pub instance : Option String

-- The state of the service for one bot, with the adapter's.
pub record Backups (S : Type 0) : Type 0 where
  pub store : S
  pub directories : Dict BackupRecord
  pub catalog : List String
  pub previews : Dict PreviewEntry
  pub active_restore : List String
  pub is_locked : Bool
  -- the result of each operation that was audited
  pub audit : List String

abbrev pub max_resource_bytes : ℕ
max_resource_bytes = 2 * 1024 * 1024

abbrev pub max_resources : ℕ
max_resources = 16

abbrev pub max_backup_bytes : ℕ
max_backup_bytes = 10 * 1024 * 1024

-- What a call of `_create_locked` meets outside: the new id, the time, whether the disk fails.
pub record DiskWorld : Type 0 where
  pub backup_id : String
  pub created_at : ℕ
  -- an `OSError` while the members are written, or when the directory is put in place
  pub disk_fails : Bool
  pub replace_fails : Bool
  -- or when the catalog is written, with the directory in place
  pub catalog_fails : Bool

-- `_catalog`: the intact records that are listed
unfoldable pub records : List String → Dict BackupRecord → List BackupRecord
records [] dirs = []
records (id ∷ ids) dirs =
    let rest = records ids dirs in
    elim (lookup id dirs) [ none ↦ rest | some b ↦ if b.is_intact then b ∷ rest else rest ]

abbrev pub total_of : List BackupRecord → ℕ
total_of [] = 0
total_of (b ∷ bs) = b.total_bytes + total_of bs

-- `sorted(..., key=lambda x: x.created_at)`, which is stable
unfoldable pub place : BackupRecord → List BackupRecord → List BackupRecord
place b [] = b ∷ []
place b (c ∷ cs) = if leb b.created_at c.created_at then b ∷ c ∷ cs else c ∷ place b cs

unfoldable pub by_age : List BackupRecord → List BackupRecord
unfolding place
by_age [] = []
by_age (b ∷ bs) = place b (by_age bs)

unfoldable pub without_dirs : List String → Dict BackupRecord → Dict BackupRecord
without_dirs [] dirs = dirs
without_dirs (id ∷ ids) dirs = without_dirs ids (erase id dirs)

abbrev pub ids_of : List BackupRecord → List String
ids_of bs = map (λ (b : BackupRecord). b.backup_id) bs

module _ {S : Type 0} where
  -- The ids that `_retention` removes.
  unfoldable pub expired : BackupPlan → ℕ → Backups S → List String
  unfolding records by_age
  expired plan reserve s =
      let matching =
        by_age (select (λ b. str_eq b.plan_id plan.plan_id) (records s.catalog s.directories)) in
      select (λ id. not (contains s.active_restore id))
        (ids_of (take (length matching + reserve - plan.retention) matching))

  -- `_retention`. The catalog is rewritten, with the intact records, only if something is removed.
  unfoldable pub retention : BackupPlan → ℕ → Backups S → Backups S
  unfolding expired records without_dirs
  retention plan reserve s =
      let gone = expired plan reserve s in
      elim gone [
        | [] ↦ s
        | id ∷ ids ↦ record s {
          directories = without_dirs (id ∷ ids) s.directories;
          catalog =
              select (λ j. not (contains (id ∷ ids) j)) (ids_of (records s.catalog s.directories));
        }
      ]

-- `resolve` is `_config` of the resource service, for the bot; `size_of` the length of the values'
-- JSON text, `limit` the bound on all the bytes of the bot's backups.
module _ {S : Type 0} (a : Adapter S) (resolve : String → Option ConfigurationResource)
    (size_of : Dict Json → ℕ) (limit : ℕ) where
  abbrev pub config : String → Result BackupError ConfigurationResource
  config id = elim (resolve id) [ none ↦ err backup_incompatible | some r ↦ ok r ]

  abbrev pub entry_of : String → Snapshot → Saved
  entry_of id snapshot = record {
    resource_id = id;
    revision = snapshot.revision;
    size = size_of snapshot.values;
    values = snapshot.values;
  }

  abbrev pub is_too_big : ℕ → Snapshot → Bool
  is_too_big total snapshot =
      ltb max_resource_bytes (size_of snapshot.values)
      || ltb max_backup_bytes (total + size_of snapshot.values)

  -- `except (OSError, ValueError, ResourceError)`: any other error passes.
  abbrev pub unread : ResourceError → BackupError
  unread foreign = of_resource foreign
  unread _ = persistence_failed

  -- Both `except` clauses write an event; an error that neither catches leaves none.
  abbrev pub is_caught : BackupError → Bool
  is_caught (of_resource _) = false
  is_caught _ = true

  abbrev pub note_failure : BackupError → Backups S → Backups S
  note_failure e s = record s {
    audit = if is_caught e then s.audit ++ "backup.failed" ∷ [] else s.audit;
  }

  -- The loop over the plan's resources, with the bytes so far.
  unfoldable pub save_all : List String → ℕ → S → Result BackupError (List Saved)
  save_all [] total s = ok []
  save_all (id ∷ ids) total s = elim (resolve id) [
    | none ↦ err backup_incompatible
    | some r ↦ elim (a.read r s) [
      | err e ↦ err (unread e)
      | ok snapshot ↦
          refuse (is_too_big total snapshot) backup_storage_full
          >> save_all ids (total + size_of snapshot.values) s
          >>= λ rest. ok (entry_of id snapshot ∷ rest)
    ]
  ]

  -- The entries of a backup, which may not be too many.
  unfoldable pub collect : BackupPlan → S → Result BackupError (List Saved)
  unfolding save_all
  collect plan s = save_all plan.resources 0 s >>= λ saved.
      refuse (ltb max_resources (length saved)) backup_storage_full >> ok saved

  abbrev pub sizes : List Saved → ℕ
  sizes [] = 0
  sizes (x ∷ xs) = x.size + sizes xs

  abbrev pub is_full : ℕ → Backups S → Bool
  is_full total s = ltb limit (total_of (records s.catalog s.directories) + total)

  -- The check of the storage limit, which lets old backups expire where they are in the way.
  unfoldable pub make_room : BackupPlan → ℕ → Backups S → Result BackupError (Unit {0}) × Backups S
  unfolding records retention
  make_room plan total s =
      let s' = retention plan 1 s in
      if is_full total s
      then (if is_full total s' then (err backup_storage_full, s') else (ok tt, s'))
      else (ok tt, s)

  abbrev pub new_backup : DiskWorld → String → BackupPlan → Bool → List Saved → BackupRecord
  new_backup w actor plan safety saved = record {
    backup_id = w.backup_id;
    plan_id = plan.plan_id;
    created_at = w.created_at;
    creator = actor;
    total_bytes = sizes saved;
    resources = saved;
    safety_snapshot = safety;
    is_intact = true;
  }

  -- What `_create_locked` leaves once the directory is in place, where the catalog can be written and
  -- old directories can be removed.
  unfoldable pub enlist : BackupPlan → BackupRecord → Backups S → Backups S
  unfolding records retention
  enlist plan b s = retention plan 0 (record s {
    directories = insert b.backup_id b s.directories;
    catalog = ids_of (records s.catalog s.directories) ++ b.backup_id ∷ [];
    audit = s.audit ++ "backup.succeeded" ∷ [];
  })

  unfoldable pub create_locked :
      DiskWorld
      → String
      → BackupPlan
      → Bool
      → Backups S
      → Result BackupError BackupRecord × Backups S
  unfolding collect make_room enlist
  create_locked w actor plan safety s =
      let asked = record s { audit = s.audit ++ "backup.requested" ∷ [] } in
      elim (refuse w.disk_fails persistence_failed >> collect plan s.store) [
        | err e ↦ (err e, note_failure e asked)
        | ok saved ↦
            let (room, s') = make_room plan (sizes saved) asked in
            elim room [
              | err e ↦ (err e, note_failure e s')
              | ok _ ↦
                  let b = new_backup w actor plan safety saved in
                  if w.replace_fails
                  then (err persistence_failed, note_failure persistence_failed s')
                  else if w.catalog_fails
                  then (
                    err persistence_failed,
                    note_failure persistence_failed
                        (record s' { directories = insert b.backup_id b s'.directories }),
                  )
                  else (ok b, enlist plan b s')
            ]
      ]

  -- `create_backup`
  unfoldable pub create_backup :
      Authorizer
      → Principal
      → String
      → BackupPlan
      → DiskWorld
      → Backups S
      → Result BackupError BackupRecord × Backups S
  unfolding create_locked
  create_backup can actor bot plan w s =
      if can actor "backups.create" (some bot)
      then (if s.is_locked
          then (err backup_in_progress, s)
          else create_locked w actor.principal_id plan false s)
      else (err permission_denied, s)
