-- ===== src/Portal/Backups/Restore.antt =====
-- `preview_restore` and `restore_backup` of portal/backups.py.
use modular_discord_bot_oper.Common.{
  ℕ, String, Bool, true, false, Option, none, some, List, [], ◌∷◌, ◌++◌, reverse, select, not, ◌&&◌,
  is_some, str_eq, if◌then◌else◌, Result, ok, err,
}
use modular_discord_bot_oper.Common.Dict.{Dict, lookup, insert, erase}
use modular_discord_bot_oper.Common.Fallible.{◌>>=◌, ◌>>◌, refuse, ensure}
use modular_discord_bot_oper.Common.Json.{Json}
use modular_discord_bot_oper.Common.Text.{is_hex_id}
use modular_discord_bot_oper.Portal.Authorization.{Principal, Authorizer, contains}
use modular_discord_bot_oper.Portal.Resources.{ConfigurationResource, foreign}
use modular_discord_bot_oper.Portal.Resources.Service.{Snapshot, Adapter}
use modular_discord_bot_oper.Portal.Backups.{
  BackupError, permission_denied, backup_not_found, backup_corrupt, backup_integrity_failed,
  stale_restore_preview, restore_in_progress, restore_failed_rolled_back, manual_recovery_required,
  of_resource, Saved, BackupRecord, BackupPlan, PreviewEntry, Backups, DiskWorld, config,
  create_locked,
}

-- What a restore meets outside: its safety backup's, and the bot's process instance.
pub record RestoreWorld : Type 0 where
  pub disk : DiskWorld
  pub instance : Option String

-- `_parse_manifest` on a backup's directory.
unfoldable pub verify : {S : Type 0} → String → Backups S → Result BackupError BackupRecord
verify id s = elim (lookup id s.directories) [
  | none ↦ err backup_integrity_failed
  | some b ↦ if b.is_intact then ok b else err backup_integrity_failed
]

-- `_record`, of a backup that is no safety snapshot
unfoldable pub find_record : {S : Type 0} → String → Backups S → Result BackupError BackupRecord
unfolding verify is_hex_id
find_record id s =
    ensure (is_hex_id id && contains s.catalog id) backup_not_found
    >> ensure (is_some (lookup id s.directories)) backup_corrupt
    >> verify id s
    >>= λ b. refuse b.safety_snapshot backup_not_found >> ok b

abbrev pub same_instance : Option String → Option String → Bool
same_instance none none = true
same_instance (some i) (some j) = str_eq i j
same_instance _ _ = false

-- `self._previews.pop(preview_id, None) if self._valid_id(preview_id) else None`
unfoldable pub pop_preview : {S : Type 0} → String → Backups S → Option PreviewEntry × Backups S
unfolding is_hex_id
pop_preview id s =
    if is_hex_id id
    then (lookup id s.previews, record s { previews = erase id s.previews })
    else (none, s)

-- The popped preview is one of the actor, of this backup.
abbrev pub is_preview_of : Option PreviewEntry → String → String → String → Bool
is_preview_of none actor bot id = false
is_preview_of (some p) actor bot id =
    str_eq p.actor actor && str_eq p.bot_id bot && str_eq p.backup_id id

abbrev pub find_saved : String → List Saved → Option Saved
find_saved id [] = none
find_saved id (x ∷ xs) =
    let rest = find_saved id xs in if str_eq x.resource_id id then some x else rest

abbrev pub saved_of : Option BackupRecord → List Saved
saved_of none = []
saved_of (some b) = b.resources

module _ {S : Type 0} (a : Adapter S) (resolve : String → Option ConfigurationResource)
    (size_of : Dict Json → ℕ) (limit : ℕ) where
  abbrev pub read_live : ConfigurationResource → S → Result BackupError Snapshot
  read_live r s = elim (a.read r s) [ err e ↦ err (of_resource e) | ok snapshot ↦ ok snapshot ]

  -- The revisions that a preview remembers.
  unfoldable pub current_revisions : List Saved → S → Result BackupError (Dict String)
  current_revisions [] s = ok []
  current_revisions (x ∷ xs) s = config a resolve size_of limit x.resource_id >>= λ r.
      read_live r s >>= λ current.
      current_revisions xs s >>= λ rest. ok ((x.resource_id, current.revision) ∷ rest)

  unfoldable pub preview_restore :
      Authorizer
      → Principal
      → String
      → String
      → (preview_id : String) → Option String
      → Backups S
      → Result BackupError (Dict String) × Backups S
  unfolding find_record current_revisions
  preview_restore can actor bot id preview_id instance s =
      elim (ensure (can actor "backups.restore" (some bot)) permission_denied
        >> find_record id s
        >>= λ b. current_revisions b.resources s.store) [
          | err e ↦ (err e, s)
          | ok revisions ↦ (
            ok revisions,
            record s {
              previews =
                  insert preview_id
                    (record {
                      actor = actor.principal_id;
                      bot_id = bot;
                      backup_id = id;
                      revisions = revisions;
                      instance = instance;
                    })
                    s.previews;
              audit = s.audit ++ "restore.previewed" ∷ [];
            },
          )
        ]

  -- The loop that compares the present revisions to those of the preview.
  unfoldable pub check_revisions : List Saved → Dict String → S → Result BackupError (Unit {0})
  check_revisions [] before s = ok tt
  check_revisions (x ∷ xs) before s = config a resolve size_of limit x.resource_id >>= λ r.
      read_live r s >>= λ current. elim (lookup x.resource_id before) [
        | none ↦ err (of_resource foreign)
        | some revision ↦
            ensure (str_eq current.revision revision) stale_restore_preview
            >> check_revisions xs before s
      ]

  -- The loop that writes the saved values: whether it came to its end, what was applied, the store.
  unfoldable pub apply_all : List Saved → Dict String → S → Bool × List Saved × S
  apply_all [] before s = (true, [], s)
  apply_all (x ∷ xs) before s = elim (resolve x.resource_id) [
    | none ↦ (false, [], s)
    | some r ↦ elim (lookup x.resource_id before) [
      | none ↦ (false, [], s)
      | some expected ↦
          let (answer, s') = a.write r x.values expected s in
          elim answer [
            | err e ↦ (false, [], s')
            | ok snapshot ↦
                let (done, applied, s'') = apply_all xs before s' in
                if str_eq snapshot.revision x.revision
                then (done, x ∷ applied, s'')
                else (false, x ∷ [], s')
          ]
    ]
  ]

  -- `_restore_snapshot`, on the entries in the order in which it takes them: whether it came to its
  -- end, and the store.
  unfoldable pub roll_back : List Saved → List Saved → S → Bool × S
  roll_back saved [] s = (true, s)
  roll_back saved (x ∷ xs) s = elim (resolve x.resource_id) [
    | none ↦ (false, s)
    | some r ↦ elim (a.read r s) [
      | err e ↦ (false, s)
      | ok current ↦ elim (find_saved x.resource_id saved) [
        | none ↦ (false, s)
        | some y ↦
            let (answer, s') = a.write r y.values current.revision s in
            elim answer [ err e ↦ (false, s') | ok _ ↦ roll_back saved xs s' ]
      ]
    ]
  ]

  -- What is read from a safety backup's directory.
  abbrev pub saved_in : String → Backups S → List Saved
  saved_in id s = saved_of (lookup id s.directories)

  -- The `try` statement after the safety backup.
  unfoldable pub write_back :
      BackupRecord
      → BackupRecord
      → Dict String
      → Backups S
      → Result BackupError BackupRecord × Backups S
  unfolding apply_all roll_back
  write_back b safety before s =
      let (done, applied, store) = apply_all b.resources before s.store in
      let (rolled, store') = roll_back (saved_in safety.backup_id s) (reverse applied) store in
      if done
      then (ok b, record s { store = store; audit = s.audit ++ "restore.succeeded" ∷ [] })
      else (
        err (if rolled then restore_failed_rolled_back else manual_recovery_required),
        record s { store = store'; audit = s.audit ++ "restore.failed" ∷ [] },
      )

  -- The work under the lock.
  unfoldable pub restore_locked :
      RestoreWorld
      → String
      → BackupPlan
      → String
      → PreviewEntry
      → Backups S
      → Result BackupError BackupRecord × Backups S
  unfolding verify check_revisions create_locked write_back
  restore_locked w actor plan id p s =
      elim (verify id s >>= λ b.
      ensure (same_instance p.instance w.instance) stale_restore_preview
      >> check_revisions b.resources p.revisions s.store
      >> ok b) [
        | err e ↦ (err e, s)
        | ok b ↦
            let (made, s') = create_locked a resolve size_of limit w.disk actor plan true s in
            elim made [ err e ↦ (err e, s') | ok safety ↦ write_back b safety p.revisions s' ]
      ]

  -- The lock and the set of active restores, which `finally` gives back.
  unfoldable pub guarded :
      RestoreWorld
      → String
      → BackupPlan
      → String
      → PreviewEntry
      → Backups S
      → Result BackupError BackupRecord × Backups S
  unfolding restore_locked
  guarded w actor plan id p s =
      if s.is_locked
      then (err restore_in_progress, s)
      else (let (answer, s') =
            restore_locked w actor plan id p
              (record s { is_locked = true; active_restore = id ∷ s.active_restore }) in
          (
            answer,
            record s' {
              is_locked = false;
              active_restore = select (λ j. not (str_eq j id)) s'.active_restore;
            },
          ))

  unfoldable pub restore_backup :
      Authorizer
      → RestoreWorld
      → Principal
      → String
      → BackupPlan
      → String
      → String
      → Backups S
      → Result BackupError BackupRecord × Backups S
  unfolding find_record guarded pop_preview
  restore_backup can w actor bot plan id preview_id s =
      if can actor "backups.restore" (some bot)
      then (let (popped, s') = pop_preview preview_id s in
          elim popped [
            | none ↦ (err stale_restore_preview, s')
            | some p ↦
                if is_preview_of (some p) actor.principal_id bot id
                then elim (find_record id s') [
                  | err e ↦ (err e, s')
                  | ok b ↦ guarded w actor.principal_id plan id p s'
                ]
                else (err stale_restore_preview, s')
          ])
      else (err permission_denied, s)
