-- ===== src/Portal/Backups/Examples.antt =====
-- Runs of the models of portal/backups.py on sample data.
use modular_discord_bot_oper.Common.{
  sym, ◌∙◌, ap, String, true, false, Option, none, some, [], ◌∷◌, ◌≡◌, ◌≢◌, refl, ok, length,
}
use modular_discord_bot_oper.Common.Dict.{lookup}
use modular_discord_bot_oper.Common.Json.{Json, ℤ, pos, str, obj, Fields, end, field, get_field}
use modular_discord_bot_oper.Portal.Authorization.{Principal, can}
use modular_discord_bot_oper.Portal.Resources.{ConfigurationResource}
use modular_discord_bot_oper.Portal.Resources.Memory.{
  MemoryStore, memory_adapter, memory_adapter-IsLawful,
}
use modular_discord_bot_oper.Portal.Resources.Document.{
  DocumentStore, document_adapter, load, updated_document,
}
use modular_discord_bot_oper.Portal.Resources.Examples.{routing, revision_of}
use modular_discord_bot_oper.Portal.Backups.{Saved, BackupRecord, BackupPlan, Backups}
use modular_discord_bot_oper.Portal.Backups.Restore.{RestoreWorld, restore_backup, write_back}
use modular_discord_bot_oper.Portal.Backups.Outcome.{IsRestored, restore_backup-IsRestored}
use modular_discord_bot_oper.Portal.Backups.Stale.{updated_document-others, write_back_stale}

abbrev saved : Saved
saved = record {
  resource_id = "channel-routing";
  revision = "old";
  size = 20;
  values = ("general", str "old") ∷ [];
}

abbrev backup_id : String
backup_id = "0123456789abcdef0123456789abcdef"

abbrev preview_id : String
preview_id = "00112233445566778899aabbccddeeff"

abbrev backup : BackupRecord
backup = record {
  backup_id = backup_id;
  plan_id = "cda-admin-configuration";
  created_at = 5;
  creator = "operator";
  total_bytes = 20;
  resources = saved ∷ [];
  safety_snapshot = false;
  is_intact = true;
}

abbrev plan : BackupPlan
plan = record {
  plan_id = "cda-admin-configuration";
  resources = "channel-routing" ∷ [];
  retention = 10;
}

abbrev backups : {S : Type 0} → S → Backups S
backups store = record {
  store = store;
  directories = (backup_id, backup) ∷ [];
  catalog = backup_id ∷ [];
  previews =
      (
        preview_id,
        record {
          actor = "operator";
          bot_id = "cda-admin";
          backup_id = backup_id;
          revisions = ("channel-routing", "new") ∷ [];
          instance = some "i1";
        },
      )
      ∷ [];
  active_restore = [];
  is_locked = false;
  audit = [];
}

abbrev memory : MemoryStore
memory = record {
  configs = ("cda-admin-server", ("general", str "new") ∷ []) ∷ [];
  fail_write = false;
}

abbrev world : RestoreWorld
world = record {
  disk = record {
    backup_id = "ffffffffffffffffffffffffffffffff";
    created_at = 9;
    disk_fails = false;
    replace_fails = false;
    catalog_fails = false;
  };
  instance = some "i1";
}

abbrev operator : Principal
operator = record {
  principal_id = "operator";
  permissions = "backups.restore" ∷ [];
  bot_ids = none;
}

abbrev resolve : String → Option ConfigurationResource
resolve id = some routing

restore_backup-IsRestored_example :
    IsRestored
      (memory_adapter revision_of)
      (λ r d. Unit)
      (memory_adapter-IsLawful revision_of)
      resolve
      length
      1000
      saved
      routing
      (backups memory)
      (restore_backup
        (memory_adapter revision_of)
        resolve
        length
        1000
        can
        world
        operator
        "cda-admin"
        plan
        backup_id
        preview_id
        (backups memory)).0
      (restore_backup
        (memory_adapter revision_of)
        resolve
        length
        1000
        can
        world
        operator
        "cda-admin"
        plan
        backup_id
        preview_id
        (backups memory)).1
unfolding lookup
restore_backup-IsRestored_example =
    restore_backup-IsRestored (memory_adapter revision_of) (λ r d. Unit)
      (memory_adapter-IsLawful revision_of) resolve length 1000 can world operator "cda-admin" plan
      backup_id preview_id (backups memory) backup saved routing refl refl refl refl tt

-- A revision that is the text under one key.
abbrev revision_text : Option Json → String
revision_text (some (str s)) = s
revision_text _ = ""

abbrev document : Fields
document = field "channels" (obj end) (field "verified_users" (str "later") end)

abbrev documents : DocumentStore
documents = record { files = ("cda-admin-server", some (obj document)) ∷ []; fails = false }

abbrev to_int : Json → Option ℤ
to_int v = some (pos 7)

-- The document when the backup was made.
abbrev backed : Fields
backed = field "channels" (obj end) (field "verified_users" (str "old") end)

abbrev document_revision : Fields → String
document_revision f = revision_text (get_field "verified_users" f)

users_changed : get_field "verified_users" document ≢ get_field "verified_users" backed
unfolding get_field
users_changed same = absurd (cc same)

told_apart :
    (f : Fields) (expected : String)
    → lookup saved.resource_id (("channel-routing", "later") ∷ []) ≡ some expected
    → updated_document (λ v. "7") to_int document_revision routing saved.values expected documents
      ≡ ok f
    → document_revision f ≡ document_revision backed
    → f ≡ backed
unfolding get_field load lookup
told_apart f expected there wrote same =
    let kept =
      updated_document-others (λ v. "7") to_int document_revision false routing saved.values
        expected "verified_users" documents refl refl wrote in
    let e : "later" ≡ "old" = sym (ap revision_text kept) ∙ same in absurd (cc e)

write_back_stale_example :
    (write_back
      (document_adapter (λ v. "7") to_int document_revision false)
      resolve
      length
      1000
      backup
      backup
      (("channel-routing", "later") ∷ [])
      (backups documents)).0
    ≢ ok backup
unfolding get_field load lookup
write_back_stale_example =
    write_back_stale (λ v. "7") to_int document_revision false resolve length 1000 backup backup
      (("channel-routing", "later") ∷ []) (backups documents) saved routing "verified_users"
      document backed backup refl refl refl refl refl users_changed told_apart
