-- ===== src/Portal/Backups/Stale.antt =====
-- portal/backups.py over `AtomicJsonResourceAdapter` of portal/resources.py: the revision of a
-- resource is that of the whole document it is a part of.
use modular_discord_bot_oper.Common.{
  ℕ, String, Bool, false, Option, some, [], ◌∷◌, str_eq, Result, ok, ◌≡◌, ◌≢◌, refl, sym, ap, ◌∙◌,
  arith, Bool-cases, Option-cases, Result-cases, inl, inr, eq_iff, str_eq-false,
}
use modular_discord_bot_oper.Common.Dict.{Dict, lookup}
use modular_discord_bot_oper.Common.Json.{Json, ℤ, Fields, end, field, get_field, obj}
use modular_discord_bot_oper.Portal.Resources.{ConfigurationResource, ResourceError}
use modular_discord_bot_oper.Portal.Resources.Document.{
  DocumentStore, set_field, load, updated_document, write_config, document_adapter,
}
use modular_discord_bot_oper.Portal.Resources.Round.{updated_document_parts}
use modular_discord_bot_oper.Portal.Backups.{Saved, BackupRecord, Backups}
use modular_discord_bot_oper.Portal.Backups.Restore.{apply_all, write_back}

get_field-set_field :
    (k j : String) (v : Json) (fs : Fields)
    → str_eq k j ≡ false
    → get_field j (set_field k v fs) ≡ get_field j fs
unfolding get_field set_field
get_field-set_field k j v end ne = rw ne refl
get_field-set_field k j v (field i w fs) ne = elim (Bool-cases (str_eq i k)) [
  | inl here ↦
      let far : str_eq i j ≡ false = ground (arith, eq_iff i k, eq_iff i j, eq_iff k j) in
      rw here (rw (ne, far) refl)
  | inr other ↦ rw other (rw (get_field-set_field k j v fs ne) refl)
]

ok_same : {f g : Fields} → ◌≡◌ {A = Result ResourceError Fields} (ok f) (ok g) → f ≡ g
ok_same e = cc e

module _ (to_str : Json → String) (to_int : Json → Option ℤ) (revision_of : Fields → String)
    (sync_fails : Bool) where
  -- A document that was written differs from the former in its channels only.
  pub updated_document-others :
      (r : ConfigurationResource) (d : Dict Json) (expected key : String) (s : DocumentStore)
      {document written : Fields}
      → str_eq "channels" key ≡ false
      → load r.location_key s ≡ ok document
      → updated_document to_str to_int revision_of r d expected s ≡ ok written
      → get_field key written ≡ get_field key document
  updated_document-others r d expected key s {document = document} ne loaded done =
      let (shown, channels, at_, _, _, e) =
        updated_document_parts to_str to_int revision_of r d expected s done in
      let same : shown ≡ document = ok_same (sym at_ ∙ loaded) in
      ap (get_field key) (sym e)
      ∙ get_field-set_field "channels" key (obj channels) shown ne
      ∙ ap (get_field key) same

  apply_fails :
      (resolve : String → Option ConfigurationResource) (size_of : Dict Json → ℕ) (limit : ℕ)
      (before : Dict String) (s : DocumentStore) (x : Saved) (r : ConfigurationResource)
      (key : String) (document backed : Fields)
      → resolve x.resource_id ≡ some r
      → load r.location_key s ≡ ok document
      → str_eq "channels" key ≡ false
      → x.revision ≡ revision_of backed
      → get_field key document ≢ get_field key backed
      → ((f : Fields) (expected : String)
          → lookup x.resource_id before ≡ some expected
          → updated_document to_str to_int revision_of r x.values expected s ≡ ok f
          → revision_of f ≡ revision_of backed
          → f ≡ backed)
      → (apply_all
          (document_adapter to_str to_int revision_of sync_fails)
          resolve
          size_of
          limit
          (x ∷ [])
          before
          s).0
        ≡ false
  unfolding apply_all write_config
  apply_fails resolve size_of limit before s x r key document backed found loaded ne of_backed
        changed told =
      elim (Option-cases (lookup x.resource_id before)) [
        | inl absent ↦ rw (found, apply_all) (rw absent refl)
        | inr (expected, there) ↦
            elim (Result-cases (updated_document to_str to_int revision_of r x.values expected s)) [
              | inr (e, failed) ↦ rw (found, apply_all) (rw there (rw (failed, write_config) refl))
              | inl (written, wrote) ↦
                  let kept = updated_document-others r x.values expected key s ne loaded wrote in
                  let differs = str_eq-false (revision_of written) x.revision (λ same. changed (
                    sym kept
                    ∙ ap (get_field key) (told written expected there wrote (same ∙ of_backed)))) in
                  elim (Bool-cases sync_fails) [
                    | inl fails ↦
                        rw (found, apply_all) (rw there (rw (wrote, write_config) (rw fails refl)))
                    | inr synced ↦
                        rw (found, apply_all)
                          (rw there (rw (wrote, write_config) (rw synced (rw differs refl))))
                  ]
            ]
      ]

  -- Once another part of the document has changed since a backup, the writes of a restore of that
  -- backup fail, whatever is restored; provided that the document which the restore writes and the
  -- one that was backed up have one revision only if they are the same.
  pub write_back_stale :
      (resolve : String → Option ConfigurationResource) (size_of : Dict Json → ℕ) (limit : ℕ)
      (b safety : BackupRecord) (before : Dict String) (s : Backups DocumentStore) (x : Saved)
      (r : ConfigurationResource) (key : String) (document backed : Fields)
      (restored : BackupRecord)
      → b.resources ≡ x ∷ []
      → resolve x.resource_id ≡ some r
      → load r.location_key s.store ≡ ok document
      → str_eq "channels" key ≡ false
      → x.revision ≡ revision_of backed
      → get_field key document ≢ get_field key backed
      → ((f : Fields) (expected : String)
          → lookup x.resource_id before ≡ some expected
          → updated_document to_str to_int revision_of r x.values expected s.store ≡ ok f
          → revision_of f ≡ revision_of backed
          → f ≡ backed)
      → (write_back
          (document_adapter to_str to_int revision_of sync_fails)
          resolve
          size_of
          limit
          b
          safety
          before
          s).0
        ≢ ok restored
  unfolding write_back
  write_back_stale resolve size_of limit b safety before s x r key document backed restored one
        found loaded ne of_backed changed told done =
      let failed =
        apply_fails resolve size_of limit before s.store x r key document backed found loaded ne
          of_backed changed told in
      absurd (cc (rw failed at rw (one, write_back) at done))
