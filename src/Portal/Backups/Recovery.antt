-- ===== src/Portal/Backups/Recovery.antt =====
-- How the writes of a restore of portal/backups.py end, for a backup of one resource, as the plan of
-- the catalog has it, and over any adapter that keeps the laws of portal/resources.py.
use modular_discord_bot_oper.Common.{
  ℕ, String, true, false, Option, some, List, [], ◌∷◌, str_eq, Result, ok, err, ◌≡◌, refl, sym, ap,
  subst, ◌∙◌, arith, Bool-cases, Option-cases, Result-cases, inl, inr, ◌⊎◌, eq_iff,
}
use modular_discord_bot_oper.Common.Dict.{Dict, lookup}
use modular_discord_bot_oper.Common.Json.{Json}
use modular_discord_bot_oper.Portal.Resources.{ConfigurationResource}
use modular_discord_bot_oper.Portal.Resources.Service.{Snapshot, Adapter, IsLawful}
use modular_discord_bot_oper.Portal.Backups.{
  BackupError, restore_failed_rolled_back, manual_recovery_required, Saved, BackupRecord, Backups,
}
use modular_discord_bot_oper.Portal.Backups.Restore.{
  find_saved, apply_all, roll_back, saved_in, write_back,
}

module _ {S : Type 0} (a : Adapter S) (Serves : ConfigurationResource → Dict Json → Type 0)
    (lawful : IsLawful a Serves) (resolve : String → Option ConfigurationResource)
    (size_of : Dict Json → ℕ) (limit : ℕ) where
  -- What is read of the resource has these values.
  abbrev pub Reads : ConfigurationResource → S → Dict Json → Type 0
  Reads r store d =
      (later : Snapshot) × (a.read r store ≡ ok later)
      × ((k : String) → lookup k later.values ≡ lookup k d)

  -- How the loop ends on one resource.
  apply_one :
      (x : Saved) (r : ConfigurationResource) (before : Dict String) (store : S)
      → resolve x.resource_id ≡ some r
      → (apply_all a resolve size_of limit (x ∷ []) before store ≡ (false, [], store))
        ⊎ ((expected : String) × (snapshot : Snapshot) × ((a.write r x.values expected store).0
              ≡ ok snapshot)
            × (apply_all a resolve size_of limit (x ∷ []) before store ≡ (
              str_eq snapshot.revision x.revision,
              x ∷ [],
              (a.write r x.values expected store).1,
            )))
  unfolding apply_all
  apply_one x r before store found = elim (Option-cases (lookup x.resource_id before)) [
    | inl absent ↦ inl (rw (found, absent, apply_all) refl)
    | inr (expected, there) ↦ elim (Result-cases (a.write r x.values expected store).0) [
      | inr (e, failed) ↦ inl (
          rw (found, apply_all)
            (rw there (
              rw failed
                (ap (λ t. (false, [], t)) (lawful.refused r x.values expected store failed)))))
      | inl (snapshot, wrote) ↦
          inr
            (expected, snapshot, wrote, rw (found, apply_all) (rw there (rw wrote (ground arith))))
    ]
  ]

  -- How the rollback of one resource ends: it did not come to its end, or what is read of the
  -- resource is what the safety backup has.
  roll_one :
      (saved : List Saved) (x : Saved) (r : ConfigurationResource) (store : S)
      → resolve x.resource_id ≡ some r
      → ((y : Saved) → find_saved x.resource_id saved ≡ some y → Serves r y.values)
      → ((roll_back a resolve size_of limit saved (x ∷ []) store).0 ≡ false)
        ⊎ ((y : Saved) × (find_saved x.resource_id saved ≡ some y)
            × ((roll_back a resolve size_of limit saved (x ∷ []) store).0 ≡ true)
            × Reads r (roll_back a resolve size_of limit saved (x ∷ []) store).1 y.values)
  unfolding roll_back
  roll_one saved x r store found serves = elim (Result-cases (a.read r store)) [
    | inr (e, unread) ↦ inl (rw (found, roll_back) (rw unread refl))
    | inl (current, seen) ↦ elim (Option-cases (find_saved x.resource_id saved)) [
      | inl absent ↦ inl (rw (found, roll_back) (rw seen (rw absent refl)))
      | inr (y, there) ↦ elim (Result-cases (a.write r y.values current.revision store).0) [
        | inr (e, failed) ↦ inl (rw (found, roll_back) (rw seen (rw there (rw failed refl))))
        | inl (snapshot, wrote) ↦
            let (later, read_back, _, same) =
              lawful.written r y.values current.revision store (serves y there) wrote in
            inr (
              y,
              there,
              rw (found, roll_back) (rw seen (rw there (rw wrote refl))),
              (later, rw (found, roll_back) (rw seen (rw there (rw wrote read_back))), same),
            )
      ]
    ]
  ]

  -- How the writes end: the saved values are read, at the saved revision; or the error says that
  -- they were taken back, and the former values are read; or it asks for an operator.
  abbrev pub IsRecovered :
      Saved → ConfigurationResource → S → Result BackupError BackupRecord → S → Type 0
  IsRecovered x r store answer after =
      ((b : BackupRecord) × (later : Snapshot) × (answer ≡ ok b)
        × (a.read r after ≡ ok later)
        × (later.revision ≡ x.revision)
        × ((k : String) → lookup k later.values ≡ lookup k x.values))
      ⊎ ((answer ≡ err restore_failed_rolled_back)
          × ((after ≡ store)
              ⊎ ((former : Snapshot) × (a.read r store ≡ ok former) × Reads r after former.values)))
      ⊎ (answer ≡ err manual_recovery_required)

  pub write_back-IsRecovered :
      (b safety : BackupRecord) (before : Dict String) (s : Backups S) (x : Saved)
      (r : ConfigurationResource) (former : Snapshot)
      → b.resources ≡ x ∷ []
      → resolve x.resource_id ≡ some r
      → Serves r x.values
      → a.read r s.store ≡ ok former
      → ((y : Saved)
          → find_saved x.resource_id (saved_in a resolve size_of limit safety.backup_id s) ≡ some y
          → y.values ≡ former.values)
      → IsRecovered x r s.store
          (write_back a resolve size_of limit b safety before s).0
          (write_back a resolve size_of limit b safety before s).1.store
  unfolding write_back
  write_back-IsRecovered b safety before s x r former one found serves seen safe =
      let saved = saved_in a resolve size_of limit safety.backup_id s in
      let kept = λ (y : Saved) (there : find_saved x.resource_id saved ≡ some y).
        subst (λ d. Serves r d) (sym (safe y there))
          (lawful.readable r s.store x.values serves seen) in
      elim (apply_one x r before s.store found) [
        | inl nothing ↦ rw (one, write_back) (rw nothing (inr (inl (refl, inl refl))))
        | inr (expected, snapshot, wrote, applied) ↦
            elim (Bool-cases (str_eq snapshot.revision x.revision)) [
              | inl right ↦
                  rw (one, write_back)
                    (rw applied (
                      rw right (
                        let (later, read_back, same_revision, same) =
                          lawful.written r x.values expected s.store serves wrote in
                        inl (
                          record b { resources = x ∷ [] },
                          later,
                          refl,
                          read_back,
                          same_revision ∙ (eq_iff snapshot.revision x.revision).0 right,
                          same,
                        ))))
              | inr wrong ↦
                  rw (one, write_back)
                    (rw applied (
                      rw wrong
                        (elim (roll_one saved x r (a.write r x.values expected s.store).1 found
                          kept) [
                            | inl failed ↦ rw failed (inr (inr refl))
                            | inr (y, there, rolled, reads) ↦ rw rolled (
                                inr (
                                  inl (
                                    refl,
                                    inr (
                                      former,
                                      seen,
                                      subst
                                          (λ d.
                                            Reads r
                                              (roll_back a resolve size_of limit saved (x ∷ [])
                                                (a.write r x.values expected s.store).1).1
                                              d)
                                          (safe y there) reads,
                                    ),
                                  )))
                          ])))
            ]
      ]
