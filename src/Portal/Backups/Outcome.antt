-- ===== src/Portal/Backups/Outcome.antt =====
-- What a restore of portal/backups.py leaves, for a backup of one resource, as the plan of the
-- catalog has it, and over any adapter that keeps the laws of portal/resources.py.
use modular_discord_bot_oper.Common.{
  ℕ, String, true, Option, none, some, [], ◌∷◌, Result, ok, err, ◌≡◌, refl, sym, ap, subst, ◌∙◌,
  arith, Bool-cases, Option-cases, Result-cases, inl, inr, ◌⊎◌,
}
use modular_discord_bot_oper.Common.Dict.{Dict, lookup, erase}
use modular_discord_bot_oper.Common.Fallible.{◌>>=◌, ◌>>◌, ensure, >>=-ok_parts}
use modular_discord_bot_oper.Common.Json.{Json}
use modular_discord_bot_oper.Common.Text.{is_hex_id}
use modular_discord_bot_oper.Portal.Authorization.{Principal, Authorizer}
use modular_discord_bot_oper.Portal.Resources.{ConfigurationResource}
use modular_discord_bot_oper.Portal.Resources.Service.{Adapter, IsLawful}
use modular_discord_bot_oper.Portal.Backups.{
  BackupError, Saved, BackupRecord, BackupPlan, PreviewEntry, Backups, create_locked,
}
use modular_discord_bot_oper.Portal.Backups.Restore.{
  RestoreWorld, verify, find_record, write_back, restore_locked, guarded, restore_backup,
  pop_preview, is_preview_of, same_instance, check_revisions,
}
use modular_discord_bot_oper.Portal.Backups.Safety.{create_locked-IsMade}
use modular_discord_bot_oper.Portal.Backups.Recovery.{IsRecovered, write_back-IsRecovered}

pop_preview-cases :
    {S : Type 0} (id : String) (s : Backups S)
    → (pop_preview id s ≡ (none, s))
      ⊎ (pop_preview id s ≡ (lookup id s.previews, record s { previews = erase id s.previews }))
unfolding pop_preview
pop_preview-cases id s = elim (Bool-cases (is_hex_id id)) [
  | inl yes_ ↦ inr (rw (yes_, pop_preview) refl)
  | inr no_ ↦ inl (rw (no_, pop_preview) refl)
]

module _ {S : Type 0} (a : Adapter S) (Serves : ConfigurationResource → Dict Json → Type 0)
    (lawful : IsLawful a Serves) (resolve : String → Option ConfigurationResource)
    (size_of : Dict Json → ℕ) (limit : ℕ) where
  -- How a restore ends: the lock is as it was; and it failed and the store is as it was, or the
  -- writes ended as above.
  abbrev pub IsRestored :
      Saved
      → ConfigurationResource
      → Backups S
      → Result BackupError BackupRecord
      → Backups S
      → Type 0
  IsRestored x r s answer after =
      (after.is_locked ≡ s.is_locked)
      × (((e : BackupError) × (answer ≡ err e) × (after.store ≡ s.store))
          ⊎ IsRecovered a Serves lawful resolve size_of limit x r s.store answer after.store)

  verify_found :
      (id : String) (s : Backups S) {b v : BackupRecord}
      → lookup id s.directories ≡ some b
      → verify id s ≡ ok v
      → v ≡ b
  unfolding verify
  verify_found id s {b = b} there done = elim (Bool-cases b.is_intact) [
    | inl whole ↦ cc (rw whole at rw (there, verify) at done)
    | inr broken ↦ absurd (cc (rw broken at rw (there, verify) at done))
  ]

  write_back_lock :
      (b safety : BackupRecord) (before : Dict String) (s : Backups S)
      → (write_back a resolve size_of limit b safety before s).1.is_locked ≡ s.is_locked
  unfolding write_back
  write_back_lock b safety before s = ground arith

  restore_locked-IsRestored :
      (w : RestoreWorld) (actor : String) (plan : BackupPlan) (id : String) (p : PreviewEntry)
      (s : Backups S) (b : BackupRecord) (x : Saved) (r : ConfigurationResource)
      → lookup id s.directories ≡ some b
      → b.resources ≡ x ∷ []
      → plan.resources ≡ x.resource_id ∷ []
      → resolve x.resource_id ≡ some r
      → Serves r x.values
      → IsRestored x r s
          (restore_locked a resolve size_of limit w actor plan id p s).0
          (restore_locked a resolve size_of limit w actor plan id p s).1
  unfolding restore_locked
  restore_locked-IsRestored w actor plan id p s b x r there one planned found serves =
      let checks = verify id s >>= λ b.
      ensure (same_instance p.instance w.instance) BackupError.stale_restore_preview
      >> check_revisions a resolve size_of limit b.resources p.revisions s.store
      >> ok b in
      elim (Result-cases checks) [
        | inr (e, failed) ↦ rw (failed, restore_locked) (refl, inl (e, refl, refl))
        | inl (v, done) ↦
            let (v', verified, rest) =
              >>=-ok_parts (verify id s)
                (λ b.
                  ensure (same_instance p.instance w.instance) BackupError.stale_restore_preview
                  >> check_revisions a resolve size_of limit b.resources p.revisions s.store
                  >> ok b)
                done in
            let (_, _, last) =
              >>=-ok_parts
                (ensure (same_instance p.instance w.instance) BackupError.stale_restore_preview
                  >> check_revisions a resolve size_of limit v'.resources p.revisions s.store)
                (λ _. ok v') rest in
            let e : v ≡ b = sym (cc last) ∙ verify_found id s there verified in
            let (kept, lock, made) =
              create_locked-IsMade a resolve size_of limit w.disk actor plan s x r planned found in
            elim made [
              | inl (e', failed) ↦
                  rw (done, restore_locked) (rw failed (lock, inl (e', refl, kept)))
              | inr (safety, former, ok_, seen, safe) ↦
                  let s' = (create_locked a resolve size_of limit w.disk actor plan true s).1 in
                  let ended =
                    write_back-IsRecovered a Serves lawful resolve size_of limit v safety
                      p.revisions s' x r former (ap (λ (z : BackupRecord). z.resources) e ∙ one)
                      found serves (ap (λ st. a.read r st) kept ∙ seen) safe in
                  rw (done, restore_locked)
                    (rw ok_ (
                      write_back_lock v safety p.revisions s' ∙ lock,
                      inr (
                          subst
                            (λ st.
                              IsRecovered a Serves lawful resolve size_of limit x r st
                                (write_back a resolve size_of limit v safety p.revisions s').0
                                (write_back a resolve size_of limit v safety p.revisions
                                  s').1.store)
                            kept ended),
                    ))
            ]
      ]

  guarded-IsRestored :
      (w : RestoreWorld) (actor : String) (plan : BackupPlan) (id : String) (p : PreviewEntry)
      (s : Backups S) (b : BackupRecord) (x : Saved) (r : ConfigurationResource)
      → lookup id s.directories ≡ some b
      → b.resources ≡ x ∷ []
      → plan.resources ≡ x.resource_id ∷ []
      → resolve x.resource_id ≡ some r
      → Serves r x.values
      → IsRestored x r s
          (guarded a resolve size_of limit w actor plan id p s).0
          (guarded a resolve size_of limit w actor plan id p s).1
  unfolding guarded
  guarded-IsRestored w actor plan id p s b x r there one planned found serves =
      elim (Bool-cases s.is_locked) [
        | inl taken ↦
            simp (taken, guarded) (refl, inl (BackupError.restore_in_progress, refl, refl))
        | inr free ↦
            let (_, ends) =
              restore_locked-IsRestored w actor plan id p
                (record s { is_locked = true; active_restore = id ∷ s.active_restore }) b x r there
                one planned found serves in
            simp (free, guarded) (refl, ends)
      ]

  -- A restore of a backup of one resource gives back the lock and ends in one of four ways: it was
  -- refused and changed no value; what is read is what was saved, at the saved revision; the error
  -- says that it was rolled back, and what is read is what was read before; or the error asks for an
  -- operator. The adapter keeps its laws and serves the saved values.
  pub restore_backup-IsRestored :
      (can : Authorizer) (w : RestoreWorld) (actor : Principal) (bot : String) (plan : BackupPlan)
      (id preview_id : String) (s : Backups S) (b : BackupRecord) (x : Saved)
      (r : ConfigurationResource)
      → lookup id s.directories ≡ some b
      → b.resources ≡ x ∷ []
      → plan.resources ≡ x.resource_id ∷ []
      → resolve x.resource_id ≡ some r
      → Serves r x.values
      → IsRestored x r s
          (restore_backup a resolve size_of limit can w actor bot plan id preview_id s).0
          (restore_backup a resolve size_of limit can w actor bot plan id preview_id s).1
  unfolding restore_backup
  restore_backup-IsRestored can w actor bot plan id preview_id s b x r there one planned found
        serves =
      let s' : Backups S = record s { previews = erase preview_id s.previews } in
      elim (Bool-cases (can actor "backups.restore" (some bot))) [
        | inr denied ↦
            rw (denied, restore_backup) (refl, inl (BackupError.permission_denied, refl, refl))
        | inl granted ↦ elim (pop_preview-cases preview_id s) [
          | inl nothing ↦
              rw (granted, restore_backup)
                (rw nothing
                  (rw nothing (refl, inl (BackupError.stale_restore_preview, refl, refl))))
          | inr popped ↦ elim (Option-cases (lookup preview_id s.previews)) [
            | inl absent ↦
                rw (granted, restore_backup)
                  (rw popped (
                    rw absent
                      (rw popped (refl, inl (BackupError.stale_restore_preview, refl, refl)))))
            | inr (p, held) ↦
                rw (granted, restore_backup)
                  (rw popped (
                    rw held (
                      rw popped
                        (elim (Bool-cases (is_preview_of (some p) actor.principal_id bot id)) [
                          | inr other ↦
                              rw other (refl, inl (BackupError.stale_restore_preview, refl, refl))
                          | inl own ↦ rw own (elim (Result-cases (find_record id s')) [
                            | inr (e, missing) ↦ rw missing (rw popped (refl, inl (e, refl, refl)))
                            | inl (v, recorded) ↦ rw recorded (
                                rw popped (
                                  guarded-IsRestored w actor.principal_id plan id p s' b x r there
                                    one planned found serves))
                          ])
                        ]))))
          ]
        ]
      ]
