-- ===== src/Portal/Backups/Safety.antt =====
-- What the making of a backup, in portal/backups.py, changes and keeps; the backup is of one resource.
use modular_discord_bot_oper.Common.{
  ltb, length, ℕ, String, true, Option, none, some, List, [], ◌∷◌, ◌++◌, str_eq, Result, ok, err,
  ◌≡◌, refl, sym, ap, ◌∙◌, arith, Bool-cases, Result-cases, List-cases, inl, inr, ◌⊎◌, eq_refl,
}
use modular_discord_bot_oper.Common.Dict.{
  Dict, lookup, insert, erase, lookup-erase, lookup-insert_self,
}
use modular_discord_bot_oper.Common.Fallible.{◌>>◌, refuse, >>=-ok_parts}
use modular_discord_bot_oper.Common.Json.{Json}
use modular_discord_bot_oper.Portal.Resources.{ConfigurationResource}
use modular_discord_bot_oper.Portal.Resources.Service.{Snapshot, Adapter}
use modular_discord_bot_oper.Portal.Backups.{
  BackupError, Saved, BackupRecord, BackupPlan, Backups, DiskWorld, create_locked, entry_of,
  is_too_big, retention, expired, without_dirs, make_room, is_full, sizes, save_all, collect,
  max_resources, enlist, new_backup, records, ids_of,
}
use modular_discord_bot_oper.Portal.Backups.Restore.{find_saved, saved_of, saved_in}

lookup-without_dirs :
    (id : String) (ids : List String) (dirs : Dict BackupRecord)
    → (lookup id (without_dirs ids dirs) ≡ none)
      ⊎ (lookup id (without_dirs ids dirs) ≡ lookup id dirs)
unfolding without_dirs
lookup-without_dirs id [] dirs = inr refl
lookup-without_dirs id (j ∷ ids) dirs = elim (lookup-without_dirs id ids (erase j dirs)) [
  | inl gone ↦ inl gone
  | inr same ↦ elim (Bool-cases (str_eq j id)) [
    | inl here ↦ inl (same ∙ lookup-erase j id dirs ∙ rw here refl)
    | inr other ↦ inr (same ∙ lookup-erase j id dirs ∙ rw other refl)
  ]
]

only_found :
    (id : String) (x y : Saved)
    → str_eq x.resource_id id ≡ true
    → find_saved id (x ∷ []) ≡ some y
    → y.values ≡ x.values
only_found id x y here found =
    let e : x ≡ y = cc (rw here at found) in ap (λ (z : Saved). z.values) (sym e)

-- What `_retention` leaves alone, and what it may remove.
module _ {S : Type 0} where
  retention-others :
      (plan : BackupPlan) (reserve : ℕ) (s : Backups S)
      → ((retention plan reserve s).store ≡ s.store)
        × ((retention plan reserve s).is_locked ≡ s.is_locked)
  unfolding retention
  retention-others plan reserve s = (ground arith, ground arith)

  lookup-retention :
      (plan : BackupPlan) (reserve : ℕ) (s : Backups S) (id : String)
      → (lookup id (retention plan reserve s).directories ≡ none)
        ⊎ (lookup id (retention plan reserve s).directories ≡ lookup id s.directories)
  unfolding retention
  lookup-retention plan reserve s id = elim (List-cases (expired plan reserve s)) [
    | inl nothing ↦ inr (rw (nothing, retention) refl)
    | inr (j, ids, gone) ↦ rw (gone, retention) (lookup-without_dirs id (j ∷ ids) s.directories)
  ]

module _ {S : Type 0} (a : Adapter S) (resolve : String → Option ConfigurationResource)
    (size_of : Dict Json → ℕ) (limit : ℕ) where
  make_room-others :
      (plan : BackupPlan) (total : ℕ) (s : Backups S)
      → ((make_room a resolve size_of limit plan total s).1.store ≡ s.store)
        × ((make_room a resolve size_of limit plan total s).1.is_locked ≡ s.is_locked)
  unfolding make_room
  make_room-others plan total s =
      let (stores, locks) = retention-others plan 1 s in
      elim (Bool-cases (is_full a resolve size_of limit total s)) [
        | inr fits ↦ rw (fits, make_room) (refl, refl)
        | inl full ↦
            elim (Bool-cases (is_full a resolve size_of limit total (retention plan 1 s))) [
              | inl still ↦ rw (full, make_room) (rw still (stores, locks))
              | inr room ↦ rw (full, make_room) (rw room (stores, locks))
            ]
      ]

  enlist-others :
      (plan : BackupPlan) (b : BackupRecord) (s : Backups S)
      → ((enlist a resolve size_of limit plan b s).store ≡ s.store)
        × ((enlist a resolve size_of limit plan b s).is_locked ≡ s.is_locked)
        × ((saved_in a resolve size_of limit b.backup_id (enlist a resolve size_of limit plan b s)
              ≡ [])
            ⊎ (saved_in a resolve size_of limit b.backup_id
                  (enlist a resolve size_of limit plan b s)
                ≡ b.resources))
  unfolding enlist
  enlist-others plan b s =
      let t : Backups S = record s {
        directories = insert b.backup_id b s.directories;
        catalog = ids_of (records s.catalog s.directories) ++ b.backup_id ∷ [];
        audit = s.audit ++ "backup.succeeded" ∷ [];
      } in
      let (stores, locks) = retention-others plan 0 t in
      (
        stores,
        locks,
        elim (lookup-retention plan 0 t b.backup_id) [
          | inl gone ↦ inl (ap saved_of gone)
          | inr same ↦ inr (ap saved_of (same ∙ lookup-insert_self b.backup_id b s.directories))
        ],
      )

  save_one :
      (id : String) (r : ConfigurationResource) (store : S) {saved : List Saved}
      → resolve id ≡ some r
      → save_all a resolve size_of limit (id ∷ []) 0 store ≡ ok saved
      → (former : Snapshot) × (a.read r store ≡ ok former)
        × ((y : Saved) → find_saved id saved ≡ some y → y.values ≡ former.values)
  unfolding save_all
  save_one id r store {saved = saved} found done = elim (Result-cases (a.read r store)) [
    | inr (e, unread) ↦ absurd (cc (rw unread at rw (found, save_all) at done))
    | inl (former, seen) ↦
        let opened = rw seen at rw (found, save_all) at done in
        elim (Bool-cases (is_too_big a resolve size_of limit 0 former)) [
          | inl big ↦ absurd (cc (rw big at opened))
          | inr small ↦
              let e : entry_of a resolve size_of limit id former ∷ [] ≡ saved =
                cc (rw small at opened) in
              (
                former,
                seen,
                λ y there.
                    only_found id (entry_of a resolve size_of limit id former) y (eq_refl id)
                      (ap (find_saved id) e ∙ there),
              )
        ]
  ]

  -- A backup of one resource holds what is read of it.
  collect_one :
      (w : DiskWorld) (plan : BackupPlan) (id : String) (r : ConfigurationResource) (store : S)
      {saved : List Saved}
      → plan.resources ≡ id ∷ []
      → resolve id ≡ some r
      → (refuse w.disk_fails BackupError.persistence_failed
          >> collect a resolve size_of limit plan store)
        ≡ ok saved
      → (former : Snapshot) × (a.read r store ≡ ok former)
        × ((y : Saved) → find_saved id saved ≡ some y → y.values ≡ former.values)
  unfolding collect
  collect_one w plan id r store one found done =
      let (_, _, collected) =
        >>=-ok_parts (refuse w.disk_fails BackupError.persistence_failed)
          (λ _. collect a resolve size_of limit plan store) done in
      let (v, all_saved, rest) =
        >>=-ok_parts (save_all a resolve size_of limit plan.resources 0 store)
          (λ saved.
            refuse (ltb max_resources (length saved)) BackupError.backup_storage_full >> ok saved)
          collected in
      let (_, _, last) =
        >>=-ok_parts (refuse (ltb max_resources (length v)) BackupError.backup_storage_full)
          (λ _. ok v) rest in
      save_one id r store found (rw one at all_saved ∙ last)

  -- A backup leaves the store alone; if it is made of one resource, it holds what is read of it,
  -- unless it has expired at once.
  abbrev pub IsMade :
      Saved
      → ConfigurationResource
      → Backups S
      → Result BackupError BackupRecord
      → Backups S
      → Type 0
  IsMade x r s answer after =
      (after.store ≡ s.store)
      × (after.is_locked ≡ s.is_locked)
      × (((e : BackupError) × (answer ≡ err e))
          ⊎ ((safety : BackupRecord) × (former : Snapshot) × (answer ≡ ok safety)
              × (a.read r s.store ≡ ok former)
              × ((y : Saved)
                  → find_saved x.resource_id
                      (saved_in a resolve size_of limit safety.backup_id after)
                    ≡ some y
                  → y.values ≡ former.values)))

  pub create_locked-IsMade :
      (w : DiskWorld) (actor : String) (plan : BackupPlan) (s : Backups S) (x : Saved)
      (r : ConfigurationResource)
      → plan.resources ≡ x.resource_id ∷ []
      → resolve x.resource_id ≡ some r
      → IsMade x r s
          (create_locked a resolve size_of limit w actor plan true s).0
          (create_locked a resolve size_of limit w actor plan true s).1
  unfolding create_locked
  create_locked-IsMade w actor plan s x r one found =
      let asked : Backups S = record s { audit = s.audit ++ "backup.requested" ∷ [] } in
      elim (Result-cases (
        refuse w.disk_fails BackupError.persistence_failed
        >> collect a resolve size_of limit plan s.store)) [
          | inr (e, failed) ↦ rw (failed, create_locked) (refl, refl, inl (e, refl))
          | inl (saved, done) ↦
              let total = sizes a resolve size_of limit saved in
              let made = make_room a resolve size_of limit plan total asked in
              let (stores, locks) = make_room-others plan total asked in
              elim (Result-cases made.0) [
                | inr (e, full) ↦ rw (done, create_locked) (rw full (stores, locks, inl (e, refl)))
                | inl (_, room) ↦ elim (Bool-cases w.replace_fails) [
                  | inl stuck ↦
                      rw (done, create_locked)
                        (rw room
                          (rw stuck (stores, locks, inl (BackupError.persistence_failed, refl))))
                  | inr placed ↦ elim (Bool-cases w.catalog_fails) [
                    | inl unlisted ↦
                        rw (done, create_locked)
                          (rw room (
                            simp (placed, unlisted)
                              (stores, locks, inl (BackupError.persistence_failed, refl))))
                    | inr listed ↦
                        let b = new_backup a resolve size_of limit w actor plan true saved in
                        let (kept, lock, safe) = enlist-others plan b made.1 in
                        let (former, seen, holds) =
                          collect_one w plan x.resource_id r s.store one found done in
                        rw (done, create_locked)
                          (rw room (
                            simp (placed, listed)
                              (
                                kept ∙ stores,
                                lock ∙ locks,
                                inr (
                                  b,
                                  former,
                                  refl,
                                  seen,
                                  λ y there. elim safe [
                                    | inl gone ↦ absurd (cc (rw gone at there))
                                    | inr same ↦ holds y (rw same at there)
                                  ],
                                ),
                              )))
                  ]
                ]
              ]
        ]
