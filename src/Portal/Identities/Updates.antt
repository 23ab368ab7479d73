-- ===== src/Portal/Identities/Updates.antt =====
-- `admin_update` of portal/identity.py: what it changes.
use modular_discord_bot_oper.Common.{
  ℕ, String, true, false, Option, some, List, [], ◌∷◌, ◌&&◌, ◌||◌, str_eq, Result, ok, err, leb,
  ◌≡◌, refl, ap, arith, All, Bool-cases, Option-cases, Result-cases, inl, inr, ◌⊎◌, eq_iff,
}
use modular_discord_bot_oper.Common.Fallible.{
  ◌>>◌, refuse, ensure, >>=-ok_parts, ensure_passed, refuse_passed,
}
use modular_discord_bot_oper.Portal.Identities.{
  PortalIdentity, Database, StoredSession, IdentityError, Update, first, find_by_id, is_false,
  is_version, administrators, revalidate, check_row, updated, write_row, is_of, without_sessions,
  admin_update,
}

-- Every error leaves the database alone.
pub admin_update-cases :
    (id : String) (u : Update) (now : ℕ) (db : Database)
    → ((e : IdentityError) × (admin_update id u now db ≡ (err e, db)))
      ⊎ ((revalidate id u db ≡ ok tt)
          × (check_row id u db ≡ ok tt)
          × (admin_update id u now db ≡ (
              let db' = record db {
                identities = write_row id (updated u now) db.identities;
                sessions = without_sessions id db.sessions;
              } in
              (ok (find_by_id id db'), db'))))
unfolding admin_update
admin_update-cases id u now db = elim (Result-cases (revalidate id u db >> check_row id u db)) [
  | inr (e, failed) ↦ inl (e, rw (failed, admin_update) refl)
  | inl (_, done) ↦
      let (_, first_ok, second_ok) =
        >>=-ok_parts (revalidate id u db) (λ _. check_row id u db) done in
      inr (first_ok, second_ok, rw (done, admin_update) refl)
]

-- The row that the checks saw.
pub check_row-found :
    (id : String) (u : Update) (db : Database)
    → check_row id u db ≡ ok tt
    → (row : PortalIdentity) × (find_by_id id db ≡ some row)
      × (is_version u.expected_version row.row_version ≡ true)
      × (((is_false u.enabled || is_false u.administrator)
            && row.administrator
            && leb (administrators db.identities) 1)
          ≡ false)
unfolding check_row find_by_id administrators
check_row-found id u db h = elim (Option-cases (find_by_id id db)) [
  | inl absent ↦ absurd (cc (rw (absent, check_row) at h))
  | inr (row, found) ↦
      let (_, current, guarded) =
        >>=-ok_parts
          (ensure (is_version u.expected_version row.row_version)
            IdentityError.concurrently_modified)
          (λ _.
            refuse
              ((is_false u.enabled || is_false u.administrator)
                && row.administrator
                && leb (administrators db.identities) 1)
              IdentityError.last_administrator)
          (rw (found, check_row) at h) in
      (
        row,
        found,
        ensure_passed (is_version u.expected_version row.row_version)
            IdentityError.concurrently_modified current,
        refuse_passed
            ((is_false u.enabled || is_false u.administrator)
              && row.administrator
              && leb (administrators db.identities) 1)
            IdentityError.last_administrator guarded,
      )
]

module _ (f : PortalIdentity → PortalIdentity)
    (keeps : (i : PortalIdentity) → (f i).identity_id ≡ i.identity_id) where
  -- A search after a write finds the row as it was written.
  first-write_self :
      (id : String) (is : List PortalIdentity) {row : PortalIdentity}
      → first (λ i. str_eq i.identity_id id) is ≡ some row
      → first (λ i. str_eq i.identity_id id) (write_row id f is) ≡ some (f row)
  unfolding write_row
  first-write_self id [] found = absurd (cc found)
  first-write_self id (i ∷ is) {row = row} found = elim (Bool-cases (str_eq i.identity_id id)) [
    | inl here ↦
        let e : i ≡ row = cc (rw here at found) in
        let moved : str_eq (f i).identity_id id ≡ true = rw (keeps i) here in
        rw here (rw moved (ap (λ r. some (f r)) e))
    | inr other ↦ rw other (rw other (first-write_self id is (rw other at found)))
  ]

  -- A search for another id finds what it found.
  first-write_other :
      (id other : String) (is : List PortalIdentity)
      → str_eq id other ≡ false
      → first (λ i. str_eq i.identity_id other) (write_row id f is)
        ≡ first (λ i. str_eq i.identity_id other) is
  unfolding write_row
  first-write_other id other [] ne = refl
  first-write_other id other (i ∷ is) ne =
      let rest = first-write_other id other is ne in
      elim (Bool-cases (str_eq i.identity_id id)) [
        | inl here ↦
            let far : str_eq i.identity_id other ≡ false =
              ground
                (arith, eq_iff i.identity_id id, eq_iff i.identity_id other, eq_iff id other) in
            rw here (rw (keeps i) (rw far rest))
        | inr there ↦ rw there (rw rest refl)
      ]

pub no_sessions :
    (id : String) (ss : List StoredSession) → All (λ s. is_of id s ≡ false) (without_sessions id ss)
unfolding without_sessions
no_sessions id [] = tt
no_sessions id (s ∷ ss) = elim (Bool-cases (is_of id s)) [
  | inl yes_ ↦ rw yes_ (no_sessions id ss)
  | inr no_ ↦ rw no_ (no_, no_sessions id ss)
]

-- What an update leaves: nothing changed on an error; else the row of the expected version as
-- written, its two revisions counted up, the other rows as they were, and no session of the identity.
abbrev pub IsApplied :
    String
    → Update
    → ℕ
    → Database
    → Result IdentityError (Option PortalIdentity)
    → Database
    → Type 0
IsApplied id u now db answer after =
    ((e : IdentityError) × (answer ≡ err e) × (after ≡ db))
    ⊎ ((row : PortalIdentity) × (find_by_id id db ≡ some row)
        × (is_version u.expected_version row.row_version ≡ true)
        × (answer ≡ ok (some (updated u now row)))
        × (find_by_id id after ≡ some (updated u now row))
        × ((other : String)
            → str_eq id other ≡ false
            → find_by_id other after ≡ find_by_id other db)
        × All (λ s. is_of id s ≡ false) after.sessions)

-- An update of an identity fails and changes nothing, or it was of the version that was expected:
-- then the row is as written with both revisions counted up, every other identity is as it was, and
-- no session of the identity is left.
pub admin_update-IsApplied :
    (id : String) (u : Update) (now : ℕ) (db : Database)
    → IsApplied id u now db (admin_update id u now db).0 (admin_update id u now db).1
unfolding find_by_id
admin_update-IsApplied id u now db = elim (admin_update-cases id u now db) [
  | inl (e, failed) ↦ rw failed (inl (e, refl, refl))
  | inr (_, checked, done) ↦
      let (row, found, current, _) = check_row-found id u db checked in
      let written = first-write_self (updated u now) (λ i. refl) id db.identities found in
      rw done (
        inr (
          row,
          found,
          current,
          ap ok written,
          written,
          λ other ne. first-write_other (updated u now) (λ i. refl) id other db.identities ne,
          no_sessions id db.sessions,
        ))
]
