-- ===== src/Portal/Identities/Preserved.antt =====
-- What `admin_update`, `create` and `record_login` of portal/identity.py keep.
use modular_discord_bot_oper.Common.{
  ℕ, ◌≤◌, String, Bool, true, false, Option, none, some, [], ◌∷◌, ◌++◌, not, ◌&&◌, ◌||◌, str_eq, ok,
  err, leb, ◌≡◌, refl, ap, sym, subst, ◌∙◌, arith, All-append, All-map, All-both, Bool-cases,
  Option-cases, Result-cases, inl, inr, ◌⊎◌,
}
use modular_discord_bot_oper.Common.Fallible.{◌>>◌, ensure, >>=-ok_parts, ensure_passed}
use modular_discord_bot_oper.Portal.Identities.{
  PortalIdentity, Database, IdentityError, Update, validate, find_by_id, given, is_false,
  is_administrator, administrators, revalidate, updated, admin_update, record_login, is_new, create,
}
use modular_discord_bot_oper.Portal.Identities.Sound.{
  AreApart, same_id, IsValid, IsSound, All-write, AreApart-write, AreApart-append, AreApart-of_new,
  found_only, administrators-write_le, administrators-write_bound,
}
use modular_discord_bot_oper.Portal.Identities.Updates.{admin_update-cases, check_row-found}

-- A row after its update, which was validated where it changes the permissions or the bots.
updated-IsValid :
    (id : String) (u : Update) (now : ℕ) (db : Database) (row : PortalIdentity)
    → revalidate id u db ≡ ok tt
    → find_by_id id db ≡ some row
    → IsValid row
    → IsValid (updated u now row)
unfolding revalidate
updated-IsValid id u now db row valid found old = elim (Option-cases u.permissions) [
  | inr (ps, p_given) ↦ rw (p_given, found) at valid
  | inl none_p ↦ elim (Option-cases u.bot_ids) [
    | inr (bs, b_given) ↦ rw (none_p, b_given, found) at valid
    | inl none_b ↦ rw (none_p, none_b) old
  ]
]

given-true : (o : Option Bool) (b : Bool) → is_false o ≡ false → b ≡ true → given o b ≡ true
given-true none b h old = old
given-true (some true) b h old = refl
given-true (some false) b h old = absurd (cc h)

-- What the guard of the last administrator lets through.
updated_administrator :
    (u : Update) (now : ℕ) (row : PortalIdentity)
    → ((is_false u.enabled || is_false u.administrator) && row.administrator && true) ≡ false
    → is_administrator row ≡ true
    → is_administrator (updated u now row) ≡ true
updated_administrator u now row guarded yes_ =
    let e = given-true u.enabled row.enabled (ground arith) (ground arith) in
    let a = given-true u.administrator row.administrator (ground arith) (ground arith) in
    rw (e, a) refl

-- An update keeps an administrator where there was one.
pub administrators-admin_update :
    (id : String) (u : Update) (now : ℕ) (db : Database)
    → AreApart same_id db.identities
    → 1 ≤ administrators db.identities
    → 1 ≤ administrators (admin_update id u now db).1.identities
unfolding find_by_id
administrators-admin_update id u now db apart some_one = elim (admin_update-cases id u now db) [
  | inl (e, failed) ↦ rw failed some_one
  | inr (_, checked, done) ↦
      let (row, found, _, guarded) = check_row-found id u db checked in
      rw done (elim (Bool-cases (leb (administrators db.identities) 1)) [
        | inr many ↦
            let bound = administrators-write_bound id (updated u now) db.identities apart in
            ground (arith, bound)
        | inl one ↦
            let kept = administrators-write_le id (updated u now) db.identities (
              All-map db.identities
                (λ j only here is_one.
                  updated_administrator u now j
                    (subst
                      (λ z.
                        ((is_false u.enabled || is_false u.administrator)
                          && z.administrator
                          && true)
                        ≡ false)
                      (sym (only here)) (rw one at guarded))
                    is_one)
                (found_only id db.identities apart found)) in
            omega (arith, kept, some_one)
      ])
]

not-true : {b : Bool} → not b ≡ true → b ≡ false
not-true {b = true} h = absurd (cc h)
not-true {b = false} h = refl

module _ (same_login : String → String → Bool) where
  -- An update keeps the database sound.
  pub admin_update-IsSound :
      (id : String) (u : Update) (now : ℕ) (db : Database)
      → IsSound same_login db
      → IsSound same_login (admin_update id u now db).1
  unfolding find_by_id
  admin_update-IsSound id u now db (ids, logins, valid) = elim (admin_update-cases id u now db) [
    | inl (e, failed) ↦ rw failed (ids, logins, valid)
    | inr (revalidated, checked, done) ↦
        let (row, found, _, _) = check_row-found id u db checked in
        rw done (
          AreApart-write same_id id (updated u now) db.identities (λ i j. refl) (λ i j. refl) ids,
          AreApart-write (λ i j. same_login i.login j.login) id (updated u now) db.identities
              (λ i j. refl) (λ i j. refl) logins,
          All-write (λ j. IsValid j × (str_eq j.identity_id id ≡ true → j ≡ row)) IsValid id
              (updated u now) db.identities
              (λ j here v.
                updated-IsValid id u now db j revalidated (found ∙ ap some (sym (v.1 here))) v.0)
              (λ j v. v.0)
              (All-both IsValid (λ j. str_eq j.identity_id id ≡ true → j ≡ row) db.identities valid
                (found_only id db.identities ids found)),
        )
  ]

  -- Every error leaves the database alone.
  pub create-cases :
      (new : PortalIdentity) (db : Database)
      → ((e : IdentityError) × (create same_login new db ≡ (err e, db)))
        ⊎ (IsValid new
            × (is_new same_login new db.identities ≡ true)
            × (create same_login new db ≡ (
                let db' = record db { identities = db.identities ++ new ∷ [] } in
                (ok (find_by_id new.identity_id db'), db'))))
  unfolding create
  create-cases new db =
      elim (Result-cases (
        validate new.login new.permissions new.bot_ids
        >> ensure (is_new same_login new db.identities) IdentityError.integrity)) [
          | inr (e, failed) ↦ inl (e, rw (failed, create) refl)
          | inl (_, done) ↦
              let (_, validated, unique) =
                >>=-ok_parts (validate new.login new.permissions new.bot_ids)
                  (λ _. ensure (is_new same_login new db.identities) IdentityError.integrity)
                  done in
              inr (
                validated,
                ensure_passed (is_new same_login new db.identities) IdentityError.integrity unique,
                rw (done, create) refl,
              )
        ]

  -- A new row that the constraints admit, and that `_validate` lets in, keeps it sound.
  pub create-IsSound :
      (new : PortalIdentity) (db : Database)
      → IsSound same_login db
      → IsSound same_login (create same_login new db).1
  create-IsSound new db (ids, logins, valid) = elim (create-cases new db) [
    | inl (e, failed) ↦ rw failed (ids, logins, valid)
    | inr (validated, unique, done) ↦
        let (far_ids, far_logins) =
          AreApart-of_new (λ i. str_eq i.identity_id new.identity_id)
            (λ i. same_login i.login new.login) db.identities (not-true unique) in
        rw done (
          AreApart-append same_id db.identities new ids far_ids,
          AreApart-append (λ i j. same_login i.login j.login) db.identities new logins far_logins,
          All-append IsValid db.identities (new ∷ []) valid (validated, tt),
        )
  ]

  pub record_login-IsSound :
      (id : String) (at_ : ℕ) (db : Database)
      → IsSound same_login db
      → IsSound same_login (record_login id at_ db)
  unfolding record_login
  record_login-IsSound id at_ db (ids, logins, valid) =
      let f = λ (i : PortalIdentity). record i { last_login_at = some at_; updated_at = at_ } in
      (
        AreApart-write same_id id f db.identities (λ i j. refl) (λ i j. refl) ids,
        AreApart-write (λ i j. same_login i.login j.login) id f db.identities (λ i j. refl)
            (λ i j. refl) logins,
        All-write IsValid IsValid id f db.identities (λ j _ v. v) (λ j v. v) valid,
      )
