-- ===== src/Portal/Identities/Access.antt =====
-- portal/admin.py, portal/identity.py and portal/sessions.py together: what the commands keep, and
-- what they do to logins and sessions.
use modular_discord_bot_oper.Common.{
  ℕ, ◌≤◌, String, Bool, false, Option, none, some, List, [], ◌∷◌, ◌++◌, str_eq, if◌then◌else◌, ok,
  ◌≡◌, refl, subst, arith, All, Bool-cases, Option-cases, Result-cases, inl, inr, eq_refl,
}
use modular_discord_bot_oper.Portal.Sessions.{PortalSession}
use modular_discord_bot_oper.Portal.Identities.{
  PortalIdentity, Database, no_update, first, find_by_login, administrators, write_row, is_of,
  set_enabled, without_sessions, admin_update, updated, create, new_identity, authenticate,
}
use modular_discord_bot_oper.Portal.Identities.Sound.{IsSound, first-All}
use modular_discord_bot_oper.Portal.Identities.Updates.{admin_update-cases, no_sessions}
use modular_discord_bot_oper.Portal.Identities.Preserved.{
  admin_update-IsSound, administrators-admin_update, create-IsSound, create-cases,
}
use modular_discord_bot_oper.Portal.Identities.SessionTable.{Settings, is_over, has_digest, get}
use modular_discord_bot_oper.Portal.Identities.Commands.{
  Change, Command, Inputs, Console, read_hash, requested, run_change, run_create, run_command,
  run_commands, list_identities, catalog, create_identity, show_identity, change,
}

administrators-append_le :
    (is js : List PortalIdentity) → administrators is ≤ administrators (is ++ js)
unfolding administrators
administrators-append_le [] js = omega arith
administrators-append_le (i ∷ is) js = ground (arith, administrators-append_le is js)

administrators-create :
    (same_login : String → String → Bool) (new : PortalIdentity) (db : Database)
    → administrators db.identities ≤ administrators (create same_login new db).1.identities
administrators-create same_login new db = elim (create-cases same_login new db) [
  | inl (e, failed) ↦ rw failed (omega arith)
  | inr (_, _, done) ↦ rw done (administrators-append_le db.identities (new ∷ []))
]

-- Sound, and with an enabled administrator.
abbrev pub IsGoverned : (String → String → Bool) → Database → Type 0
IsGoverned same_login db = IsSound same_login db × (1 ≤ administrators db.identities)

module _ (same_login : String → String → Bool) (encode : String → String) where
  run_change-IsGoverned :
      (inputs : Inputs) (target : String) (c : Change) (con : Console)
      → IsGoverned same_login con.database
      → IsGoverned same_login (run_change same_login encode inputs target c con).1.database
  unfolding run_change
  run_change-IsGoverned inputs target c con (sound, some_one) =
      elim (Result-cases (requested same_login encode inputs target c con.database)) [
        | inr (e, refused) ↦ rw (refused, run_change) (sound, some_one)
        | inl ((i, u), asked) ↦
            let after : IsGoverned same_login
                (admin_update i.identity_id u inputs.now con.database).1 =
              (
                admin_update-IsSound same_login i.identity_id u inputs.now con.database sound,
                administrators-admin_update i.identity_id u inputs.now con.database sound.0
                    some_one,
              ) in
            elim (Result-cases (admin_update i.identity_id u inputs.now con.database).0) [
              | inr (e, failed) ↦ rw (asked, failed, run_change) after
              | inl (a, done) ↦ rw (asked, done, run_change) after
            ]
      ]

  run_create-IsGoverned :
      (inputs : Inputs) (login : String) (administrator : Bool) (con : Console)
      → IsGoverned same_login con.database
      → IsGoverned same_login
          (run_create same_login encode inputs login administrator con).1.database
  unfolding run_create
  run_create-IsGoverned inputs login administrator con (sound, some_one) =
      elim (Result-cases (read_hash same_login encode inputs)) [
        | inr (e, refused) ↦ rw (refused, run_create) (sound, some_one)
        | inl (hash, hashed) ↦
            let new = new_identity inputs.identity_id login hash [] none administrator inputs.now in
            let kept = administrators-create same_login new con.database in
            let after : IsGoverned same_login (create same_login new con.database).1 =
              (create-IsSound same_login new con.database sound, omega (arith, kept, some_one)) in
            elim (Result-cases (create same_login new con.database).0) [
              | inr (e, failed) ↦ rw (hashed, failed, run_create) after
              | inl (a, done) ↦ rw (hashed, done, run_create) after
            ]
      ]

  -- Whatever commands an operator gives, on a sound database that has an enabled administrator: ids
  -- and logins stay unique, every row stays one that `_validate` lets in, and there is an enabled
  -- administrator.
  pub run_commands-IsGoverned :
      (runs : List (Inputs × Command)) (con : Console)
      → IsGoverned same_login con.database
      → IsGoverned same_login (run_commands same_login encode runs con).database
  unfolding run_commands run_command
  run_commands-IsGoverned [] con governed = governed
  run_commands-IsGoverned ((inputs, list_identities) ∷ rest) con governed =
      run_commands-IsGoverned rest con governed
  run_commands-IsGoverned ((inputs, catalog) ∷ rest) con governed =
      run_commands-IsGoverned rest con governed
  run_commands-IsGoverned ((inputs, show_identity target) ∷ rest) con governed =
      run_commands-IsGoverned rest con governed
  run_commands-IsGoverned ((inputs, create_identity login administrator) ∷ rest) con governed =
      run_commands-IsGoverned rest (run_create same_login encode inputs login administrator con).1
        (run_create-IsGoverned inputs login administrator con governed)
  run_commands-IsGoverned ((inputs, change target c) ∷ rest) con governed =
      run_commands-IsGoverned rest (run_change same_login encode inputs target c con).1
        (run_change-IsGoverned inputs target c con governed)

-- A search that looks at nothing which a write changes.
first-write :
    (p : PortalIdentity → Bool) (id : String) (f : PortalIdentity → PortalIdentity)
    (is : List PortalIdentity) {row : PortalIdentity}
    → ((i : PortalIdentity) → p (f i) ≡ p i)
    → first p is ≡ some row
    → first p (write_row id f is) ≡ some (if str_eq row.identity_id id then f row else row)
unfolding write_row
first-write p id f [] keeps found = absurd (cc found)
first-write p id f (i ∷ is) {row = row} keeps found = elim (Bool-cases (p i)) [
  | inl yes_ ↦
      let e : i ≡ row = cc (rw yes_ at found) in
      subst
        (λ r. first p (write_row id f (i ∷ is)) ≡ some (if str_eq r.identity_id id then f r else r))
        e
        (elim (Bool-cases (str_eq i.identity_id id)) [
          | inl here ↦ rw here (rw (keeps i, yes_) refl)
          | inr there ↦ rw there (rw yes_ refl)
        ])
  | inr no_ ↦
      let rest = first-write p id f is keeps (rw no_ at found) in
      elim (Bool-cases (str_eq i.identity_id id)) [
        | inl here ↦ rw here (rw (keeps i, no_) rest)
        | inr there ↦ rw there (rw no_ rest)
      ]
]

-- The session that a request is let in with is one of the identity.
abbrev pub is_let_in_as : String → Option PortalSession → Bool
is_let_in_as id none = false
is_let_in_as id (some s) = elim s.identity_id [ none ↦ false | some owner ↦ str_eq owner id ]

get-is_let_in :
    (digest : String → String) (set : Settings) (token : String) (now : ℕ) (id : String)
    (db : Database)
    → All (λ s. is_of id s ≡ false) db.sessions
    → is_let_in_as id (get digest set token now db).0 ≡ false
unfolding get
get-is_let_in digest set token now id db none_left =
    elim (Option-cases (first (has_digest (digest token)) db.sessions)) [
      | inl absent ↦ rw (absent, get) refl
      | inr (row, found) ↦
          let (_, foreign) =
            first-All (λ s. is_of id s ≡ false) (has_digest (digest token)) db.sessions found
              none_left in
          elim (Bool-cases (is_over set now row)) [
            | inl over ↦ rw (found, over, get) refl
            | inr live ↦ rw (found, live, get) foreign
          ]
    ]

authenticate-disabled :
    (same_login : String → String → Bool) (verify : String → String → Bool) (dummy : String)
    (login password : String) (now : ℕ) (db : Database) {i : PortalIdentity}
    → find_by_login same_login login db ≡ some i
    → i.enabled ≡ false
    → authenticate same_login verify dummy login password now db ≡ (none, db)
unfolding authenticate
authenticate-disabled same_login verify dummy login password now db found off =
    rw (found, authenticate) (rw off refl)

-- After an identity was disabled, its login is refused with any password, and no token lets in as
-- that identity.
pub set_enabled-lockout :
    (same_login : String → String → Bool) (verify : String → String → Bool) (dummy : String)
    (digest : String → String) (set : Settings) (login : String) (now : ℕ) (db : Database)
    (password token : String) (later : ℕ) {i : PortalIdentity} {answer : Option PortalIdentity}
    → find_by_login same_login login db ≡ some i
    → (set_enabled i.identity_id false now db).0 ≡ ok answer
    → (authenticate same_login verify dummy login password later
          (set_enabled i.identity_id false now db).1
        ≡ (none, (set_enabled i.identity_id false now db).1))
      × (is_let_in_as i.identity_id
            (get digest set token later (set_enabled i.identity_id false now db).1).0
          ≡ false)
unfolding authenticate find_by_login set_enabled
set_enabled-lockout same_login verify dummy digest set login now db password token later {i = i}
      found done =
    elim (admin_update-cases i.identity_id (record no_update { enabled = some false }) now db) [
      | inl (e, failed) ↦ absurd (cc (rw (failed, set_enabled) at done))
      | inr (_, checked, ended) ↦
          let f = updated (record no_update { enabled = some false }) now in
          let moved =
            first-write (λ j. same_login j.login login) i.identity_id f db.identities (λ j. refl)
              found in
          let gone : All (λ s. is_of i.identity_id s ≡ false)
              (without_sessions i.identity_id db.sessions) =
            no_sessions i.identity_id db.sessions in
          rw (ended, set_enabled)
            (
              authenticate-disabled same_login verify dummy login password later _
                  (rw eq_refl at moved) refl,
              get-is_let_in digest set token later i.identity_id _ gone,
            )
    ]
