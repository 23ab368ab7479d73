-- ===== src/Portal/Identities/Audited.antt =====
-- What a change of an identity by portal/admin.py writes, and what it puts in the audit log.
use modular_discord_bot_oper.Common.{
  ℕ, ◌+◌, ◌≤◌, String, Bool, true, false, Option, none, some, List, [], ◌∷◌, ◌++◌, ◌||◌, ◌&&◌, not,
  str_eq, ltb, Result, ok, err, ◌≡◌, refl, ap, sym, subst, ◌∙◌, arith, All, Bool-cases,
  Option-cases, Result-cases, inl, inr, ◌⊎◌, eq_iff,
}
use modular_discord_bot_oper.Common.Text.{text_length}
use modular_discord_bot_oper.Common.Fallible.{
  ◌>>=◌, ◌>>◌, refuse, ensure, >>=-ok_parts, ensure_passed, refuse_passed,
}
use modular_discord_bot_oper.Portal.Authorization.{contains}
use modular_discord_bot_oper.Portal.Identities.{
  PortalIdentity, Database, IdentityError, Update, no_update, find_by_id, find_by_login, is_version,
  is_of, updated, passwords_differ, password_length,
}
use modular_discord_bot_oper.Portal.Identities.Updates.{admin_update-IsApplied}
use modular_discord_bot_oper.Portal.Identities.Commands.{
  Change, password, enable, disable, promote, demote, grant, revoke, restrict, unrestrict, Inputs,
  Event, Console, success, event_of, read_hash, requested, run_change, target_identity, change_of,
  check_usage, with_item, without_item, with_bot,
}

-- A row after a change at the time `now`: its versions have moved on.
abbrev pub stamped : ℕ → PortalIdentity → PortalIdentity
stamped now row = record row {
  updated_at = now;
  session_revision = row.session_revision + 1;
  row_version = row.row_version + 1;
}

-- The event of a change, which `event`, `permission` and `bot` name.
abbrev pub HasFields : Event → String → String → Option String → Option String → Type 0
HasFields e name target permission bot =
    (e.event ≡ name)
    × (e.target_identity_id ≡ target)
    × (e.permission ≡ permission)
    × (e.bot_id ≡ bot)

abbrev pub bots_of : Option (List String) → List String
bots_of none = []
bots_of (some bots) = bots

-- What a change makes of the row of an identity that was read as `read`, and its event. The hash of a
-- password is that of an entry of 12 to 1024 characters that was confirmed.
unfoldable pub Makes :
    (String → String) → Inputs → Change → (read row after : PortalIdentity) → Event → Type 0
Makes encode inputs password read row after e =
    (inputs.entered ≡ inputs.confirmed)
    × (12 ≤ text_length inputs.entered)
    × (text_length inputs.entered ≤ 1024)
    × (after ≡ record (stamped inputs.now row) { password_hash = encode inputs.entered })
    × HasFields e "portal.identity.password_changed" read.identity_id none none
Makes encode inputs enable read row after e =
    (after ≡ record (stamped inputs.now row) { enabled = true })
    × HasFields e "portal.identity.enabled" read.identity_id none none
Makes encode inputs disable read row after e =
    (after ≡ record (stamped inputs.now row) { enabled = false })
    × HasFields e "portal.identity.disabled" read.identity_id none none
Makes encode inputs promote read row after e =
    (after ≡ record (stamped inputs.now row) { administrator = true })
    × HasFields e "portal.identity.admin_status_changed" read.identity_id none none
Makes encode inputs demote read row after e =
    (after ≡ record (stamped inputs.now row) { administrator = false })
    × HasFields e "portal.identity.admin_status_changed" read.identity_id none none
Makes encode inputs (grant p) read row after e =
    ((ps : List String) × (after ≡ record (stamped inputs.now row) { permissions = ps })
      × ((q : String) → contains ps q ≡ (str_eq q p || contains read.permissions q)))
    × HasFields e "portal.identity.permission_granted" read.identity_id (some p) none
Makes encode inputs (revoke p) read row after e =
    ((ps : List String) × (after ≡ record (stamped inputs.now row) { permissions = ps })
      × ((q : String) → contains ps q ≡ (not (str_eq q p) && contains read.permissions q)))
    × HasFields e "portal.identity.permission_revokeed" read.identity_id (some p) none
Makes encode inputs (restrict b) read row after e =
    ((bs : List String) × (after ≡ record (stamped inputs.now row) { bot_ids = some bs })
      × ((q : String) → contains bs q ≡ (str_eq q b || contains (bots_of read.bot_ids) q)))
    × HasFields e "portal.identity.bot_restriction_changed" read.identity_id none (some b)
Makes encode inputs (unrestrict b) read row after e =
    (after ≡ record (stamped inputs.now row) { bot_ids = none })
    × HasFields e "portal.identity.bot_restriction_changed" read.identity_id none (some b)

contains-with_item :
    (p q : String) (xs : List String) → contains (with_item p xs) q ≡ (str_eq q p || contains xs q)
contains-with_item p q xs = elim (Bool-cases (contains xs p)) [
  | inr new ↦ rw new refl
  | inl old ↦ elim (Bool-cases (str_eq q p)) [
    | inr other ↦ rw (old, other) refl
    | inl same ↦
        let there = subst (λ x. contains xs x ≡ true) (sym ((eq_iff q p).0 same)) old in
        rw (old, same) there
  ]
]

contains-without_item :
    (p q : String) (xs : List String)
    → contains (without_item p xs) q ≡ (not (str_eq q p) && contains xs q)
contains-without_item p q [] = ground arith
contains-without_item p q (x ∷ xs) =
    ground (arith, contains-without_item p q xs, eq_iff p x, eq_iff q x, eq_iff q p)

contains-with_bot :
    (b q : String) (bots : Option (List String))
    → contains (with_bot b bots) q ≡ (str_eq q b || contains (bots_of bots) q)
contains-with_bot b q none = refl
contains-with_bot b q (some bots) = contains-with_item b q bots

ok_same : {A : Type 0} {a b : A} → ◌≡◌ {A = Result IdentityError A} (ok a) (ok b) → a ≡ b
ok_same e = cc e

module _ (same_login : String → String → Bool) (encode : String → String) where
  read_hash-parts :
      (i : Inputs) {hash : String}
      → read_hash same_login encode i ≡ ok hash
      → (i.entered ≡ i.confirmed)
        × (12 ≤ text_length i.entered)
        × (text_length i.entered ≤ 1024)
        × (hash ≡ encode i.entered)
  unfolding read_hash
  read_hash-parts i {hash} h =
      let long = ltb (text_length i.entered) 12 || ltb 1024 (text_length i.entered) in
      let (u, both, hashed) =
        >>=-ok_parts
          (ensure (str_eq i.entered i.confirmed) passwords_differ >> refuse long password_length)
          (λ _. ok (encode i.entered)) h in
      let (v, confirmed, short) =
        >>=-ok_parts (ensure (str_eq i.entered i.confirmed) passwords_differ)
          (λ _. refuse long password_length) both in
      let same = ensure_passed (str_eq i.entered i.confirmed) passwords_differ confirmed in
      let fits = refuse_passed long password_length short in
      let e : encode i.entered ≡ hash = cc hashed in
      ((eq_iff i.entered i.confirmed).0 same, ground (arith, fits), ground (arith, fits), sym e)

  made :
      (inputs : Inputs) (c : Change) (i row : PortalIdentity) {u v : Update}
      → ◌≡◌ {A = Result IdentityError Update} (ok v) (ok u)
      → Makes encode inputs c i row (updated v inputs.now row) (event_of c i.identity_id)
        × (v.expected_version ≡ some i.row_version)
      → Makes encode inputs c i row (updated u inputs.now row) (event_of c i.identity_id)
        × (u.expected_version ≡ some i.row_version)
  made inputs c i row h =
      subst
        (λ w.
          Makes encode inputs c i row (updated w inputs.now row) (event_of c i.identity_id)
          × (w.expected_version ≡ some i.row_version))
        (ok_same h)

  -- A change writes what `Makes` says, and asks for the version that was read.
  change_of-Makes :
      (inputs : Inputs) (c : Change) (i row : PortalIdentity) {u : Update}
      → change_of same_login encode inputs c i ≡ ok u
      → Makes encode inputs c i row (updated u inputs.now row) (event_of c i.identity_id)
        × (u.expected_version ≡ some i.row_version)
  unfolding change_of Makes event_of
  change_of-Makes inputs password i row {u} h =
      let at_version = record no_update { expected_version = some i.row_version } in
      let (hash, hashed, asked) =
        >>=-ok_parts (read_hash same_login encode inputs)
          (λ hash. ok (record at_version { password_hash = some hash })) h in
      let (confirmed, long, short, e) = read_hash-parts inputs hashed in
      made inputs password i row asked
        ((confirmed, long, short, rw e refl, (refl, refl, refl, refl)), refl)
  change_of-Makes inputs enable i row h =
      made inputs enable i row h ((refl, (refl, refl, refl, refl)), refl)
  change_of-Makes inputs disable i row h =
      made inputs disable i row h ((refl, (refl, refl, refl, refl)), refl)
  change_of-Makes inputs promote i row h =
      made inputs promote i row h ((refl, (refl, refl, refl, refl)), refl)
  change_of-Makes inputs demote i row h =
      made inputs demote i row h ((refl, (refl, refl, refl, refl)), refl)
  change_of-Makes inputs (grant p) i row h = made inputs (grant p) i row h (
    (
      (with_item p i.permissions, refl, λ q. contains-with_item p q i.permissions),
      (refl, refl, refl, refl),
    ),
    refl,
  )
  change_of-Makes inputs (revoke p) i row h = made inputs (revoke p) i row h (
    (
      (without_item p i.permissions, refl, λ q. contains-without_item p q i.permissions),
      (refl, refl, refl, refl),
    ),
    refl,
  )
  change_of-Makes inputs (restrict b) i row h = made inputs (restrict b) i row h (
    ((with_bot b i.bot_ids, refl, λ q. contains-with_bot b q i.bot_ids), (refl, refl, refl, refl)),
    refl,
  )
  change_of-Makes inputs (unrestrict b) i row h =
      made inputs (unrestrict b) i row h ((refl, (refl, refl, refl, refl)), refl)

  -- The identity that a target names: an id, else a login.
  abbrev pub IsTarget : String → Database → PortalIdentity → Type 0
  IsTarget target db i =
      (find_by_id target db ≡ some i)
      ⊎ ((find_by_id target db ≡ none) × (find_by_login same_login target db ≡ some i))

  target_identity-IsTarget :
      (target : String) (db : Database) {i : PortalIdentity}
      → target_identity same_login encode target db ≡ ok i
      → IsTarget target db i
  unfolding target_identity
  target_identity-IsTarget target db {i} h = elim (Option-cases (find_by_id target db)) [
    | inr (j, found) ↦
        let e : j ≡ i = ok_same (rw (found, target_identity) at h) in inl (found ∙ ap some e)
    | inl absent ↦ elim (Option-cases (find_by_login same_login target db)) [
      | inl none_ ↦ absurd (cc (rw none_ at rw (absent, target_identity) at h))
      | inr (j, found) ↦
          let e : j ≡ i = ok_same (rw found at rw (absent, target_identity) at h) in
          inr (absent, found ∙ ap some e)
    ]
  ]

  requested-parts :
      (inputs : Inputs) (target : String) (c : Change) (db : Database) {i : PortalIdentity}
      {u : Update}
      → requested same_login encode inputs target c db ≡ ok (i, u)
      → IsTarget target db i × (change_of same_login encode inputs c i ≡ ok u)
  unfolding requested
  requested-parts inputs target c db {i} {u} h =
      let (j, named, rest) =
        >>=-ok_parts (check_usage c >> target_identity same_login encode target db)
          (λ j. change_of same_login encode inputs c j >>= λ v. ok (j, v)) h in
      let (_, _, found) =
        >>=-ok_parts (check_usage c) (λ _. target_identity same_login encode target db) named in
      let (v, asked, both) =
        >>=-ok_parts (change_of same_login encode inputs c j) (λ v. ok (j, v)) rest in
      let pair : (j, v) ≡ (i, u) = ok_same both in
      let same : j ≡ i = ap (λ (x : PortalIdentity × Update). x.0) pair in
      let told : v ≡ u = ap (λ (x : PortalIdentity × Update). x.1) pair in
      (
        subst (IsTarget target db) same (target_identity-IsTarget target db found),
        subst (λ k. change_of same_login encode inputs c k ≡ ok u) same (asked ∙ ap ok told),
      )

  -- How a change ends: it failed and changed nothing, the log included; or the row of the identity
  -- that its target names, at the version that was read, is made what the change says, none of the
  -- identity's sessions is left, and the log has gained the change's event and the revocation.
  abbrev pub IsAudited :
      Inputs → String → Change → Console → Result IdentityError (Unit {0}) → Console → Type 0
  IsAudited inputs target c con answer after =
      ((e : IdentityError) × (answer ≡ err e) × (after ≡ con))
      ⊎ ((read : PortalIdentity) × (row : PortalIdentity) × (written : PortalIdentity) × (e : Event)
          × (answer ≡ ok tt)
          × IsTarget target con.database read
          × (find_by_id read.identity_id con.database ≡ some row)
          × (row.row_version ≡ read.row_version)
          × Makes encode inputs c read row written e
          × (find_by_id read.identity_id after.database ≡ some written)
          × All (λ s. is_of read.identity_id s ≡ false) after.database.sessions
          × (after.audit
              ≡ con.audit ++ e ∷ success "portal.sessions.revoked" read.identity_id none none ∷ []))

  -- A change of an identity fails and changes nothing, the log included; or the row of the identity
  -- that its target names, at the version that was read, is written: a password, enabled or
  -- administrator is the new one, permissions and bots are those that were read with the one granted
  -- or restricted to, or without the one revoked or any, and nothing else but the versions and the
  -- time of the update differs. Then none of the identity's sessions is left, and the log has gained
  -- the event of the change and the revocation.
  pub run_change-IsAudited :
      (inputs : Inputs) (target : String) (c : Change) (con : Console)
      → IsAudited inputs target c con
          (run_change same_login encode inputs target c con).0
          (run_change same_login encode inputs target c con).1
  unfolding run_change
  run_change-IsAudited inputs target c con =
      elim (Result-cases (requested same_login encode inputs target c con.database)) [
        | inr (e, refused) ↦ rw (refused, run_change) (inl (e, refl, refl))
        | inl ((i, u), asked) ↦
            let (named, arguments) = requested-parts inputs target c con.database asked in
            elim (admin_update-IsApplied i.identity_id u inputs.now con.database) [
              | inl (e, failed, same) ↦
                  rw (asked, failed, run_change)
                    (inl (e, refl, ap (λ d. record con { database = d }) same))
              | inr (row, found, current, done, written, _, revoked) ↦
                  let (makes, version) = change_of-Makes inputs c i row arguments in
                  let expects : is_version (some i.row_version) row.row_version ≡ true =
                    rw version at current in
                  rw (asked, done, run_change)
                    (inr (
                      i,
                      row,
                      updated u inputs.now row,
                      event_of c i.identity_id,
                      refl,
                      named,
                      found,
                      ground arith,
                      makes,
                      written,
                      revoked,
                      refl,
                    ))
            ]
      ]
