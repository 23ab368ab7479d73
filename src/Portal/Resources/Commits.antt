-- ===== src/Portal/Resources/Commits.antt =====
-- `ResourceService.commit` of portal/resources.py over any adapter that keeps its laws.
use modular_discord_bot_oper.Common.{
  String, Bool, true, some, [], str_eq, Result, ok, err, ◌≡◌, refl, ap, ◌∙◌, arith, Bool-cases,
  Option-cases, Result-cases, inl, inr, ◌⊎◌, eq_iff, bind_ok, bind_err, pair_eq,
}
use modular_discord_bot_oper.Common.Dict.{Dict, lookup}
use modular_discord_bot_oper.Common.Json.{Json}
use modular_discord_bot_oper.Portal.Authorization.{Principal, Authorizer}
use modular_discord_bot_oper.Portal.Resources.{
  ConfigurationResource, ResourceError, resource_read_only, permission_denied, stale_revision,
  definitions, validate_values,
}
use modular_discord_bot_oper.Portal.Resources.Service.{
  Snapshot, Adapter, write_now, IsLawful, Catalog, Resources, Preview, resolve, changes_of, preview,
  finish_commit, commit,
}

module _ {S : Type 0} (a : Adapter S) (catalog : Catalog) (can : Authorizer)
    (revision_of : Dict Json → String) (same_value : Json → Json → Bool) where
  -- How a preview ends; none changes the store.
  abbrev pub IsPreviewed :
      Principal
      → String
      → String
      → Dict Json
      → String
      → Resources S
      → Result ResourceError Preview
      → Resources S
      → Type 0
  IsPreviewed actor bot id submitted expected s answer after =
      (after.store ≡ s.store)
      × (((e : ResourceError) × (answer ≡ err e))
          ⊎ ((p : Preview) × (edit : String) × (before : Snapshot) × (answer ≡ ok p)
              × (resolve a catalog can revision_of same_value bot id ≡ ok p.resource)
              × (p.resource.edit_permission ≡ some edit)
              × (can actor edit (some bot) ≡ true)
              × (validate_values p.resource submitted ≡ ok p.values)
              × (a.read p.resource s.store ≡ ok before)
              × (before.revision ≡ expected)))

  abbrev proposal : ConfigurationResource → String → Snapshot → Dict Json → Preview
  proposal r expected before values = record {
    resource = r;
    expected_revision = expected;
    proposed_revision = revision_of values;
    values = values;
    changes =
        changes_of a catalog can revision_of same_value (definitions r.fields []) before.values
          values;
  }

  preview-IsPreviewed :
      (actor : Principal) (bot id : String) (submitted : Dict Json) (expected request : String)
      (s : Resources S)
      → IsPreviewed actor bot id submitted expected s
          (preview a catalog can revision_of same_value actor bot id submitted expected request s).0
          (preview a catalog can revision_of same_value actor bot id submitted expected request s).1
  unfolding preview
  preview-IsPreviewed actor bot id submitted expected request s =
      elim (Result-cases (resolve a catalog can revision_of same_value bot id)) [
        | inr (e, missing) ↦ rw (missing, preview) (refl, inl (e, refl))
        | inl (r, found) ↦ elim (Option-cases r.edit_permission) [
          | inl fixed ↦ rw (found, preview) (simp fixed (refl, inl (resource_read_only, refl)))
          | inr (edit, editable) ↦ elim (Bool-cases (can actor edit (some bot))) [
            | inr denied ↦
                rw (found, preview) (simp (editable, denied) (refl, inl (permission_denied, refl)))
            | inl granted ↦ elim (Result-cases (validate_values r submitted)) [
              | inr (e, invalid) ↦
                  rw (found, preview) (simp (editable, granted, invalid) (refl, inl (e, refl)))
              | inl (values, valid) ↦ elim (Result-cases (a.read r s.store)) [
                | inr (e, unread) ↦
                    rw (found, preview)
                      (simp (editable, granted, valid, unread) (refl, inl (e, refl)))
                | inl (before, seen) ↦ elim (Bool-cases (str_eq before.revision expected)) [
                  | inr stale ↦
                      rw (found, preview)
                        (simp (editable, granted, valid, seen, stale)
                          (refl, inl (stale_revision, refl)))
                  | inl fresh ↦
                      rw (found, preview)
                        (simp (editable, granted, valid, seen, fresh)
                          (
                            refl,
                            inr (
                              proposal r expected before values,
                              edit,
                              before,
                              refl,
                              refl,
                              editable,
                              granted,
                              valid,
                              seen,
                              (eq_iff before.revision expected).0 fresh,
                            ),
                          ))
                ]
              ]
            ]
          ]
        ]
      ]

  -- How a commit ends: it failed and left the store as it was; or the actor may edit the resource,
  -- the values are valid, the revision was the one that is in the store, and what is read afterwards
  -- is what was committed.
  abbrev pub IsCommitted :
      Principal
      → String
      → String
      → Dict Json
      → String
      → Resources S
      → Result ResourceError Snapshot
      → Resources S
      → Type 0
  IsCommitted actor bot id submitted expected s answer after =
      ((e : ResourceError) × (answer ≡ err e) × (after.store ≡ s.store))
      ⊎ ((r : ConfigurationResource) × (edit : String) × (values : Dict Json) × (before : Snapshot)
          × (snapshot : Snapshot) × (later : Snapshot) × (resolve a catalog can revision_of
                same_value bot id
              ≡ ok r)
          × (r.edit_permission ≡ some edit)
          × (can actor edit (some bot) ≡ true)
          × (validate_values r submitted ≡ ok values)
          × (a.read r s.store ≡ ok before)
          × (before.revision ≡ expected)
          × (answer ≡ ok snapshot)
          × (a.read r after.store ≡ ok later)
          × (later.revision ≡ snapshot.revision)
          × ((k : String) → lookup k later.values ≡ lookup k values))

  finish_commit-store :
      (actor : Principal) (request : String) (p : Preview) (answer : Result ResourceError Snapshot)
      (s : Resources S)
      → ((finish_commit a catalog can revision_of same_value actor request p answer s).0 ≡ answer)
        × ((finish_commit a catalog can revision_of same_value actor request p answer s).1.store
            ≡ s.store)
  unfolding finish_commit
  finish_commit-store actor request p (ok snapshot) s = (refl, refl)
  finish_commit-store actor request p (err e) s = (refl, ground arith)

  -- A commit fails and leaves the store as it was; or the actor may edit the resource, the values
  -- are valid, the revision was the one that is in the store, and what is read afterwards is what
  -- was committed. The adapter keeps its laws, and serves the values that are valid for
  -- the resource.
  pub commit-IsCommitted :
      (Serves : ConfigurationResource → Dict Json → Type 0)
      → IsLawful a Serves
      → (actor : Principal) (bot id : String) (submitted : Dict Json) (expected request : String)
        (s : Resources S)
      → ((r : ConfigurationResource) (values : Dict Json)
          → resolve a catalog can revision_of same_value bot id ≡ ok r
          → validate_values r submitted ≡ ok values
          → Serves r values)
      → IsCommitted actor bot id submitted expected s
          (commit a catalog can revision_of same_value actor bot id submitted expected request s).0
          (commit a catalog can revision_of same_value actor bot id submitted expected request s).1
  unfolding commit
  commit-IsCommitted Serves lawful actor bot id submitted expected request s serves =
      let ran =
        preview a catalog can revision_of same_value actor bot id submitted expected request s in
      let m =
        preview a catalog can revision_of same_value actor bot id submitted expected request in
      let f = λ (p : Preview) (t : Resources S).
        (let (answer, t') =
            write_now a catalog can revision_of same_value p.resource p.values expected t in
          finish_commit a catalog can revision_of same_value actor request p answer t') in
      let (same, ends) = preview-IsPreviewed actor bot id submitted expected request s in
      elim ends [
        | inl (e, failed) ↦
            let ended = bind_err m f (pair_eq failed) in
            inl (e, ap (λ x. x.0) ended, ap (λ x. x.1.store) ended ∙ same)
        | inr (p, edit, before, done, found, editable, granted, valid, seen, fresh) ↦
            let ended = bind_ok m f (pair_eq done) in
            let written = a.write p.resource p.values expected ran.1.store in
            let (answered, kept) =
              finish_commit-store actor request p written.0 (record ran.1 { store = written.1 }) in
            elim (Result-cases written.0) [
              | inr (e, failed) ↦ inl (
                e,
                ap (λ x. x.0) ended ∙ answered ∙ failed,
                ap (λ x. x.1.store) ended
                    ∙ kept
                    ∙ lawful.refused p.resource p.values expected ran.1.store failed
                    ∙ same,
              )
              | inl (snapshot, wrote) ↦
                  let (later, read_back, same_revision, same_values) =
                    lawful.written p.resource p.values expected ran.1.store
                      (serves p.resource p.values found valid) wrote in
                  inr (
                    p.resource,
                    edit,
                    p.values,
                    before,
                    snapshot,
                    later,
                    found,
                    editable,
                    granted,
                    valid,
                    seen,
                    fresh,
                    ap (λ x. x.0) ended ∙ answered ∙ wrote,
                    ap (λ x. a.read p.resource x) (ap (λ x. x.1.store) ended ∙ kept) ∙ read_back,
                    same_revision,
                    same_values,
                  )
            ]
      ]
