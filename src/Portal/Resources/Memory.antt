-- ===== src/Portal/Resources/Memory.antt =====
-- `InMemoryResourceAdapter` of portal/resources.py.
use modular_discord_bot_oper.Common.{
  String, Bool, none, some, str_eq, if◌then◌else◌, Result, ok, err, ◌≡◌, refl, sym, ap, ◌∙◌,
  Bool-cases, Option-cases, inl, inr, ◌⊎◌, eq_iff,
}
use modular_discord_bot_oper.Common.Dict.{Dict, lookup, insert, lookup-insert_self}
use modular_discord_bot_oper.Common.Json.{Json}
use modular_discord_bot_oper.Portal.Resources.{
  ConfigurationResource, ResourceError, stale_revision, persistence_failed, foreign,
}
use modular_discord_bot_oper.Portal.Resources.Service.{Snapshot, Adapter, IsLawful}

pub record MemoryStore : Type 0 where
  pub configs : Dict (Dict Json)
  pub fail_write : Bool

-- `revision_of` is `_revision`; a location that is not there raises `KeyError`.
module _ (revision_of : Dict Json → String) where
  unfoldable pub read_config : ConfigurationResource → MemoryStore → Result ResourceError Snapshot
  read_config r s = elim (lookup r.location_key s.configs) [
    | none ↦ err foreign
    | some values ↦ ok (record { values = values; revision = revision_of values })
  ]

  unfoldable pub write_config :
      ConfigurationResource
      → Dict Json
      → String
      → MemoryStore
      → Result ResourceError Snapshot × MemoryStore
  unfolding read_config
  write_config r values expected s = elim (read_config r s) [
    | err e ↦ (err e, s)
    | ok current ↦
        if str_eq current.revision expected
        then (if s.fail_write
            then (err persistence_failed, s)
            else let s' = record s { configs = insert r.location_key values s.configs } in
              (read_config r s', s'))
        else (err stale_revision, s)
  ]

  abbrev pub memory_adapter : Adapter MemoryStore
  memory_adapter = record { read = read_config; write = write_config }

  write_config-cases :
      (r : ConfigurationResource) (d : Dict Json) (expected : String) (s : MemoryStore)
      → ((e : ResourceError) × (write_config r d expected s ≡ (err e, s)))
        ⊎ ((old : Dict Json) × (lookup r.location_key s.configs ≡ some old)
            × (revision_of old ≡ expected)
            × (write_config r d expected s ≡ (
              ok (record { values = d; revision = revision_of d }),
              record s { configs = insert r.location_key d s.configs },
            )))
  unfolding write_config read_config
  write_config-cases r d expected s = elim (Option-cases (lookup r.location_key s.configs)) [
    | inl absent ↦ inl (foreign, rw (absent, write_config) refl)
    | inr (old, found) ↦ elim (Bool-cases (str_eq (revision_of old) expected)) [
      | inr stale ↦ inl (stale_revision, rw (found, write_config) (rw stale refl))
      | inl fresh ↦ elim (Bool-cases s.fail_write) [
        | inl fails ↦ inl (persistence_failed, rw (found, write_config) (rw (fresh, fails) refl))
        | inr works ↦ inr (
          old,
          found,
          (eq_iff (revision_of old) expected).0 fresh,
          rw (found, write_config)
              (rw fresh (
                simp works (rw (lookup-insert_self r.location_key d s.configs, read_config) refl))),
        )
      ]
    ]
  ]

  unchanged :
      (r : ConfigurationResource) (d : Dict Json) (expected : String) (s : MemoryStore)
      {e : ResourceError}
      → (write_config r d expected s).0 ≡ err e
      → (write_config r d expected s).1 ≡ s
  unchanged r d expected s failed = elim (write_config-cases r d expected s) [
    | inl (_, ended) ↦ rw ended refl
    | inr (_, _, _, ended) ↦ absurd (cc (rw ended at failed))
  ]

  of_current :
      (r : ConfigurationResource) (d : Dict Json) (expected : String) (s : MemoryStore)
      {before after : Snapshot}
      → read_config r s ≡ ok before
      → (write_config r d expected s).0 ≡ ok after
      → before.revision ≡ expected
  unfolding read_config
  of_current r d expected s {before = before} seen done = elim (write_config-cases r d expected s) [
    | inl (_, ended) ↦ absurd (cc (rw ended at done))
    | inr (old, found, fresh, _) ↦
        let e : record { values = old; revision = revision_of old } ≡ before =
          cc (rw (found, read_config) at seen) in
        ap (λ (b : Snapshot). b.revision) (sym e) ∙ fresh
  ]

  read_back :
      (r : ConfigurationResource) (d : Dict Json) (expected : String) (s : MemoryStore)
      {after : Snapshot}
      → (write_config r d expected s).0 ≡ ok after
      → (later : Snapshot) × (read_config r (write_config r d expected s).1 ≡ ok later)
        × (later.revision ≡ after.revision)
        × ((k : String) → lookup k later.values ≡ lookup k d)
  unfolding read_config
  read_back r d expected s {after = after} done = elim (write_config-cases r d expected s) [
    | inl (_, ended) ↦ absurd (cc (rw ended at done))
    | inr (old, found, fresh, ended) ↦
        let e : record { values = d; revision = revision_of d } ≡ after = cc (rw ended at done) in
        (
          record { values = d; revision = revision_of d },
          rw ended (rw (lookup-insert_self r.location_key d s.configs, read_config) refl),
          ap (λ (b : Snapshot). b.revision) e,
          λ k. refl,
        )
  ]

-- The adapter in memory keeps what the services ask of one, for every resource.
pub memory_adapter-IsLawful :
    (revision_of : Dict Json → String) → IsLawful (memory_adapter revision_of) (λ r d. Unit)
memory_adapter-IsLawful revision_of = record {
  refused = unchanged revision_of;
  current = of_current revision_of;
  written = λ r d expected s serves done. read_back revision_of r d expected s done;
  readable = λ r s d serves seen. tt;
}
