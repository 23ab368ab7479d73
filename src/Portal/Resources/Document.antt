-- ===== src/Portal/Resources/Document.antt =====
-- `AtomicJsonResourceAdapter` of portal/resources.py: a resource is one part of a JSON document, and
-- its revision is that of the whole. A location has a file, whose value is `none` where it cannot be
-- read; Python's `str` and `int`, and the digest of a document, are parameters.
use modular_discord_bot_oper.Common.{
  String, Bool, true, false, Option, none, some, List, [], ◌∷◌, str_eq, if◌then◌else◌, Result, ok,
  err,
}
use modular_discord_bot_oper.Common.Dict.{Dict, lookup, insert}
use modular_discord_bot_oper.Common.Fallible.{◌>>=◌, ◌>>◌, ensure}
use modular_discord_bot_oper.Common.Json.{Json, ℤ, Fields, end, field, get_field, str, int, obj}
use modular_discord_bot_oper.Portal.Resources.{
  ConfigField, ConfigurationResource, ResourceError, stale_revision, persistence_failed,
  temporarily_unavailable, foreign, validate_values,
}
use modular_discord_bot_oper.Portal.Resources.Service.{Snapshot, Adapter}

pub record DocumentStore : Type 0 where
  pub files : Dict (Option Json)
  -- Writes end in an `OSError` before the new file is in place.
  pub fails : Bool

-- document[k] = v
unfoldable pub set_field : String → Json → Fields → Fields
set_field k v end = field k v end
set_field k v (field j w fs) = if str_eq j k then field k v fs else field j w (set_field k v fs)

-- `_load`
unfoldable pub load : String → DocumentStore → Result ResourceError Fields
load key s = elim (lookup key s.files) [
  | none ↦ err foreign
  | some none ↦ err temporarily_unavailable
  | some (some (obj fs)) ↦ ok fs
  | some (some _) ↦ err temporarily_unavailable
]

-- `document.get("channels")`, where it is a dict
unfoldable pub channels_of : Fields → Result ResourceError Fields
unfolding get_field
channels_of document = elim (get_field "channels" document) [
  | some (obj fs) ↦ ok fs
  | _ ↦ err temporarily_unavailable
]

module _ (to_str : Json → String) (to_int : Json → Option ℤ) (revision_of : Fields → String) where
  -- `{field.field_id: str(channels[field.field_id]) for field in resource.fields}`
  unfoldable pub read_values :
      List ConfigField → Fields → Dict Json → Result ResourceError (Dict Json)
  unfolding get_field
  read_values [] channels d = ok d
  read_values (f ∷ fs) channels d = elim (get_field f.field_id channels) [
    | none ↦ err foreign
    | some v ↦ read_values fs channels (insert f.field_id (str (to_str v)) d)
  ]

  unfoldable pub read_config : ConfigurationResource → DocumentStore → Result ResourceError Snapshot
  unfolding load channels_of read_values
  read_config r s = load r.location_key s >>= λ document. channels_of document >>= λ channels.
      read_values r.fields channels [] >>= λ values. validate_values r values >>= λ _.
      ok (record { values = values; revision = revision_of document })

  -- `{name: int(value) for name, value in values.items()}`
  unfoldable pub int_fields : Dict Json → Result ResourceError Fields
  int_fields [] = ok end
  int_fields ((name, v) ∷ d) = elim (to_int v) [
    | none ↦ err foreign
    | some z ↦ int_fields d >>= λ rest. ok (field name (int z) rest)
  ]

  -- The document that a write makes.
  unfoldable pub updated_document :
      ConfigurationResource → Dict Json → String → DocumentStore → Result ResourceError Fields
  unfolding load int_fields
  updated_document r values expected s = load r.location_key s >>= λ document.
      ensure (str_eq (revision_of document) expected) stale_revision
      >> int_fields values
      >>= λ channels.
          ensure (if s.fails then false else true) persistence_failed
          >> ok (set_field "channels" (obj channels) document)

  -- `atomic_write_json` renames the new file into place and then syncs the directory: when the sync
  -- fails, the document is replaced and an `OSError` raised all the same.
  module _ (sync_fails : Bool) where
    unfoldable pub write_config :
        ConfigurationResource
        → Dict Json
        → String
        → DocumentStore
        → Result ResourceError Snapshot × DocumentStore
    unfolding updated_document
    write_config r values expected s = elim (updated_document r values expected s) [
      | err e ↦ (err e, s)
      | ok document ↦ (
        (if sync_fails
            then err persistence_failed
            else ok (record { values = values; revision = revision_of document })),
        record s { files = insert r.location_key (some (obj document)) s.files },
      )
    ]

    abbrev pub document_adapter : Adapter DocumentStore
    document_adapter = record { read = read_config; write = write_config }
