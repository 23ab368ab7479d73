-- ===== src/Portal/Resources/Examples.antt =====
-- Runs of the models of portal/resources.py on sample data.
use modular_discord_bot_oper.Common.{
  String, Option, Bool, true, false, none, some, [], ◌∷◌, refl, str_eq, if◌then◌else◌, sym, eq_iff,
  Bool-cases, inl, inr,
}
use modular_discord_bot_oper.Common.Dict.{Dict}
use modular_discord_bot_oper.Common.Json.{Json, ℤ, pos, str}
use modular_discord_bot_oper.Portal.Authorization.{Principal, can}
use modular_discord_bot_oper.Portal.Resources.{
  ConfigField, ConfigurationResource, FieldType, definitions, validate_values,
}
use modular_discord_bot_oper.Portal.Resources.Values.{IsValidated, validate_values-IsValidated}
use modular_discord_bot_oper.Portal.Resources.Service.{IsLawful, Catalog, Resources, commit}
use modular_discord_bot_oper.Portal.Resources.Memory.{
  MemoryStore, memory_adapter, memory_adapter-IsLawful,
}
use modular_discord_bot_oper.Portal.Resources.Document.{document_adapter}
use modular_discord_bot_oper.Portal.Resources.Lawful.{
  AreNumerals, ServesChannels, document_adapter-IsLawful,
}
use modular_discord_bot_oper.Portal.Resources.Commits.{IsCommitted, commit-IsCommitted}

abbrev channel_field : String → ConfigField
channel_field id = record {
  field_id = id;
  field_type = FieldType.discord_channel_id;
  is_required = true;
  minimum = none;
  maximum = none;
  maximum_length = none;
  choices = [];
  is_sensitive = false;
  is_read_only = false;
  restart_required = true;
}

abbrev pub routing : ConfigurationResource
routing = record {
  resource_id = "channel-routing";
  bot_id = "cda-admin";
  fields = channel_field "verification" ∷ channel_field "general" ∷ [];
  read_permission = "config.view";
  edit_permission = some "config.edit";
  location_key = "cda-admin-server";
  validator = none;
}

abbrev submitted : Dict Json
submitted = ("general", str "12345678901234567") ∷ ("verification", str "22345678901234567") ∷ []

validate_values-IsValidated_example :
    IsValidated (definitions routing.fields []) submitted (validate_values routing submitted)
validate_values-IsValidated_example = validate_values-IsValidated routing submitted refl

abbrev pub revision_of : Dict Json → String
revision_of ((_, str s) ∷ d) = s
revision_of _ = ""

abbrev editor : Principal
editor = record { principal_id = "editor"; permissions = "config.edit" ∷ []; bot_ids = none }

abbrev catalog : Catalog
catalog = (("cda-admin", "channel-routing"), routing) ∷ []

abbrev resources : Resources MemoryStore
resources = record {
  store = record {
    configs = ("cda-admin-server", ("general", str "r1") ∷ []) ∷ [];
    fail_write = false;
  };
  audit = [];
}

abbrev same_value : Json → Json → Bool
same_value a b = false

commit-IsCommitted_example :
    IsCommitted
      (memory_adapter revision_of)
      catalog
      can
      revision_of
      same_value
      editor
      "cda-admin"
      "channel-routing"
      submitted
      "r1"
      resources
      (commit
        (memory_adapter revision_of)
        catalog
        can
        revision_of
        same_value
        editor
        "cda-admin"
        "channel-routing"
        submitted
        "r1"
        "q"
        resources).0
      (commit
        (memory_adapter revision_of)
        catalog
        can
        revision_of
        same_value
        editor
        "cda-admin"
        "channel-routing"
        submitted
        "r1"
        "q"
        resources).1
commit-IsCommitted_example =
    commit-IsCommitted (memory_adapter revision_of) catalog can revision_of same_value (λ r d. Unit)
      (memory_adapter-IsLawful revision_of) editor "cda-admin" "channel-routing" submitted "r1" "q"
      resources (λ r values found valid. tt)

abbrev channel : String
channel = "12345678901234567"

-- A reading of numbers that knows one of them.
abbrev to_int : Json → Option ℤ
to_int (str s) = if str_eq s channel then some (pos 12345678901234567) else none
to_int _ = none

abbrev to_str : Json → String
to_str v = channel

numerals : AreNumerals to_str to_int (λ f. "r1")
numerals t z is_id parsed = elim (Bool-cases (str_eq t channel)) [
  | inl same ↦ sym ((eq_iff t channel).0 same)
  | inr other ↦ absurd (cc (rw other at parsed))
]

document_adapter-IsLawful_example :
    IsLawful (document_adapter to_str to_int (λ f. "r1") false) ServesChannels
document_adapter-IsLawful_example = document_adapter-IsLawful to_str to_int (λ f. "r1") numerals
