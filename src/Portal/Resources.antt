-- ===== src/Portal/Resources.antt =====
-- portal/resources.py: the declared configuration resources, and `validate_values`. A frozenset or a
-- mapping is a list or a dict; the digest of a value is a parameter.
pub mod Examples
pub mod Service
pub mod Values
pub mod Data
pub mod Memory
pub mod Document
pub mod Round
pub mod Lawful
pub mod Commits
use modular_discord_bot_oper.Common.{
  ℕ, ◌+◌, String, Bool, true, false, Option, none, some, List, [], ◌∷◌, ◌++◌, not, ◌&&◌, ◌||◌, leb,
  ltb, length, any, all, is_some, if◌then◌else◌, Result, ok, err,
}
use modular_discord_bot_oper.Common.Dict.{Dict, lookup, insert}
use modular_discord_bot_oper.Common.Fallible.{◌>>=◌, ◌>>◌, refuse, ensure}
use modular_discord_bot_oper.Common.Json.{Json, ℤ, pos, negsuc, bool, int, str}
use modular_discord_bot_oper.Common.Text.{codes, text_length, between}
use modular_discord_bot_oper.Portal.Authorization.{contains}

pub data FieldType : Type 0 where
  boolean integer string enum discord_channel_id : FieldType

pub record ConfigField : Type 0 where
  pub field_id : String
  pub field_type : FieldType
  pub is_required : Bool
  pub minimum : Option ℤ
  pub maximum : Option ℤ
  pub maximum_length : Option ℕ
  pub choices : List String
  pub is_sensitive : Bool
  pub is_read_only : Bool
  pub restart_required : Bool

-- Why `validate_values` or `data_page` refuses; the field is named where the message names it.
pub data Violation : Type 0 where
  unknown_field read_only_field missing_field page_size bad_cursor : Violation
  invalid_value out_of_range too_long : String → Violation

-- The codes of `ResourceError`; `foreign` is an exception of another class.
pub data ResourceError : Type 0 where
  validation_failed : Violation → ResourceError
  resource_not_found resource_read_only permission_denied stale_revision : ResourceError
  persistence_failed temporarily_unavailable foreign : ResourceError

pub record ConfigurationResource : Type 0 where
  pub resource_id : String
  pub bot_id : String
  pub fields : List ConfigField
  pub read_permission : String
  pub edit_permission : Option String
  pub location_key : String
  pub validator : Option (Dict Json → Result ResourceError (Unit {0}))

-- `{item.field_id: item for item in resource.fields}`
unfoldable pub definitions : List ConfigField → Dict ConfigField → Dict ConfigField
definitions [] d = d
definitions (f ∷ fs) d = definitions fs (insert f.field_id f d)

-- `^[1-9][0-9]{16,19}$`, by `fullmatch`
unfoldable pub is_discord_id : String → Bool
unfolding codes
is_discord_id s = elim (codes s) [
  | [] ↦ false
  | c ∷ cs ↦ between b'1' b'9' c && between 16 19 (length cs) && all (λ d. between b'0' b'9' d) cs
]

abbrev pub less : ℤ → ℤ → Bool
less (pos a) (pos b) = ltb a b
less (pos a) (negsuc b) = false
less (negsuc a) (pos b) = true
less (negsuc a) (negsuc b) = ltb b a

-- The type test of a field.
unfoldable pub has_type : ConfigField → Json → Bool
unfolding is_discord_id
has_type f v = elim f.field_type [
  | boolean ↦ elim v [ bool _ ↦ true | _ ↦ false ]
  | integer ↦ elim v [ int _ ↦ true | _ ↦ false ]
  | string ↦ elim v [ str _ ↦ true | _ ↦ false ]
  | enum ↦ elim v [ str s ↦ contains f.choices s | _ ↦ false ]
  | discord_channel_id ↦ elim v [ str s ↦ is_discord_id s | _ ↦ false ]
]

-- `isinstance(value, int)`, which a bool is too
abbrev pub as_int : Json → Option ℤ
as_int (bool b) = some (pos (if b then 1 else 0))
as_int (int z) = some z
as_int _ = none

abbrev pub is_below : Option ℤ → ℤ → Bool
is_below none z = false
is_below (some low) z = less z low

abbrev pub is_above : Option ℤ → ℤ → Bool
is_above none z = false
is_above (some high) z = less high z

unfoldable pub out_of_bounds : ConfigField → Json → Bool
out_of_bounds f v = elim (as_int v) [
  | none ↦ false
  | some z ↦ is_below f.minimum z || is_above f.maximum z
]

abbrev pub is_longer : Option ℕ → String → Bool
is_longer none s = false
is_longer (some limit) s = ltb limit (text_length s)

unfoldable pub exceeds : ConfigField → Json → Bool
exceeds f v = elim v [ str s ↦ is_longer f.maximum_length s | _ ↦ false ]

-- The checks of one submitted value.
unfoldable pub check_value : String → ConfigField → Json → Result ResourceError (Unit {0})
unfolding has_type out_of_bounds exceeds
check_value name f v =
    ensure (has_type f v) (validation_failed (invalid_value name))
    >> refuse (out_of_bounds f v) (validation_failed (out_of_range name))
    >> refuse (exceeds f v) (validation_failed (too_long name))

-- One round of the loop over the fields, on `submitted.get(name)`: what it adds to the result.
unfoldable pub check_field : String → ConfigField → Option Json → Result ResourceError (Option Json)
unfolding check_value
check_field name f none = if f.is_required then err (validation_failed missing_field) else ok none
check_field name f (some v) =
    refuse f.is_read_only (validation_failed read_only_field) >> check_value name f v >> ok (some v)

abbrev pub with_value : String → Option Json → Dict Json → Dict Json
with_value name none d = d
with_value name (some v) d = (name, v) ∷ d

-- The loop. The keys of the result are those of the definitions, each of which comes once.
unfoldable pub check_fields : Dict ConfigField → Dict Json → Result ResourceError (Dict Json)
unfolding check_field
check_fields [] submitted = ok []
check_fields ((name, f) ∷ fs) submitted = check_field name f (lookup name submitted) >>= λ v.
    check_fields fs submitted >>= λ rest. ok (with_value name v rest)

abbrev pub has_key {ℓ} : {V : Type ℓ} → Dict V → String → Bool
has_key d k = is_some (lookup k d)

abbrev pub all_known : Dict ConfigField → Dict Json → Bool
all_known fs [] = true
all_known fs ((k, _) ∷ d) = has_key fs k && all_known fs d

abbrev pub run_validator :
    Option (Dict Json → Result ResourceError (Unit {0}))
    → Dict Json
    → Result ResourceError (Unit {0})
run_validator none d = ok tt
run_validator (some v) d = v d

unfoldable pub validate_values :
    ConfigurationResource → Dict Json → Result ResourceError (Dict Json)
unfolding definitions check_fields
validate_values resource submitted =
    let fs = definitions resource.fields [] in
    ensure (all_known fs submitted) (validation_failed unknown_field)
    >> check_fields fs submitted
    >>= λ result. run_validator resource.validator result >>= λ _. ok result
