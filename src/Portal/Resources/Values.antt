-- ===== src/Portal/Resources/Values.antt =====
-- What `validate_values` of portal/resources.py accepts.
use modular_discord_bot_oper.Common.{
  String, Bool, true, false, Option, none, some, [], ◌∷◌, not, ◌&&◌, is_some, str_eq, if◌then◌else◌,
  ok, ◌≡◌, refl, ap, sym, subst, ◌∙◌, ◌↔◌, arith, Bool-cases, inl, inr, eq_iff, eq_refl, Result,
  err, Result-cases,
}
use modular_discord_bot_oper.Common.Dict.{Dict, lookup}
use modular_discord_bot_oper.Common.Fallible.{◌>>=◌, ◌>>◌, ensure, >>=-ok_parts, ensure_passed}
use modular_discord_bot_oper.Common.Json.{Json}
use modular_discord_bot_oper.Portal.Resources.{
  ConfigField, ConfigurationResource, ResourceError, Violation, validation_failed, definitions,
  has_type, out_of_bounds, exceeds, check_value, check_field, check_fields, with_value, has_key,
  all_known, run_validator, validate_values,
}

-- What a field may be given: nothing if it is not required; else, if it is not read-only, a value of
-- its type within its bounds.
unfoldable pub fits : ConfigField → Option Json → Bool
fits f none = not f.is_required
fits f (some v) = not f.is_read_only && has_type f v && not (out_of_bounds f v) && not (exceeds f v)

check_field-ok :
    (name : String) (f : ConfigField) (v : Option Json)
    → fits f v ≡ true
    → check_field name f v ≡ ok v
unfolding fits check_field check_value
check_field-ok name f none fit = ground arith
check_field-ok name f (some v) fit = ground arith

check_field_passed :
    (name : String) (f : ConfigField) (v : Option Json) {w : Option Json}
    → check_field name f v ≡ ok w
    → (w ≡ v) × (fits f v ≡ true)
unfolding fits check_field check_value
check_field_passed name f none done = (ground arith, ground arith)
check_field_passed name f (some v) done = (ground arith, ground arith)

-- Every declared field fits what is submitted for it.
abbrev pub all_fit : Dict ConfigField → Dict Json → Bool
all_fit [] d = true
all_fit ((name, f) ∷ fs) d = fits f (lookup name d) && all_fit fs d

if_same {ℓ} : {A : Type ℓ} {a : A} (b : Bool) → (if b then a else a) ≡ a
if_same true = refl
if_same false = refl

lookup-with_value :
    (name k : String) (v : Option Json) (d rest : Dict Json) (f : ConfigField)
    (later : Option ConfigField)
    → v ≡ lookup name d
    → lookup k rest ≡ (if is_some later then lookup k d else none)
    → lookup k (with_value name v rest)
      ≡ (if is_some (if str_eq name k then some f else later) then lookup k d else none)
unfolding lookup
lookup-with_value name k none d rest f later same h = elim (Bool-cases (str_eq name k)) [
  | inl here ↦
      let absent : lookup k d ≡ none =
        subst (λ n. lookup n d ≡ none) ((eq_iff name k).0 here) (sym same) in
      rw (here, absent) (h ∙ rw absent (if_same (is_some later)))
  | inr other ↦ rw other h
]
lookup-with_value name k (some v) d rest f later same h = elim (Bool-cases (str_eq name k)) [
  | inl here ↦
      let present : lookup k d ≡ some v =
        subst (λ n. lookup n d ≡ some v) ((eq_iff name k).0 here) (sym same) in
      rw (here, present) refl
  | inr other ↦ rw other h
]

check_fields_passed :
    (fs : Dict ConfigField) (d : Dict Json) {result : Dict Json}
    → check_fields fs d ≡ ok result
    → (all_fit fs d ≡ true)
      × ((k : String) → lookup k result ≡ (if has_key fs k then lookup k d else none))
unfolding check_fields lookup
check_fields_passed [] d done = (refl, λ k. cc done)
check_fields_passed ((name, f) ∷ fs) d {result = result} done =
    let (v, checked, rest_done) =
      >>=-ok_parts (check_field name f (lookup name d))
        (λ v. check_fields fs d >>= λ rest. ok (with_value name v rest)) done in
    let (rest, fields_done, ended) =
      >>=-ok_parts (check_fields fs d) (λ rest. ok (with_value name v rest)) rest_done in
    let (all, found) = check_fields_passed fs d fields_done in
    let (same, fit) = check_field_passed name f (lookup name d) checked in
    let e : with_value name v rest ≡ result = cc ended in
    (
      rw (fit, all) refl,
      λ k. ap (lookup k) (sym e) ∙ lookup-with_value name k v d rest f (lookup k fs) same (found k),
    )

pub check_fields-ok :
    (fs : Dict ConfigField) (d : Dict Json)
    → all_fit fs d ≡ true
    → (result : Dict Json) × (check_fields fs d ≡ ok result)
unfolding check_fields
check_fields-ok [] d fit = ([], refl)
check_fields-ok ((name, f) ∷ fs) d fit =
    let (rest, done) = check_fields-ok fs d (ground arith) in
    (
      with_value name (lookup name d) rest,
      rw (check_field-ok name f (lookup name d) (ground arith), done) refl,
    )

pub all_known-lookup :
    (fs : Dict ConfigField) (d : Dict Json) (k : String)
    → all_known fs d ≡ true
    → has_key fs k ≡ false
    → lookup k d ≡ none
unfolding lookup
all_known-lookup fs [] k known absent = refl
all_known-lookup fs ((j, v) ∷ d) k known absent = elim (Bool-cases (str_eq j k)) [
  | inl here ↦
      let there : has_key fs k ≡ true =
        subst (λ n. has_key fs n ≡ true) ((eq_iff j k).0 here) (ground arith) in
      ground arith
  | inr other ↦ rw other (all_known-lookup fs d k (ground arith) absent)
]

pub declared_only :
    (fs : Dict ConfigField) (d : Dict Json) (k : String)
    → all_known fs d ≡ true
    → (if has_key fs k then lookup k d else none) ≡ lookup k d
declared_only fs d k known = elim (Bool-cases (has_key fs k)) [
  | inl yes_ ↦ rw yes_ refl
  | inr no_ ↦ rw (no_, all_known-lookup fs d k known no_) refl
]

-- What was accepted is declared, and fits.
pub validate_values_passed :
    (resource : ConfigurationResource) (d : Dict Json) {result : Dict Json}
    → validate_values resource d ≡ ok result
    → (all_known (definitions resource.fields []) d ≡ true)
      × (all_fit (definitions resource.fields []) d ≡ true)
unfolding validate_values
validate_values_passed resource d done =
    let fs = definitions resource.fields [] in
    let (checked, parts, _) =
      >>=-ok_parts
        (ensure (all_known fs d) (validation_failed Violation.unknown_field) >> check_fields fs d)
        (λ r. run_validator resource.validator r >>= λ _. ok r) done in
    let (_, known, fields_done) =
      >>=-ok_parts (ensure (all_known fs d) (validation_failed Violation.unknown_field))
        (λ _. check_fields fs d) parts in
    (
      ensure_passed (all_known fs d) (validation_failed Violation.unknown_field) known,
      (check_fields_passed fs d fields_done).0,
    )

-- What is accepted without a validator is what was submitted.
validate_values-same :
    (resource : ConfigurationResource) (d : Dict Json)
    → resource.validator ≡ none
    → (result : Dict Json) → validate_values resource d ≡ ok result
    → (k : String) → lookup k result ≡ lookup k d
unfolding validate_values
validate_values-same resource d plain result done k =
    let fs = definitions resource.fields [] in
    let (known, fit) = validate_values_passed resource d done in
    let (built, built_done) = check_fields-ok fs d fit in
    let (_, found) = check_fields_passed fs d built_done in
    let e : built ≡ result = cc (rw (known, built_done, plain) at done) in
    ap (lookup k) (sym e) ∙ found k ∙ declared_only fs d k known

-- A submission all of whose fields are declared is known.
declared-known :
    (fs : Dict ConfigField) (d : Dict Json)
    → ((k : String) → has_key fs k ≡ false → lookup k d ≡ none)
    → all_known fs d ≡ true
unfolding lookup
declared-known fs [] h = refl
declared-known fs ((j, v) ∷ d) h =
    let rest = declared-known fs d (λ k absent. ground (arith, h k absent)) in
    elim (Bool-cases (has_key fs j)) [
      | inl yes_ ↦ rw (yes_, rest) refl
      | inr no_ ↦ let missing = h j no_ in absurd (cc (rw eq_refl at missing))
    ]

-- Every submitted field is declared, and every declared field fits what is submitted for it.
abbrev pub IsAcceptable : Dict ConfigField → Dict Json → Type 0
IsAcceptable fs d =
    ((k : String) → has_key fs k ≡ false → lookup k d ≡ none) × (all_fit fs d ≡ true)

pub validate_values_iff :
    (resource : ConfigurationResource) (d : Dict Json)
    → resource.validator ≡ none
    → ((result : Dict Json) × (validate_values resource d ≡ ok result))
      ↔ IsAcceptable (definitions resource.fields []) d
unfolding validate_values
validate_values_iff resource d plain =
    let fs = definitions resource.fields [] in
    (
      (λ (result, done).
          let (known, fit) = validate_values_passed resource d done in
          (λ k. all_known-lookup fs d k known, fit)),
      (λ (declared, fit).
          let (result, done) = check_fields-ok fs d fit in
          (result, rw (declared-known fs d declared, done, plain) refl)),
    )

-- How a submission is answered: it is acceptable and, field by field, what is returned; or it is not
-- acceptable and refused.
abbrev pub IsValidated : Dict ConfigField → Dict Json → Result ResourceError (Dict Json) → Type 0
IsValidated fs d (ok result) = IsAcceptable fs d × ((k : String) → lookup k result ≡ lookup k d)
IsValidated fs d (err e) = ¬ IsAcceptable fs d

-- For a resource without a validator of its own, a submission is accepted exactly when every
-- submitted field is declared and every declared field fits what is submitted for it; what is
-- returned is then, field by field, what was submitted. Any other submission is refused.
pub validate_values-IsValidated :
    (resource : ConfigurationResource) (d : Dict Json)
    → resource.validator ≡ none
    → IsValidated (definitions resource.fields []) d (validate_values resource d)
validate_values-IsValidated resource d plain = elim (Result-cases (validate_values resource d)) [
  | inl (result, done) ↦ rw done (
    (validate_values_iff resource d plain).0 (result, done),
    validate_values-same resource d plain result done,
  )
  | inr (e, refused) ↦ rw refused (λ fits.
      let (result, done) = (validate_values_iff resource d plain).1 fits in
      absurd (cc (rw refused at done)))
]
