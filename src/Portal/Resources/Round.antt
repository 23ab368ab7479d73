-- ===== src/Portal/Resources/Round.antt =====
-- The document of `AtomicJsonResourceAdapter` in portal/resources.py: the parts that a write of
-- channels goes through, and the parts that a read goes through.
use modular_discord_bot_oper.Common.{
  String, true, false, Option, none, some, [], ◌∷◌, str_eq, if◌then◌else◌, ok, ◌≡◌, refl, subst,
  arith, All, Bool-cases, inl, inr, eq_iff, eq_refl,
}
use modular_discord_bot_oper.Common.Dict.{Dict, lookup}
use modular_discord_bot_oper.Common.Fallible.{◌>>=◌, ◌>>◌, ensure, >>=-ok_parts, ensure_passed}
use modular_discord_bot_oper.Common.Json.{Json, ℤ, Fields, end, field, get_field, str, obj}
use modular_discord_bot_oper.Portal.Resources.{
  FieldType, ConfigField, ConfigurationResource, stale_revision, persistence_failed, has_key,
  is_discord_id, validate_values, all_known, has_type,
}
use modular_discord_bot_oper.Portal.Resources.Values.{fits, all_fit}
use modular_discord_bot_oper.Portal.Resources.Service.{Snapshot}
use modular_discord_bot_oper.Portal.Resources.Document.{
  DocumentStore, set_field, load, channels_of, read_values, read_config, int_fields,
  updated_document,
}

pub get_field-set_self :
    (k : String) (v : Json) (fs : Fields) → get_field k (set_field k v fs) ≡ some v
unfolding get_field set_field
get_field-set_self k v end = rw eq_refl refl
get_field-set_self k v (field i w fs) = elim (Bool-cases (str_eq i k)) [
  | inl here ↦ rw here (rw eq_refl refl)
  | inr other ↦ rw other (rw other (get_field-set_self k v fs))
]

-- A required field for a channel.
abbrev pub IsChannelField : ConfigField → Type 0
IsChannelField f = (f.field_type ≡ FieldType.discord_channel_id) × (f.is_required ≡ true)

-- A value that is a channel's id.
abbrev pub IsChannel : Option Json → Type 0
IsChannel o = (t : String) × (o ≡ some (str t)) × (is_discord_id t ≡ true)

IsChannel-of_type :
    (f : ConfigField) (v : Json)
    → f.field_type ≡ FieldType.discord_channel_id
    → has_type f v ≡ true
    → IsChannel (some v)
unfolding has_type
IsChannel-of_type f (str t) channel typed = (t, refl, rw (channel, has_type) at typed)
IsChannel-of_type f v channel typed = absurd (cc (rw (channel, has_type) at typed))

fits-IsChannel :
    (f : ConfigField) (o : Option Json) → IsChannelField f → fits f o ≡ true → IsChannel o
unfolding fits
fits-IsChannel f none (_, needed) fit = absurd (cc (rw (needed, fits) at fit))
fits-IsChannel f (some v) (channel, _) fit = IsChannel-of_type f v channel (ground arith)

-- What fits the declared fields has a channel for each.
pub IsChannel-of_fit :
    (fs : Dict ConfigField) (d : Dict Json) (k : String)
    → All (λ (e : String × ConfigField). IsChannelField e.1) fs
    → all_fit fs d ≡ true
    → has_key fs k ≡ true
    → IsChannel (lookup k d)
unfolding lookup
IsChannel-of_fit [] d k channels fit there = absurd (cc there)
IsChannel-of_fit ((name, f) ∷ fs) d k (channel, channels) fit there =
    elim (Bool-cases (str_eq name k)) [
      | inl here ↦
          subst (λ n. IsChannel (lookup n d)) ((eq_iff name k).0 here)
            (fits-IsChannel f (lookup name d) channel (ground arith))
      | inr other ↦ IsChannel-of_fit fs d k channels (ground arith) (rw other at there)
    ]

-- Dicts with the same entries fit alike.
pub all_fit_ext :
    (fs : Dict ConfigField) (a b : Dict Json)
    → ((k : String) → lookup k a ≡ lookup k b)
    → all_fit fs a ≡ all_fit fs b
all_fit_ext [] a b same = refl
all_fit_ext ((name, f) ∷ fs) a b same = rw (same name, all_fit_ext fs a b same) refl

later_absent :
    (k j : String) (v : Json) (d : Dict Json) → lookup k ((j, v) ∷ d) ≡ none → lookup k d ≡ none
unfolding lookup
later_absent k j v d absent = elim (Bool-cases (str_eq j k)) [
  | inl here ↦ absurd (cc (rw here at absent))
  | inr other ↦ rw other at absent
]

pub all_known_of :
    (fs : Dict ConfigField) (d : Dict Json)
    → ((k : String) → has_key fs k ≡ false → lookup k d ≡ none)
    → all_known fs d ≡ true
unfolding lookup
all_known_of fs [] absent = refl
all_known_of fs ((j, v) ∷ d) absent =
    let later = all_known_of fs d (λ k free. later_absent k j v d (absent k free)) in
    elim (Bool-cases (has_key fs j)) [
      | inl known ↦ rw (known, later) refl
      | inr free ↦
          let none_ : (if str_eq j j then some v else lookup j d) ≡ none = absent j free in
          absurd (cc (rw eq_refl at none_))
    ]

module _ (to_str : Json → String) (to_int : Json → Option ℤ) (revision_of : Fields → String) where
  -- What a write went through.
  pub updated_document_parts :
      (r : ConfigurationResource) (d : Dict Json) (expected : String) (s : DocumentStore)
      {written : Fields}
      → updated_document to_str to_int revision_of r d expected s ≡ ok written
      → (document : Fields) × (channels : Fields) × (load r.location_key s ≡ ok document)
        × (revision_of document ≡ expected)
        × (int_fields to_str to_int revision_of d ≡ ok channels)
        × (set_field "channels" (obj channels) document ≡ written)
  unfolding updated_document
  updated_document_parts r d expected s {written = written} done =
      let store = λ (document channels : Fields).
        (ensure (if s.fails then false else true) persistence_failed
          >> ok (set_field "channels" (obj channels) document)) in
      let (document, loaded, rest) =
        >>=-ok_parts (load r.location_key s)
          (λ document.
            ensure (str_eq (revision_of document) expected) stale_revision
            >> int_fields to_str to_int revision_of d
            >>= λ channels. store document channels)
          done in
      let (channels, checked, last) =
        >>=-ok_parts
          (ensure (str_eq (revision_of document) expected) stale_revision
            >> int_fields to_str to_int revision_of d)
          (store document) rest in
      let (_, fresh, numbers) =
        >>=-ok_parts (ensure (str_eq (revision_of document) expected) stale_revision)
          (λ _. int_fields to_str to_int revision_of d) checked in
      let (_, _, ended) =
        >>=-ok_parts (ensure (if s.fails then false else true) persistence_failed)
          (λ _. ok (set_field "channels" (obj channels) document)) last in
      let e : set_field "channels" (obj channels) document ≡ written = cc ended in
      (
        document,
        channels,
        loaded,
        (eq_iff (revision_of document) expected).0
            (ensure_passed (str_eq (revision_of document) expected) stale_revision fresh),
        numbers,
        e,
      )

  -- What a read went through.
  pub read_config_parts :
      (r : ConfigurationResource) (s : DocumentStore) {snapshot : Snapshot}
      → read_config to_str to_int revision_of r s ≡ ok snapshot
      → (document : Fields) × (channels : Fields) × (values : Dict Json) × (result : Dict Json)
        × (load r.location_key s ≡ ok document)
        × (validate_values r values ≡ ok result)
        × (record { values = values; revision = revision_of document } ≡ snapshot)
  unfolding read_config
  read_config_parts r s {snapshot = snapshot} done =
      let shown = λ (document : Fields) (values : Dict Json).
        (validate_values r values >>= λ _.
        ok (record { values = values; revision = revision_of document })) in
      let (document, loaded, rest) =
        >>=-ok_parts (load r.location_key s)
          (λ document. channels_of document >>= λ channels.
            read_values to_str to_int revision_of r.fields channels [] >>= shown document)
          done in
      let (channels, _, read) =
        >>=-ok_parts (channels_of document)
          (λ channels.
            read_values to_str to_int revision_of r.fields channels [] >>= shown document)
          rest in
      let (values, _, last) =
        >>=-ok_parts (read_values to_str to_int revision_of r.fields channels []) (shown document)
          read in
      let (result, valid, ended) =
        >>=-ok_parts (validate_values r values)
          (λ _. ok (record { values = values; revision = revision_of document })) last in
      let e : record { values = values; revision = revision_of document } ≡ snapshot = cc ended in
      (document, channels, values, result, loaded, valid, e)
