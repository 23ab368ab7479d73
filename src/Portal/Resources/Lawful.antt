-- ===== src/Portal/Resources/Lawful.antt =====
-- `AtomicJsonResourceAdapter` of portal/resources.py as an adapter of channel resources: it reads
-- what it wrote.
use modular_discord_bot_oper.Common.{
  String, true, false, Option, none, some, List, [], ◌∷◌, str_eq, if◌then◌else◌, Result, ok, err,
  ◌≡◌, refl, sym, ap, subst, ◌∙◌, All, All-map, Bool-cases, Option-cases, Result-cases, inl, inr,
  ◌⊎◌, eq_iff,
}
use modular_discord_bot_oper.Common.Dict.{Dict, lookup, insert, lookup-insert, lookup-insert_self}
use modular_discord_bot_oper.Common.Fallible.{>>=-ok_parts}
use modular_discord_bot_oper.Common.Json.{Json, ℤ, Fields, field, get_field, str, int, obj}
use modular_discord_bot_oper.Portal.Resources.{
  ConfigField, ConfigurationResource, ResourceError, has_key, is_discord_id, definitions,
  validate_values,
}
use modular_discord_bot_oper.Portal.Resources.Values.{all_fit}
use modular_discord_bot_oper.Portal.Resources.Document.{
  DocumentStore, set_field, load, channels_of, read_values, read_config, int_fields,
  updated_document, write_config, document_adapter,
}
use modular_discord_bot_oper.Portal.Resources.Service.{Snapshot, IsLawful}
use modular_discord_bot_oper.Portal.Resources.Values.{
  all_known-lookup, validate_values_iff, validate_values_passed,
}
use modular_discord_bot_oper.Portal.Resources.Round.{
  updated_document_parts, read_config_parts, get_field-set_self, IsChannelField, IsChannel,
  IsChannel-of_fit, all_fit_ext,
}

-- A resource whose fields are required channels, without a validator of its own.
abbrev pub IsChannels : ConfigurationResource → Type 0
IsChannels r =
    (r.validator ≡ none)
    × All (λ (e : String × ConfigField). IsChannelField e.1) (definitions r.fields [])
    × All (λ f. has_key (definitions r.fields []) f.field_id ≡ true) r.fields

-- Values for such a resource: each field has a channel, and nothing else is there.
abbrev pub ServesChannels : ConfigurationResource → Dict Json → Type 0
ServesChannels r d =
    IsChannels r
    × (all_fit (definitions r.fields []) d ≡ true)
    × ((k : String) → has_key (definitions r.fields []) k ≡ false → lookup k d ≡ none)

load-insert :
    (key : String) (document : Fields) (s : DocumentStore)
    → load key (record s { files = insert key (some (obj document)) s.files }) ≡ ok document
unfolding load
load-insert key document s = rw (lookup-insert_self key (some (obj document)) s.files, load) refl

channels_of-set :
    (channels document : Fields)
    → channels_of (set_field "channels" (obj channels) document) ≡ ok channels
unfolding channels_of
channels_of-set channels document =
    rw (get_field-set_self "channels" (obj channels) document, channels_of) refl

module _ (to_str : Json → String) (to_int : Json → Option ℤ) (revision_of : Fields → String) where
  -- Where Python's `int` reads a channel's id, `str` writes it as it was.
  abbrev pub AreNumerals : Type 0
  AreNumerals =
      (t : String) (z : ℤ) → is_discord_id t ≡ true → to_int (str t) ≡ some z → to_str (int z) ≡ t

  -- A value and the number that stands for it.
  IsWritten : Option Json → Option Json → Type 0
  IsWritten value number =
      (t : String) × (z : ℤ) × (value ≡ some (str t))
      × (number ≡ some (int z))
      × (to_str (int z) ≡ t)

  int_fields-get :
      (d : Dict Json) (k : String) {fs : Fields}
      → AreNumerals
      → int_fields to_str to_int revision_of d ≡ ok fs
      → IsChannel (lookup k d)
      → IsWritten (lookup k d) (get_field k fs)
  unfolding int_fields lookup get_field IsWritten
  int_fields-get [] k numerals done (_, absent, _) = absurd (cc absent)
  int_fields-get ((name, v) ∷ d) k {fs = fs} numerals done channel =
      elim (Option-cases (to_int v)) [
        | inl bad ↦ absurd (cc (rw (bad, int_fields) at done))
        | inr (n, parsed) ↦
            let (rest, rest_done, ended) =
              >>=-ok_parts (int_fields to_str to_int revision_of d)
                (λ rest. ok (field name (int n) rest)) (rw (parsed, int_fields) at done) in
            let e : field name (int n) rest ≡ fs = cc ended in
            subst (λ g. IsWritten (lookup k ((name, v) ∷ d)) (get_field k g)) e
              (elim (Bool-cases (str_eq name k)) [
                | inl here ↦
                    let (t, is_text, is_id) = rw here at channel in
                    let same : v ≡ str t = cc is_text in
                    rw here
                      (t, n, is_text, refl, numerals t n is_id (sym (ap to_int same) ∙ parsed))
                | inr other ↦ rw other (int_fields-get d k numerals rest_done (rw other at channel))
              ])
      ]

  -- The values that are read are the ones that were written, for the declared fields.
  read_values-ok :
      (fs : List ConfigField) (channels : Fields) (d acc : Dict Json) (known : Dict ConfigField)
      → All (λ f. IsWritten (lookup f.field_id d) (get_field f.field_id channels)) fs
      → ((k : String) → lookup k acc ≡ (if has_key known k then lookup k d else none))
      → (out : Dict Json) × (read_values to_str to_int revision_of fs channels acc ≡ ok out)
        × ((k : String)
            → lookup k out ≡ (if has_key (definitions fs known) k then lookup k d else none))
  unfolding read_values definitions IsWritten
  read_values-ok [] channels d acc known written so_far = (acc, refl, so_far)
  read_values-ok (f ∷ fs) channels d acc known ((t, z, value, number, back), written) so_far =
      let (out, done, found) =
        read_values-ok fs channels d (insert f.field_id (str t) acc) (insert f.field_id f known)
          written
          (λ k.
            lookup-insert f.field_id k (str t) acc
            ∙ extended f.field_id k t d acc known f value (so_far k)) in
      (out, rw (number, read_values) (rw back done), found)
    where
      extended :
          (id k t : String) (d acc : Dict Json) (known : Dict ConfigField) (f : ConfigField)
          → lookup id d ≡ some (str t)
          → lookup k acc ≡ (if has_key known k then lookup k d else none)
          → (if str_eq id k then some (str t) else lookup k acc)
            ≡ (if has_key (insert id f known) k then lookup k d else none)
      extended id k t d acc known f value h = elim (Bool-cases (str_eq id k)) [
        | inl here ↦
            rw (here, lookup-insert id k f known)
              (rw here (sym (subst (λ n. lookup n d ≡ some (str t)) ((eq_iff id k).0 here) value)))
        | inr other ↦ rw (other, lookup-insert id k f known) (rw other h)
      ]

  write_config-cases :
      (r : ConfigurationResource) (d : Dict Json) (expected : String) (s : DocumentStore)
      → ((e : ResourceError) × (write_config to_str to_int revision_of false r d expected s
            ≡ (err e, s)))
        ⊎ ((written : Fields) × (updated_document to_str to_int revision_of r d expected s
              ≡ ok written)
            × (write_config to_str to_int revision_of false r d expected s ≡ (
              ok (record { values = d; revision = revision_of written }),
              record s { files = insert r.location_key (some (obj written)) s.files },
            )))
  unfolding write_config
  write_config-cases r d expected s =
      elim (Result-cases (updated_document to_str to_int revision_of r d expected s)) [
        | inr (e, failed) ↦ inl (e, rw (failed, write_config) refl)
        | inl (written, done) ↦ inr (written, done, rw (done, write_config) refl)
      ]

  unchanged :
      (r : ConfigurationResource) (d : Dict Json) (expected : String) (s : DocumentStore)
      {e : ResourceError}
      → (write_config to_str to_int revision_of false r d expected s).0 ≡ err e
      → (write_config to_str to_int revision_of false r d expected s).1 ≡ s
  unchanged r d expected s failed = elim (write_config-cases r d expected s) [
    | inl (_, ended) ↦ rw ended refl
    | inr (_, _, ended) ↦ absurd (cc (rw ended at failed))
  ]

  of_current :
      (r : ConfigurationResource) (d : Dict Json) (expected : String) (s : DocumentStore)
      {before after : Snapshot}
      → read_config to_str to_int revision_of r s ≡ ok before
      → (write_config to_str to_int revision_of false r d expected s).0 ≡ ok after
      → before.revision ≡ expected
  of_current r d expected s {before = before} seen done = elim (write_config-cases r d expected s) [
    | inl (_, ended) ↦ absurd (cc (rw ended at done))
    | inr (_, wrote, _) ↦
        let (document, _, loaded, fresh, _, _) =
          updated_document_parts to_str to_int revision_of r d expected s wrote in
        let (shown, _, _, _, loaded', _, e) =
          read_config_parts to_str to_int revision_of r s seen in
        let same : ◌≡◌ {A = Result ResourceError Fields} (ok shown) (ok document) =
          sym loaded' ∙ loaded in
        let one : shown ≡ document = cc same in
        ap (λ (b : Snapshot). b.revision) (sym e) ∙ ap revision_of one ∙ fresh
  ]

  read_config-of :
      (r : ConfigurationResource) (s : DocumentStore) {document channels : Fields}
      {values result : Dict Json}
      → load r.location_key s ≡ ok document
      → channels_of document ≡ ok channels
      → read_values to_str to_int revision_of r.fields channels [] ≡ ok values
      → validate_values r values ≡ ok result
      → read_config to_str to_int revision_of r s
        ≡ ok (record { values = values; revision = revision_of document })
  unfolding read_config
  read_config-of r s loaded parted read valid =
      rw (loaded, read_config) (rw parted (rw read (rw valid refl)))

  read_back :
      (r : ConfigurationResource) (d : Dict Json) (expected : String) (s : DocumentStore)
      {after : Snapshot}
      → AreNumerals
      → ServesChannels r d
      → (write_config to_str to_int revision_of false r d expected s).0 ≡ ok after
      → (later : Snapshot) × (read_config to_str to_int revision_of r
            (write_config to_str to_int revision_of false r d expected s).1
          ≡ ok later)
        × (later.revision ≡ after.revision)
        × ((k : String) → lookup k later.values ≡ lookup k d)
  unfolding lookup
  read_back r d expected s {after = after} numerals ((plain, channels, declared), fit, nothing)
        done =
      elim (write_config-cases r d expected s) [
        | inl (_, ended) ↦ absurd (cc (rw ended at done))
        | inr (written, wrote, ended) ↦
            let (document, numbers, _, _, stored, e) =
              updated_document_parts to_str to_int revision_of r d expected s wrote in
            let (out, read, found) =
              read_values-ok r.fields numbers d [] []
                (All-map r.fields
                  (λ f there.
                    int_fields-get d f.field_id numerals stored
                      (IsChannel-of_fit (definitions r.fields []) d f.field_id channels fit there))
                  declared)
                (λ k. refl) in
            let same : (k : String) → lookup k out ≡ lookup k d = λ k.
              found k ∙ elim (Bool-cases (has_key (definitions r.fields []) k)) [
                | inl yes_ ↦ rw yes_ refl
                | inr no_ ↦ rw (no_, nothing k no_) refl
              ] in
            let accepted = (validate_values_iff r out plain).1 (
              (λ k free. same k ∙ nothing k free),
              all_fit_ext (definitions r.fields []) out d same ∙ fit,
            ) in
            let after_ : DocumentStore = record s {
              files = insert r.location_key (some (obj written)) s.files;
            } in
            let seen =
              read_config-of r after_ (load-insert r.location_key written s)
                (subst (λ w. channels_of w ≡ ok numbers) e (channels_of-set numbers document)) read
                accepted.1 in
            let revised : record { values = d; revision = revision_of written } ≡ after =
              cc (rw ended at done) in
            (
              record { values = out; revision = revision_of written },
              rw ended seen,
              ap (λ (b : Snapshot). b.revision) revised,
              same,
            )
      ]

  read_serves :
      (r : ConfigurationResource) (s : DocumentStore) (d : Dict Json) {snapshot : Snapshot}
      → ServesChannels r d
      → read_config to_str to_int revision_of r s ≡ ok snapshot
      → ServesChannels r snapshot.values
  read_serves r s d {snapshot = snapshot} (channels, _, _) seen =
      let (_, _, values, _, _, valid, e) = read_config_parts to_str to_int revision_of r s seen in
      let (known, fit) = validate_values_passed r values valid in
      subst (λ (b : Snapshot). ServesChannels r b.values) e
        (channels, fit, λ k free. all_known-lookup (definitions r.fields []) values k known free)

-- The adapter of documents keeps what the services ask of one, for resources of required channels,
-- if `str` writes a channel's id as it was where `int` reads it, and the sync of the directory after
-- a write does not fail.
pub document_adapter-IsLawful :
    (to_str : Json → String) (to_int : Json → Option ℤ) (revision_of : Fields → String)
    → AreNumerals to_str to_int revision_of
    → IsLawful (document_adapter to_str to_int revision_of false) ServesChannels
document_adapter-IsLawful to_str to_int revision_of numerals = record {
  refused = unchanged to_str to_int revision_of;
  current = of_current to_str to_int revision_of;
  written = λ r d expected s serves done.
      read_back to_str to_int revision_of r d expected s numerals serves done;
  readable = λ r s d serves seen. read_serves to_str to_int revision_of r s d serves seen;
}
