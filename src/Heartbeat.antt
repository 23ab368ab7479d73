-- ===== src/Heartbeat.antt =====
-- shared/heartbeat.py: the message that a bot process sends to the supervisor, its encoding as a
-- JSON object, and the checks of the receiver. `json.dumps` and `json.loads` lie between
-- `encode_fields` and `decode_fields`; `UUID` and `datetime.fromisoformat` are parameters.
pub mod Examples
pub mod Reporter
pub mod RoundTrip
use modular_discord_bot_oper.Common.{
  ℕ, String, Bool, true, false, Option, none, some, List, [], ◌∷◌, ◌&&◌, ◌||◌, not, ltb, any, all,
  length, str_eq, is_some, if◌then◌else◌, Result, ok, err, ◌==◌,
}
use modular_discord_bot_oper.Common.Fallible.{◌>>=◌, ◌>>◌, ensure}
use modular_discord_bot_oper.Common.Json.{
  ℤ, pos, negsuc, Json, null, bool, int, float, str, arr, obj, Fields, end, field, get_field,
  equals_one,
}

abbrev pub schema_version : ℕ
schema_version = 1

abbrev pub max_heartbeat_bytes : ℕ
max_heartbeat_bytes = 2048

-- `emitted_at` is an instant, in microseconds since the epoch.
pub record Heartbeat : Type 0 where
  pub version : ℕ
  pub bot_id : String
  pub process_instance_id : String
  pub sequence : ℕ
  pub emitted_at : ℕ
  pub discord_connected : Bool
  pub discord_ready : Bool
  pub maintenance : Bool

-- The messages of `HeartbeatValidationError`; `attribute_error` is an exception of `UUID` that the
-- `except` clause does not name, so it leaves the function as it is.
pub data DecodeError : Type 0 where
  too_large fields_invalid unsupported_version unknown_bot_id naive_timestamp : DecodeError
  sequence_invalid flag_invalid ready_unconnected malformed attribute_error : DecodeError

-- How `str(UUID(value))` ends.
pub data UuidOutcome : Type 0 where
  canonical : String → UuidOutcome
  value_error type_error no_attribute : UuidOutcome

-- What `datetime.fromisoformat` returns: the instant, and whether an offset was given.
pub record Stamp : Type 0 where
  pub instant : ℕ
  pub aware : Bool

-- The standard library's parts that the checks call.
pub record Parsers : Type 0 where
  pub uuid : Json → UuidOutcome
  pub from_iso : Json → Option Stamp
  pub iso_format : ℕ → String

-- Names of a dict's keys; `set(raw) != expected` compares them as a set.
abbrev pub field_names : List String
field_names =
    "bot_id" ∷ "discord_connected" ∷ "discord_ready" ∷ "emitted_at" ∷ "maintenance"
    ∷ "process_instance_id" ∷ "schema_version" ∷ "sequence" ∷ []

abbrev pub key_count : Fields → ℕ
key_count end = 0
key_count (field _ _ fs) = Prim.Native.Nat.suc (key_count fs)

-- A dict has each key once, so it has the expected keys if it has each of them and no more.
unfoldable pub has_expected_fields : Fields → Bool
unfolding get_field
has_expected_fields fs =
    all (λ k. is_some (get_field k fs)) field_names && (key_count fs == length field_names)

-- An unhashable value is a `TypeError`, any other that is no known text is not in the set.
abbrev pub hashable : Json → Bool
hashable (arr _) = false
hashable (obj _) = false
hashable _ = true

abbrev pub value_or_null : Option Json → Json
value_or_null none = null
value_or_null (some v) = v

abbrev known_bot : List String → Json → Result DecodeError String
known_bot allowed (str s) = if any (str_eq s) allowed then ok s else err unknown_bot_id
known_bot allowed v = if hashable v then err unknown_bot_id else err malformed

abbrev instance_of : UuidOutcome → Result DecodeError String
instance_of (canonical s) = ok s
instance_of value_error = err malformed
instance_of type_error = err malformed
instance_of no_attribute = err attribute_error

abbrev aware_instant : Option Stamp → Result DecodeError ℕ
aware_instant none = err malformed
aware_instant (some t) = if t.aware then ok t.instant else err naive_timestamp

abbrev sequence_of : Json → Result DecodeError ℕ
sequence_of (int (pos n)) = ok n
sequence_of _ = err sequence_invalid

abbrev flag_of : Json → Result DecodeError Bool
flag_of (bool b) = ok b
flag_of _ = err flag_invalid

module _ (lib : Parsers) (allowed : List String) where
  -- `decode_heartbeat` on a parsed object
  unfoldable pub decode_fields : Fields → Result DecodeError Heartbeat
  unfolding has_expected_fields
  decode_fields raw = do
    ensure (has_expected_fields raw) fields_invalid
    ensure (equals_one (value_or_null (get_field "schema_version" raw))) unsupported_version
    bot ← known_bot allowed (value_or_null (get_field "bot_id" raw))
    instance_id ← instance_of (lib.uuid (value_or_null (get_field "process_instance_id" raw)))
    emitted ← aware_instant (lib.from_iso (value_or_null (get_field "emitted_at" raw)))
    number ← sequence_of (value_or_null (get_field "sequence" raw))
    connected ← flag_of (value_or_null (get_field "discord_connected" raw))
    ready ← flag_of (value_or_null (get_field "discord_ready" raw))
    paused ← flag_of (value_or_null (get_field "maintenance" raw))
    ensure (not (ready && not connected)) ready_unconnected
    ok (record {
      version = schema_version;
      bot_id = bot;
      process_instance_id = instance_id;
      sequence = number;
      emitted_at = emitted;
      discord_connected = connected;
      discord_ready = ready;
      maintenance = paused;
    })

  -- `json.loads` has returned a value or has raised (`none`) on a payload of `size` bytes.
  unfoldable pub decode_heartbeat : ℕ → Option Json → Result DecodeError Heartbeat
  unfolding decode_fields
  decode_heartbeat size parsed =
      if ltb max_heartbeat_bytes size then err too_large else elim parsed [
        | none ↦ err malformed
        | some (obj raw) ↦ decode_fields raw
        | some _ ↦ err fields_invalid
      ]

-- `Heartbeat.encode` up to `json.dumps`, with its keys sorted.
unfoldable pub encode_fields : Parsers → Heartbeat → Fields
encode_fields lib h = field "bot_id" (str h.bot_id) (
    field "discord_connected" (bool h.discord_connected) (
      field "discord_ready" (bool h.discord_ready) (
        field "emitted_at" (str (lib.iso_format h.emitted_at)) (
          field "maintenance" (bool h.maintenance) (
            field "process_instance_id" (str h.process_instance_id) (
              field "schema_version" (int (pos h.version))
                (field "sequence" (int (pos h.sequence)) end)))))))
