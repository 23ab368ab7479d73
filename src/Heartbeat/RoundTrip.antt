-- ===== src/Heartbeat/RoundTrip.antt =====
-- What the receiver of shared/heartbeat.py accepts, and that it accepts what the sender encodes.
use modular_discord_bot_oper.Common.{ℕ, String, true, some, List, ◌≡◌, ◌≤◌, arith, any, str_eq, ok}
use modular_discord_bot_oper.Common.Json.{str, obj, Fields, get_field}
use modular_discord_bot_oper.Heartbeat.{
  Heartbeat, Parsers, canonical, decode_fields, decode_heartbeat, encode_fields,
  max_heartbeat_bytes, value_or_null, schema_version,
}

-- A heartbeat that the supervisor may trust: the version is known, the bot is one of the allowed
-- ones, and readiness comes with a connection.
pub record IsTrusted (allowed : List String) (h : Heartbeat) : Type 0 where
  pub version_known : h.version ≡ schema_version
  pub bot_allowed : any (str_eq h.bot_id) allowed ≡ true
  pub ready_connected : h.discord_ready ≡ true → h.discord_connected ≡ true

module _ (lib : Parsers) (allowed : List String) where
  decode_fields-IsTrusted :
      (raw : Fields) {h : Heartbeat} → decode_fields lib allowed raw ≡ ok h → IsTrusted allowed h
  unfolding decode_fields
  decode_fields-IsTrusted raw e = record {
    version_known = ground arith;
    bot_allowed = ground arith;
    ready_connected = ground arith;
  }

  -- Whatever the payload, a heartbeat that the receiver accepts names an allowed bot, has the known
  -- version, is ready only with a connection, and came in at most `max_heartbeat_bytes` bytes; its
  -- instance is the canonical form that `UUID` gave for the payload's text.
  pub decode-IsTrusted :
      (size : ℕ) (raw : Fields) {h : Heartbeat}
      → decode_heartbeat lib allowed size (some (obj raw)) ≡ ok h
      → IsTrusted allowed h
        × (size ≤ max_heartbeat_bytes)
        × (lib.uuid (value_or_null (get_field "process_instance_id" raw))
            ≡ canonical h.process_instance_id)
  unfolding decode_heartbeat
  decode-IsTrusted size raw e =
      (decode_fields-IsTrusted raw (ground arith), ground arith, ground arith)

  -- A trusted heartbeat that is encoded and read back, in at most `max_heartbeat_bytes` bytes, is the
  -- same heartbeat, where `UUID` keeps its instance and `fromisoformat` reads what `isoformat` wrote.
  pub decode-encode :
      (size : ℕ) (h : Heartbeat)
      → size ≤ max_heartbeat_bytes
      → IsTrusted allowed h
      → lib.uuid (str h.process_instance_id) ≡ canonical h.process_instance_id
      → lib.from_iso (str (lib.iso_format h.emitted_at))
        ≡ some (record { instant = h.emitted_at; aware = true })
      → decode_heartbeat lib allowed size (some (obj (encode_fields lib h))) ≡ ok h
  unfolding decode_heartbeat encode_fields
  decode-encode size h fits trusted kept read = ground arith
