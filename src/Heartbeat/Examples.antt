-- ===== src/Heartbeat/Examples.antt =====
-- Runs of the model of shared/heartbeat.py on a sample message.
use modular_discord_bot_oper.Common.{
  String, true, false, Option, none, some, List, [], ◌∷◌, ◌≡◌, ◌≤◌, refl, arith, ok, All,
}
use modular_discord_bot_oper.Common.Json.{Json, str, obj, get_field}
use modular_discord_bot_oper.Heartbeat.{
  Heartbeat, Parsers, Stamp, UuidOutcome, canonical, no_attribute, decode_fields, decode_heartbeat,
  encode_fields, has_expected_fields, value_or_null,
}
use modular_discord_bot_oper.Heartbeat.RoundTrip.{IsTrusted, decode-IsTrusted, decode-encode}
use modular_discord_bot_oper.Heartbeat.Reporter.{Event, run}
use modular_discord_bot_oper.Heartbeat.Reporter.Emissions.{
  IsGenuine, bearing, fresh, run_once, run-IsGenuine,
}

abbrev uuid_of : Json → UuidOutcome
uuid_of (str s) = canonical s
uuid_of _ = no_attribute

abbrev iso_of : Json → Option Stamp
iso_of (str s) = some (record { instant = 50; aware = true })
iso_of _ = none

abbrev parsers : Parsers
parsers = record {
  uuid = uuid_of;
  from_iso = iso_of;
  iso_format = λ n. "1970-01-01T00:00:00.000050+00:00";
}

abbrev sample : Heartbeat
sample = record {
  version = 1;
  bot_id = "unbot";
  process_instance_id = "i1";
  sequence = 3;
  emitted_at = 50;
  discord_connected = true;
  discord_ready = true;
  maintenance = false;
}

abbrev bots : List String
bots = "cda-pay" ∷ "unbot" ∷ []

sample-IsTrusted : IsTrusted bots sample
sample-IsTrusted = record { version_known = refl; bot_allowed = refl; ready_connected = λ e. refl }

decode-IsTrusted_example :
    IsTrusted bots sample
    × (300 ≤ 2048)
    × (uuid_of (value_or_null (get_field "process_instance_id" (encode_fields parsers sample)))
        ≡ canonical sample.process_instance_id)
unfolding decode_heartbeat decode_fields encode_fields has_expected_fields get_field
decode-IsTrusted_example =
    decode-IsTrusted parsers bots 300 (encode_fields parsers sample) {h = sample} refl

decode-encode_example :
    decode_heartbeat parsers bots 300 (some (obj (encode_fields parsers sample))) ≡ ok sample
decode-encode_example =
    decode-encode parsers bots 300 sample (omega arith) sample-IsTrusted refl refl

-- The heartbeat of the disconnection overtakes the one of the loop, which is too large.
abbrev events : List Event
events =
    Event.connect
    ∷ Event.ready
    ∷ Event.tick 1
    ∷ Event.disconnect 3
    ∷ Event.send 0 300 true
    ∷ Event.send 0 3000 true
    ∷ Event.resume true
    ∷ Event.resume false
    ∷ []

run_once_example : bearing 1 (run parsers events (fresh "unbot" (some "/run/hb") (some "i1"))).1 ≤ 1
run_once_example = run_once parsers "unbot" (some "/run/hb") (some "i1") events 1

run-IsGenuine_example :
    All (IsGenuine "unbot") (run parsers events (fresh "unbot" (some "/run/hb") (some "i1"))).1
run-IsGenuine_example = run-IsGenuine parsers "unbot" (some "/run/hb") (some "i1") events
