-- ===== src/Portal/Identities/Examples.antt =====
-- Runs of the models of portal/identity.py and portal/admin.py on sample data.
use modular_discord_bot_oper.Common.{
  true, false, none, some, List, [], ◌∷◌, ◌≡◌, refl, arith, str_eq,
}
use modular_discord_bot_oper.Portal.Identities.{
  PortalIdentity, Database, StoredSession, new_identity, find_by_login, set_enabled, authenticate,
  administrators, validate,
}
use modular_discord_bot_oper.Portal.Identities.SessionTable.{Settings, get}
use modular_discord_bot_oper.Portal.Identities.Commands.{
  Inputs, Command, Console, create_identity, change, grant, disable, demote, password, run_change,
  run_commands,
}
use modular_discord_bot_oper.Portal.Identities.Access.{
  IsGoverned, run_commands-IsGoverned, is_let_in_as, set_enabled-lockout,
}
use modular_discord_bot_oper.Portal.Identities.Audited.{IsAudited, run_change-IsAudited}

abbrev alice : PortalIdentity
alice = new_identity "id-1" "alice" "hash" [] none true 5

abbrev bob : PortalIdentity
bob = new_identity "id-2" "bob" "secret" ("bots.view" ∷ []) (some ("unbot" ∷ [])) false 6

abbrev bobs_session : StoredSession
bobs_session = record {
  token_digest = "t1";
  csrf_token = "c1";
  identity_id = some "id-2";
  session_revision = 0;
  created_at = 7;
  last_seen_at = 7;
  absolute_expires_at = 900;
}

abbrev database : Database
database = record { identities = alice ∷ bob ∷ []; sessions = bobs_session ∷ [] }

abbrev console : Console
console = record { database = database; audit = [] }

abbrev inputs : Inputs
inputs = record {
  entered = "a long password";
  confirmed = "a long password";
  identity_id = "id-3";
  now = 20;
}

abbrev runs : List (Inputs × Command)
runs =
    (inputs, create_identity "carol" false)
    ∷ (inputs, change "alice" demote)
    ∷ (inputs, change "bob" (grant "bots.start"))
    ∷ (inputs, change "carol" disable)
    ∷ []

run_commands-IsGoverned_example :
    IsGoverned str_eq (run_commands str_eq (λ p. p) runs console).database
unfolding administrators validate
run_commands-IsGoverned_example =
    run_commands-IsGoverned str_eq (λ p. p) runs console
      ((((refl, tt), (tt, tt)), ((refl, tt), (tt, tt)), (refl, (refl, tt))), omega arith)

run_change-IsAudited_example :
    IsAudited str_eq
      (λ p. p)
      inputs
      "bob"
      password
      console
      (run_change str_eq (λ p. p) inputs "bob" password console).0
      (run_change str_eq (λ p. p) inputs "bob" password console).1
run_change-IsAudited_example = run_change-IsAudited str_eq (λ p. p) inputs "bob" password console

abbrev settings : Settings
settings = record { idle_timeout = 100; absolute_timeout = 1000; max_sessions = 8 }

set_enabled-lockout_example :
    (authenticate str_eq str_eq "dummy" "bob" "secret" 30 (set_enabled "id-2" false 25 database).1
      ≡ (none, (set_enabled "id-2" false 25 database).1))
    × (is_let_in_as "id-2"
          (get (λ t. t) settings "t1" 30 (set_enabled "id-2" false 25 database).1).0
        ≡ false)
unfolding find_by_login set_enabled
set_enabled-lockout_example =
    set_enabled-lockout str_eq str_eq "dummy" (λ t. t) settings "bob" 25 database "secret" "t1" 30
      {i = bob} refl refl
