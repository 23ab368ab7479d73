-- ===== src/Portal/Authorization.antt =====
-- `Principal` and `DenyByDefaultAuthorizer` of portal/management.py.
use modular_discord_bot_oper.Common.{
  String, Bool, true, Option, none, some, List, [], ◌∷◌, any, str_eq, ◌&&◌,
}

pub record Principal : Type 0 where
  pub principal_id : String
  pub permissions : List String
  pub bot_ids : Option (List String)

-- `KNOWN_PERMISSIONS`
abbrev pub known_permissions : List String
known_permissions =
    "bots.view" ∷ "bots.start" ∷ "bots.stop" ∷ "bots.restart" ∷ "operations.view" ∷ "cogs.view"
    ∷ "cogs.manage" ∷ "commands.sync" ∷ "maintenance.view" ∷ "maintenance.manage" ∷ "config.view"
    ∷ "config.edit" ∷ "data.view" ∷ "backups.view" ∷ "backups.create" ∷ "backups.restore"
    ∷ "scheduler.view" ∷ "scheduler.manage" ∷ "scheduler.run" ∷ []

abbrev pub contains : List String → String → Bool
contains xs x = any (str_eq x) xs

-- `bot_id is None or actor.bot_ids is None or bot_id in actor.bot_ids`
abbrev pub in_scope : Option String → Option (List String) → Bool
in_scope none bots = true
in_scope (some bot) none = true
in_scope (some bot) (some bots) = contains bots bot

unfoldable pub can : Principal → String → Option String → Bool
can actor permission bot =
    contains known_permissions permission
    && contains actor.permissions permission
    && in_scope bot actor.bot_ids

-- What the services take for an authorizer.
abbrev pub Authorizer : Type 0
Authorizer = Principal → String → Option String → Bool
