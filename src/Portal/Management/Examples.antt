-- ===== src/Portal/Management/Examples.antt =====
-- A run of the model of `ManagementApplication` in portal/management.py on sample data.
use modular_discord_bot_oper.Common.{some, [], ◌∷◌}
use modular_discord_bot_oper.Supervisor.Models.{ProcessState}
use modular_discord_bot_oper.Supervisor.Examples.{
  kernel, service_in, start_world, stop_world, stamps,
}
use modular_discord_bot_oper.Portal.Authorization.{Principal, can}
use modular_discord_bot_oper.Portal.Management.{Management, CallWorld, lifecycle}
use modular_discord_bot_oper.Portal.Management.Guards.{IsGuarded, lifecycle-IsGuarded}

abbrev starter : Principal
starter = record {
  principal_id = "operator";
  permissions = "bots.start" ∷ [];
  bot_ids = some ("unbot" ∷ []);
}

abbrev call : CallWorld
call = record {
  now = 50;
  stamps = stamps;
  starting = start_world;
  stopping = stop_world (some kernel);
}

abbrev management : Management
management = record {
  service = service_in ProcessState.offline [];
  limiter = record { limit = 2; window = 60; hits = ("operator:unbot", 10 ∷ []) ∷ [] };
}

lifecycle-IsGuarded_example :
    IsGuarded can starter "unbot" "start" call management
      (lifecycle can starter "unbot" "start" call management).0
      (lifecycle can starter "unbot" "start" call management).1
lifecycle-IsGuarded_example = lifecycle-IsGuarded can starter "unbot" "start" call management
