-- ===== src/Portal/Management/Guards.antt =====
-- When `ManagementApplication.lifecycle` of portal/management.py calls the supervisor.
use modular_discord_bot_oper.Common.{
  String, true, some, Result, ok, err, ◌≡◌, refl, ◌⊎◌, inl, inr, Bool-cases, Option-cases,
  Result-cases,
}
use Prim.Native.String.{◌++◌}
use modular_discord_bot_oper.Supervisor.Models.{LifecycleAction, RegisteredBot}
use modular_discord_bot_oper.Supervisor.Operate.{LifecycleResult}
use modular_discord_bot_oper.Portal.Authorization.{Principal, Authorizer}
use modular_discord_bot_oper.Portal.Limiter.{allow}
use modular_discord_bot_oper.Portal.Management.{
  ApiFailure, unknown_action, permission_denied, rate_limited, Management, CallWorld, action_of,
  resolve_bot, supervise, limiter_key, answered, limited_call, lifecycle,
}

-- How a request ends: it was refused and left the supervisor as it was; or the action is one of the
-- three, the bot is registered, the actor holds the action's permission on it, the limiter let the
-- request through, and the answer and the state are those of the supervisor's operation.
abbrev pub IsGuarded :
    Authorizer
    → Principal
    → String
    → String
    → CallWorld
    → Management
    → Result ApiFailure LifecycleResult
    → Management
    → Type 0
IsGuarded can actor bot_id text w s answer after =
    ((e : ApiFailure) × (answer ≡ err e) × (after.service ≡ s.service))
    ⊎ ((action : LifecycleAction) × (bot : RegisteredBot) × (action_of text ≡ some action)
        × (resolve_bot bot_id s.service ≡ ok bot)
        × (can actor ("bots." ++ text) (some bot.bot_id) ≡ true)
        × ((allow (limiter_key actor bot) w.now s.limiter).0 ≡ true)
        × (answer ≡ answered (supervise action bot.bot_id actor w s.service).0)
        × (after.service ≡ (supervise action bot.bot_id actor w s.service).1))

-- A request for a lifecycle action is refused and leaves the supervisor as it was; or the action is one
-- of the three, the bot is registered, the actor holds the action's permission on it, the limiter
-- let the request through, and the answer and the state are those of the supervisor's operation.
pub lifecycle-IsGuarded :
    (can : Authorizer) (actor : Principal) (bot_id text : String) (w : CallWorld) (s : Management)
    → IsGuarded can actor bot_id text w s
        (lifecycle can actor bot_id text w s).0
        (lifecycle can actor bot_id text w s).1
unfolding lifecycle limited_call
lifecycle-IsGuarded can actor bot_id text w s = elim (Option-cases (action_of text)) [
  | inl strange ↦ rw (strange, lifecycle) (inl (unknown_action, refl, refl))
  | inr (action, known) ↦ elim (Result-cases (resolve_bot bot_id s.service)) [
    | inr (e, missing) ↦ rw (known, lifecycle) (rw missing (inl (e, refl, refl)))
    | inl (bot, found) ↦ elim (Bool-cases (can actor ("bots." ++ text) (some bot.bot_id))) [
      | inr denied ↦
          rw (known, lifecycle) (rw found (rw denied (inl (permission_denied, refl, refl))))
      | inl granted ↦ elim (Bool-cases (allow (limiter_key actor bot) w.now s.limiter).0) [
        | inr limited ↦
            rw (known, lifecycle)
              (rw found (rw granted (rw (limited, limited_call) (inl (rate_limited, refl, refl)))))
        | inl admitted ↦
            rw (known, lifecycle)
              (rw found (
                rw granted (
                  rw (admitted, limited_call)
                    (inr (action, bot, refl, refl, granted, admitted, refl, refl)))))
      ]
    ]
  ]
]
