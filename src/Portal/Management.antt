-- ===== src/Portal/Management.antt =====
-- `ManagementApplication.lifecycle` of portal/management.py, over the supervisor's service. What the
-- supervisor reads from outside is an argument.
pub mod Guards
pub mod Examples
use modular_discord_bot_oper.Common.{
  ℕ, String, Bool, true, false, Option, none, some, not, ◌||◌, ltb, if◌then◌else◌, Result, ok, err,
  str_eq,
}
use Prim.Native.String.{◌++◌}
use modular_discord_bot_oper.Common.Dict.{lookup}
use modular_discord_bot_oper.Common.Text.{text_length, is_cog_id}
use modular_discord_bot_oper.Supervisor.Models
use modular_discord_bot_oper.Supervisor.Models.{LifecycleAction, RegisteredBot, Error}
use modular_discord_bot_oper.Supervisor.Process.{Service}
use modular_discord_bot_oper.Supervisor.Start.{StartWorld}
use modular_discord_bot_oper.Supervisor.Stop.{StopWorld}
use modular_discord_bot_oper.Supervisor.Operate.{Stamps, LifecycleResult, start, stop, restart}
use modular_discord_bot_oper.Portal.Authorization.{Principal, Authorizer}
use modular_discord_bot_oper.Portal.Limiter.{Limiter, allow}

-- The codes of `ApiFailure`; `foreign` is an exception that is no `SupervisorError`.
pub data ApiFailure : Type 0 where
  unknown_action unknown_bot permission_denied rate_limited bot_disabled : ApiFailure
  already_running already_stopped operation_in_progress service_unavailable : ApiFailure
  lifecycle_failed : ApiFailure
  foreign : Error → ApiFailure

-- `SAFE_SUPERVISOR_ERRORS`, with what stands for the codes that are not in it.
abbrev pub safe_error : Error → ApiFailure
safe_error Error.unknown_bot = unknown_bot
safe_error Error.bot_disabled = bot_disabled
safe_error Error.already_running = already_running
safe_error Error.already_stopped = already_stopped
safe_error Error.operation_in_progress = operation_in_progress
safe_error Error.supervisor_closed = service_unavailable
safe_error Error.startup_failed = lifecycle_failed
safe_error Error.process_identity = lifecycle_failed
safe_error Error.timeout = foreign Error.timeout
safe_error Error.os_error = foreign Error.os_error

pub record Management : Type 0 where
  pub service : Service
  pub limiter : Limiter

pub record CallWorld : Type 0 where
  pub now : ℕ
  pub stamps : Stamps
  pub starting : StartWorld
  pub stopping : StopWorld

-- `action in {"start", "stop", "restart"}`
unfoldable pub action_of : String → Option LifecycleAction
action_of text =
    if str_eq text "start"
    then some LifecycleAction.start
    else if str_eq text "stop"
    then some LifecycleAction.stop
    else if str_eq text "restart"
    then some LifecycleAction.restart
    else none

-- `resolve_bot`
unfoldable pub resolve_bot : String → Service → Result ApiFailure RegisteredBot
unfolding text_length
resolve_bot id service =
    if ltb 64 (text_length id) || not (is_cog_id id)
    then err unknown_bot
    else elim (lookup id service.registry) [ none ↦ err unknown_bot | some bot ↦ ok bot ]

-- `getattr(self._deps.supervisor, action)(bot.bot_id, actor=actor.principal_id)`
unfoldable pub supervise :
    LifecycleAction
    → String
    → Principal
    → CallWorld
    → Service
    → Result Error LifecycleResult × Service
unfolding start stop restart
supervise LifecycleAction.start bot actor w =
    start bot (some actor.principal_id) w.stamps w.starting
supervise LifecycleAction.stop bot actor w = stop bot (some actor.principal_id) w.stamps w.stopping
supervise LifecycleAction.restart bot actor w =
    restart bot (some actor.principal_id) w.stamps w.stopping w.starting

abbrev pub limiter_key : Principal → RegisteredBot → String
limiter_key actor bot = actor.principal_id ++ ":" ++ bot.bot_id

abbrev pub answered : Result Error LifecycleResult → Result ApiFailure LifecycleResult
answered (ok r) = ok r
answered (err e) = err (safe_error e)

-- The call, after the checks of the action, the bot and the permission.
unfoldable pub limited_call :
    LifecycleAction
    → RegisteredBot
    → Principal
    → CallWorld
    → Management
    → Result ApiFailure LifecycleResult × Management
unfolding supervise allow
limited_call action bot actor w s =
    let (admitted, limiter) = allow (limiter_key actor bot) w.now s.limiter in
    let (answer, service) = supervise action bot.bot_id actor w s.service in
    if admitted
    then (answered answer, record { service = service; limiter = limiter })
    else (err rate_limited, record s { limiter = limiter })

unfoldable pub lifecycle :
    Authorizer
    → Principal
    → String
    → String
    → CallWorld
    → Management
    → Result ApiFailure LifecycleResult × Management
unfolding action_of resolve_bot limited_call
lifecycle can actor bot_id text w s = elim (action_of text) [
  | none ↦ (err unknown_action, s)
  | some action ↦ elim (resolve_bot bot_id s.service) [
    | err e ↦ (err e, s)
    | ok bot ↦
        if can actor ("bots." ++ text) (some bot.bot_id)
        then limited_call action bot actor w s
        else (err permission_denied, s)
  ]
]
