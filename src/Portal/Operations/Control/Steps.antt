-- ===== src/Portal/Operations/Control/Steps.antt =====
-- How the steps before an operation of portal/bot_operations.py end: they refuse and change nothing,
-- or go on with what they found.
use modular_discord_bot_oper.Common.{
  arith, String, Bool, true, false, Option, none, some, ◌∷◌, ◌&&◌, ◌≡◌, refl, ◌⊎◌, inl, inr, ok,
  err, Bool-cases, Option-cases, not, if◌then◌else◌, ◌>>◌, bind_ok, bind_err, pure, ltb, modify,
}
use modular_discord_bot_oper.Common.Dict.{lookup}
use modular_discord_bot_oper.Common.Text.{text_length, is_cog_id}
use modular_discord_bot_oper.Portal.Authorization.{Principal, Authorizer, contains}
use modular_discord_bot_oper.Portal.Operations.Model.{
  Capability, OperationType, Code, CogDefinition, BotDefinition, ApplicationOperation, World,
  Operations, supports,
}
use modular_discord_bot_oper.Portal.Operations.{
  fail, emit, begin_, take_lock, authorize, prerequisites, register, ready_instance, is_running,
  is_changing, new_operation, running_operation, put, is_instance,
}
use modular_discord_bot_oper.Portal.Operations.Control.{resolve_cog}

pub authorize-cases :
    (can : Authorizer) (actor : Principal) (bot : String) (capability : Capability)
    (permission : String) (w : World) (s : Operations)
    → ((e : Code) × (authorize can actor bot capability permission w s ≡ (err e, s)))
      ⊎ ((d : BotDefinition) × (authorize can actor bot capability permission w s ≡ (ok d, s))
          × (can actor permission (some bot) ≡ true)
          × (supports d capability ≡ true)
          × (lookup bot s.catalog ≡ some d)
          × (w.registered ≡ true))
unfolding authorize
authorize-cases can actor bot capability permission w s =
    elim (Option-cases (if ltb 64 (text_length bot) then none else lookup bot s.catalog)) [
      | inl absent ↦ inl (Code.unknown_bot, rw absent)
      | inr (d, found) ↦ elim (Bool-cases w.registered) [
        | inr gone ↦ inl (Code.unknown_bot, rw (found, gone))
        | inl known ↦ elim (Bool-cases (can actor permission (some bot))) [
          | inr refused ↦ inl (Code.permission_denied, rw (found, known, refused))
          | inl may ↦ elim (Bool-cases (supports d capability)) [
            | inr lacks ↦ inl (Code.capability_not_supported, rw (found, known, may, lacks))
            | inl has ↦ inr (d, rw (found, known, may, has), may, has, ground arith, known)
          ]
        ]
      ]
    ]

pub resolve_cog-cases :
    (d : BotDefinition) (id : String) (s : Operations)
    → ((e : Code) × (resolve_cog d id s ≡ (err e, s)))
      ⊎ ((cog : CogDefinition) × (resolve_cog d id s ≡ (ok cog, s)) × (lookup id d.cogs ≡ some cog))
unfolding resolve_cog
resolve_cog-cases d id s = elim (Bool-cases (not (ltb 64 (text_length id)) && is_cog_id id)) [
  | inr malformed ↦ inl (Code.cog_not_found, rw malformed)
  | inl named ↦ elim (Option-cases (lookup id d.cogs)) [
    | inl absent ↦ inl (Code.cog_not_found, rw (named, absent))
    | inr (cog, found) ↦ inr (cog, rw (named, found), found)
  ]
]

prerequisites-cases :
    (ready : Bool) (w : World) (s : Operations)
    → ((e : Code) × (prerequisites ready w s ≡ (err e, s)))
      ⊎ ((i : String) × (prerequisites ready w s ≡ (ok i, s))
          × (is_running w.state ≡ true)
          × (ready_instance ready w.snapshot ≡ some i)
          × (is_instance w.process i ≡ true))
unfolding prerequisites
prerequisites-cases ready w s = elim (Bool-cases (is_running w.state)) [
  | inr stopped ↦ inl (
    (if is_changing w.state then Code.lifecycle_operation_in_progress else Code.bot_not_running),
    rw stopped,
  )
  | inl runs ↦ elim (Option-cases (ready_instance ready w.snapshot)) [
    | inl unready ↦ inl (Code.bot_not_ready, rw (runs, unready))
    | inr (i, shown) ↦ elim (Bool-cases (is_instance w.process i)) [
      | inr other ↦ inl (Code.process_instance_changed, rw (runs, shown, other))
      | inl same ↦ inr (i, rw (runs, shown, same), runs, shown, same)
    ]
  ]
]

pub begin_-cases :
    (actor : Principal) (bot request : String) (type : OperationType) (cog : Option String)
    (ready : Bool) (w : World) (s : Operations)
    → ((e : Code) × (begin_ actor bot request type cog ready w s ≡ (err e, s)))
      ⊎ ((i : String) × (begin_ actor bot request type cog ready w s ≡ (
        ok (new_operation bot request type cog w i),
        register actor (new_operation bot request type cog w i) s,
      ))
          × (is_running w.state ≡ true)
          × (ready_instance ready w.snapshot ≡ some i)
          × (is_instance w.process i ≡ true))
unfolding begin_
begin_-cases actor bot request type cog ready w s = elim (prerequisites-cases ready w s) [
  | inl (e, refused) ↦ inl (
    e,
    bind_err (prerequisites ready w)
        (λ i.
          modify (register actor (new_operation bot request type cog w i))
          >> pure (new_operation bot request type cog w i))
        refused,
  )
  | inr (i, passed, runs, shown, same) ↦ inr (
    i,
    bind_ok (prerequisites ready w)
        (λ i.
          modify (register actor (new_operation bot request type cog w i))
          >> pure (new_operation bot request type cog w i))
        passed,
    runs,
    shown,
    same,
  )
]

module _ (actor : Principal) (bot request : String) (type : OperationType) (cog : Option String)
    (w : World) (s : Operations) (i : String) where
  abbrev pub begun_operation : ApplicationOperation
  begun_operation = new_operation bot request type cog w i

  -- The state once the operation is recorded.
  abbrev pub begun : Operations
  begun = register actor begun_operation s

  -- The state once the operation holds the lock.
  abbrev pub locked_state : Operations
  locked_state =
      put (running_operation begun_operation w) (record begun { locked = bot ∷ begun.locked })

  pub take_lock-free :
      contains s.locked bot ≡ false
      → take_lock begun_operation w begun ≡ (ok (running_operation begun_operation w), locked_state)
  unfolding take_lock register emit
  take_lock-free free = rw free refl

  pub take_lock-busy :
      contains s.locked bot ≡ true
      → take_lock begun_operation w begun ≡ (
        err Code.operation_in_progress,
        fail none begun_operation Code.operation_in_progress w begun,
      )
  unfolding take_lock register emit
  take_lock-busy busy = rw busy refl
