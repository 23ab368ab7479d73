-- ===== src/Scheduler/Store/Leases.antt =====
-- The single-owner lease of portal/scheduler.py.
use modular_discord_bot_oper.Common.{
  ℕ, ◌+◌, ◌<◌, String, Bool, true, false, some, List, [], ◌∷◌, ◌≡◌, ◌≢◌, arith, All, eq_iff,
}
use modular_discord_bot_oper.Scheduler.Model.{seconds}
use modular_discord_bot_oper.Scheduler.Store.{Store, acquire_lease, release_lease}

-- What schedulers do with the lease.
pub data LeaseCall : Type 0 where
  acquire : String → ℕ → LeaseCall
  release : String → LeaseCall

pub call : LeaseCall → Store → Bool × Store
unfolding acquire_lease release_lease
call (acquire owner now) s = acquire_lease owner now s
call (release owner) s = (true, release_lease owner s)

-- The calls in order: whether each got what it asked for, and the store at the end.
pub calls : List LeaseCall → Store → List Bool × Store
calls [] s = ([], s)
calls (c ∷ cs) s =
    let (got, s') = call c s in let (later, final) = calls cs s' in (got ∷ later, final)

-- A call by another owner, at a time before the given one.
abbrev pub IsForeign : String → ℕ → LeaseCall → Type 0
IsForeign owner limit (acquire other now) = (other ≢ owner) × (now < limit)
IsForeign owner limit (release other) = other ≢ owner

abbrev pub HeldBy : String → ℕ → Store → Type 0
HeldBy owner limit s = s.lease ≡ some (record { owner = owner; expires_at = limit })

call-HeldBy :
    (owner : String) (limit : ℕ) (c : LeaseCall) (s : Store)
    → IsForeign owner limit c
    → HeldBy owner limit s
    → HeldBy owner limit (call c s).1
unfolding call
call-HeldBy owner limit (acquire other now) s (ne, before) h = ground (arith, eq_iff owner other)
call-HeldBy owner limit (release other) s ne h = ground (arith, eq_iff owner other)

calls-HeldBy :
    (owner : String) (limit : ℕ) (cs : List LeaseCall) (s : Store)
    → All (IsForeign owner limit) cs
    → HeldBy owner limit s
    → HeldBy owner limit (calls cs s).1
unfolding calls
calls-HeldBy owner limit [] s foreign h = h
calls-HeldBy owner limit (c ∷ cs) s (first, rest) h =
    calls-HeldBy owner limit cs (call c s).1 rest (call-HeldBy owner limit c s first h)

acquire_lease-HeldBy :
    (owner : String) (now : ℕ) (s : Store)
    → (acquire_lease owner now s).0 ≡ true
    → HeldBy owner (now + seconds 30) (acquire_lease owner now s).1
unfolding acquire_lease
acquire_lease-HeldBy owner now s got = ground arith

refused_while_held :
    (owner other : String) (limit t : ℕ) (s : Store)
    → HeldBy owner limit s
    → other ≢ owner
    → t < limit
    → acquire_lease other t s ≡ (false, s)
unfolding acquire_lease
refused_while_held owner other limit t s h ne before = ground (arith, eq_iff owner other)

-- For thirty seconds after an owner got the lease no other owner gets it, whatever calls the others
-- have made in between.
pub lease_exclusive :
    (owner other : String) (now t : ℕ) (cs : List LeaseCall) (s : Store)
    → (acquire_lease owner now s).0 ≡ true
    → All (IsForeign owner (now + seconds 30)) cs
    → other ≢ owner
    → t < now + seconds 30
    → let held = (calls cs (acquire_lease owner now s).1).1 in
      acquire_lease other t held ≡ (false, held)
lease_exclusive owner other now t cs s got foreign ne before =
    let held = (calls cs (acquire_lease owner now s).1).1 in
    refused_while_held owner other (now + seconds 30) t held
      (calls-HeldBy owner (now + seconds 30) cs (acquire_lease owner now s).1 foreign
        (acquire_lease-HeldBy owner now s got))
      ne before
