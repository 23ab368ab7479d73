-- ===== src/Supervisor/Health/Sequences.antt =====
-- The store of supervisor/health.py over time: its keys, and the heartbeats that it lets in.
use modular_discord_bot_oper.Common.{
  ℕ, ◌+◌, ◌≤◌, ◌<◌, String, Bool, true, false, Option, none, some, List, [], ◌∷◌, ◌≡◌, refl, ◌≢◌,
  arith, eq_iff, if◌then◌else◌, str_eq, inl, inr, Option-cases, Bool-cases, ◌⊎◌,
}
use modular_discord_bot_oper.Common.Dict.{lookup, lookup-insert}
use modular_discord_bot_oper.Heartbeat.{Heartbeat}
use modular_discord_bot_oper.Supervisor.Health.Reconcile.{HealthEvidence}
use modular_discord_bot_oper.Supervisor.Health.Store.{
  HealthStore, HealthSnapshot, Readings, set_evidence, accept_heartbeat, get, is_acceptable,
  with_heartbeat, same_instance,
}

-- Each snapshot stands under the bot of its evidence.
pub record IsKeyed (store : HealthStore) : Type 0 where
  pub at_key :
      (k : String) (s : HealthSnapshot) → lookup k store.items ≡ some s → s.evidence.bot_id ≡ k

module _ (now : Readings) (store : HealthStore) where
  -- What `_set` leaves under each key.
  lookup-set_evidence :
      (e : HealthEvidence) (k : String)
      → lookup k (set_evidence e now store).1.items
        ≡ (if str_eq e.bot_id k then some (set_evidence e now store).0 else lookup k store.items)
  unfolding set_evidence
  lookup-set_evidence e k = lookup-insert e.bot_id k (set_evidence e now store).0 store.items

  evidence-set_evidence : (e : HealthEvidence) → (set_evidence e now store).0.evidence ≡ e
  unfolding set_evidence
  evidence-set_evidence e = refl

  bot_id-with_heartbeat :
      (hb : Heartbeat) (received : ℕ) (e : HealthEvidence)
      → (with_heartbeat hb received e).bot_id ≡ e.bot_id
  unfolding with_heartbeat
  bot_id-with_heartbeat hb received e = refl

  set_evidence-IsKeyed : (e : HealthEvidence) → IsKeyed store → IsKeyed (set_evidence e now store).1
  set_evidence-IsKeyed e h = record {
    at_key = λ k s p.
        ground (
          arith,
          lookup-set_evidence e k,
          evidence-set_evidence e,
          eq_iff e.bot_id k,
          h.at_key k s,
        );
  }

  -- The two ways in which `accept_heartbeat` ends.
  accept_heartbeat-cases :
      (bot : String) (hb : Heartbeat)
      → ((s : HealthSnapshot) × (lookup bot store.items ≡ some s)
          × (hb.bot_id ≡ bot)
          × (is_acceptable hb s.evidence ≡ true)
          × (accept_heartbeat bot hb now store
              ≡ (true, (set_evidence (with_heartbeat hb now.received s.evidence) now store).1)))
        ⊎ (accept_heartbeat bot hb now store ≡ (false, store))
  unfolding accept_heartbeat
  accept_heartbeat-cases bot hb = elim (Option-cases (lookup bot store.items)) [
    | inl absent ↦ inr (rw (absent, accept_heartbeat))
    | inr (s, found) ↦ elim (Bool-cases (str_eq hb.bot_id bot)) [
      | inr other ↦ inr (rw (found, other, accept_heartbeat))
      | inl same ↦ elim (Bool-cases (is_acceptable hb s.evidence)) [
        | inl fits ↦ inl (
          s,
          found,
          (eq_iff hb.bot_id bot).0 same,
          fits,
          rw (found, same, fits, accept_heartbeat),
        )
        | inr unfit ↦ inr (rw (found, same, unfit, accept_heartbeat))
      ]
    ]
  ]

  pub accept_heartbeat-IsKeyed :
      (bot : String) (hb : Heartbeat)
      → IsKeyed store
      → IsKeyed (accept_heartbeat bot hb now store).1
  accept_heartbeat-IsKeyed bot hb h = elim (accept_heartbeat-cases bot hb) [
    | inl (s, found, same, fits, e) ↦
        rw e (set_evidence-IsKeyed (with_heartbeat hb now.received s.evidence) h)
    | inr e ↦ rw e h
  ]

  get-IsKeyed :
      (bot : String) (refresh : Bool) → IsKeyed store → IsKeyed (get bot refresh now store).1
  unfolding get
  get-IsKeyed bot refresh h = elim (Option-cases (lookup bot store.items)) [
    | inl absent ↦ rw (absent, get) h
    | inr (s, found) ↦
        rw (found, get)
          (elim (Bool-cases refresh) [
            | inl fresh ↦ rw fresh (set_evidence-IsKeyed s.evidence h)
            | inr kept ↦ rw kept h
          ])
  ]

same_instance-some : (i : String) (o : Option String) → same_instance i o ≡ true → o ≡ some i
same_instance-some i none h = cc
same_instance-some i (some j) h = ground (arith, eq_iff i j)

-- A number above that of the heartbeat, if there is one.
abbrev pub IsAbove : Option Heartbeat → ℕ → Type 0
IsAbove none n = Unit
IsAbove (some h) n = h.sequence < n

-- The numbers rise strictly and start at `n` or above.
abbrev pub RisesFrom : ℕ → List Heartbeat → Type 0
RisesFrom n [] = Unit
RisesFrom n (h ∷ hs) = (n ≤ h.sequence) × RisesFrom (h.sequence + 1) hs

-- The least number that a bot's next heartbeat may bear.
abbrev pub next_number : Option HealthSnapshot → ℕ
next_number none = 0
next_number (some s) = elim s.evidence.heartbeat [ none ↦ 0 | some h ↦ h.sequence + 1 ]

IsAbove-next_number :
    (s : HealthSnapshot) (n : ℕ) → next_number (some s) ≤ n → IsAbove s.evidence.heartbeat n
IsAbove-next_number s n h = elim (Option-cases s.evidence.heartbeat) [
  | inl e ↦ rw e tt
  | inr (old, e) ↦ let above : old.sequence + 1 ≤ n = rw e at h in rw e (omega (arith, above))
]

module _ (bot : String) (now : Readings) (store : HealthStore) (keyed : IsKeyed store) where
  -- A heartbeat that is let in comes from a verified process of that bot under its current instance
  -- and bears a number that the store may take next; the next one is then the number after it.
  pub accept_heartbeat-accepted :
      (hb : Heartbeat)
      → (accept_heartbeat bot hb now store).0 ≡ true
      → (s : HealthSnapshot) × (lookup bot store.items ≡ some s)
        × (hb.bot_id ≡ bot)
        × (s.evidence.identity_verified ≡ true)
        × (s.evidence.process_instance_id ≡ some hb.process_instance_id)
        × (next_number (some s) ≤ hb.sequence)
        × (next_number (lookup bot (accept_heartbeat bot hb now store).1.items) ≡ hb.sequence + 1)
  unfolding is_acceptable with_heartbeat
  accept_heartbeat-accepted hb e = elim (accept_heartbeat-cases now store bot hb) [
    | inr refused ↦ cc
    | inl (s, found, same, fits, result) ↦ (
      s,
      found,
      same,
      ground arith,
      same_instance-some hb.process_instance_id s.evidence.process_instance_id (ground arith),
      ground arith,
      ground (
        arith,
        lookup-set_evidence now store (with_heartbeat hb now.received s.evidence) bot,
        evidence-set_evidence now store (with_heartbeat hb now.received s.evidence),
        eq_iff s.evidence.bot_id bot,
        keyed.at_key bot s found,
      ),
    )
  ]

  -- A heartbeat that is let in comes from a verified process of that bot under its current instance,
  -- and its number is above that of the heartbeat which the store had. Afterwards the store has it,
  -- when it was received and whether it tells of maintenance, and the other evidence as it was.
  pub accept_heartbeat-IsStored :
      (hb : Heartbeat)
      → (accept_heartbeat bot hb now store).0 ≡ true
      → (before : HealthSnapshot) × (after : HealthSnapshot) × (lookup bot store.items
          ≡ some before)
        × (hb.bot_id ≡ bot)
        × (before.evidence.identity_verified ≡ true)
        × (before.evidence.process_instance_id ≡ some hb.process_instance_id)
        × IsAbove before.evidence.heartbeat hb.sequence
        × (lookup bot (accept_heartbeat bot hb now store).1.items ≡ some after)
        × (after.evidence ≡ record before.evidence {
          heartbeat = some hb;
          heartbeat_received = some now.received;
          in_maintenance = hb.maintenance;
        })
  unfolding is_acceptable with_heartbeat
  accept_heartbeat-IsStored hb e = elim (accept_heartbeat-cases now store bot hb) [
    | inr refused ↦ cc
    | inl (s, found, same, fits, result) ↦
        let stored = set_evidence (with_heartbeat hb now.received s.evidence) now store in
        (
          s,
          stored.0,
          found,
          same,
          ground arith,
          same_instance-some hb.process_instance_id s.evidence.process_instance_id (ground arith),
          IsAbove-next_number s hb.sequence (ground arith),
          ground (
            arith,
            lookup-set_evidence now store (with_heartbeat hb now.received s.evidence) bot,
            evidence-set_evidence now store (with_heartbeat hb now.received s.evidence),
            eq_iff s.evidence.bot_id bot,
            keyed.at_key bot s found,
          ),
          evidence-set_evidence now store (with_heartbeat hb now.received s.evidence),
        )
  ]

  -- A refused heartbeat changes nothing.
  accept_heartbeat-refused :
      (hb : Heartbeat)
      → (accept_heartbeat bot hb now store).0 ≡ false
      → (accept_heartbeat bot hb now store).1 ≡ store
  accept_heartbeat-refused hb h = elim (accept_heartbeat-cases now store bot hb) [
    | inr refused ↦ ground arith
    | inl (s, found, same, fits, result) ↦ cc
  ]

  -- A heartbeat for one bot, let in or not, changes nothing at another bot.
  accept_heartbeat_others :
      (hb : Heartbeat) (k : String)
      → k ≢ bot
      → lookup k (accept_heartbeat bot hb now store).1.items ≡ lookup k store.items
  accept_heartbeat_others hb k ne = elim (accept_heartbeat-cases now store bot hb) [
    | inr refused ↦ ground arith
    | inl (s, found, same, fits, result) ↦ ground (
      arith,
      lookup-set_evidence now store (with_heartbeat hb now.received s.evidence) k,
      eq_iff s.evidence.bot_id k,
      keyed.at_key bot s found,
      bot_id-with_heartbeat now store hb now.received s.evidence,
    )
  ]

-- Heartbeats that come in for one bot, each with the readings at its time.
abbrev pub Deliveries : Type 0
Deliveries = List (Heartbeat × Readings)

-- The heartbeats that the store lets in, and the store at the end.
pub deliver : String → Deliveries → HealthStore → List Heartbeat × HealthStore
deliver bot [] store = ([], store)
deliver bot ((h, now) ∷ rest) store =
    let (accepted, store') = accept_heartbeat bot h now store in
    let (later, final) = deliver bot rest store' in ((if accepted then h ∷ later else later), final)

-- Whatever heartbeats come in for a bot, those that the store lets in bear strictly rising numbers,
-- above that of the heartbeat that it had: none is replayed.
pub deliver-RisesFrom :
    (bot : String) (ds : Deliveries) (store : HealthStore)
    → IsKeyed store
    → RisesFrom (next_number (lookup bot store.items)) (deliver bot ds store).0
unfolding deliver
deliver-RisesFrom bot [] store keyed = tt
deliver-RisesFrom bot ((h, now) ∷ rest) store keyed =
    let later =
      deliver-RisesFrom bot rest (accept_heartbeat bot h now store).1
        (accept_heartbeat-IsKeyed now store bot h keyed) in
    elim (Bool-cases (accept_heartbeat bot h now store).0) [
      | inl accepted ↦
          (let (s, found, _, _, _, above, next) =
              accept_heartbeat-accepted bot now store keyed h accepted in
            rw (accepted, found) (above, rw next at later))
      | inr refused ↦
          (let same = accept_heartbeat-refused bot now store keyed h refused in
            rw (refused, same) (rw same at later))
    ]
