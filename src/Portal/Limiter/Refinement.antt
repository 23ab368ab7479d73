-- ===== src/Portal/Limiter/Refinement.antt =====
-- The limiter of portal/management.py against a specification that forgets nothing: the list of all
-- the calls that were let through.
use modular_discord_bot_oper.Common.{
  ℕ, ◌+◌, ◌≤◌, ◌<◌, String, Bool, true, false, List, [], ◌∷◌, ◌++◌, ltb, leb, length, select, ◌≡◌,
  refl, ap, ap₂, sym, subst, ◌∙◌, arith, All, All-append, Bool-cases, inl, inr, str_eq, eq_iff,
  eq_refl, if◌then◌else◌,
}
use modular_discord_bot_oper.Common.Dict.{lookup, insert, lookup-insert}
use mathlib.Core.List.{append-nil}
use modular_discord_bot_oper.Portal.Limiter.{Limiter, or_empty, drop_old, kept_hits, allow}

-- A call that was let through: its key and its time.
abbrev pub Accepted : Type 0
Accepted = List (String × ℕ)

-- The times of a key's calls.
abbrev pub times_of : String → Accepted → List ℕ
times_of key [] = []
times_of key ((k, t) ∷ h) = let rest = times_of key h in if str_eq k key then t ∷ rest else rest

abbrev pub is_recent : ℕ → ℕ → ℕ → Bool
is_recent window now t = ltb now (t + window)

-- A call is let through if fewer than `limit` of the key's calls were, in the window before it.
unfoldable pub spec_allow : ℕ → ℕ → String → ℕ → Accepted → Bool × Accepted
spec_allow limit window key now h =
    if ltb (length (select (is_recent window now) (times_of key h))) limit
    then (true, h ++ (key, now) ∷ [])
    else (false, h)

abbrev pub Calls : Type 0
Calls = List (String × ℕ)

-- The answers to a sequence of calls.
unfoldable pub run : Calls → Limiter → List Bool
run [] l = []
run ((key, now) ∷ calls) l = let (answer, l') = allow key now l in answer ∷ run calls l'

unfoldable pub spec_run : ℕ → ℕ → Calls → Accepted → List Bool
spec_run limit window [] h = []
spec_run limit window ((key, now) ∷ calls) h =
    let (answer, h') = spec_allow limit window key now h in answer ∷ spec_run limit window calls h'

-- The clock does not go back.
abbrev pub IsMonotone : ℕ → Calls → Type 0
IsMonotone last [] = Unit
IsMonotone last ((_, now) ∷ calls) = (last ≤ now) × IsMonotone now calls

abbrev IsSorted : List ℕ → Type 0
IsSorted [] = Unit
IsSorted (t ∷ ts) = All (λ u. t ≤ u) ts × IsSorted ts

-- Nothing of a sorted list is dropped after its first recent time.
select-recent-All :
    (window now t : ℕ) (ts : List ℕ)
    → now < t + window
    → All (λ u. t ≤ u) ts
    → select (is_recent window now) ts ≡ ts
select-recent-All window now t [] recent later = refl
select-recent-All window now t (u ∷ ts) recent (first, rest) =
    ground (arith, select-recent-All window now t ts recent rest)

drop_old-select :
    (window now : ℕ) (ts : List ℕ)
    → IsSorted ts
    → drop_old window now ts ≡ select (is_recent window now) ts
unfolding drop_old
drop_old-select window now [] sorted = refl
drop_old-select window now (t ∷ ts) (later, sorted) = elim (Bool-cases (leb (t + window) now)) [
  | inl old ↦ rw old (ground (arith, drop_old-select window now ts sorted))
  | inr recent ↦
      (let before : now < t + window = ground arith in
        rw recent (ground (arith, select-recent-All window now t ts before later)))
]

select-recent_again :
    (window now next : ℕ) (ts : List ℕ)
    → now ≤ next
    → select (is_recent window next) (select (is_recent window now) ts)
      ≡ select (is_recent window next) ts
select-recent_again window now next [] later = refl
select-recent_again window now next (t ∷ ts) later =
    ground (arith, select-recent_again window now next ts later)

select-append {ℓ} :
    {A : Type ℓ} (p : A → Bool) (xs ys : List A) → select p (xs ++ ys) ≡ select p xs ++ select p ys
select-append p [] ys = refl
select-append p (x ∷ xs) ys = ground (arith, select-append p xs ys)

times_of-append :
    (key k : String) (t : ℕ) (h : Accepted)
    → times_of key (h ++ (k, t) ∷ []) ≡ times_of key h ++ (if str_eq k key then t ∷ [] else [])
times_of-append key k t [] = ground arith
times_of-append key k t ((j, u) ∷ h) = ground (arith, times_of-append key k t h)

All-select {ℓ κ} :
    {A : Type ℓ} (P : A → Type κ) (p : A → Bool) (xs : List A) → All P xs → All P (select p xs)
All-select P p [] h = h
All-select P p (x ∷ xs) (first, rest) = elim (Bool-cases (p x)) [
  | inl yes_ ↦ rw yes_ (first, All-select P p xs rest)
  | inr no_ ↦ rw no_ (All-select P p xs rest)
]

IsSorted-select : (p : ℕ → Bool) (ts : List ℕ) → IsSorted ts → IsSorted (select p ts)
IsSorted-select p [] h = h
IsSorted-select p (t ∷ ts) (later, sorted) = elim (Bool-cases (p t)) [
  | inl yes_ ↦ rw yes_ (All-select (λ u. t ≤ u) p ts later, IsSorted-select p ts sorted)
  | inr no_ ↦ rw no_ (IsSorted-select p ts sorted)
]

IsSorted-append :
    (ts : List ℕ) (now : ℕ) → IsSorted ts → All (λ u. u ≤ now) ts → IsSorted (ts ++ now ∷ [])
IsSorted-append [] now sorted below = (tt, tt)
IsSorted-append (t ∷ ts) now (later, sorted) (first, below) =
    (All-append (λ u. t ≤ u) ts (now ∷ []) later (first, tt), IsSorted-append ts now sorted below)

All-weaken : (a b : ℕ) (ts : List ℕ) → a ≤ b → All (λ u. u ≤ a) ts → All (λ u. u ≤ b) ts
All-weaken a b [] le h = tt
All-weaken a b (t ∷ ts) le (first, rest) = (omega (arith, first), All-weaken a b ts le rest)

-- What the limiter's deques have to do with the accepted calls, from the time `last` on.
record Tracks (last : ℕ) (l : Limiter) (h : Accepted) : Type 0 where
  sorted : (key : String) → IsSorted (or_empty (lookup key l.hits))
  below : (key : String) → All (λ u. u ≤ last) (or_empty (lookup key l.hits))
  same :
      (key : String) (now : ℕ)
      → last ≤ now
      → select (is_recent l.window now) (or_empty (lookup key l.hits))
        ≡ select (is_recent l.window now) (times_of key h)

-- A deque is replaced by one that holds the key's recent calls.
Tracks-insert :
    (last now : ℕ) (key : String) (hits : List ℕ) (l : Limiter) (h h' : Accepted)
    → Tracks last l h
    → last ≤ now
    → IsSorted hits
    → All (λ u. u ≤ now) hits
    → ((next : ℕ)
        → now ≤ next
        → select (is_recent l.window next) hits
          ≡ select (is_recent l.window next) (times_of key h'))
    → ((k : String) → str_eq key k ≡ false → times_of k h' ≡ times_of k h)
    → Tracks now (record l { hits = insert key hits l.hits }) h'
Tracks-insert last now key hits l h h' old le sorted below same others = record {
  sorted = λ k. elim (Bool-cases (str_eq key k)) [
    | inl here ↦ rw (lookup-insert, here) sorted
    | inr other ↦ rw (lookup-insert, other) (old.sorted k)
  ];
  below = λ k. elim (Bool-cases (str_eq key k)) [
    | inl here ↦ rw (lookup-insert, here) below
    | inr other ↦
        rw (lookup-insert, other)
          (All-weaken last now (or_empty (lookup k l.hits)) le (old.below k))
  ];
  same = λ k next later. elim (Bool-cases (str_eq key k)) [
    | inl here ↦
        rw (lookup-insert, here)
          (subst
            (λ j.
              select (is_recent l.window next) hits
              ≡ select (is_recent l.window next) (times_of j h'))
            ((eq_iff key k).0 here) (same next later))
    | inr other ↦
        rw (lookup-insert, other, others k other) (old.same k next (omega (arith, le, later)))
  ];
}

module _ (last now : ℕ) (key : String) (l : Limiter) (h : Accepted) (old : Tracks last l h)
    (le : last ≤ now) where
  abbrev hits_before : List ℕ
  hits_before = or_empty (lookup key l.hits)

  kept-select : kept_hits key now l ≡ select (is_recent l.window now) hits_before
  kept-select = drop_old-select l.window now hits_before (old.sorted key)

  -- The limiter and the specification count the same calls.
  kept-times_of : kept_hits key now l ≡ select (is_recent l.window now) (times_of key h)
  kept-times_of = kept-select ∙ old.same key now le

  kept-IsSorted : IsSorted (kept_hits key now l)
  kept-IsSorted =
      rw kept-select (IsSorted-select (is_recent l.window now) hits_before (old.sorted key))

  kept_below : All (λ u. u ≤ now) (kept_hits key now l)
  kept_below = rw kept-select (
      All-select (λ u. u ≤ now) (is_recent l.window now) hits_before
        (All-weaken last now hits_before le (old.below key)))

  kept_same :
      (next : ℕ)
      → now ≤ next
      → select (is_recent l.window next) (kept_hits key now l)
        ≡ select (is_recent l.window next) (times_of key h)
  kept_same next later =
      ap (select (is_recent l.window next)) kept-select
      ∙ select-recent_again l.window now next hits_before later
      ∙ old.same key next (omega (arith, le, later))

  -- One call: the same answer, and the limiter goes on tracking what was let through.
  allow-refines :
      ((allow key now l).0 ≡ (spec_allow l.limit l.window key now h).0)
      × Tracks now (allow key now l).1 (spec_allow l.limit l.window key now h).1
  unfolding allow spec_allow
  allow-refines = elim (Bool-cases (ltb (length (kept_hits key now l)) l.limit)) [
    | inr full ↦
        (let spec_full : ltb (length (select (is_recent l.window now) (times_of key h))) l.limit
              ≡ false =
            subst (λ ts. ltb (length ts) l.limit ≡ false) kept-times_of full in
          simp (full, spec_full)
            (
              refl,
              Tracks-insert last now key (kept_hits key now l) l h h old le kept-IsSorted kept_below
                  kept_same (λ k other. refl),
            ))
    | inl room ↦
        (let spec_room : ltb (length (select (is_recent l.window now) (times_of key h))) l.limit
              ≡ true =
            subst (λ ts. ltb (length ts) l.limit ≡ true) kept-times_of room in
          simp (room, spec_room)
            (
              refl,
              Tracks-insert last now key (kept_hits key now l ++ now ∷ []) l h
                  (h ++ (key, now) ∷ []) old le
                  (IsSorted-append (kept_hits key now l) now kept-IsSorted kept_below)
                  (All-append (λ u. u ≤ now) (kept_hits key now l) (now ∷ []) kept_below
                    (omega arith, tt))
                  (λ next later.
                    select-append (is_recent l.window next) (kept_hits key now l) (now ∷ [])
                    ∙ ap (λ ts. ts ++ select (is_recent l.window next) (now ∷ []))
                        (kept_same next later)
                    ∙ sym (select-append (is_recent l.window next) (times_of key h) (now ∷ []))
                    ∙ ap (select (is_recent l.window next))
                        (sym (rw (times_of-append, eq_refl) refl)))
                  (λ k other. rw (times_of-append, other) (append-nil (times_of k h))),
            ))
  ]

same_settings :
    (key : String) (now : ℕ) (l : Limiter)
    → ((allow key now l).1.limit ≡ l.limit) × ((allow key now l).1.window ≡ l.window)
unfolding allow
same_settings key now l = elim (Bool-cases (ltb (length (kept_hits key now l)) l.limit)) [
  | inl room ↦ simp room (refl, refl)
  | inr full ↦ simp full (refl, refl)
]

run-Tracks :
    (calls : Calls) (last : ℕ) (l : Limiter) (h : Accepted)
    → Tracks last l h
    → IsMonotone last calls
    → run calls l ≡ spec_run l.limit l.window calls h
unfolding run spec_run
run-Tracks [] last l h old mono = refl
run-Tracks ((key, now) ∷ calls) last l h old (le, mono) =
    let (answer, tracks) = allow-refines last now key l h old le in
    let (same_limit, same_window) = same_settings key now l in
    ap₂ ◌∷◌ answer (
      subst
        (λ n.
          run calls (allow key now l).1
          ≡ spec_run n l.window calls (spec_allow l.limit l.window key now h).1)
        same_limit
        (subst
          (λ n.
            run calls (allow key now l).1
            ≡ spec_run (allow key now l).1.limit n calls (spec_allow l.limit l.window key now h).1)
          same_window (run-Tracks calls now (allow key now l).1 _ tracks mono)))

-- On a clock that does not go back, a new limiter answers every sequence of calls as the
-- specification does that keeps all the calls let through: a call is let through exactly if fewer
-- than `limit` calls of its key were in the window before it. The calls it drops do not matter.
pub run_refines :
    (limit window : ℕ) (calls : Calls)
    → IsMonotone 0 calls
    → run calls (record { limit = limit; window = window; hits = [] })
      ≡ spec_run limit window calls []
run_refines limit window calls mono =
    run-Tracks calls 0 (record { limit = limit; window = window; hits = [] }) []
      (record {
        sorted = λ key. (unfold lookup in tt);
        below = λ key. (unfold lookup in tt);
        same = λ key now le. (unfold lookup in refl);
      })
      mono
