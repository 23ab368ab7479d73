-- ===== src/Portal/Limiter.antt =====
-- `SlidingWindowLimiter` of portal/management.py. The clock's reading is an argument; clock readings
-- and the window are in one unit of time.
pub mod Refinement
use modular_discord_bot_oper.Common.{
  ℕ, ◌+◌, String, Bool, true, false, Option, none, some, List, [], ◌∷◌, ◌++◌, ltb, leb, length,
  if◌then◌else◌,
}
use modular_discord_bot_oper.Common.Dict.{Dict, lookup, insert}

pub record Limiter : Type 0 where
  pub limit : ℕ
  pub window : ℕ
  pub hits : Dict (List ℕ)

abbrev pub or_empty : Option (List ℕ) → List ℕ
or_empty none = []
or_empty (some hits) = hits

-- `while hits and hits[0] <= now - self.window: hits.popleft()`
unfoldable pub drop_old : ℕ → ℕ → List ℕ → List ℕ
drop_old window now [] = []
drop_old window now (t ∷ hits) =
    let rest = drop_old window now hits in if leb (t + window) now then rest else t ∷ hits

-- What `allow` leaves of a key's deque.
abbrev pub kept_hits : String → ℕ → Limiter → List ℕ
kept_hits key now l = drop_old l.window now (or_empty (lookup key l.hits))

unfoldable pub allow : String → ℕ → Limiter → Bool × Limiter
allow key now l =
    if ltb (length (kept_hits key now l)) l.limit
    then (true, record l { hits = insert key (kept_hits key now l ++ now ∷ []) l.hits })
    else (false, record l { hits = insert key (kept_hits key now l) l.hits })
