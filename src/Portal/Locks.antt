-- ===== src/Portal/Locks.antt =====
-- Sets of held locks, as portal/scheduler.py and portal/bot_operations.py keep them.
use modular_discord_bot_oper.Common.{
  String, false, List, [], ◌∷◌, ◌≡◌, refl, arith, select, not, str_eq, eq_iff, eq_refl,
}
use modular_discord_bot_oper.Portal.Authorization.{contains}

unlocked :
    (id : String) (l : List String) → contains l id ≡ false → select (λ j. not (str_eq j id)) l ≡ l
unlocked id [] h = refl
unlocked id (j ∷ l) h = ground (arith, unlocked id l, eq_iff j id, eq_iff id j)

-- Taking a lock that was free and letting it go leaves the locks as they were.
pub unlock-lock :
    (id : String) (ids : List String)
    → contains ids id ≡ false
    → select (λ j. not (str_eq j id)) (id ∷ ids) ≡ ids
unlock-lock id ids free = rw eq_refl (unlocked id ids free)
