-- ===== src/Portal/Sessions/Room.antt =====
-- The keys of the sessions of portal/sessions.py, and the loop that makes room for a new one.
use modular_discord_bot_oper.Common.{
  ℕ, zero, suc, ◌+◌, ◌<◌, ◌≤◌, String, Bool, true, false, some, [], ◌∷◌, ◌≡◌, refl, ◌⊎◌, subst, sym,
  arith, All, any, length, ltb, str_eq, eq_iff, eq_refl, Bool-cases, inl, inr,
}
use modular_discord_bot_oper.Common.Dict.{Dict, lookup, insert, erase}
use modular_discord_bot_oper.Portal.Sessions.{PortalSession, is_live, live_part, oldest, evict}

-- Each session stands under its own id.
abbrev pub IsKeyed : Dict PortalSession → Type 0
IsKeyed d = All (λ (p : String × PortalSession). p.0 ≡ p.1.session_id) d

length-erase-le : (k : String) (d : Dict PortalSession) → length (erase k d) ≤ length d
unfolding erase
length-erase-le k [] = omega arith
length-erase-le k ((j, v) ∷ d) = ground (arith, length-erase-le k d)

pub length-insert-le :
    (k : String) (v : PortalSession) (d : Dict PortalSession) → length (insert k v d) ≤ length d + 1
unfolding insert
length-insert-le k v [] = omega arith
length-insert-le k v ((j, w) ∷ d) = ground (arith, length-insert-le k v d)

abbrev has_key : String → Dict PortalSession → Bool
has_key k d = any (λ (p : String × PortalSession). str_eq p.0 k) d

length-erase-lt :
    (k : String) (d : Dict PortalSession) → has_key k d ≡ true → length (erase k d) < length d
unfolding erase
length-erase-lt k [] h = cc
length-erase-lt k ((j, v) ∷ d) h = elim (Bool-cases (str_eq j k)) [
  | inl same ↦ rw same (omega (arith, length-erase-le k d))
  | inr other ↦ rw other (omega (arith, length-erase-lt k d (rw other at h)))
]

pub IsKeyed-erase : (k : String) (d : Dict PortalSession) → IsKeyed d → IsKeyed (erase k d)
unfolding erase
IsKeyed-erase k [] h = tt
IsKeyed-erase k ((j, v) ∷ d) (same, rest) = elim (Bool-cases (str_eq j k)) [
  | inl equal ↦ rw equal (IsKeyed-erase k d rest)
  | inr other ↦ rw other (same, IsKeyed-erase k d rest)
]

pub IsKeyed-live_part :
    (idle now : ℕ) (d : Dict PortalSession) → IsKeyed d → IsKeyed (live_part idle now d)
unfolding live_part
IsKeyed-live_part idle now [] h = tt
IsKeyed-live_part idle now ((j, v) ∷ d) (same, rest) = elim (Bool-cases (is_live idle now v)) [
  | inl live ↦ rw live (same, IsKeyed-live_part idle now d rest)
  | inr dead ↦ rw dead (IsKeyed-live_part idle now d rest)
]

oldest-older :
    (least v : PortalSession) (k : String) (d : Dict PortalSession)
    → ltb v.last_seen_at least.last_seen_at ≡ true
    → oldest least ((k, v) ∷ d) ≡ oldest v d
unfolding oldest
oldest-older least v k d older = rw older refl

oldest-younger :
    (least v : PortalSession) (k : String) (d : Dict PortalSession)
    → ltb v.last_seen_at least.last_seen_at ≡ false
    → oldest least ((k, v) ∷ d) ≡ oldest least d
unfolding oldest
oldest-younger least v k d younger = rw younger refl

-- The oldest session is one of those given.
has_key-oldest :
    (least : PortalSession) (d : Dict PortalSession)
    → IsKeyed d
    → (oldest least d ≡ least) ⊎ (has_key (oldest least d).session_id d ≡ true)
has_key-oldest least [] h = inl (unfold oldest in refl)
has_key-oldest least ((k, v) ∷ d) (same, rest) =
    elim (Bool-cases (ltb v.last_seen_at least.last_seen_at)) [
      | inl older ↦
          subst at_hand (sym (oldest-older least v k d older)) (elim (has_key-oldest v d rest) [
            | inl head ↦ inr (rw (head, same, eq_refl))
            | inr tail ↦ inr (ground (arith, tail))
          ])
      | inr younger ↦
          subst at_hand (sym (oldest-younger least v k d younger))
            (elim (has_key-oldest least d rest) [
              | inl kept ↦ inl kept
              | inr tail ↦ inr (ground (arith, tail))
            ])
    ]
  where
    at_hand : PortalSession → Type 0
    at_hand o = (o ≡ least) ⊎ (has_key o.session_id ((k, v) ∷ d) ≡ true)

-- As many rounds as there are sessions are enough for the loop that makes room.
pub evict-total :
    (fuel limit : ℕ) (d : Dict PortalSession)
    → length d ≤ fuel
    → 0 < limit
    → IsKeyed d
    → (kept : Dict PortalSession) × (evict fuel limit d ≡ some kept)
unfolding evict
evict-total fuel limit [] enough positive keyed = ([], ground arith)
evict-total zero limit ((k, v) ∷ d) enough positive keyed = absurd (omega arith)
evict-total (suc fuel) limit ((k, v) ∷ d) enough positive (same, rest) =
    elim (Bool-cases (ltb (length ((k, v) ∷ d)) limit)) [
      | inl room ↦ ((k, v) ∷ d, rw room)
      | inr full ↦
          (let found : has_key (oldest v d).session_id ((k, v) ∷ d) ≡ true =
              elim (has_key-oldest v d rest) [
                | inl head ↦ rw (head, same, eq_refl)
                | inr tail ↦ ground (arith, tail)
              ] in
            let shorter = length-erase-lt (oldest v d).session_id ((k, v) ∷ d) found in
            let (kept, e) =
              evict-total fuel limit (erase (oldest v d).session_id ((k, v) ∷ d)) (omega arith)
                positive (IsKeyed-erase (oldest v d).session_id ((k, v) ∷ d) (same, rest)) in
            (kept, rw full e))
    ]

pub evict-lt :
    (fuel limit : ℕ) (d : Dict PortalSession) {kept : Dict PortalSession}
    → evict fuel limit d ≡ some kept
    → length kept < limit
unfolding evict
evict-lt fuel limit [] h = ground arith
evict-lt zero limit ((k, v) ∷ d) h = ground arith
evict-lt (suc fuel) limit ((k, v) ∷ d) h = elim (Bool-cases (ltb (length ((k, v) ∷ d)) limit)) [
  | inl room ↦ ground arith
  | inr full ↦ evict-lt fuel limit (erase (oldest v d).session_id ((k, v) ∷ d)) (rw full at h)
]

pub IsKeyed-insert :
    (k : String) (v : PortalSession) (d : Dict PortalSession)
    → k ≡ v.session_id
    → IsKeyed d
    → IsKeyed (insert k v d)
unfolding insert
IsKeyed-insert k v [] here h = (here, tt)
IsKeyed-insert k v ((j, w) ∷ d) here (same, rest) = elim (Bool-cases (str_eq j k)) [
  | inl equal ↦ rw equal (here, rest)
  | inr other ↦ rw other (same, IsKeyed-insert k v d here rest)
]

pub IsKeyed-evict :
    (fuel limit : ℕ) (d : Dict PortalSession) {kept : Dict PortalSession}
    → IsKeyed d
    → evict fuel limit d ≡ some kept
    → IsKeyed kept
unfolding evict
IsKeyed-evict fuel limit [] {kept = kept} keyed h = elim (Bool-cases (ltb 0 limit)) [
  | inl room ↦ (let same : [] ≡ kept = cc (rw room at h) in subst IsKeyed same keyed)
  | inr full ↦ absurd (cc (rw full at h))
]
IsKeyed-evict zero limit ((k, v) ∷ d) {kept = kept} keyed h =
    elim (Bool-cases (ltb (length ((k, v) ∷ d)) limit)) [
      | inl room ↦ (let same : ((k, v) ∷ d) ≡ kept = cc (rw room at h) in subst IsKeyed same keyed)
      | inr full ↦ absurd (cc (rw full at h))
    ]
IsKeyed-evict (suc fuel) limit ((k, v) ∷ d) {kept = kept} keyed h =
    elim (Bool-cases (ltb (length ((k, v) ∷ d)) limit)) [
      | inl room ↦ (let same : ((k, v) ∷ d) ≡ kept = cc (rw room at h) in subst IsKeyed same keyed)
      | inr full ↦
          IsKeyed-evict fuel limit (erase (oldest v d).session_id ((k, v) ∷ d))
            (IsKeyed-erase (oldest v d).session_id ((k, v) ∷ d) keyed) (rw full at h)
    ]

pub lookup-IsKeyed :
    (id : String) (d : Dict PortalSession) {v : PortalSession}
    → IsKeyed d
    → lookup id d ≡ some v
    → id ≡ v.session_id
unfolding lookup
lookup-IsKeyed id [] keyed h = cc
lookup-IsKeyed id ((k, w) ∷ d) (same, rest) h = elim (Bool-cases (str_eq k id)) [
  | inl here ↦ (let e = (eq_iff k id).0 here in cc (e, same, rw here at h))
  | inr other ↦ lookup-IsKeyed id d rest (rw other at h)
]
