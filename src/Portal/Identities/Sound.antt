-- ===== src/Portal/Identities/Sound.antt =====
-- What the identity database of portal/identity.py keeps: the primary key, the unique login, and
-- rows that `_validate` lets in.
use modular_discord_bot_oper.Common.{
  ◌+◌, ◌≤◌, String, Bool, true, false, some, List, [], ◌∷◌, ◌++◌, ◌||◌, any, str_eq, ok, ◌≡◌, refl,
  ap, subst, ◌∙◌, arith, All, All-append, All-map, Bool-cases, inl, inr, eq_iff,
}
use modular_discord_bot_oper.Portal.Identities.{
  PortalIdentity, Database, validate, first, is_administrator, administrators, write_row,
}

-- No element is the same as a later one.
abbrev pub AreApart : (PortalIdentity → PortalIdentity → Bool) → List PortalIdentity → Type 0
AreApart same [] = Unit
AreApart same (i ∷ is) = All (λ j. same i j ≡ false) is × AreApart same is

abbrev pub same_id : PortalIdentity → PortalIdentity → Bool
same_id i j = str_eq i.identity_id j.identity_id

abbrev pub IsValid : PortalIdentity → Type 0
IsValid i = validate i.login i.permissions i.bot_ids ≡ ok tt

-- Ids differ, logins differ, and every row passes `_validate`.
abbrev pub IsSound : (String → String → Bool) → Database → Type 0
IsSound same_login db =
    AreApart same_id db.identities
    × AreApart (λ i j. same_login i.login j.login) db.identities
    × All IsValid db.identities

-- What holds of every row after a write, from what held before.
pub All-write {ℓ κ} :
    (P : PortalIdentity → Type ℓ) (Q : PortalIdentity → Type κ) (id : String)
    (f : PortalIdentity → PortalIdentity) (is : List PortalIdentity)
    → ((j : PortalIdentity) → str_eq j.identity_id id ≡ true → P j → Q (f j))
    → ((j : PortalIdentity) → P j → Q j)
    → All P is
    → All Q (write_row id f is)
unfolding write_row
All-write P Q id f [] written kept h = tt
All-write P Q id f (j ∷ is) written kept (h, hs) = (
  elim (Bool-cases (str_eq j.identity_id id)) [
    | inl here ↦ rw here (written j here h)
    | inr other ↦ rw other (kept j h)
  ],
  All-write P Q id f is written kept hs,
)

module _ (same : PortalIdentity → PortalIdentity → Bool) where
  -- Rows that were apart are, when the write leaves alone what they are compared by.
  pub AreApart-write :
      (id : String) (f : PortalIdentity → PortalIdentity) (is : List PortalIdentity)
      → ((i j : PortalIdentity) → same (f i) j ≡ same i j)
      → ((i j : PortalIdentity) → same i (f j) ≡ same i j)
      → AreApart same is
      → AreApart same (write_row id f is)
  unfolding write_row
  AreApart-write id f [] left right apart = tt
  AreApart-write id f (i ∷ is) left right (h, hs) = (
    elim (Bool-cases (str_eq i.identity_id id)) [
      | inl here ↦ rw here (
          All-write (λ j. same i j ≡ false) (λ j. same (f i) j ≡ false) id f is
            (λ j _ e. right (f i) j ∙ left i j ∙ e) (λ j e. left i j ∙ e) h)
      | inr other ↦ rw other (
          All-write (λ j. same i j ≡ false) (λ j. same i j ≡ false) id f is (λ j _ e. right i j ∙ e)
            (λ j e. e) h)
    ],
    AreApart-write id f is left right hs,
  )

  pub AreApart-append :
      (is : List PortalIdentity) (new : PortalIdentity)
      → AreApart same is
      → All (λ i. same i new ≡ false) is
      → AreApart same (is ++ new ∷ [])
  AreApart-append [] new apart h = (tt, tt)
  AreApart-append (i ∷ is) new (a, apart) (h, hs) =
      (All-append (λ j. same i j ≡ false) is (new ∷ []) a (h, tt), AreApart-append is new apart hs)

-- What a search finds passes its test, and has what all have.
pub first-All {ℓ κ} :
    {A : Type ℓ} (P : A → Type κ) (p : A → Bool) (xs : List A) {x : A}
    → first p xs ≡ some x
    → All P xs
    → (p x ≡ true) × P x
first-All P p [] found h = absurd (cc found)
first-All P p (y ∷ ys) {x = x} found (h, hs) = elim (Bool-cases (p y)) [
  | inl yes_ ↦ let e : y ≡ x = cc (rw yes_ at found) in subst (λ z. (p z ≡ true) × P z) e (yes_, h)
  | inr no_ ↦ first-All P p ys (rw no_ at found) hs
]

pub AreApart-of_new :
    (p q : PortalIdentity → Bool) (is : List PortalIdentity)
    → any (λ i. p i || q i) is ≡ false
    → All (λ i. p i ≡ false) is × All (λ i. q i ≡ false) is
AreApart-of_new p q [] h = (tt, tt)
AreApart-of_new p q (i ∷ is) h =
    let (ps, qs) = AreApart-of_new p q is (ground arith) in ((ground arith, ps), (ground arith, qs))

-- A write of a row that stays an administrator, or was none, leaves as many administrators.
pub administrators-write_le :
    (id : String) (f : PortalIdentity → PortalIdentity) (is : List PortalIdentity)
    → All
        (λ i.
          str_eq i.identity_id id ≡ true
          → is_administrator i ≡ true
          → is_administrator (f i) ≡ true)
        is
    → administrators is ≤ administrators (write_row id f is)
unfolding administrators write_row
administrators-write_le id f [] keeps = omega arith
administrators-write_le id f (i ∷ is) (keep, keeps) =
    let rest = administrators-write_le id f is keeps in
    elim (Bool-cases (str_eq i.identity_id id)) [
      | inr other ↦ rw other (ground (arith, rest))
      | inl here ↦ rw here (elim (Bool-cases (is_administrator i)) [
        | inl yes_ ↦ rw (yes_, keep here yes_) (omega (arith, rest))
        | inr no_ ↦ rw no_ (ground (arith, rest))
      ])
    ]

-- Nothing is written where no row has the id.
write_row_absent :
    (id : String) (f : PortalIdentity → PortalIdentity) (is : List PortalIdentity)
    → All (λ i. str_eq i.identity_id id ≡ false) is
    → write_row id f is ≡ is
unfolding write_row
write_row_absent id f [] h = refl
write_row_absent id f (i ∷ is) (h, hs) = rw h (ap (λ r. i ∷ r) (write_row_absent id f is hs))

-- A write takes away one administrator at most, where ids are unique.
pub administrators-write_bound :
    (id : String) (f : PortalIdentity → PortalIdentity) (is : List PortalIdentity)
    → AreApart same_id is
    → administrators is ≤ administrators (write_row id f is) + 1
unfolding administrators write_row
administrators-write_bound id f [] apart = omega arith
administrators-write_bound id f (i ∷ is) (h, apart) = elim (Bool-cases (str_eq i.identity_id id)) [
  | inr other ↦ rw other (ground (arith, administrators-write_bound id f is apart))
  | inl here ↦
      let e = (eq_iff i.identity_id id).0 here in
      let same = write_row_absent id f is (
        All-map is
          (λ j k. ground (arith, eq_iff j.identity_id id, eq_iff i.identity_id j.identity_id)) h) in
      rw (here, same) (ground arith)
]

-- A found row is the only one with its id.
pub found_only :
    (id : String) (is : List PortalIdentity) {row : PortalIdentity}
    → AreApart same_id is
    → first (λ i. str_eq i.identity_id id) is ≡ some row
    → All (λ j. str_eq j.identity_id id ≡ true → j ≡ row) is
found_only id [] apart found = tt
found_only id (i ∷ is) {row = row} (h, apart) found = elim (Bool-cases (str_eq i.identity_id id)) [
  | inl here ↦
      let e : i ≡ row = cc (rw here at found) in
      (
        λ _. e,
        All-map is
            (λ j far near. ground (
              arith,
              eq_iff j.identity_id id,
              eq_iff i.identity_id id,
              eq_iff i.identity_id j.identity_id,
            ))
            h,
      )
  | inr other ↦ ((λ near. ground arith), found_only id is apart (rw other at found))
]
