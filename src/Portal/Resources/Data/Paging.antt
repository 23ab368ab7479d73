-- ===== src/Portal/Resources/Data/Paging.antt =====
-- The pages of `data_page` in portal/resources.py, one after the other.
use modular_discord_bot_oper.Common.{
  ℕ, zero, suc, ◌+◌, ◌≤◌, String, Bool, true, false, Option, none, some, List, [], ◌∷◌, ◌++◌, not,
  ◌||◌, ltb, length, take, drop, str_eq, Result, ok, err, ◌≡◌, refl, sym, ap, ◌∙◌, arith,
  Bool-cases, inl, inr,
}
use modular_discord_bot_oper.Common.Json.{Json, ℤ, pos}
use modular_discord_bot_oper.Common.Text.{text_length, is_cog_id}
use modular_discord_bot_oper.Portal.Authorization.{Principal, Authorizer}
use modular_discord_bot_oper.Portal.Resources.{ResourceError}
use modular_discord_bot_oper.Portal.Resources.Data.{
  DataResource, Row, Page, safe_rows, start_of, slice, data_page,
}

-- The records of a page and of those that its cursors lead to, with `fuel` pages at most.
unfoldable pub follow :
    (Option String → Result ResourceError Page) → (fuel : ℕ) → Option String → Option (List Row)
follow page zero cursor = none
follow page (suc fuel) cursor = elim (page cursor) [
  | err e ↦ none
  | ok p ↦ elim p.next_cursor [
    | none ↦ some p.records
    | some c ↦ elim (follow page fuel (some c)) [
      | none ↦ none
      | some rest ↦ some (p.records ++ rest)
    ]
  ]
]

take-drop : {A : Type 0} (n : ℕ) (xs : List A) → take n xs ++ drop n xs ≡ xs
take-drop zero xs = refl
take-drop (suc n) [] = refl
take-drop (suc n) (x ∷ xs) = ap (λ r. x ∷ r) (take-drop n xs)

take_all : {A : Type 0} (n : ℕ) (xs : List A) → length xs ≤ n → take n xs ≡ xs
take_all zero [] short = refl
take_all zero (x ∷ xs) short = ground arith
take_all (suc n) [] short = refl
take_all (suc n) (x ∷ xs) short = ap (λ r. x ∷ r) (take_all n xs (omega arith))

drop-nil : {A : Type 0} (n : ℕ) → drop {A = A} n [] ≡ []
drop-nil zero = refl
drop-nil (suc n) = refl

drop-drop : {A : Type 0} (m n : ℕ) (xs : List A) → drop n (drop m xs) ≡ drop (m + n) xs
drop-drop zero n xs = let e : n ≡ zero + n = omega arith in ap (λ k. drop k xs) e
drop-drop (suc m) n [] = drop-nil n ∙ sym (drop-nil (suc m + n))
drop-drop (suc m) n (x ∷ xs) =
    let e : suc (m + n) ≡ suc m + n = omega arith in drop-drop m n xs ∙ ap (λ k. drop k (x ∷ xs)) e

length-drop-le : {A : Type 0} (m n : ℕ) (xs : List A) → length xs ≤ m + n → length (drop m xs) ≤ n
length-drop-le zero n xs short = omega (arith, short)
length-drop-le (suc m) n [] short = omega arith
length-drop-le (suc m) n (x ∷ xs) short = length-drop-le m n xs (omega arith)

take-drop-next :
    (start limit : ℕ) (xs : List Row)
    → take limit (drop start xs) ++ drop (start + limit) xs ≡ drop start xs
take-drop-next start limit xs =
    ap (λ r. take limit (drop start xs) ++ r) (sym (drop-drop start limit xs))
    ∙ take-drop limit (drop start xs)

-- `page` answers a cursor for a start with the records from there on, and the cursor of what follows.
abbrev Serves :
    (encode : ℕ → String)
    → (limit : ℕ) → List Row
    → (Option String → Result ResourceError Page)
    → Type 0
Serves encode limit safe page =
    (start : ℕ) → page (some (encode start)) ≡ ok (slice encode limit start safe)

module _ (encode : ℕ → String) (limit : ℕ) (safe : List Row)
    (page : Option String → Result ResourceError Page) where
  -- A slice that ends the rows is the last page.
  follow_last :
      (fuel start : ℕ)
      → (c : Option String) → page c ≡ ok (slice encode limit start safe)
      → ltb (start + limit) (length safe) ≡ false
      → follow page (suc fuel) c ≡ some (drop start safe)
  unfolding slice follow
  follow_last fuel start c here last =
      let bound : length safe ≤ start + limit = ground (arith, last) in
      let short = length-drop-le start limit safe bound in
      rw (here, follow) (rw last (ap some (take_all limit (drop start safe) short)))

  -- `suc fuel` pages reach the end of the rows that follow `start`, when `fuel` bounds their number.
  follow_step :
      Serves encode limit safe page
      → 1 ≤ limit
      → (fuel start : ℕ) → (c : Option String) → page c ≡ ok (slice encode limit start safe)
      → length safe ≤ start + fuel
      → follow page (suc fuel) c ≡ some (drop start safe)
  unfolding slice follow
  follow_step serves positive zero start c here enough =
      follow_last zero start c here (ground (arith, enough, positive))
  follow_step serves positive (suc f) start c here enough =
      elim (Bool-cases (ltb (start + limit) (length safe))) [
        | inr last ↦ follow_last (suc f) start c here last
        | inl more ↦
            let next = start + limit in
            let bound : length safe ≤ start + limit + f = omega (arith, enough, positive) in
            let rest =
              follow_step serves positive f next (some (encode next)) (serves next) bound in
            rw (here, follow) (rw more (rw rest (ap some (take-drop-next start limit safe))))
      ]

module _ (text : Json → String) (not_after : String → String → Bool) (encode : ℕ → String)
    (decode : String → Option ℤ) (find : String → String → Option DataResource) (can : Authorizer)
    (actor : Principal) (bot id : String) (limit : ℕ) (rows_of : DataResource → List Row)
    (r : DataResource) (safe : List Row) where
  data_page-slice :
      (ltb 64 (text_length id) || not (is_cog_id id)) ≡ false
      → find bot id ≡ some r
      → can actor r.read_permission (some bot) ≡ true
      → 1 ≤ limit
      → limit ≤ r.maximum_page_size
      → safe_rows text not_after r (rows_of r) ≡ ok safe
      → (c : Option String) → (start : ℕ) → start_of decode c ≡ ok start
      → data_page text not_after encode decode find can actor bot id limit c rows_of
        ≡ ok (slice encode limit start safe)
  unfolding data_page
  data_page-slice named found allowed positive within sorted c start starts =
      let bounds : (ltb limit 1 || ltb r.maximum_page_size limit) ≡ false =
        ground (arith, positive, within) in
      rw (named, data_page) (rw found (rw allowed (rw bounds (rw starts (rw sorted refl)))))

  -- When a data resource is known, its reader is allowed, the page size is in its range and
  -- `safe_rows` sorts and projects the rows that the adapter reads, following the cursors from the
  -- first page returns each of these records once and in their order, after at most one page more
  -- than there are records; provided that decoding reads back the start that encoding wrote, and no
  -- cursor is empty.
  pub data_page-all_records :
      ((n : ℕ) → decode (encode n) ≡ some (pos n))
      → ((n : ℕ) → str_eq (encode n) "" ≡ false)
      → (ltb 64 (text_length id) || not (is_cog_id id)) ≡ false
      → find bot id ≡ some r
      → can actor r.read_permission (some bot) ≡ true
      → 1 ≤ limit
      → limit ≤ r.maximum_page_size
      → safe_rows text not_after r (rows_of r) ≡ ok safe
      → follow
          (λ c. data_page text not_after encode decode find can actor bot id limit c rows_of)
          (suc (length safe))
          none
        ≡ some safe
  unfolding start_of
  data_page-all_records reads filled named found allowed positive within sorted =
      let serves = data_page-slice named found allowed positive within sorted in
      let restarts : Serves encode limit safe
          (λ c. data_page text not_after encode decode find can actor bot id limit c rows_of) =
        λ n. serves (some (encode n)) n (rw (filled n) (rw (reads n) refl)) in
      follow_step encode limit safe
        (λ c. data_page text not_after encode decode find can actor bot id limit c rows_of) restarts
        positive (length safe) 0 none (serves none 0 refl) (omega arith)
