-- ===== src/Portal/Resources/Data.antt =====
-- The views of data in portal/resources.py: `data_page` of `ResourceService`, `read_data` of the
-- adapter in memory. Python's order and `str`, and the text of a cursor, are parameters.
pub mod Paging
pub mod Examples
use modular_discord_bot_oper.Common.{
  ℕ, ◌+◌, String, Bool, true, false, Option, none, some, List, [], ◌∷◌, ◌++◌, map, not, ◌||◌, ltb,
  length, take, drop, str_eq, if◌then◌else◌, Result, ok, err, is_some, ◌&&◌,
}
use modular_discord_bot_oper.Common.Dict.{Dict, lookup}
use modular_discord_bot_oper.Common.Fallible.{◌>>=◌, ◌>>◌, refuse, ensure}
use modular_discord_bot_oper.Common.Json.{Json, ℤ, pos, negsuc}
use modular_discord_bot_oper.Common.Text.{text_length, is_cog_id}
use modular_discord_bot_oper.Portal.Authorization.{Principal, Authorizer}
use modular_discord_bot_oper.Portal.Resources.{
  ResourceError, Violation, validation_failed, resource_not_found, permission_denied, foreign,
}

pub record DataResource : Type 0 where
  pub resource_id : String
  pub bot_id : String
  pub fields : List String
  pub read_permission : String
  pub location_key : String
  pub maximum_page_size : ℕ
  pub sort_key : String

abbrev pub Row : Type 0
Row = Dict Json

pub record Page : Type 0 where
  pub records : List Row
  pub next_cursor : Option String

-- `{field: record[field] for field in item.fields if field in record}`
unfoldable pub project : List String → Row → Row
project [] row = []
project (f ∷ fs) row =
    let rest = project fs row in elim (lookup f row) [ none ↦ rest | some v ↦ (f, v) ∷ rest ]

-- `read_data` of the adapter in memory
unfoldable pub read_data : DataResource → Dict (List Row) → List Row
read_data r stored = elim (lookup r.location_key stored) [ none ↦ [] | some rows ↦ rows ]

-- `text` is `str`, and `not_after` the order of texts.
module _ (text : Json → String) (not_after : String → String → Bool) where
  -- The key that a row is sorted by; a row without it raises `KeyError`.
  abbrev pub keyed : String → Row → Result ResourceError (String × Row)
  keyed key row = elim (lookup key row) [ none ↦ err foreign | some v ↦ ok (text v, row) ]

  unfoldable pub keyed_rows : String → List Row → Result ResourceError (List (String × Row))
  keyed_rows key [] = ok []
  keyed_rows key (row ∷ rows) = keyed key row >>= λ k. keyed_rows key rows >>= λ rest. ok (k ∷ rest)

  unfoldable pub place_row : String × Row → List (String × Row) → List (String × Row)
  place_row r [] = r ∷ []
  place_row r (s ∷ rows) = if not_after r.0 s.0 then r ∷ s ∷ rows else s ∷ place_row r rows

  -- `sorted`, which is stable
  unfoldable pub sort_rows : List (String × Row) → List (String × Row)
  unfolding place_row
  sort_rows [] = []
  sort_rows (r ∷ rs) = place_row r (sort_rows rs)

  -- `safe`: the sorted rows with the declared fields
  unfoldable pub safe_rows : DataResource → List Row → Result ResourceError (List Row)
  unfolding keyed_rows sort_rows project
  safe_rows r rows = keyed_rows r.sort_key rows >>= λ ks.
      ok (map (λ (k : String × Row). project r.fields k.1) (sort_rows ks))

-- `decode` reads a cursor.
module _ (decode : String → Option ℤ) where
  -- The start that a cursor names.
  unfoldable pub start_of : Option String → Result ResourceError ℕ
  start_of none = ok 0
  start_of (some c) = if str_eq c "" then ok 0 else elim (decode c) [
    | some (pos n) ↦ ok n
    | _ ↦ err (validation_failed Violation.bad_cursor)
  ]

-- `encode` writes a cursor.
module _ (encode : ℕ → String) where
  -- `safe[start : start + limit]` and the cursor of what follows
  unfoldable pub slice : ℕ → ℕ → List Row → Page
  slice limit start safe = record {
    records = take limit (drop start safe);
    next_cursor = if ltb (start + limit) (length safe) then some (encode (start + limit)) else none;
  }

module _ (text : Json → String) (not_after : String → String → Bool) (encode : ℕ → String)
    (decode : String → Option ℤ) where
  -- `data_page` on the rows that the adapter reads. A limit below 0 is refused as 0 is; the revision
  -- and the event that is audited are left out.
  unfoldable pub data_page :
      (find : String → String → Option DataResource)
      → Authorizer
      → Principal
      → (bot id : String) → (limit : ℕ) → Option String
      → (DataResource → List Row)
      → Result ResourceError Page
  unfolding start_of safe_rows slice text_length
  data_page find can actor bot id limit cursor rows_of =
      if ltb 64 (text_length id) || not (is_cog_id id)
      then err resource_not_found
      else elim (find bot id) [
        | none ↦ err resource_not_found
        | some r ↦
            ensure (can actor r.read_permission (some bot)) permission_denied
            >> refuse (ltb limit 1 || ltb r.maximum_page_size limit)
                (validation_failed Violation.page_size)
            >> start_of decode cursor
            >>= λ start. safe_rows text not_after r (rows_of r) >>= λ safe.
                ok (slice encode limit start safe)
      ]
