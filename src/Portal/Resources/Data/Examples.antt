-- ===== src/Portal/Resources/Data/Examples.antt =====
-- Runs of the model of `data_page` in portal/resources.py on sample data.
use Prim.Native.Nat.{Ordering}
use Prim.Native.String.{compare}
use modular_discord_bot_oper.Common.{
  ℕ, zero, suc, String, Bool, true, false, Option, none, some, List, [], ◌∷◌, ◌≡◌, refl, ap, str_eq,
  str_eq-false, arith,
}
use modular_discord_bot_oper.Common.Dict.{lookup}
use modular_discord_bot_oper.Common.Text.{text_length, is_cog_id}
use modular_discord_bot_oper.Common.Json.{Json, ℤ, pos, str}
use modular_discord_bot_oper.Portal.Authorization.{Principal, can}
use modular_discord_bot_oper.Portal.Resources.Data.{DataResource, Row, data_page, safe_rows}
use modular_discord_bot_oper.Portal.Resources.Data.Paging.{follow, data_page-all_records}

abbrev queue : DataResource
queue = record {
  resource_id = "queue";
  bot_id = "cda-pay";
  fields = "name" ∷ [];
  read_permission = "data.view";
  location_key = "queue";
  maximum_page_size = 50;
  sort_key = "name";
}

-- A text with one mark for each number below `n`, and one more for a cursor.
unfoldable marks : ℕ → String
marks zero = ""
marks (suc n) = String.◌∷◌ "a" (marks n)

unfoldable tally : String → ℕ
tally String.[] = 0
tally (String.◌∷◌ c s) = suc (tally s)

unfoldable write_cursor : ℕ → String
unfolding marks
write_cursor n = String.◌∷◌ "a" (marks n)

unfoldable read_cursor : String → Option ℤ
unfolding tally
read_cursor String.[] = none
read_cursor (String.◌∷◌ c s) = some (pos (tally s))

tally-marks : (n : ℕ) → tally (marks n) ≡ n
unfolding tally marks
tally-marks zero = refl
tally-marks (suc n) = ap suc (tally-marks n)

read_cursor-write : (n : ℕ) → read_cursor (write_cursor n) ≡ some (pos n)
unfolding read_cursor write_cursor
read_cursor-write n = ap (λ k. some (pos k)) (tally-marks n)

write_cursor_filled : (n : ℕ) → str_eq (write_cursor n) "" ≡ false
unfolding write_cursor
write_cursor_filled n = str_eq-false (String.◌∷◌ "a" (marks n)) "" (λ e. cc)

abbrev viewer : Principal
viewer = record { principal_id = "viewer"; permissions = "data.view" ∷ []; bot_ids = none }

abbrev stored : List Row
stored =
    (("name", str "carol") ∷ ("secret", str "x") ∷ [])
    ∷ (("name", str "alice") ∷ [])
    ∷ (("name", str "bob") ∷ [])
    ∷ []

abbrev named_row : String → Row
named_row s = ("name", str s) ∷ []

abbrev text_of : Json → String
text_of (str s) = s
text_of _ = ""

abbrev not_after : String → String → Bool
not_after s t = elim (compare s t) [ Ordering.gt ↦ false | _ ↦ true ]

data_page-all_records_example :
    follow
      (λ c.
        data_page text_of not_after write_cursor read_cursor
          (λ b i. some queue)
          can
          viewer
          "cda-pay"
          "queue"
          2
          c
          (λ r. stored))
      4
      none
    ≡ some (named_row "alice" ∷ named_row "bob" ∷ named_row "carol" ∷ [])
unfolding text_length is_cog_id can safe_rows lookup
data_page-all_records_example =
    data_page-all_records text_of not_after write_cursor read_cursor (λ b i. some queue) can viewer
      "cda-pay" "queue" 2 (λ r. stored) queue
      (named_row "alice" ∷ named_row "bob" ∷ named_row "carol" ∷ []) read_cursor-write
      write_cursor_filled refl refl refl (omega arith) (omega arith) refl
