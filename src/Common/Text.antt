-- ===== src/Common/Text.antt =====
-- Texts as lists of code points: what Python's `len` counts and what a character class tests.
use Prim.Native.Nat.{ℕ}
use Prim.Native.Char.{code}
use Prim.Native.String.{String}
use mathlib.Core.Bool.{Bool, true, false, ◌&&◌, ◌||◌}
use mathlib.Core.List.{List, [], ◌∷◌}
use modular_discord_bot_oper.Common.Tests.{◌==◌, leb, if◌then◌else◌}
use modular_discord_bot_oper.Common.Lists.{length, any, all}

unfoldable pub codes : String → List ℕ
codes String.[] = []
codes (String.◌∷◌ c s) = code c ∷ codes s

-- len(s)
unfoldable pub text_length : String → ℕ
unfolding codes
text_length s = length (codes s)

abbrev pub between : ℕ → ℕ → ℕ → Bool
between lo hi c = leb lo c && leb c hi

-- `"/" in s`
unfoldable pub has_slash : String → Bool
unfolding codes
has_slash s = any (λ c. c == b'/') (codes s)

-- `^[0-9a-f]{32}$`, by `fullmatch`
unfoldable pub is_hex_id : String → Bool
unfolding text_length
is_hex_id s =
    (text_length s == 32) && all (λ c. between b'0' b'9' c || between b'a' b'f' c) (codes s)

abbrev pub is_word : ℕ → Bool
is_word c = between b'a' b'z' c || between b'A' b'Z' c || between b'0' b'9' c || (c == b'_')

-- `^[\w .()-]{1,80}$` with `re.ASCII`, by `fullmatch`
unfoldable pub is_safe_name : String → Bool
unfolding text_length
is_safe_name s =
    between 1 80 (text_length s)
    && all (λ c. is_word c || (c == 32) || (c == b'.') || (c == b'(') || (c == b')') || (c == b'-'))
        (codes s)

-- The rest of a cog's name: whether the last character was a letter or a digit.
unfoldable pub is_cog_tail : Bool → List ℕ → Bool
is_cog_tail in_word [] = in_word
is_cog_tail in_word (c ∷ cs) =
    let word = is_cog_tail true cs in
    let dash = is_cog_tail false cs in
    if between b'a' b'z' c || between b'0' b'9' c then word else (in_word && (c == b'-')) && dash

-- `^[a-z][a-z0-9]*(?:-[a-z0-9]+)*$`, by `fullmatch`
unfoldable pub is_cog_id : String → Bool
unfolding codes is_cog_tail
is_cog_id s = elim (codes s) [ [] ↦ false | c ∷ cs ↦ between b'a' b'z' c && is_cog_tail true cs ]
