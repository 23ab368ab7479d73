-- ===== src/Common/Json.antt =====
-- What `json.loads` returns: Python's values. An object is a dict with its keys in order.
use Prim.Native.Nat.{ℕ}
use Prim.Native.String.{String}
use mathlib.Core.Option.{Option, none, some}
use mathlib.Core.Bool.{Bool, false, ◌&&◌}
use modular_discord_bot_oper.Common.Tests.{◌==◌, str_eq, if◌then◌else◌}

-- A Python int: `negsuc n` is -(n + 1).
pub data ℤ : Type 0 where
  pos : ℕ → ℤ
  negsuc : ℕ → ℤ

-- A float stands as the fraction that `as_integer_ratio` returns.
mutual
  pub data Json : Type 0 where
    null : Json
    bool : Bool → Json
    int : ℤ → Json
    float : ℤ → ℕ → Json
    str : String → Json
    arr : Items → Json
    obj : Fields → Json

  pub data Items : Type 0 where
    nil : Items
    cons : Json → Items → Items

  pub data Fields : Type 0 where
    end : Fields
    field : String → Json → Fields → Fields

-- raw.get(k)
unfoldable pub get_field : String → Fields → Option Json
get_field k end = none
get_field k (field j v fs) = if str_eq j k then some v else get_field k fs

-- `value == 1`: Python has `True == 1` and `1.0 == 1`.
abbrev pub equals_one : Json → Bool
equals_one (bool b) = b
equals_one (int (pos n)) = n == 1
equals_one (float (pos n) d) = (n == 1) && (d == 1)
equals_one _ = false
