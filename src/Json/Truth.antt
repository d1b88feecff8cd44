-- ===== src/Json/Truth.antt =====
-- Python's truth of a value that `json.loads` gave; `is_zero` tells whether a float is zero.
use tanaka.Prelude.{
  String, ◌==◌, Bool, true, false, Option, none, some, eqb, pos, negsuc, if◌then◌else◌,
}
use tanaka.Json.Dict.{Json, null, bool, int, float, str, arr, obj, nil, cons, end}

-- `bool(value)`
unfoldable pub truthy : (String → Bool) → Json → Bool
truthy is_zero null = false
truthy is_zero (bool b) = b
truthy is_zero (int (pos n)) = if eqb n 0 then false else true
truthy is_zero (int (negsuc n)) = true
truthy is_zero (float x) = if is_zero x then false else true
truthy is_zero (str s) = if s == "" then false else true
truthy is_zero (arr nil) = false
truthy is_zero (arr (cons _ _)) = true
truthy is_zero (obj end) = false
truthy is_zero (obj _) = true

-- `d.get(k) or default`
unfoldable pub or_else : (String → Bool) → Option Json → Json → Json
or_else is_zero none default = default
or_else is_zero (some v) default = if truthy is_zero v then v else default
