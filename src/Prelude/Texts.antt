-- ===== src/Prelude/Texts.antt =====
-- Python's texts, walked by their code points.
use Prim.Native.Nat.{ℕ, Ordering, compare as compare_ℕ}
use Prim.Native.Char.{Char, code}
use Prim.Native.String
use Prim.Native.String.{String, compare, then}
use Prim.Native.String.compare
use mathlib.Core.Path.{◌≡◌, sym, ap, ◌∙◌}
use mathlib.Core.Bool.{Bool, true, false, ◌&&◌, ◌||◌}
use native.Mathlib.Omega.{arith}
use text.Mathlib.Text.{is_le}
use text.Mathlib.TextPositions.{compare_refl}
use text.Mathlib.Text.{◌==◌}
use tanaka.Prelude.Tests.{eqb}

-- `any(p(ord(ch)) for ch in text)`
abbrev pub any_code : (ℕ → Bool) → String → Bool
any_code p String.[] = false
any_code p (String.◌∷◌ c s) = p (code c) || any_code p s

-- `ch in text` for a text `ch` of one character
abbrev pub has_code : ℕ → String → Bool
has_code n = any_code (λ c. eqb c n)

-- `s <= t`, by code points.
abbrev pub str_leb : String → String → Bool
str_leb s t = is_le (compare s t)

str_leb-cons :
    (c d : Char) (s t : String)
    → str_leb (String.◌∷◌ c s) (String.◌∷◌ d t)
      ≡ is_le (then (compare_ℕ (code c) (code d)) (compare s t))
str_leb-cons c d s t = ap is_le (compare.cons-cons c d s t)

then_total :
    (m n : ℕ) (o p : Ordering)
    → (is_le o ≡ false → is_le p ≡ true)
    → is_le (then (compare_ℕ m n) o) ≡ false
    → is_le (then (compare_ℕ n m) p) ≡ true
then_total m n o p h e = ground arith

-- The order is total.
pub str_leb_total : (s t : String) → str_leb s t ≡ false → str_leb t s ≡ true
str_leb_total String.[] String.[] h = ap is_le compare.nil-nil
str_leb_total String.[] (String.◌∷◌ d t) h = cc (ap is_le (compare.nil-cons d t))
str_leb_total (String.◌∷◌ c s) String.[] h = ap is_le (compare.nil-cons c s)
str_leb_total (String.◌∷◌ c s) (String.◌∷◌ d t) h =
    str_leb-cons d c t s
    ∙ then_total (code c) (code d) (compare s t) (compare t s) (str_leb_total s t)
        (sym (str_leb-cons c d s t) ∙ h)

pub str_leb_refl : (s : String) → str_leb s s ≡ true
str_leb_refl s = ap is_le (compare_refl s)

-- `s + t`
abbrev pub concat : String → String → String
concat s t = String.◌++◌ s t

-- `text.startswith(prefix)`
unfoldable pub starts_with : String → String → Bool
starts_with String.[] text = true
starts_with (String.◌∷◌ c prefix) String.[] = false
starts_with (String.◌∷◌ c prefix) (String.◌∷◌ d text) =
    eqb (code c) (code d) && starts_with prefix text

-- `text.endswith(suffix)`
unfoldable pub ends_with : String → String → Bool
ends_with suffix String.[] = String.[] == suffix
ends_with suffix (String.◌∷◌ c s) = String.◌∷◌ c s == suffix || ends_with suffix s
