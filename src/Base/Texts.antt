-- ===== src/Base/Texts.antt =====
-- Python's texts: literals, `strip`, `lower` and `upper`. Letters are those of ASCII: a code point
-- above 127 has no case here and is no white space.
use Prim.Native.Char.{code}
use Prim.Native.String.{String}
use Prim.Native.Nat.{ℕ, ◌+◌, ◌-◌}
use mathlib.Core.Path.{◌≡◌, refl, ap₂}
use mathlib.Core.Bool.{Bool, true, false, ◌&&◌, ◌||◌}
use mathlib.Core.List.{[], ◌∷◌, map, reverse}
use native.Mathlib.Omega.{arith}
use self_learning_trading_ag.Base.Tests.{leb, if◌then◌else◌}
use self_learning_trading_ag.Base.Lists.{Text}

-- A text literal.
abbrev pub text : String → Text
text String.[] = []
text (String.◌∷◌ c s) = code c ∷ text s

abbrev is_space : ℕ → Bool
is_space c = (leb 9 c && leb c 13) || (leb 28 c && leb c 32)

abbrev is_lower : ℕ → Bool
is_lower c = leb b'a' c && leb c b'z'

unfoldable pub upper_code : ℕ → ℕ
upper_code c = if is_lower c then c - 32 else c

unfoldable pub lower_code : ℕ → ℕ
lower_code c = if leb b'A' c && leb c b'Z' then c + 32 else c

-- `s.upper()`
unfoldable pub upper : Text → Text
upper = map upper_code

-- `s.lower()`
unfoldable pub lower : Text → Text
lower = map lower_code

unfoldable pub lstrip : Text → Text
lstrip [] = []
lstrip (c ∷ s) = if is_space c then lstrip s else c ∷ s

-- `s.strip()`
unfoldable pub strip : Text → Text
strip s = reverse (lstrip (reverse (lstrip s)))

-- `not s`
abbrev pub is_empty : Text → Bool
is_empty [] = true
is_empty (_ ∷ _) = false

upper_code-upper_code : (c : ℕ) → upper_code (upper_code c) ≡ upper_code c
unfolding upper_code
upper_code-upper_code c = ground arith

pub upper-upper : (s : Text) → upper (upper s) ≡ upper s
unfolding upper
upper-upper [] = refl
upper-upper (c ∷ s) = ap₂ ◌∷◌ (upper_code-upper_code c) (upper-upper s)
