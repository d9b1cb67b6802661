-- ===== src/Parse/Hex.antt =====
-- `bytes.hex` and `bytes.fromhex`. A byte is a number below 256.
use self_learning_trading_ag.Base.{
  ℕ, ◌+◌, ◌-◌, ◌*◌, ◌/◌, ◌%◌, ◌<◌, ◌≡◌, refl, ap, Bool, false, ◌&&◌, ◌||◌, Option, none, some, List,
  [], ◌∷◌, Text, leb, ltb, ◌==◌, arith, if◌then◌else◌,
}
use self_learning_trading_ag.Parse.Splits.{Lacks}

abbrev pub hex_digit : ℕ → ℕ
hex_digit n = if ltb n 10 then 48 + n else 87 + n

-- `data.hex()`
unfoldable pub hex : List ℕ → Text
hex [] = []
hex (b ∷ bs) = hex_digit (b / 16) ∷ (hex_digit (b % 16) ∷ hex bs)

-- The value of a digit, in either case.
abbrev pub hex_value : ℕ → Option ℕ
hex_value c =
    if leb b'0' c && leb c b'9'
    then some (c - 48)
    else if leb b'a' c && leb c b'f'
    then some (c - 87)
    else if leb b'A' c && leb c b'F'
    then some (c - 55)
    else none

abbrev is_blank : ℕ → Bool
is_blank c = (leb 9 c && leb c 13) || (c == 32)

-- A byte of two digits before the others.
unfoldable pub join_byte : Option ℕ → Option ℕ → Option (List ℕ) → Option (List ℕ)
join_byte (some h) (some l) (some bs) = some ((h * 16 + l) ∷ bs)
join_byte _ _ _ = none

-- `bytes.fromhex(s)`, which passes over white space between bytes; `none` is the `ValueError`.
unfoldable pub fromhex : Text → Option (List ℕ)
fromhex [] = some []
fromhex (c ∷ []) = if is_blank c then some [] else none
fromhex (c ∷ (d ∷ s)) =
    let rest = fromhex s in
    let shorter = fromhex (d ∷ s) in
    if is_blank c then shorter else join_byte (hex_value c) (hex_value d) rest

-- All numbers of a list are bytes.
abbrev pub AreBytes : List ℕ → Type 0
AreBytes [] = Unit {0}
AreBytes (b ∷ bs) = (b < 256) × AreBytes bs

hex_value-hex_digit : (n : ℕ) → n < 16 → hex_value (hex_digit n) ≡ some n
hex_value-hex_digit n h = ground arith

blank-hex_digit : (n : ℕ) → n < 16 → is_blank (hex_digit n) ≡ false
blank-hex_digit n h = ground arith

pub fromhex-hex : (bs : List ℕ) → AreBytes bs → fromhex (hex bs) ≡ some bs
unfolding fromhex hex join_byte
fromhex-hex [] h = refl
fromhex-hex (b ∷ bs) (a, h) =
    rw
      (
        blank-hex_digit (b / 16) (omega (arith, a)),
        hex_value-hex_digit (b / 16) (omega (arith, a)),
        hex_value-hex_digit (b % 16) (omega arith),
        fromhex-hex bs h,
      )
      (ap (λ n. some (n ∷ bs)) (omega arith))

-- A dollar sign is no digit.
pub Lacks-hex : (bs : List ℕ) → AreBytes bs → Lacks b'$' (hex bs)
unfolding hex
Lacks-hex [] h = tt
Lacks-hex (b ∷ bs) (a, h) = (ground arith, (ground arith, Lacks-hex bs h))
