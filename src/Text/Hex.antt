-- ===== src/Text/Hex.antt =====
-- Hexadecimal text: `bytes.hex()`, `bytes.fromhex` and `_to_hex` of services/sweep_engine.py.
-- `bytes.fromhex` is modelled without the white space that it skips between bytes.
use privana.Prelude.{
  ℕ, ◌+◌, ◌-◌, ◌*◌, ◌/◌, ◌%◌, ◌<◌, ◌≡◌, refl, Bool, true, ◌&&◌, ◌||◌, Option, none, some, List, [],
  ◌∷◌, arith, ltb, leb, every, length, if◌then◌else◌,
}

abbrev pub Bytes : Type 0
Bytes = List ℕ

-- One digit, in lower case.
unfoldable pub hex_digit : ℕ → ℕ
hex_digit n = if ltb n 10 then n + 48 else n + 87

unfoldable pub hex : Bytes → List ℕ
unfolding hex_digit
hex [] = []
hex (b ∷ bs) = hex_digit (b / 16) ∷ hex_digit (b % 16) ∷ hex bs

-- `_to_hex` on bytes.
unfoldable pub to_hex : Bytes → List ℕ
unfolding hex
to_hex bs = 48 ∷ 120 ∷ hex bs

-- The value of a digit of either case.
unfoldable pub digit_value : ℕ → Option ℕ
digit_value c =
    if leb 48 c && leb c 57
    then some (c - 48)
    else if leb 97 c && leb c 102
    then some (c - 87)
    else if leb 65 c && leb c 70
    then some (c - 55)
    else none

abbrev join_byte : Option ℕ → Option ℕ → Option Bytes → Option Bytes
join_byte (some h) (some l) (some bs) = some ((h * 16 + l) ∷ bs)
join_byte (some h) (some l) none = none
join_byte (some h) none _ = none
join_byte none _ _ = none

unfoldable pub from_hex : List ℕ → Option Bytes
unfolding digit_value
from_hex [] = some []
from_hex (c ∷ []) = none
from_hex (c ∷ d ∷ s) = join_byte (digit_value c) (digit_value d) (from_hex s)

-- `c in "0123456789abcdef"`
unfoldable pub is_hex_digit : ℕ → Bool
is_hex_digit c = leb 48 c && leb c 57 || leb 97 c && leb c 102

abbrev pub IsByte : ℕ → Type 0
IsByte b = b < 256

abbrev pub AllBytes : Bytes → Type 0
AllBytes [] = Unit
AllBytes (b ∷ bs) = IsByte b × AllBytes bs

digit_value-hex_digit : (n : ℕ) → n < 16 → digit_value (hex_digit n) ≡ some n
unfolding digit_value hex_digit
digit_value-hex_digit n h = ground arith

is_hex_digit-hex_digit : (n : ℕ) → n < 16 → is_hex_digit (hex_digit n) ≡ true
unfolding is_hex_digit hex_digit
is_hex_digit-hex_digit n h = ground arith

pub from_hex-hex : (bs : Bytes) → AllBytes bs → from_hex (hex bs) ≡ some bs
unfolding hex from_hex
from_hex-hex [] h = refl
from_hex-hex (b ∷ bs) h =
    simp
      (
        digit_value-hex_digit (b / 16) (omega arith),
        digit_value-hex_digit (b % 16) (omega arith),
        from_hex-hex bs h.1,
      )
      (ground arith)

pub every-hex : (bs : Bytes) → AllBytes bs → every is_hex_digit (hex bs) ≡ true
unfolding hex
every-hex [] h = refl
every-hex (b ∷ bs) h =
    ground
      (arith, is_hex_digit-hex_digit (b / 16), is_hex_digit-hex_digit (b % 16), every-hex bs h.1)

pub length-hex : (bs : Bytes) → length (hex bs) ≡ 2 * length bs
unfolding hex
length-hex [] = refl
length-hex (b ∷ bs) = omega (arith, length-hex bs)
