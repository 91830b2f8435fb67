-- ===== src/Base/BigIntText.antt =====
-- JavaScript's `BigInt(text)` (the grammar of StringToBigInt) and `x.toString()`.
use Prim.Native.Nat.{ℕ, zero, suc, ◌+◌, ◌-◌, ◌*◌, ◌/◌, ◌%◌}
use Prim.Native.String.{String}
use mathlib.Core.Bool.{Bool, true, false, ◌&&◌, ◌||◌}
use mathlib.Core.Option.{Option, none, some}
use mathlib.Core.List.{List, [], ◌∷◌, reverse}
use Prim.Native.Char.{code}
use cot_server.Base.Tests.{ltb, leb, ◌==◌, if◌then◌else◌}
use cot_server.Base.BigInt.{ℤ, pos, negsuc, sub_ℕ}

-- The code points of a text.
abbrev pub codes : (text : String) → List ℕ
codes String.[] = []
codes (String.◌∷◌ first text) = code first ∷ codes text

-- White space and line ends.
is_space : ℕ → Bool
is_space c =
    (leb 9 c && leb c 13)
    || c == 32
    || c == 160
    || c == 5760
    || (leb 8192 c && leb c 8202)
    || c == 8232
    || c == 8233
    || c == 8239
    || c == 8287
    || c == 12288
    || c == 65279

trim_start : List ℕ → List ℕ
unfolding is_space
trim_start [] = []
trim_start (c ∷ s) = elim (is_space c) [ true ↦ trim_start s | false ↦ c ∷ s ]

trim : List ℕ → List ℕ
unfolding trim_start
trim s = reverse (trim_start (reverse (trim_start s)))

-- The value of a digit, at least 36 for no digit.
digit_value : ℕ → ℕ
digit_value c =
    if leb b'0' c && leb c b'9'
    then c - b'0'
    else if leb b'a' c && leb c b'z'
    then c - b'a' + 10
    else if leb b'A' c && leb c b'Z'
    then c - b'A' + 10
    else 36

digits_from : (radix acc : ℕ) → List ℕ → Option ℕ
unfolding digit_value
digits_from radix acc [] = some acc
digits_from radix acc (c ∷ s) = elim (ltb (digit_value c) radix) [
  | true ↦ digits_from radix (acc * radix + digit_value c) s
  | false ↦ none
]

-- At least one digit.
unfoldable pub digits : ℕ → List ℕ → Option ℕ
unfolding digits_from
digits radix [] = none
digits radix (c ∷ s) = digits_from radix 0 (c ∷ s)

abbrev signed : Bool → Option ℕ → Option ℤ
signed b none = none
signed true (some n) = some (sub_ℕ 0 n)
signed false (some n) = some (pos n)

-- A prefix 0x, 0o or 0b takes no sign.
after_zero : ℕ → List ℕ → Option ℤ
unfolding digits
after_zero c s =
    if c == b'x' || c == b'X'
    then signed false (digits 16 s)
    else if c == b'o' || c == b'O'
    then signed false (digits 8 s)
    else if c == b'b' || c == b'B'
    then signed false (digits 2 s)
    else signed false (digits 10 (b'0' ∷ c ∷ s))

unsigned : List ℕ → Option ℤ
unfolding digits after_zero
unsigned [] = some (pos 0)
unsigned (c ∷ []) = signed false (digits 10 (c ∷ []))
unsigned (c ∷ d ∷ s) = if c == b'0' then after_zero d s else signed false (digits 10 (c ∷ d ∷ s))

integer_of : List ℕ → Option ℤ
unfolding digits unsigned
integer_of [] = some (pos 0)
integer_of (c ∷ s) =
    if c == b'-'
    then signed true (digits 10 s)
    else if c == b'+'
    then signed false (digits 10 s)
    else unsigned (c ∷ s)

-- `BigInt(text)`; `none` is its SyntaxError. The empty text is 0.
unfoldable pub parse_big_int : String → Option ℤ
unfolding integer_of trim
parse_big_int s = integer_of (trim (codes s))

infixr 65 ◌<>◌
abbrev ◌<>◌ : String → String → String
s <> t = Prim.Native.String.◌++◌ s t

digit_text : ℕ → String
digit_text d =
    if d == 0
    then "0"
    else if d == 1
    then "1"
    else if d == 2
    then "2"
    else if d == 3
    then "3"
    else if d == 4
    then "4"
    else if d == 5
    then "5"
    else if d == 6
    then "6"
    else if d == 7
    then "7"
    else if d == 8
    then "8"
    else "9"

-- The decimal digits of `n`, before the text `rest`; the fuel `n` is enough, since `n / 10 < n`.
decimal_from : (fuel n : ℕ) → String → String
unfolding digit_text
decimal_from zero n rest = digit_text n <> rest
decimal_from (suc f) n rest = elim (ltb n 10) [
  | true ↦ digit_text n <> rest
  | false ↦ decimal_from f (n / 10) (digit_text (n % 10) <> rest)
]

unfoldable pub decimal : ℕ → String
unfolding decimal_from
decimal n = decimal_from n n ""

-- `x.toString()`
unfoldable pub to_text : ℤ → String
unfolding decimal
to_text (pos n) = decimal n
to_text (negsuc n) = "-" <> decimal (suc n)
