-- ===== src/Js/Text.antt =====
-- Texts as lists of UTF-16 code units, and the methods of `String` that the source calls.
use Prim.Native.Char.{code}
use mathlib.Core.List.{reverse}
use csv_product_uploader.Prelude.{
  ℕ, zero, suc, ◌+◌, ◌-◌, ◌*◌, Bool, true, false, ◌&&◌, ◌||◌, leb, ◌==◌, if◌then◌else◌, List, [],
  ◌∷◌, ◌++◌, Option, none, some, String,
}
use csv_product_uploader.Prelude.Int.{ℤ, pos, negsuc}

abbrev pub Text : Type 0
Text = List ℕ

-- A literal of the source, all of whose characters lie below U+10000.
abbrev pub codes : String → Text
codes String.[] = []
codes (String.◌∷◌ c s) = code c ∷ codes s

-- `s === t`
unfoldable pub text_eq : Text → Text → Bool
text_eq [] [] = true
text_eq (c ∷ s) (d ∷ t) = c == d && text_eq s t
text_eq _ _ = false

-- `s.toUpperCase()` on ASCII letters.
abbrev pub upper_code : ℕ → ℕ
upper_code c = if leb b'a' c && leb c b'z' then c - 32 else c

unfoldable pub to_upper_case : Text → Text
to_upper_case [] = []
to_upper_case (c ∷ s) = upper_code c ∷ to_upper_case s

-- The characters that `trim` removes: WhiteSpace and LineTerminator.
unfoldable pub is_space : ℕ → Bool
is_space c =
    (leb 9 c && leb c 13)
    || c == 32
    || c == 0xa0
    || c == 0x1680
    || (leb 0x2000 c && leb c 0x200a)
    || c == 0x2028
    || c == 0x2029
    || c == 0x202f
    || c == 0x205f
    || c == 0x3000
    || c == 0xfeff

unfoldable pub trim_start : Text → Text
trim_start [] = []
trim_start (c ∷ s) = if is_space c then trim_start s else c ∷ s

-- `s.trim()`
unfoldable pub trim : Text → Text
trim s = reverse (trim_start (reverse (trim_start s)))

-- `s.replace(c, r)` for a text `c` of one character: the first occurrence only.
unfoldable pub replace : ℕ → Text → Text → Text
replace c r [] = []
replace c r (d ∷ s) = if d == c then r ++ s else d ∷ replace c r s

-- `s.split(c)` for a text `c` of one character.
unfoldable pub split_from : ℕ → Text → Text → List Text
split_from c part [] = reverse part ∷ []
split_from c part (d ∷ s) =
    let closed = reverse part ∷ split_from c [] s in
    let longer = split_from c (d ∷ part) s in if d == c then closed else longer

unfoldable pub split : ℕ → Text → List Text
split c s = split_from c [] s

unfoldable pub is_digit : ℕ → Bool
is_digit c = leb b'0' c && leb c b'9'

-- The digits at the head of a text, and what follows them.
unfoldable pub span_digits : Text → Text × Text
span_digits [] = ([], [])
span_digits (c ∷ s) =
    let (ds, rest) = span_digits s in if is_digit c then (c ∷ ds, rest) else ([], c ∷ s)

unfoldable pub digits_value : ℕ → Text → ℕ
digits_value acc [] = acc
digits_value acc (c ∷ s) = digits_value (acc * 10 + (c - b'0')) s

-- An optional sign: whether it is a minus, and the rest.
unfoldable pub split_sign : Text → Bool × Text
split_sign [] = (false, [])
split_sign (c ∷ s) =
    if c == b'-' then (true, s) else if c == b'+' then (false, s) else (false, c ∷ s)

unfoldable pub signed : Bool → ℕ → ℤ
signed negative zero = pos 0
signed negative (suc n) = if negative then negsuc n else pos (suc n)

unfoldable pub integer_of : Bool → Text → Option ℤ
integer_of negative [] = none
integer_of negative (d ∷ ds) = some (signed negative (digits_value 0 (d ∷ ds)))

-- `parseInt(s, 10)`, with `none` for NaN. An integer is kept exactly, where JavaScript rounds it to a
-- double if it is 2 ^ 53 or more.
unfoldable pub parse_int : Text → Option ℤ
parse_int s = let (negative, t) = split_sign (trim_start s) in integer_of negative (span_digits t).0
