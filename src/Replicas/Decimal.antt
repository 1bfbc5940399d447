-- ===== src/Replicas/Decimal.antt =====
-- What the code uses of Go's strings and strconv on texts given by their bytes:
-- strings.HasSuffix(s, "%") with s[:len(s)-1], and strconv.ParseInt(s, 10, 32).
use mathlib.Core.Option
use extended_deployment.Base.{
  ℕ, zero, suc, ◌+◌, ◌-◌, ◌*◌, ◌/◌, ◌%◌, ◌<◌, ◌^◌, ◌≡◌, refl, ℤ, pos, negsuc, ltb, leb, ◌==◌, Bool,
  ◌&&◌, if◌then◌else◌, Option, none, some, List, [], ◌∷◌, ◌++◌, arith,
}

-- The text before a final "%".
unfoldable pub cut_percent : List ℕ → Option (List ℕ)
cut_percent [] = none
cut_percent (c ∷ []) = if c == b'%' then some [] else none
cut_percent (c ∷ d ∷ s) = Option.map (λ r. c ∷ r) (cut_percent (d ∷ s))

abbrev is_digit : ℕ → Bool
is_digit c = leb b'0' c && leb c b'9'

unfoldable pub parse_digits : ℕ → List ℕ → Option ℕ
parse_digits acc [] = some acc
parse_digits acc (c ∷ s) =
    let rest = parse_digits (acc * 10 + (c - b'0')) s in if is_digit c then rest else none

-- At least one digit.
unfoldable pub parse_uint : List ℕ → Option ℕ
unfolding parse_digits
parse_uint [] = none
parse_uint (c ∷ s) = parse_digits 0 (c ∷ s)

abbrev positive32 : Option ℕ → Option ℤ
positive32 none = none
positive32 (some n) = if ltb n (2 ^ 31) then some (pos n) else none

abbrev negative32 : Option ℕ → Option ℤ
negative32 none = none
negative32 (some zero) = some (pos 0)
negative32 (some (suc n)) = if ltb n (2 ^ 31) then some (negsuc n) else none

unfoldable pub parse_int32 : List ℕ → Option ℤ
unfolding parse_uint
parse_int32 [] = none
parse_int32 (c ∷ s) =
    if c == b'+'
    then positive32 (parse_uint s)
    else if c == b'-'
    then negative32 (parse_uint s)
    else positive32 (parse_uint (c ∷ s))

-- A text ends in "%" exactly if it is the text before it and "%".
pub cut_percent-append : (s : List ℕ) → cut_percent (s ++ b'%' ∷ []) ≡ some s
unfolding cut_percent
cut_percent-append [] = refl
cut_percent-append (c ∷ []) = refl
cut_percent-append (c ∷ d ∷ s) = rw (cut_percent-append (d ∷ s))

-- The decimal digits of a number below 1000.
unfoldable pub digits3 : ℕ → List ℕ
digits3 n =
    if ltb n 10
    then (b'0' + n) ∷ []
    else if ltb n 100
    then (b'0' + n / 10) ∷ (b'0' + n % 10) ∷ []
    else (b'0' + n / 100) ∷ (b'0' + n / 10 % 10) ∷ (b'0' + n % 10) ∷ []

pub parse_int32-digits3 : (n : ℕ) → n < 1000 → parse_int32 (digits3 n) ≡ some (pos n)
unfolding parse_int32 digits3
parse_int32-digits3 n h = ground arith
