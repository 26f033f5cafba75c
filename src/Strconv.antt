-- ===== src/Strconv.antt =====
-- Go's `strconv`, as the idlers and the event filter use it: `Itoa`, `FormatBool` and `Atoi`.
use Prim.Native.Char.{Char, code}
use Prim.Native.String
use kidle.Prelude.{
  ℕ, zero, suc, ◌+◌, ◌-◌, ◌*◌, ◌/◌, ◌%◌, ◌^◌, ◌≡◌, refl, String, Bool, true, false, ◌&&◌, Option,
  none, some, ltb, leb, eqb, if◌then◌else◌,
}
use kidle.Prelude.Int.{ℤ, pos, negsuc}
pub mod RoundTrip
use kidle.Exec.{Result, ok, err, Error, bad_syntax, out_of_range}

-- The character of a digit, for `d < 10`.
digit : ℕ → Char
digit zero = "0"
digit (suc zero) = "1"
digit (suc (suc zero)) = "2"
digit (suc (suc (suc zero))) = "3"
digit (suc (suc (suc (suc zero)))) = "4"
digit (suc (suc (suc (suc (suc zero))))) = "5"
digit (suc (suc (suc (suc (suc (suc zero)))))) = "6"
digit (suc (suc (suc (suc (suc (suc (suc zero))))))) = "7"
digit (suc (suc (suc (suc (suc (suc (suc (suc zero)))))))) = "8"
digit _ = "9"

-- The digits of `n` in front of `out`. A call with more fuel than `n` prints all of them.
digits : ℕ → ℕ → String → String
unfolding digit
digits zero n out = out
digits (suc f) n out =
    let longer = String.◌∷◌ (digit (n % 10)) out in
    let rest = digits f (n / 10) longer in if ltb n 10 then longer else rest

-- `strconv.Itoa`
unfoldable pub itoa : ℤ → String
unfolding digits
itoa (pos n) = digits (suc n) n ""
itoa (negsuc n) = String.◌∷◌ "-" (digits (suc (suc n)) (suc n) "")

-- `strconv.FormatBool`
unfoldable pub format_bool : Bool → String
format_bool true = "true"
format_bool false = "false"

-- What `strconv.ParseUint` says of digits in base 10.
pub data Scan : Type 0 where
  value : ℕ → Scan
  not_digits too_large : Scan

scan : String → ℕ → Scan
scan String.[] n = value n
scan (String.◌∷◌ c s) n =
    let d = code c - 48 in
    let rest = scan s (n * 10 + d) in
    if leb 48 (code c) && leb (code c) 57
    then (if ltb (n * 10 + d) (2 ^ 64) then rest else too_large)
    else not_digits

parse_uint : String → Scan
unfolding scan
parse_uint String.[] = not_digits
parse_uint (String.◌∷◌ c s) = scan (String.◌∷◌ c s) 0

negate : ℕ → ℤ
negate zero = pos 0
negate (suc n) = negsuc n

-- `strconv.ParseInt` of a sign and the digits behind it; `text` is the whole, for the error.
signed : String → Bool → Scan → Result ℤ
unfolding negate
signed text negative not_digits = err (bad_syntax text)
signed text negative too_large = err (out_of_range text)
signed text false (value n) = if ltb n (2 ^ 63) then ok (pos n) else err (out_of_range text)
signed text true (value n) = if leb n (2 ^ 63) then ok (negate n) else err (out_of_range text)

-- `strconv.Atoi`
unfoldable pub atoi : String → Result ℤ
unfolding parse_uint signed
atoi String.[] = err (bad_syntax "")
atoi (String.◌∷◌ c s) =
    let text = String.◌∷◌ c s in
    if eqb (code c) b'-'
    then signed text true (parse_uint s)
    else if eqb (code c) b'+'
    then signed text false (parse_uint s)
    else signed text false (parse_uint text)
