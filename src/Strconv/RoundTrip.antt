-- ===== src/Strconv/RoundTrip.antt =====
-- `Atoi` of what `Itoa` prints.
use Prim.Native.Char.{Char, code}
use kidle.Prelude.{
  ℕ, zero, suc, ◌+◌, ◌-◌, ◌*◌, ◌/◌, ◌%◌, ◌^◌, ◌≤◌, ◌<◌, ◌≡◌, refl, String, true, false, arith,
  Bool-cases, inl, inr, ltb, leb,
}
use kidle.Prelude.Int.{ℤ, pos, negsuc, IsInt32}
use kidle.Exec.{ok}
use kidle.Strconv.{digit, digits, itoa, scan, signed, atoi}

code-digit : (d : ℕ) → d < 10 → code (digit d) ≡ 48 + d
unfolding digit
code-digit zero h = refl
code-digit (suc zero) h = refl
code-digit (suc (suc zero)) h = refl
code-digit (suc (suc (suc zero))) h = refl
code-digit (suc (suc (suc (suc zero)))) h = refl
code-digit (suc (suc (suc (suc (suc zero))))) h = refl
code-digit (suc (suc (suc (suc (suc (suc zero)))))) h = refl
code-digit (suc (suc (suc (suc (suc (suc (suc zero))))))) h = refl
code-digit (suc (suc (suc (suc (suc (suc (suc (suc zero)))))))) h = refl
code-digit (suc (suc (suc (suc (suc (suc (suc (suc (suc zero))))))))) h = refl
code-digit (suc (suc (suc (suc (suc (suc (suc (suc (suc (suc d)))))))))) h = absurd (omega arith)

scan-digit :
    (d n : ℕ) (s : String)
    → d < 10
    → n * 10 + d < 2 ^ 64
    → scan (String.◌∷◌ (digit d) s) n ≡ scan s (n * 10 + d)
unfolding scan
scan-digit d n s h fits =
    let low : leb 48 (code (digit d)) ≡ true = ground (arith, code-digit d h) in
    let high : leb (code (digit d)) 57 ≡ true = ground (arith, code-digit d h) in
    let plain : n * 10 + (code (digit d) - 48) ≡ n * 10 + d = omega (arith, code-digit d h) in
    let small : ltb (n * 10 + d) (2 ^ 64) ≡ true = ground arith in rw (low, high, plain, small)

scan-digits : (f n : ℕ) (out : String) → n < f → n < 2 ^ 64 → scan (digits f n out) 0 ≡ scan out n
unfolding digits
scan-digits zero n out h fits = absurd (omega arith)
scan-digits (suc f) n out h fits = ground (
  arith,
  scan-digit (n % 10) 0 out,
  scan-digit (n % 10) (n / 10) out,
  scan-digits f (n / 10) (String.◌∷◌ (digit (n % 10)) out),
)

abbrev StartsWithDigit : String → Type 0
StartsWithDigit s = (c : Char) × (r : String) × (s ≡ String.◌∷◌ c r) × (48 ≤ code c) × (code c ≤ 57)

digits-StartsWithDigit : (f n : ℕ) (out : String) → n < f → StartsWithDigit (digits f n out)
unfolding digits
digits-StartsWithDigit zero n out h = absurd (omega arith)
digits-StartsWithDigit (suc f) n out h = elim (Bool-cases (ltb n 10)) [
  | inl short ↦ rw short (
    digit (n % 10),
    out,
    refl,
    omega (arith, code-digit (n % 10)),
    omega (arith, code-digit (n % 10)),
  )
  | inr long ↦
      rw long (digits-StartsWithDigit f (n / 10) (String.◌∷◌ (digit (n % 10)) out) (ground arith))
]

atoi-unsigned : (s : String) → StartsWithDigit s → atoi s ≡ signed s false (scan s 0)
unfolding atoi
atoi-unsigned s (c, r, e, lo, hi) = rw e (ground arith)

atoi-negative :
    (s : String)
    → StartsWithDigit s
    → atoi (String.◌∷◌ "-" s) ≡ signed (String.◌∷◌ "-" s) true (scan s 0)
unfolding atoi
atoi-negative s (c, r, e, lo, hi) = rw e refl

-- `Atoi` returns the number that `Itoa` printed, for every value of an `int32`.
pub atoi-itoa : (v : ℤ) → IsInt32 v → atoi (itoa v) ≡ ok v
unfolding itoa signed scan
atoi-itoa (pos n) h = ground (
  arith,
  atoi-unsigned (digits (suc n) n "") (digits-StartsWithDigit (suc n) n "" (omega arith)),
  scan-digits (suc n) n "",
)
atoi-itoa (negsuc n) h = ground (
  arith,
  atoi-negative (digits (suc (suc n)) (suc n) "")
      (digits-StartsWithDigit (suc (suc n)) (suc n) "" (omega arith)),
  scan-digits (suc (suc n)) (suc n) "",
)

-- Different values print differently.
pub itoa-injective : (v w : ℤ) → IsInt32 v → IsInt32 w → itoa v ≡ itoa w → v ≡ w
itoa-injective v w hv hw e = cc (atoi-itoa v hv, atoi-itoa w hw, e)
