-- ===== src/Dns/Length.antt =====
-- How long the names are that `ToDNSName` makes.
use Prim.Native.String.{◌++◌ as ◌<>◌, count}
use text.Mathlib.TextLemmas.{length-append, length-cons, length-nil}
use kidle.Prelude.{
  ℕ, zero, suc, ◌+◌, ◌-◌, ◌≤◌, ◌<◌, ◌≡◌, refl, String, arith, Bool-cases, inl, inr, leb,
}
use kidle.Exec.{ok}
use kidle.Dns.{
  take, to_lower, encode_to_string, lowered, slice_to, base64, dashed, shortened, to_dns_name,
  joined,
}

count-take : (n : ℕ) (s : String) → n ≤ count s → count (take n s) ≡ n
unfolding take
count-take zero s h = length-nil
count-take (suc n) String.[] h = absurd (omega (arith, length-nil))
count-take (suc n) (String.◌∷◌ c s) h =
    omega (arith, count-take n s, length-cons c s, length-cons c (take n s))

count-to_lower : (s : String) → count (to_lower s) ≡ count s
unfolding to_lower
count-to_lower String.[] = refl
count-to_lower (String.◌∷◌ c s) =
    omega (arith, count-to_lower s, length-cons c s, length-cons (lowered c) (to_lower s))

-- A text of four characters has at least six symbols.
count-encode_to_string : (s : String) → 4 ≤ count s → 6 ≤ count (encode_to_string s)
unfolding encode_to_string
count-encode_to_string String.[] h = absurd (grind (arith, length-cons, length-nil))
count-encode_to_string (String.◌∷◌ a String.[]) h = absurd (grind (arith, length-cons, length-nil))
count-encode_to_string (String.◌∷◌ a (String.◌∷◌ b String.[])) h =
    absurd (grind (arith, length-cons, length-nil))
count-encode_to_string (String.◌∷◌ a (String.◌∷◌ b (String.◌∷◌ c String.[]))) h =
    absurd (grind (arith, length-cons, length-nil))
count-encode_to_string (String.◌∷◌ a (String.◌∷◌ b (String.◌∷◌ c (String.◌∷◌ d String.[])))) h =
    grind (arith, length-cons)
count-encode_to_string
      (String.◌∷◌ a (String.◌∷◌ b (String.◌∷◌ c (String.◌∷◌ d (String.◌∷◌ e String.[]))))) h =
    grind (arith, length-cons)
count-encode_to_string
      (String.◌∷◌ a (String.◌∷◌ b (String.◌∷◌ c (String.◌∷◌ d (String.◌∷◌ e (String.◌∷◌ f s))))))
      h =
    grind (arith, length-cons)

slice_to-ok : (n : ℕ) (s : String) → n ≤ count s → slice_to n s ≡ ok (take n s)
unfolding slice_to
slice_to-ok n s h = ground arith

count-dashed : (suffix : String) → count (dashed suffix) ≤ suc (count suffix)
count-dashed suffix = ground (arith, length-append "-" suffix)

count-joined :
    (p k b s : String)
    → count (to_lower (p <> "-" <> k <> "-" <> b <> s)) ≡ count p + count k + count b + count s + 2
count-joined p k b s = grind (arith, length-append, count-to_lower)

shortened-length :
    (prefix name suffix : String)
    → count prefix + count suffix + 8 ≤ 63
    → 63 < count prefix + 1 + count name + count suffix
    → (r : String) × (shortened prefix name suffix ≡ ok r) × (count r ≤ 63)
unfolding shortened base64 joined
shortened-length prefix name suffix fits long =
    let i : count (prefix <> "-" <> suffix) ≡ count prefix + count suffix + 1 =
      grind (arith, length-append) in
    let k : ℕ = 63 - count (prefix <> "-" <> suffix) - 7 in
    let b : 6 ≤ count (encode_to_string name) = count-encode_to_string name (omega (arith, i)) in
    let kept : count (take k name) ≡ k = count-take k name (omega (arith, i)) in
    let six : count (take 6 (encode_to_string name)) ≡ 6 = count-take 6 (encode_to_string name) b in
    (
      to_lower (prefix <> "-" <> take k name <> "-" <> take 6 (encode_to_string name) <> suffix),
      ground (arith, i, b),
      omega (
        arith,
        i,
        kept,
        six,
        count-joined prefix (take k name) (take 6 (encode_to_string name)) suffix,
      ),
    )

-- A prefix and a suffix of at most 54 characters together always make a name, of at most 63
-- characters.
pub to_dns_name-length :
    (prefix name suffix : String)
    → count prefix + count suffix ≤ 54
    → (r : String) × (to_dns_name prefix name suffix ≡ ok r) × (count r ≤ 63)
unfolding to_dns_name
to_dns_name-length prefix name suffix fits =
    let n : String = prefix <> "-" <> name <> dashed suffix in
    let c : count n ≡ count prefix + 1 + count name + count (dashed suffix) =
      grind (arith, length-append) in
    let d : count (dashed suffix) ≤ suc (count suffix) = count-dashed suffix in
    elim (Bool-cases (leb (count n) 63)) [
      | inl short ↦ (n, rw short refl, ground arith)
      | inr long ↦
          rw long
            (shortened-length prefix name (dashed suffix) (omega (arith, d)) (ground (arith, c)))
    ]
