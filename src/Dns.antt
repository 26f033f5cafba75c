-- ===== src/Dns.antt =====
-- pkg/utils/k8s/name.go. Names are ASCII, as Kubernetes has them: a byte of a text is a character.
pub mod Length
use Prim.Native.Char.{Char, code}
use Prim.Native.String
use Prim.Native.String.{◌++◌ as ◌<>◌, count}
use kidle.Prelude.{
  ℕ, zero, suc, ◌+◌, ◌-◌, ◌*◌, ◌/◌, ◌%◌, String, Bool, ◌&&◌, ltb, leb, ◌==◌, if◌then◌else◌,
}
use kidle.Exec.{Result, ok, err, panic}

-- The character at a place of a table.
nth : ℕ → String → Char
nth n String.[] = "?"
nth zero (String.◌∷◌ c s) = c
nth (suc n) (String.◌∷◌ c s) = nth n s

-- One character of `strings.ToLower`.
lowered : Char → Char
unfolding nth
lowered c =
    let small = nth (code c - 65) "abcdefghijklmnopqrstuvwxyz" in
    if leb 65 (code c) && leb (code c) 90 then small else c

-- `strings.ToLower`
to_lower : String → String
unfolding lowered
to_lower String.[] = ""
to_lower (String.◌∷◌ c s) = String.◌∷◌ (lowered c) (to_lower s)

symbol : ℕ → Char
unfolding nth
symbol n = nth n "ABCDEFGHIJKLMNOPQRSTUVWXYZabcdefghijklmnopqrstuvwxyz0123456789+/"

-- Three bytes make four symbols.
group : ℕ → ℕ → ℕ → String → String
unfolding symbol
group a b c rest = String.◌∷◌ (symbol (a / 4)) (
    String.◌∷◌ (symbol (a % 4 * 16 + b / 16))
      (String.◌∷◌ (symbol (b % 16 * 4 + c / 64)) (String.◌∷◌ (symbol (c % 64)) rest)))

last_one : ℕ → String
unfolding symbol
last_one a = String.◌∷◌ (symbol (a / 4)) (String.◌∷◌ (symbol (a % 4 * 16)) "==")

last_two : ℕ → ℕ → String
unfolding symbol
last_two a b =
    String.◌∷◌ (symbol (a / 4))
      (String.◌∷◌ (symbol (a % 4 * 16 + b / 16)) (String.◌∷◌ (symbol (b % 16 * 4)) "="))

-- `base64.StdEncoding.EncodeToString`
encode_to_string : String → String
unfolding group last_one last_two
encode_to_string String.[] = ""
encode_to_string (String.◌∷◌ a String.[]) = last_one (code a)
encode_to_string (String.◌∷◌ a (String.◌∷◌ b String.[])) = last_two (code a) (code b)
encode_to_string (String.◌∷◌ a (String.◌∷◌ b (String.◌∷◌ c s))) =
    group (code a) (code b) (code c) (encode_to_string s)

take : ℕ → String → String
take zero s = ""
take (suc n) String.[] = ""
take (suc n) (String.◌∷◌ c s) = String.◌∷◌ c (take n s)

-- `s[:n]`
slice_to : ℕ → String → Result String
unfolding take
slice_to n s = if leb n (count s) then ok (take n s) else panic "slice bounds out of range"

-- `Base64`; the length is never negative here, so the full text is never returned.
unfoldable pub base64 : String → ℕ → Result String
unfolding slice_to encode_to_string
base64 src length = slice_to length (encode_to_string src)

abbrev pub resource_name_length_limit : ℕ
resource_name_length_limit = 63

-- The dash and the suffix, if there is one.
abbrev pub dashed : String → String
dashed suffix = if suffix == "" then suffix else "-" <> suffix

joined : String → Result String → Result String → String → Result String
unfolding to_lower
joined prefix (ok kept) (ok b64) suffix =
    ok (to_lower (prefix <> "-" <> kept <> "-" <> b64 <> suffix))
joined prefix (ok kept) (err e) suffix = err e
joined prefix (ok kept) (panic m) suffix = panic m
joined prefix (err e) b64 suffix = err e
joined prefix (panic m) b64 suffix = panic m

-- A name that is too long: `left - 7` characters of it are kept.
shortened : String → String → String → Result String
unfolding slice_to base64 joined
shortened prefix name suffix =
    let i = count (prefix <> "-" <> suffix) in
    let left = resource_name_length_limit - i in
    let cut = joined prefix (slice_to (left - 7) name) (base64 name 6) suffix in
    if ltb resource_name_length_limit (i + 7) then panic "slice bounds out of range" else cut

-- `ToDNSName`
unfoldable pub to_dns_name : String → String → String → Result String
unfolding shortened
to_dns_name prefix name suffix =
    let n = prefix <> "-" <> name <> dashed suffix in
    let short = shortened prefix name (dashed suffix) in
    if leb (count n) resource_name_length_limit then ok n else short
