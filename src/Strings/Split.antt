-- ===== src/Strings/Split.antt =====
-- `strings.Split` of a text with one separator.
use Prim.Native.Char.{Char, code}
use Prim.Native.String.{◌++◌ as ◌<>◌}
use text.Mathlib.TextLemmas.{nil-append, cons-append}
use kidle.Prelude.{String, ◌≡◌, refl, Bool, true, ◌&&◌, not, [], ◌∷◌, arith, eqb}
use kidle.Strings.{split}

-- The text has no such character.
unfoldable pub lacks : Char → String → Bool
lacks sep String.[] = true
lacks sep (String.◌∷◌ c s) = not (eqb (code c) (code sep)) && lacks sep s

split_whole : (sep : Char) (s : String) → lacks sep s ≡ true → split sep s ≡ s ∷ []
unfolding split lacks
split_whole sep String.[] h = refl
split_whole sep (String.◌∷◌ c s) h = ground (arith, split_whole sep s)

pub split_pair :
    (sep : Char) (s t : String)
    → lacks sep s ≡ true
    → lacks sep t ≡ true
    → split sep (s <> String.◌∷◌ sep t) ≡ s ∷ t ∷ []
unfolding split lacks
split_pair sep String.[] t h k = rw nil-append (ground (arith, split_whole sep t k))
split_pair sep (String.◌∷◌ c s) t h k = rw cons-append (ground (arith, split_pair sep s t))
