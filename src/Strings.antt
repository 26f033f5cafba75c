-- ===== src/Strings.antt =====
-- Go's `strings.Split` and `sort.Strings`, as kidlectl uses them.
pub mod Split
pub mod Sort
use Prim.Native.Char.{Char, code}
use Prim.Native.String
use kidle.Prelude.{ℕ, String, Bool, true, false, List, [], ◌∷◌, ltb, eqb, if◌then◌else◌}

-- A character in front of the first part.
abbrev onto_first : Char → List String → List String
onto_first c [] = String.◌∷◌ c "" ∷ []
onto_first c (part ∷ parts) = String.◌∷◌ c part ∷ parts

-- `strings.Split(s, sep)` for a separator of one character
unfoldable pub split : Char → String → List String
split sep String.[] = "" ∷ []
split sep (String.◌∷◌ c s) =
    let rest = split sep s in if eqb (code c) (code sep) then "" ∷ rest else onto_first c rest

-- `s <= t`: bytes of UTF-8 are ordered as the characters are.
unfoldable pub at_most : String → String → Bool
at_most String.[] t = true
at_most (String.◌∷◌ c s) String.[] = false
at_most (String.◌∷◌ c s) (String.◌∷◌ d t) =
    let rest = at_most s t in
    if ltb (code c) (code d) then true else if ltb (code d) (code c) then false else rest

unfoldable pub insert_sorted : String → List String → List String
insert_sorted s [] = s ∷ []
insert_sorted s (t ∷ ts) =
    let rest = insert_sorted s ts in if at_most s t then s ∷ t ∷ ts else t ∷ rest

-- `sort.Strings`: any sorting gives the same slice of texts.
unfoldable pub sort_strings : List String → List String
unfolding insert_sorted
sort_strings [] = []
sort_strings (s ∷ ts) = insert_sorted s (sort_strings ts)
