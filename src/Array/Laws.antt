-- ===== src/Array/Laws.antt =====
-- What `ContainsString` finds and `RemoveString` leaves.
use kidle.Prelude.{
  String, ◌≡◌, refl, true, false, List, [], ◌∷◌, ◌++◌, arith, ◌==◌, eq_iff, if◌then◌else◌,
}
use kidle.Array.{contains_string, remove_string}

-- `ContainsString` after `RemoveString`: the removed text is gone, and every other one is found as
-- before.
pub contains_string-remove_string :
    (slice : List String) (s t : String)
    → contains_string (remove_string slice s) t
      ≡ (if s == t then false else contains_string slice t)
unfolding contains_string remove_string
contains_string-remove_string [] s t = ground arith
contains_string-remove_string (item ∷ slice) s t =
    ground
      (arith, contains_string-remove_string slice s t, eq_iff item s, eq_iff item t, eq_iff s t)

pub contains_string-append :
    (slice rest : List String) (t : String)
    → contains_string (slice ++ rest) t
      ≡ (if contains_string slice t then true else contains_string rest t)
unfolding contains_string
contains_string-append [] rest t = refl
contains_string-append (item ∷ slice) rest t = ground (arith, contains_string-append slice rest t)

-- A text that is not in the slice is removed without effect.
pub remove_string_absent :
    (slice : List String) (s : String)
    → contains_string slice s ≡ false
    → remove_string slice s ≡ slice
unfolding contains_string remove_string
remove_string_absent [] s h = refl
remove_string_absent (item ∷ slice) s h = ground (arith, remove_string_absent slice s)
