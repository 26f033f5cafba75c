-- ===== src/Strings/Sort.antt =====
-- `sort.Strings` gives one result for all orders of the same texts.
use Prim.Native.Char.{Char, code}
use text.Mathlib.TextEquality.{codes_equal}
use text.Mathlib.TextPositions.{compare_self}
use kidle.Prelude.{
  String, ◌≡◌, refl, ap, ◌∙◌, sym, true, false, List, [], ◌∷◌, arith, ◌==◌, eq_iff, Bool-cases, inl,
  inr,
}
use mathlib.Core.List.{Perm, foldr}
use mathlib.Core.List.Perm
use std.HLevel.{hedberg}
use mathlib.Core.List
use kidle.Strings.{at_most, insert_sorted, sort_strings}

char-eq : (c d : Char) → code c ≡ code d → c ≡ d
char-eq c d h = codes_equal c d (rw h (compare_self (code d)))

at_most_total : (s t : String) → at_most s t ≡ false → at_most t s ≡ true
unfolding at_most
at_most_total String.[] t h = cc
at_most_total (String.◌∷◌ c s) String.[] h = refl
at_most_total (String.◌∷◌ c s) (String.◌∷◌ d t) h = ground (arith, at_most_total s t)

at_most_antisym : (s t : String) → at_most s t ≡ true → at_most t s ≡ true → s ≡ t
unfolding at_most
at_most_antisym String.[] String.[] h k = refl
at_most_antisym String.[] (String.◌∷◌ d t) h k = cc
at_most_antisym (String.◌∷◌ c s) String.[] h k = cc
at_most_antisym (String.◌∷◌ c s) (String.◌∷◌ d t) h k =
    ground (arith, at_most_antisym s t, char-eq c d)

at_most_trans : (s t u : String) → at_most s t ≡ true → at_most t u ≡ true → at_most s u ≡ true
unfolding at_most
at_most_trans String.[] t u h k = refl
at_most_trans (String.◌∷◌ c s) String.[] u h k = cc
at_most_trans (String.◌∷◌ c s) (String.◌∷◌ d t) String.[] h k = cc
at_most_trans (String.◌∷◌ c s) (String.◌∷◌ d t) (String.◌∷◌ e u) h k =
    ground (arith, at_most_trans s t u)

insert_sorted_comm :
    (s t : String) (l : List String)
    → insert_sorted s (insert_sorted t l) ≡ insert_sorted t (insert_sorted s l)
unfolding insert_sorted
insert_sorted_comm s t [] = ground (arith, at_most_total s t, at_most_antisym s t)
insert_sorted_comm s t (u ∷ l) = ground (
  arith,
  insert_sorted_comm s t l,
  at_most_total s t,
  at_most_antisym s t,
  at_most_total s u,
  at_most_total t u,
  at_most_trans s t u,
  at_most_trans t s u,
)

String_discrete : Discrete String
String_discrete s t = elim (Bool-cases (s == t)) [
  | inl e ↦ yes ((eq_iff s t).0 e)
  | inr e ↦ no (λ h. ground (arith, (eq_iff s t).1 h))
]

sort_strings-foldr : (l : List String) → sort_strings l ≡ foldr insert_sorted [] l
unfolding sort_strings
sort_strings-foldr [] = refl
sort_strings-foldr (s ∷ l) = ap (insert_sorted s) (sort_strings-foldr l)

pub sort_strings-Perm : {l m : List String} → Perm l m → sort_strings l ≡ sort_strings m
sort_strings-Perm {l} {m} p =
    sort_strings-foldr l
    ∙ Perm.foldr-eq (List.is_set (hedberg String_discrete)) insert_sorted insert_sorted_comm p []
    ∙ sym (sort_strings-foldr m)
