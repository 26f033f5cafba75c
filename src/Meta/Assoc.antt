-- ===== src/Meta/Assoc.antt =====
-- The entries of a `map[string]string`. Go's maps have no order, so the newest entry stands first.
use kidle.Prelude.{
  String, ◌≡◌, Option, none, some, List, [], ◌∷◌, arith, ◌==◌, eq_iff, if◌then◌else◌,
}

abbrev pub Entries : Type 0
Entries = List (String × String)

unfoldable pub lookup : String → Entries → Option String
lookup name [] = none
lookup name (entry ∷ entries) =
    let rest = lookup name entries in if entry.0 == name then some entry.1 else rest

unfoldable pub erase : String → Entries → Entries
erase name [] = []
erase name (entry ∷ entries) =
    let rest = erase name entries in if entry.0 == name then rest else entry ∷ rest

unfoldable pub insert : String → String → Entries → Entries
unfolding erase
insert name value entries = (name, value) ∷ erase name entries

pub lookup-erase :
    (a b : String) (entries : Entries)
    → lookup b (erase a entries) ≡ (if a == b then none else lookup b entries)
unfolding lookup erase
lookup-erase a b [] = ground arith
lookup-erase a b (entry ∷ entries) =
    ground (arith, lookup-erase a b entries, eq_iff entry.0 a, eq_iff entry.0 b, eq_iff a b)

pub lookup-insert :
    (a b value : String) (entries : Entries)
    → lookup b (insert a value entries) ≡ (if a == b then some value else lookup b entries)
unfolding lookup insert
lookup-insert a b value entries = ground (arith, lookup-erase a b entries)
