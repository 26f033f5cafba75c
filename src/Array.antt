-- ===== src/Array.antt =====
-- pkg/utils/array/string.go
pub mod Laws
use kidle.Prelude.{String, Bool, true, false, List, [], ◌∷◌, ◌==◌, if◌then◌else◌}

-- The loop of `ContainsString` returns at the first item that is `s`.
unfoldable pub contains_string : List String → String → Bool
contains_string [] s = false
contains_string (item ∷ slice) s = if item == s then true else contains_string slice s

-- `RemoveString`: the items that are not `s`, in their order.
unfoldable pub remove_string : List String → String → List String
remove_string [] s = []
remove_string (item ∷ slice) s =
    let result = remove_string slice s in if item == s then result else item ∷ result
