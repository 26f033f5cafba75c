-- ===== src/Containers.antt =====
-- pkg/utils/k8s/types.go
pub mod Laws
use kidle.Prelude.{String, Option, none, some, List, [], ◌∷◌, ◌==◌, if◌then◌else◌}
use kidle.Objects.{Container}

-- `ContainersToMap`: of two containers with one name, the later one is in the map.
unfoldable pub containers_to_map : List Container → String → Option Container
containers_to_map [] name = none
containers_to_map (c ∷ containers) name = elim (containers_to_map containers name) [
  | some later ↦ some later
  | none ↦ if c.name == name then some c else none
]

-- `SetContainer`: the first container with the name is replaced.
unfoldable pub set_container : List Container → Container → List Container
set_container [] container = []
set_container (c ∷ containers) container =
    let rest = set_container containers container in
    if c.name == container.name then container ∷ containers else c ∷ rest
