-- ===== src/Containers/Laws.antt =====
-- What `SetContainer` leaves in a list of containers.
use kidle.Prelude.{
  String, ◌≡◌, ◌≢◌, refl, Bool, true, not, ◌&&◌, none, some, List, [], ◌∷◌, arith, ◌==◌, eq_iff,
  eq_refl, Bool-cases, inl, inr,
}
use kidle.Objects.{Container}
use kidle.Containers.{containers_to_map, set_container}

-- `ContainersToMap` after `SetContainer`: every name other than that of the container that is set
-- has the container it had.
pub containers_to_map-set_container_other :
    (containers : List Container) (container : Container) (name : String)
    → container.name ≢ name
    → containers_to_map (set_container containers container) name
      ≡ containers_to_map containers name
unfolding containers_to_map set_container
containers_to_map-set_container_other [] container name other = refl
containers_to_map-set_container_other (c ∷ containers) container name other = ground (
  arith,
  containers_to_map-set_container_other containers container name other,
  eq_iff c.name container.name,
  eq_iff c.name name,
  eq_iff container.name name,
)

-- No container has the name.
lacks_name : String → List Container → Bool
lacks_name name [] = true
lacks_name name (c ∷ containers) = not (c.name == name) && lacks_name name containers

-- No two containers have one name, as Kubernetes asks of a pod.
unfoldable pub distinct_names : List Container → Bool
unfolding lacks_name
distinct_names [] = true
distinct_names (c ∷ containers) = lacks_name c.name containers && distinct_names containers

containers_to_map-none :
    (containers : List Container) (name : String)
    → lacks_name name containers ≡ true
    → containers_to_map containers name ≡ none
unfolding containers_to_map lacks_name
containers_to_map-none [] name h = refl
containers_to_map-none (c ∷ containers) name h =
    ground (arith, containers_to_map-none containers name)

pub name-containers_to_map :
    (containers : List Container) (name : String) (found : Container)
    → containers_to_map containers name ≡ some found
    → found.name ≡ name
unfolding containers_to_map
name-containers_to_map [] name found e = cc
name-containers_to_map (c ∷ containers) name found e =
    ground (arith, name-containers_to_map containers name found, eq_iff c.name name)

-- `ContainersToMap` after `SetContainer` has the container that is set under its name, where a
-- container of that name is there and the names are distinct.
pub containers_to_map-set_container :
    (containers : List Container) (container found : Container)
    → distinct_names containers ≡ true
    → containers_to_map containers container.name ≡ some found
    → containers_to_map (set_container containers container) container.name ≡ some container
unfolding containers_to_map set_container distinct_names
containers_to_map-set_container [] container found h e = cc
containers_to_map-set_container (c ∷ containers) container found h e =
    elim (Bool-cases (c.name == container.name)) [
      | inl same ↦
          let named : c.name ≡ container.name = (eq_iff c.name container.name).0 same in
          let lacking : lacks_name c.name containers ≡ true = ground arith in
          let alone : containers_to_map containers container.name ≡ none =
            containers_to_map-none containers container.name (rw named at lacking) in
          rw (same, alone, eq_refl) refl
      | inr other ↦ ground (arith, containers_to_map-set_container containers container found)
    ]
