-- ===== src/Api/Registration.antt =====
-- pkg/api/v1beta1/groupversion_info.go, and the registration at the end of idlingresource_types.go:
-- the group under which the API server knows the types.
use kidle.Prelude.{String, List, [], ◌∷◌}

-- `schema.GroupVersion`
pub record GroupVersion : Type 0 where
  pub group : String
  pub version : String

-- `GroupVersion`
abbrev pub group_version : GroupVersion
group_version = record { group = "kidle.kidle.dev"; version = "v1beta1" }

-- The types that `SchemeBuilder` registers.
abbrev pub registered_types : List String
registered_types = "IdlingResource" ∷ "IdlingResourceList" ∷ []
