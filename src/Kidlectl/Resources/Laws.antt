-- ===== src/Kidlectl/Resources/Laws.antt =====
-- The texts that `kidlectl create` accepts as a kind, and their listing.
use Prim.Native.Char.{code}
use mathlib.Core.List.{Perm}
use kidle.Prelude.{
  String, ◌≡◌, refl, Bool, true, not, ◌&&◌, List, [], ◌∷◌, ◌++◌, arith, leb, ◌==◌, eq_iff,
  Bool-cases, inl, inr,
}
use kidle.Exec.{Result, ok, err, panic}
use kidle.Array.{contains_string}
use kidle.Strings.Sort.{sort_strings-Perm}
use kidle.Kidlectl.Resources.{
  GroupVersion, GroupVersionKind, ApiResource, ApiResourceList, Discovery, allowed_gvk, keys_of,
  print_allowed_resources, resource_prefixes, gvk_prefixes, prefixes_from, get_allowed_prefixes,
  all_prefixes, get_allowed_resources,
}

-- The listing of the allowed resources is the same for every order in which Go visits the keys of
-- the map.
pub print_allowed_resources-Perm :
    (keys others : List String)
    → Perm keys others
    → print_allowed_resources keys ≡ print_allowed_resources others
unfolding print_allowed_resources
print_allowed_resources-Perm keys others p = rw (sort_strings-Perm p) refl

-- No letter of the text is one of A to Z.
unfoldable pub no_capital : String → Bool
no_capital String.[] = true
no_capital (String.◌∷◌ c s) = not (leb 65 (code c) && leb (code c) 90) && no_capital s

unfoldable pub all_lower : List String → Bool
all_lower [] = true
all_lower (s ∷ l) = no_capital s && all_lower l

all_lower-append :
    (l m : List String) → all_lower l ≡ true → all_lower m ≡ true → all_lower (l ++ m) ≡ true
unfolding all_lower
all_lower-append [] m h k = k
all_lower-append (s ∷ l) m h k = ground (arith, all_lower-append l m)

all_lower-keys_of : (l : List String) → all_lower l ≡ true → all_lower (keys_of l) ≡ true
unfolding all_lower keys_of
all_lower-keys_of [] h = refl
all_lower-keys_of (s ∷ l) h = ground (arith, all_lower-keys_of l)

all_lower-contains_string :
    (l : List String) (s : String)
    → all_lower l ≡ true
    → contains_string l s ≡ true
    → no_capital s ≡ true
unfolding all_lower contains_string
all_lower-contains_string [] s h k = cc
all_lower-contains_string (t ∷ l) s h k = ground (arith, all_lower-contains_string l s, eq_iff t s)

-- The short names that a server publishes have no capitals.
unfoldable pub short_lower : List ApiResource → Bool
short_lower [] = true
short_lower (r ∷ resources) = all_lower r.short_names && short_lower resources

unfoldable pub lists_lower : List ApiResourceList → Bool
lists_lower [] = true
lists_lower (l ∷ lists) = short_lower l.api_resources && lists_lower lists

kinds_lower : List GroupVersionKind → Bool
kinds_lower [] = true
kinds_lower (gvk ∷ gvks) = no_capital gvk.kind && kinds_lower gvks

-- Of a failure nothing is asked.
lower_result : Result (List String) → Bool
lower_result (ok l) = all_lower l
lower_result (err e) = true
lower_result (panic m) = true

module _ {W : Type 0} (discovery : Discovery W)
    (singulars : (gv : GroupVersion) (kind : String)
      → no_capital (discovery.guess_singular gv kind) ≡ true) where
  all_lower-resource_prefixes :
      (gvk : GroupVersionKind) (gv : GroupVersion) (resources : List ApiResource) (l : List String)
      → no_capital gvk.kind ≡ true
      → short_lower resources ≡ true
      → all_lower l ≡ true
      → all_lower (resource_prefixes discovery gvk gv resources l) ≡ true
  unfolding resource_prefixes short_lower all_lower
  all_lower-resource_prefixes gvk gv [] l plain short h = h
  all_lower-resource_prefixes gvk gv (r ∷ resources) l plain short h =
      let singular : String = discovery.guess_singular gv r.kind in
      let kept : List String = l ++ r.short_names in
      elim (Bool-cases (gvk.kind == r.name)) [
        | inl same ↦
            let named : no_capital r.name ≡ true = rw (← (eq_iff gvk.kind r.name).0 same) plain in
            let own : all_lower (singular ∷ r.name ∷ []) ≡ true =
              ground (arith, singulars gv r.kind) in
            let first : all_lower kept ≡ true = all_lower-append l r.short_names h (ground arith) in
            rw same (
              all_lower-resource_prefixes gvk gv resources (kept ++ (singular ∷ r.name ∷ [])) plain
                (ground arith) (all_lower-append kept (singular ∷ r.name ∷ []) first own))
        | inr other ↦
            rw other (all_lower-resource_prefixes gvk gv resources l plain (ground arith) h)
      ]

  lower-gvk_prefixes :
      (gvk : GroupVersionKind) (rl : ApiResourceList) (parsed : Result GroupVersion)
      (l : List String)
      → no_capital gvk.kind ≡ true
      → short_lower rl.api_resources ≡ true
      → all_lower l ≡ true
      → lower_result (gvk_prefixes discovery gvk rl parsed l) ≡ true
  unfolding gvk_prefixes lower_result
  lower-gvk_prefixes gvk rl (ok gv) l plain short h =
      ground (arith, all_lower-resource_prefixes gvk gv rl.api_resources l plain short h)
  lower-gvk_prefixes gvk rl (err e) l plain short h = refl
  lower-gvk_prefixes gvk rl (panic m) l plain short h = refl

  lower-prefixes_from :
      (gvks : List GroupVersionKind) (rl : ApiResourceList) (r : Result (List String))
      → kinds_lower gvks ≡ true
      → short_lower rl.api_resources ≡ true
      → lower_result r ≡ true
      → lower_result (prefixes_from discovery gvks rl r) ≡ true
  unfolding prefixes_from lower_result kinds_lower
  lower-prefixes_from [] rl r plain short h = h
  lower-prefixes_from (gvk ∷ gvks) rl (ok l) plain short h =
      let parsed : Result GroupVersion = discovery.parse_group_version rl.group_version in
      ground (
        arith,
        lower-gvk_prefixes gvk rl parsed l,
        lower-prefixes_from gvks rl (gvk_prefixes discovery gvk rl parsed l),
      )
  lower-prefixes_from (gvk ∷ gvks) rl (err e) plain short h = refl
  lower-prefixes_from (gvk ∷ gvks) rl (panic m) plain short h = refl

  lower-all_prefixes :
      (lists : List ApiResourceList) (r : Result (List String))
      → lists_lower lists ≡ true
      → lower_result r ≡ true
      → lower_result (all_prefixes discovery lists r) ≡ true
  unfolding all_prefixes get_allowed_prefixes lists_lower lower_result kinds_lower no_capital
  lower-all_prefixes [] r short h = h
  lower-all_prefixes (rl ∷ lists) (ok l) short h = ground (
    arith,
    lower-prefixes_from allowed_gvk rl (ok l) refl,
    lower-all_prefixes lists (prefixes_from discovery allowed_gvk rl (ok l)),
  )
  lower-all_prefixes (rl ∷ lists) (err e) short h = refl
  lower-all_prefixes (rl ∷ lists) (panic m) short h = refl

  allowed_at :
      (w : W) (resources : List String) (lists : Result (List ApiResourceList))
      (prefixes : Result (List String))
      → (discovery.server_groups_and_resources w).0 ≡ lists
      → ((given : List ApiResourceList)
          → lists ≡ ok given
          → (lists_lower given ≡ true) × (all_prefixes discovery given (ok []) ≡ prefixes))
      → (get_allowed_resources discovery w).0 ≡ ok resources
      → all_lower resources ≡ true
  unfolding get_allowed_resources lower_result all_lower
  allowed_at w resources (ok lists) (ok prefixes) g short e =
      let (low, made) = short lists refl in
      let lower : all_lower prefixes ≡ true =
        rw made at (lower-all_prefixes lists (ok []) low refl) in
      let keys : keys_of prefixes ≡ resources = ground arith in
      rw (← keys) (all_lower-keys_of prefixes lower)
  allowed_at w resources (ok lists) (err m) g short e = ground (arith, (short lists refl).1)
  allowed_at w resources (ok lists) (panic m) g short e = ground (arith, (short lists refl).1)
  allowed_at w resources (err m) prefixes g short e = ground arith
  allowed_at w resources (panic m) prefixes g short e = ground arith

  prefixes_of : Result (List ApiResourceList) → Result (List String)
  prefixes_of (ok lists) = all_prefixes discovery lists (ok [])
  prefixes_of (err e) = err e
  prefixes_of (panic m) = panic m

  -- A kind that is allowed has no capitals.
  pub no_capital_allowed :
      (w : W) (resources : List String) (kind : String)
      → ((lists : List ApiResourceList)
          → (discovery.server_groups_and_resources w).0 ≡ ok lists
          → lists_lower lists ≡ true)
      → (get_allowed_resources discovery w).0 ≡ ok resources
      → contains_string resources kind ≡ true
      → no_capital kind ≡ true
  unfolding prefixes_of
  no_capital_allowed w resources kind short e there =
      let lists : Result (List ApiResourceList) = (discovery.server_groups_and_resources w).0 in
      let lower : all_lower resources ≡ true =
        allowed_at w resources lists (prefixes_of lists) refl
          (λ given same. (short given same, rw same refl)) e in
      all_lower-contains_string resources kind lower there
