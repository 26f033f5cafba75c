-- ===== src/Kidlectl/Client/Ignored.antt =====
-- How the reconcile loop treats the IdlingResources that kidlectl creates.
use Prim.Native.String.{◌++◌ as ◌<>◌}
use kidle.Prelude.{String, ◌≡◌, refl, Bool, true, false, List, ◌==◌, eq_iff, Bool-cases, inl, inr}
use kidle.Exec.{ok}
use kidle.Strings.Split.{lacks}
use kidle.Meta.{Key}
use kidle.Api.{IdlingResource, idling_resource_object}
use kidle.Cluster.{Cluster, Client, idling_resource_slot, IsLawful}
use kidle.Controller.State.{finished, World, Libraries}
use kidle.Controller.Reconcile.{dispatch}
use kidle.Kidlectl.Resources.{GroupVersion, ApiResourceList, Discovery}
use kidle.Kidlectl.Resources.Laws.{no_capital, lists_lower, no_capital_allowed}
use kidle.Kidlectl.Client.{built, create_idling_resource}
use kidle.Kidlectl.Client.Laws.{with_resource}
use kidle.Kidlectl.Client.Creation.{create_idling_resource-ok}

not_named :
    (kind name : String) → no_capital kind ≡ true → no_capital name ≡ false → (kind == name) ≡ false
not_named kind name h k = elim (Bool-cases (kind == name)) [
  | inl same ↦ let e : kind ≡ name = (eq_iff kind name).0 same in cc
  | inr other ↦ other
]

dispatch_lower :
    {W : Type 0} (client : Client W) (libraries : Libraries) (ir : IdlingResource) (w : World W)
    → no_capital ir.spec.idling_resource_ref.kind ≡ true
    → dispatch client libraries ir w ≡ (ok finished, w)
unfolding dispatch no_capital
dispatch_lower client libraries ir w h =
    let kind : String = ir.spec.idling_resource_ref.kind in
    rw
      (
        not_named kind "Deployment" h refl,
        not_named kind "StatefulSet" h refl,
        not_named kind "CronJob" h refl,
      )
      refl

module _ {W : Type 0} {view : W → Cluster} (client : Client W) (libraries : Libraries)
    (discovery : Discovery W) (format : String → String)
    (law : IsLawful view idling_resource_slot idling_resource_object client.idling_resources)
    (quiet : (v : W) → view (discovery.server_groups_and_resources v).1 ≡ view v)
    (singulars : (gv : GroupVersion) (kind : String)
      → no_capital (discovery.guess_singular gv kind) ≡ true)
    (short : (v : W) (lists : List ApiResourceList)
      → (discovery.server_groups_and_resources v).0 ≡ ok lists
      → lists_lower lists ≡ true) where
  -- Where the names of resources that the server publishes have no capitals, an IdlingResource that
  -- `CreateIdlingResource` has created, for a kind and a name without a slash, is stored and has no
  -- effect: the switch of the reconcile loop on its kind does nothing, in every state.
  pub dispatch-create_idling_resource :
      (idle done : Bool) (kind name : String) (req : Key) (w x : W) (world : World W)
      → lacks "/" kind ≡ true
      → lacks "/" name ≡ true
      → create_idling_resource client.idling_resources discovery format idle
          (kind <> "/" <> name)
          req
          w
        ≡ (ok done, x)
      → (view x ≡ with_resource req (built idle kind name req) (view w))
        × (dispatch client libraries (built idle kind name req) world ≡ (ok finished, world))
  dispatch-create_idling_resource idle done kind name req w x world h k e =
      let (_, written, resources, asked, there) =
        create_idling_resource-ok discovery quiet format law idle done kind name req w x h k e in
      let lower : no_capital kind ≡ true =
        no_capital_allowed discovery singulars w resources kind (short w) asked there in
      (written, dispatch_lower client libraries (built idle kind name req) world lower)
