-- ===== src/Controller/FinalizerLaws.antt =====
-- What `addFinalizer` and `removeFinalizer` of the reconciler store.
use kidle.Prelude.{◌≡◌, true, false, arith}
use kidle.Exec.{ok}
use kidle.Meta.{key_of}
use kidle.Api.{
  IdlingResource, idling_resource_object, idling_resource_finalizer_name, has_finalizer,
}
use kidle.Cluster.{Cluster, Client, put, settled, is_gone, idling_resource_slot, IsLawful}
use kidle.Controller.State.{World, Libraries, IsDocumented}
use kidle.Controller.Finalizer.{with_finalizers, remove_finalizer}

-- `removeFinalizer` stores the instance without the finalizer, or deletes it if the finalizer
-- was its last one and it is being deleted. No other object changes.
pub record Removed {W : Type 0} (view : W → Cluster) (instance : IdlingResource) (w x : World W)
    : Type 0 where
  pub changed : IdlingResource
  pub freed : has_finalizer changed idling_resource_finalizer_name ≡ false
  pub written : view x.cluster ≡ record (view w.cluster) {
    idling_resources =
        put
          (key_of instance.meta)
          (settled (is_gone changed.meta) changed)
          ((view w.cluster).idling_resources);
  }

module _ {W : Type 0} {view : W → Cluster} (client : Client W) (libraries : Libraries)
    (law : IsLawful view idling_resource_slot idling_resource_object client.idling_resources)
    (documented : IsDocumented libraries) where
  pub remove_finalizer-ok :
      (instance : IdlingResource) (w x : World W) (u : Unit {0})
      → has_finalizer instance idling_resource_finalizer_name ≡ true
      → remove_finalizer client libraries instance w ≡ (ok u, x)
      → Removed view instance w x
  unfolding remove_finalizer has_finalizer
  remove_finalizer-ok instance w x u has e =
      let name = idling_resource_finalizer_name in
      let changed =
        with_finalizers instance (libraries.remove_finalizer instance.meta.finalizers name) in
      let stored : (client.idling_resources.update changed w.cluster).0 ≡ ok tt = ground arith in
      let moved : x.cluster ≡ (client.idling_resources.update changed w.cluster).1 = ground arith in
      record {
        changed = changed;
        freed = documented.contains_string-remove_finalizer instance.meta.finalizers name name;
        written = rw moved (law.update-ok changed w.cluster tt stored);
      }
