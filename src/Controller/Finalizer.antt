-- ===== src/Controller/Finalizer.antt =====
-- `addFinalizer` and `removeFinalizer` of the reconciler.
use kidle.Prelude.{String, List, if◌then◌else◌}
use kidle.Exec.{errorf, Exec, pure, raise, ◌>>◌}
use kidle.Array.{contains_string}
use kidle.Api.{IdlingResource, idling_resource_finalizer_name}
use kidle.Cluster.{Client}
use kidle.Controller.State.{World, Libraries, calling, on_error}

abbrev pub with_finalizers : IdlingResource → List String → IdlingResource
with_finalizers instance finalizers = record instance {
  meta = record (instance.meta) { finalizers = finalizers };
}

module _ {W : Type 0} (client : Client W) (libraries : Libraries) where
  -- Returns the changed instance, which the caller goes on with.
  unfoldable pub add_finalizer : IdlingResource → Exec (World W) IdlingResource
  add_finalizer instance = do
    let changed =
        with_finalizers instance
          (libraries.add_finalizer instance.meta.finalizers idling_resource_finalizer_name)
    on_error (calling (client.idling_resources.update changed))
        (λ e. raise (errorf "failed to update idling resource finalizer" e))
    pure changed

  unfoldable pub remove_finalizer : IdlingResource → Exec (World W) (Unit {0})
  remove_finalizer instance =
      let changed =
        with_finalizers instance
          (libraries.remove_finalizer instance.meta.finalizers idling_resource_finalizer_name) in
      if contains_string instance.meta.finalizers idling_resource_finalizer_name
      then on_error (calling (client.idling_resources.update changed))
          (λ e. raise (errorf "error when removing idling resource finalizer" e))
      else pure tt
