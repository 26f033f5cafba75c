-- ===== src/Controller/WithIdler/Laws.antt =====
-- The steps that a run of `ReconcileWithIdler` that succeeds has taken, each with its result.
use Prim.Native.String.{◌++◌ as ◌<>◌}
use kidle.Prelude.{◌≡◌, refl, Bool, true, false, Option, arith, ◌⊎◌, if◌then◌else◌, inl, inr}
use kidle.Prelude.Int.{ℤ}
use kidle.Exec.{Result, ok, err, panic}
use kidle.Api.{IdlingResource, is_being_deleted}
use kidle.Cluster.{Client}
use kidle.Idler.{Idler}
use kidle.Controller.State.{Outcome, World, Run, Libraries, local_of, emit, normal, text}
use kidle.Controller.Finalizer.{remove_finalizer}
use kidle.Controller.WithIdler.{
  woken, drop_finalizer, disown, release, wake, put_to_sleep, follow, reconcile_with_idler,
}

module _ {W O : Type 0} (client : Client W) (libraries : Libraries) (idler : Idler W O) where
  -- The run after the first step, which sets the reference.
  abbrev pub referenced : IdlingResource → Run W O → Run W O
  referenced instance run =
      let l = (idler.set_reference instance.meta.name (local_of run)).1 in
      record { object = l.object; world = record (run.world) { cluster = l.cluster } }

  pub referenced_first :
      (instance : IdlingResource) (run after : Run W O) (out : Outcome)
      → reconcile_with_idler client libraries idler instance run ≡ (ok out, after)
      → (idler.set_reference instance.meta.name (local_of run)
          ≡ (ok tt, local_of (referenced instance run)))
        × ((if is_being_deleted instance
                then release client libraries idler instance
                else follow client libraries idler instance)
              (referenced instance run)
            ≡ (ok out, after))
  unfolding reconcile_with_idler
  referenced_first instance run after out e = (ground arith, ground arith)

  pub put_to_sleep-ok :
      (instance : IdlingResource) (run after : Run W O) (out : Outcome)
      → put_to_sleep client libraries idler instance run ≡ (ok out, after)
      → idler.idle (local_of run) ≡ (ok tt, local_of after)
  unfolding put_to_sleep
  put_to_sleep-ok instance run after out e = ground arith

  pub wake-ok_at :
      (instance : IdlingResource) (run after : Run W O) (out : Outcome) (woke : Result (Option ℤ))
      → (idler.wakeup (local_of run)).0 ≡ woke
      → wake client libraries idler instance run ≡ (ok out, after)
      → (p : Option ℤ) × (idler.wakeup (local_of run) ≡ (ok p, local_of after))
  unfolding wake
  wake-ok_at instance run after out (ok p) g e = (p, ground arith)
  wake-ok_at instance run after out (err m) g e = ground arith
  wake-ok_at instance run after out (panic m) g e = ground arith

  pub release-ok_at :
      (instance : IdlingResource) (run after : Run W O) (out : Outcome) (woke : Result (Option ℤ))
      → (idler.wakeup (local_of run)).0 ≡ woke
      → release client libraries idler instance run ≡ (ok out, after)
      → (p : Option ℤ) × (m : Run W O) × (idler.wakeup (local_of run) ≡ (ok p, local_of m))
        × (disown client libraries idler instance m ≡ (ok out, after))
  unfolding release
  release-ok_at instance run after out (ok p) g e =
      let l = (idler.wakeup (local_of run)).1 in
      let reason = "Scaling" <> instance.spec.idling_resource_ref.kind in
      let m : Run W O = record {
        object = l.object;
        world = emit normal reason (text (woken p)) (record (run.world) { cluster = l.cluster });
      } in
      (p, m, ground arith, ground arith)
  release-ok_at instance run after out (err m) g e = ground arith
  release-ok_at instance run after out (panic m) g e = ground arith

  pub disown-ok :
      (instance : IdlingResource) (run after : Run W O) (out : Outcome)
      → disown client libraries idler instance run ≡ (ok out, after)
      → (m : Run W O) × (idler.remove_annotations (local_of run) ≡ (ok tt, local_of m))
        × (drop_finalizer client libraries idler instance m ≡ (ok out, after))
  unfolding disown
  disown-ok instance run after out e =
      let l = (idler.remove_annotations (local_of run)).1 in
      let message =
        text
          ("Kidle annotations on " <> instance.spec.idling_resource_ref.kind <> " are deleted") in
      let m : Run W O = record {
        object = l.object;
        world = emit normal "Deleted" message (record (run.world) { cluster = l.cluster });
      } in
      (m, ground arith, ground arith)

  pub drop_finalizer-ok :
      (instance : IdlingResource) (run after : Run W O) (out : Outcome)
      → drop_finalizer client libraries idler instance run ≡ (ok out, after)
      → (x : World W) × (remove_finalizer client libraries instance run.world ≡ (ok tt, x))
        × (x.cluster ≡ after.world.cluster)
        × (after.object ≡ run.object)
  unfolding drop_finalizer
  drop_finalizer-ok instance run after out e = (
    (remove_finalizer client libraries instance run.world).1,
    ground arith,
    ground arith,
    ground arith,
  )

  pub follow_idle :
      (instance : IdlingResource) (run after : Run W O) (out : Outcome) (wish : Result Bool)
      → idler.need_wakeup instance run.object ≡ ok false
      → idler.need_idle instance run.object ≡ wish
      → follow client libraries idler instance run ≡ (ok out, after)
      → (idler.idle (local_of run) ≡ (ok tt, local_of after)) ⊎ ((wish ≡ ok false) × (after ≡ run))
  unfolding follow
  follow_idle instance run after out (ok true) g h e =
      inl (put_to_sleep-ok instance run after out (rw (g, h) at e))
  follow_idle instance run after out (ok false) g h e = inr (refl, ground arith)
  follow_idle instance run after out (err m) g h e = ground arith
  follow_idle instance run after out (panic m) g h e = ground arith

  pub follow_wake :
      (instance : IdlingResource) (run after : Run W O) (out : Outcome) (wish : Result Bool)
      → idler.need_wakeup instance run.object ≡ wish
      → idler.need_idle instance run.object ≡ ok false
      → follow client libraries idler instance run ≡ (ok out, after)
      → ((p : Option ℤ) × (idler.wakeup (local_of run) ≡ (ok p, local_of after)))
        ⊎ ((wish ≡ ok false) × (after ≡ run))
  unfolding follow
  follow_wake instance run after out (ok true) g h e =
      inl (wake-ok_at instance run after out (idler.wakeup (local_of run)).0 refl (rw g at e))
  follow_wake instance run after out (ok false) g h e = inr (refl, ground arith)
  follow_wake instance run after out (err m) g h e = ground arith
  follow_wake instance run after out (panic m) g h e = ground arith
