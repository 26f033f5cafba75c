-- ===== src/Idler/Change/Live.antt =====
-- A change of a stored object under an API server that is up.
use kidle.Prelude.{◌≡◌, refl, some}
use kidle.Exec.{Result, ok}
use kidle.Meta.{key_of, MetaObject}
use kidle.Cluster.{Cluster, ObjectClient, Slot, IsLawful}
use kidle.Cluster.Responsive.{IsResponsive}
use kidle.Cluster.Retry.{RetryOnConflict, IsRetry}
use kidle.Idler.Change.{Local, change}
use kidle.Idler.Change.Progress.{change_returns}
use kidle.Idler.Change.Updated.{IsCurrent, KeepsIdentity}

module _ {W O : Type 0} {view : W → Cluster} {slot : Slot O} {object : MetaObject O}
    {c : ObjectClient W O} {Up : W → Type 0} (law : IsLawful view slot object c)
    (responsive : IsResponsive view slot object c Up) {retry : RetryOnConflict}
    (retries : IsRetry retry) (f : O → Result O) (keeps : KeepsIdentity view slot object f) where
  -- It returns with success, with the image of the object, and the server is still up.
  pub change_succeeds :
      (s : Local W O) (n : O)
      → IsCurrent view slot object s
      → Up s.cluster
      → f s.object ≡ ok n
      → (t : Local W O) × (change object c retry f s ≡ (ok tt, t)) × (t.object ≡ n) × Up t.cluster
  change_succeeds s n current up made =
      let read = c.get (key_of (object.meta s.object)) s.cluster in
      let up_read : Up read.1 = responsive.get-Up _ s.cluster up in
      let there : slot.read (view read.1) (key_of (object.meta n)) ≡ some s.object =
        rw (law.get-view, (keeps s.object n made).0) current in
      (
        record { object = n; cluster = (c.update n read.1).1 },
        change_returns object c f retries s s.object n tt
            (responsive.get_stored _ s.cluster s.object up current) made
            (responsive.update_stored n s.object read.1 up_read there),
        refl,
        responsive.update-Up n read.1 up_read,
      )
