-- ===== src/Cluster/Responsive.antt =====
-- An API server that answers: while it is up, it returns what it stores and accepts what the code
-- writes over an object that it stores.
use kidle.Prelude.{◌≡◌, some}
use kidle.Exec.{ok}
use kidle.Meta.{Key, key_of, MetaObject}
use kidle.Cluster.{Cluster, ObjectClient, Slot}

-- `Up` is the states of the server in which it answers, and a call of the client does not end them.
pub record IsResponsive {W O : Type 0} (view : W → Cluster) (slot : Slot O) (object : MetaObject O)
    (c : ObjectClient W O) (Up : W → Type 0) : Type 0 where
  pub get-Up : (k : Key) (w : W) → Up w → Up (c.get k w).1
  pub get_stored :
      (k : Key) (w : W) (o : O) → Up w → slot.read (view w) k ≡ some o → (c.get k w).0 ≡ ok o
  pub update-Up : (o : O) (w : W) → Up w → Up (c.update o w).1
  pub update_stored :
      (o old : O) (w : W)
      → Up w
      → slot.read (view w) (key_of (object.meta o)) ≡ some old
      → (c.update o w).0 ≡ ok tt
