-- ===== src/Cluster.antt =====
-- The Kubernetes API as controller-runtime's `client.Client` gives it to the code: a parameter.
-- `W` is the state of the API server with all that an answer may depend on, so a call may fail at
-- any time. `Cluster` is what the server stores, and `IsLawful` is what the API documents of it.
pub mod Retry
pub mod Responsive
use kidle.Prelude.{
  ℕ, String, ◌≡◌, ◌≢◌, refl, Bool, true, false, ◌&&◌, Option, none, some, List, [], ◌∷◌,
  if◌then◌else◌,
}
use kidle.Exec.{Reason, not_found, conflict, Error, api, Result, ok, err, panic, Exec}
use kidle.Meta.{Key, same_key, ObjectMeta, key_of, MetaObject}
use kidle.Objects.{Workload, CronJob, ServiceAccount, Role, RoleBinding}
use kidle.Api.{IdlingResource}

-- `client.Client` for one type of object. `get` returns the object that the code's variable holds
-- afterwards.
pub record ObjectClient (W O : Type 0) : Type 0 where
  pub get : Key → Exec W O
  pub update : O → Exec W (Unit {0})
  pub create : O → Exec W (Unit {0})
  pub delete : O → Exec W (Unit {0})

pub record Client (W : Type 0) : Type 0 where
  pub idling_resources : ObjectClient W IdlingResource
  pub deployments : ObjectClient W Workload
  pub stateful_sets : ObjectClient W Workload
  pub cron_jobs : ObjectClient W CronJob
  pub service_accounts : ObjectClient W ServiceAccount
  pub roles : ObjectClient W Role
  pub role_bindings : ObjectClient W RoleBinding

abbrev pub Stored : Type 0 → Type 0
Stored O = Key → Option O

abbrev pub put {ℓ} : {O : Type ℓ} → Key → Option O → (Key → Option O) → Key → Option O
put k o m j = if same_key k j then o else m j

-- The objects that the API server stores.
pub record Cluster : Type 0 where
  pub idling_resources : Stored IdlingResource
  pub deployments : Stored Workload
  pub stateful_sets : Stored Workload
  pub cron_jobs : Stored CronJob
  pub service_accounts : Stored ServiceAccount
  pub roles : Stored Role
  pub role_bindings : Stored RoleBinding

-- The place of one type of object in the cluster.
pub record Slot (O : Type 0) : Type 0 where
  pub read : Cluster → Stored O
  pub write : Stored O → Cluster → Cluster
  pub read-write : (m : Stored O) (c : Cluster) → read (write m c) ≡ m
  pub write-read : (c : Cluster) → write (read c) c ≡ c
  pub write-write : (m n : Stored O) (c : Cluster) → write m (write n c) ≡ write m c

abbrev pub idling_resource_slot : Slot IdlingResource
idling_resource_slot = record {
  read = λ c. c.idling_resources;
  write = λ m c. record c { idling_resources = m };
  read-write = λ m c. refl;
  write-read = λ c. refl;
  write-write = λ m n c. refl;
}

abbrev pub deployment_slot : Slot Workload
deployment_slot = record {
  read = λ c. c.deployments;
  write = λ m c. record c { deployments = m };
  read-write = λ m c. refl;
  write-read = λ c. refl;
  write-write = λ m n c. refl;
}

abbrev pub stateful_set_slot : Slot Workload
stateful_set_slot = record {
  read = λ c. c.stateful_sets;
  write = λ m c. record c { stateful_sets = m };
  read-write = λ m c. refl;
  write-read = λ c. refl;
  write-write = λ m n c. refl;
}

abbrev pub cron_job_slot : Slot CronJob
cron_job_slot = record {
  read = λ c. c.cron_jobs;
  write = λ m c. record c { cron_jobs = m };
  read-write = λ m c. refl;
  write-read = λ c. refl;
  write-write = λ m n c. refl;
}

abbrev pub is_ok {ℓ} : {A : Type ℓ} → Result A → Bool
is_ok (ok a) = true
is_ok (err e) = false
is_ok (panic m) = false

-- An object that is being deleted goes away with its last finalizer.
abbrev pub is_gone : ObjectMeta → Bool
is_gone m = elim m.deletion_timestamp [
  | none ↦ false
  | some time ↦ elim m.finalizers [ [] ↦ true | f ∷ fs ↦ false ]
]

abbrev pub settled {ℓ} : {O : Type ℓ} → Bool → O → Option O
settled gone o = if gone then none else some o

-- Nothing is stored any more, or an object that is marked as being deleted.
abbrev pub IsLeaving : {O : Type 0} → MetaObject O → Option O → Type 0
IsLeaving object none = Unit {0}
IsLeaving object (some o) = (time : ℕ) × ((object.meta o).deletion_timestamp ≡ some time)

-- What the API documents, while the calls of one run are the only writers: a read changes no
-- object and returns the stored one, a failed write changes nothing, and a write that succeeds
-- changes the one object that it names.
pub record IsLawful {W O : Type 0} (view : W → Cluster) (slot : Slot O) (object : MetaObject O)
    (c : ObjectClient W O) : Type 0 where
  pub get-view : (k : Key) (w : W) → view (c.get k w).1 ≡ view w
  pub get-ok : (k : Key) (w : W) (o : O) → (c.get k w).0 ≡ ok o → slot.read (view w) k ≡ some o
  pub get-not_found :
      (k : Key) (w : W) (message : String)
      → (c.get k w).0 ≡ err (api not_found message)
      → slot.read (view w) k ≡ none
  pub get_key :
      (k : Key) (w : W) (o : O) → slot.read (view w) k ≡ some o → key_of (object.meta o) ≡ k
  pub get_lives :
      (k : Key) (w : W) (o : O) → slot.read (view w) k ≡ some o → is_gone (object.meta o) ≡ false
  pub update-ok :
      (o : O) (w : W) (u : Unit {0})
      → (c.update o w).0 ≡ ok u
      → view (c.update o w).1
        ≡ slot.write
            (put
              (key_of (object.meta o))
              (settled (is_gone (object.meta o)) o)
              (slot.read (view w)))
            (view w)
  pub update_failed :
      (o : O) (w : W) → is_ok (c.update o w).0 ≡ false → view (c.update o w).1 ≡ view w
  pub create-ok :
      (o : O) (w : W) (u : Unit {0})
      → (c.create o w).0 ≡ ok u
      → view (c.create o w).1
        ≡ slot.write (put (key_of (object.meta o)) (some o) (slot.read (view w))) (view w)
  pub create_failed :
      (o : O) (w : W) → is_ok (c.create o w).0 ≡ false → view (c.create o w).1 ≡ view w
  -- A delete removes the object, or marks it as being deleted, or fails.
  pub delete-view :
      (o : O) (w : W)
      → (left : Option O) × (view (c.delete o w).1
          ≡ slot.write (put (key_of (object.meta o)) left (slot.read (view w))) (view w))
  pub delete-ok :
      (o : O) (w : W) (u : Unit {0})
      → (c.delete o w).0 ≡ ok u
      → IsLeaving object (slot.read (view (c.delete o w).1) (key_of (object.meta o)))
  pub delete-not_found :
      (o : O) (w : W) (message : String)
      → (c.delete o w).0 ≡ err (api not_found message)
      → slot.read (view (c.delete o w).1) (key_of (object.meta o)) ≡ none

abbrev pub service_account_slot : Slot ServiceAccount
service_account_slot = record {
  read = λ c. c.service_accounts;
  write = λ m c. record c { service_accounts = m };
  read-write = λ m c. refl;
  write-read = λ c. refl;
  write-write = λ m n c. refl;
}

abbrev pub role_slot : Slot Role
role_slot = record {
  read = λ c. c.roles;
  write = λ m c. record c { roles = m };
  read-write = λ m c. refl;
  write-read = λ c. refl;
  write-write = λ m n c. refl;
}

abbrev pub role_binding_slot : Slot RoleBinding
role_binding_slot = record {
  read = λ c. c.role_bindings;
  write = λ m c. record c { role_bindings = m };
  read-write = λ m c. refl;
  write-read = λ c. refl;
  write-write = λ m n c. refl;
}
