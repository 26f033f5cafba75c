-- ===== src/Tests/Store.antt =====
-- An API server in memory: its state and its client for one type of objects, with the laws.
use kidle.Prelude.{
  String, ℕ, zero, suc, ◌≡◌, refl, ap, sym, ◌∙◌, fun_ext, Bool, true, false, not, ◌&&◌, Option,
  none, some, if◌then◌else◌, Bool-cases, inl, inr,
}
use kidle.Exec.{not_found, conflict, already_exists, Error, api, Result, ok, err, Exec}
use kidle.Meta.{Key, same_key, key_of, MetaObject}
use kidle.Objects.{
  workload_object, cron_job_object, service_account_object, role_object, role_binding_object,
}
use kidle.Api.{idling_resource_object}
use kidle.Cluster.{ObjectClient, Stored, put, Cluster, Slot, is_ok, is_gone, settled, IsLawful}
use kidle.Idler.Change.Updated.{put_self, same_key-eq, put_stored}

pub record Memory : Type 0 where
  pub stored : Cluster
  -- how many of the next writes are refused
  pub conflicts : ℕ

-- An entry is visible under its own key, until its object is gone.
abbrev shown {ℓ} : {O : Type ℓ} → Bool → O → Option O
shown b o = if b then some o else none

abbrev see : {O : Type 0} → MetaObject O → Key → Option O → Option O
see object k none = none
see object k (some o) =
    shown (same_key (key_of (object.meta o)) k && not (is_gone (object.meta o))) o

abbrev visible : {O : Type 0} → MetaObject O → Stored O → Stored O
visible object m k = see object k (m k)

see-if :
    {O : Type 0} (seen : Option O → Option O) (named gone : Bool) (o : O) (rest : Option O)
    → seen (some o) ≡ shown (named && not gone) o
    → seen (if named then some o else rest) ≡ (if named then settled gone o else seen rest)
see-if seen true true o rest h = h
see-if seen true false o rest h = h
see-if seen false gone o rest h = refl

shown-eq-some :
    {O : Type 0} (named gone : Bool) (p o : O)
    → shown (named && not gone) p ≡ some o
    → (p ≡ o) × (named ≡ true) × (gone ≡ false)
shown-eq-some true true p o e = (cc, cc, cc)
shown-eq-some true false p o e = (cc, refl, refl)
shown-eq-some false gone p o e = (cc, cc, cc)

abbrev pub view : Memory → Cluster
view w = record {
  idling_resources = visible idling_resource_object w.stored.idling_resources;
  deployments = visible workload_object w.stored.deployments;
  stateful_sets = visible workload_object w.stored.stateful_sets;
  cron_jobs = visible cron_job_object w.stored.cron_jobs;
  service_accounts = visible service_account_object w.stored.service_accounts;
  roles = visible role_object w.stored.roles;
  role_bindings = visible role_binding_object w.stored.role_bindings;
}

module _ {O : Type 0} (object : MetaObject O) (slot : Slot O) where
  abbrev pub found : Memory → Option O → Result O × Memory
  found w none = (err (api not_found "not found"), w)
  found w (some o) = (ok o, w)

  abbrev get : Key → Exec Memory O
  get k w = found w (visible object (slot.read w.stored) k)

  abbrev stored_under : Key → Option O → Memory → Memory
  stored_under k o w = record w { stored = slot.write (put k o (slot.read w.stored)) w.stored }

  abbrev written : Key → Option O → Memory → ℕ → Result (Unit {0}) × Memory
  written k o w zero = (ok tt, stored_under k o w)
  written k o w (suc n) = (err (api conflict "conflict"), record w { conflicts = n })

  abbrev write : Key → Option O → Exec Memory (Unit {0})
  write k o w = written k o w w.conflicts

  abbrev created : O → Memory → Option O → Bool → Result (Unit {0}) × Memory
  created o w none true = (err (api conflict "deleted"), w)
  created o w none false = write (key_of (object.meta o)) (some o) w
  created o w (some other) gone = (err (api already_exists "exists"), w)

  abbrev create : O → Exec Memory (Unit {0})
  create o w =
      created o w (visible object (slot.read w.stored) (key_of (object.meta o)))
        (is_gone (object.meta o))

  abbrev pub object_client : ObjectClient Memory O
  object_client = record {
    get = get;
    update = λ o. write (key_of (object.meta o)) (some o);
    create = create;
    delete = λ o. write (key_of (object.meta o)) none;
  }

  visible-put :
      (o : O) (m : Stored O)
      → visible object (put (key_of (object.meta o)) (some o) m)
        ≡ put (key_of (object.meta o)) (settled (is_gone (object.meta o)) o) (visible object m)
  visible-put o m = fun_ext λ j.
      see-if (see object j) (same_key (key_of (object.meta o)) j) (is_gone (object.meta o)) o (m j)
        refl

  visible-put-none :
      (k : Key) (m : Stored O) → visible object (put k none m) ≡ put k none (visible object m)
  visible-put-none k m =
      fun_ext λ j. elim (Bool-cases (same_key k j)) [
        | inl same ↦ rw same refl
        | inr other ↦ rw other refl
      ]

  view-found : (w : Memory) (x : Option O) → view (found w x).1 ≡ view w
  view-found w none = refl
  view-found w (some o) = refl

  found-ok : (w : Memory) (x : Option O) (o : O) → (found w x).0 ≡ ok o → x ≡ some o
  found-ok w none o e = cc
  found-ok w (some p) o e = cc

  found-err : (w : Memory) (x : Option O) (m : Error) → (found w x).0 ≡ err m → x ≡ none
  found-err w none m e = refl
  found-err w (some p) m e = cc

  see-eq-some :
      (k : Key) (x : Option O) (o : O)
      → see object k x ≡ some o
      → (same_key (key_of (object.meta o)) k ≡ true) × (is_gone (object.meta o) ≡ false)
  see-eq-some k none o e = (cc, cc)
  see-eq-some k (some p) o e =
      let (same, named, lives) =
        shown-eq-some (same_key (key_of (object.meta p)) k) (is_gone (object.meta p)) p o e in
      (rw (← same) named, rw (← same) lives)

  module _ (reads : (w : Memory) → slot.read (view w) ≡ visible object (slot.read w.stored))
      (shows : (m : Stored O) (w : Memory)
        → view (record w { stored = slot.write m w.stored })
          ≡ slot.write (visible object m) (view w)) where
    view-written :
        (o : O) (w : Memory) (n : ℕ) (u : Unit {0})
        → (written (key_of (object.meta o)) (some o) w n).0 ≡ ok u
        → view (written (key_of (object.meta o)) (some o) w n).1
          ≡ slot.write
              (put
                (key_of (object.meta o))
                (settled (is_gone (object.meta o)) o)
                (slot.read (view w)))
              (view w)
    view-written o w zero u e =
        let now = put (key_of (object.meta o)) (settled (is_gone (object.meta o)) o) in
        shows (put (key_of (object.meta o)) (some o) (slot.read w.stored)) w
        ∙ ap (λ n. slot.write n (view w))
            (visible-put o (slot.read w.stored) ∙ ap now (sym (reads w)))
    view-written o w (suc n) u e = cc

    view-written_failed :
        (o : O) (w : Memory) (n : ℕ)
        → is_ok (written (key_of (object.meta o)) (some o) w n).0 ≡ false
        → view (written (key_of (object.meta o)) (some o) w n).1 ≡ view w
    view-written_failed o w zero e = cc
    view-written_failed o w (suc n) e = refl

    view-created :
        (o : O) (w : Memory) (x : Option O) (gone : Bool) (u : Unit {0})
        → is_gone (object.meta o) ≡ gone
        → (created o w x gone).0 ≡ ok u
        → view (created o w x gone).1
          ≡ slot.write (put (key_of (object.meta o)) (some o) (slot.read (view w))) (view w)
    view-created o w none true u h e = cc
    view-created o w none false u h e = rw h at (view-written o w w.conflicts u e)
    view-created o w (some other) gone u h e = cc

    view-created_failed :
        (o : O) (w : Memory) (x : Option O) (gone : Bool)
        → is_ok (created o w x gone).0 ≡ false
        → view (created o w x gone).1 ≡ view w
    view-created_failed o w none true e = refl
    view-created_failed o w none false e = view-written_failed o w w.conflicts e
    view-created_failed o w (some other) gone e = refl

    view-removed :
        (k : Key) (w : Memory)
        → view (written k none w zero).1 ≡ slot.write (put k none (slot.read (view w))) (view w)
    view-removed k w =
        shows (put k none (slot.read w.stored)) w
        ∙ ap (λ n. slot.write n (view w))
            (visible-put-none k (slot.read w.stored) ∙ ap (put k none) (sym (reads w)))

    -- Once a delete has succeeded, nothing is stored under the key.
    read-removed :
        (k : Key) (w : Memory) (n : ℕ) (u : Unit {0})
        → (written k none w n).0 ≡ ok u
        → slot.read (view (written k none w n).1) k ≡ none
    read-removed k w zero u e =
        rw (view-removed k w, slot.read-write) (put_self k none (slot.read (view w)))
    read-removed k w (suc n) u e = cc

    delete_finds :
        (k : Key) (w : Memory) (n : ℕ) (message : String)
        → (written k none w n).0 ≡ err (api not_found message)
        → slot.read (view (written k none w n).1) k ≡ none
    delete_finds k w zero message e = cc
    delete_finds k w (suc n) message e = cc

    view-deleted :
        (k : Key) (w : Memory) (n : ℕ)
        → (left : Option O) × (view (written k none w n).1
            ≡ slot.write (put k left (slot.read (view w))) (view w))
    view-deleted k w zero = (none, view-removed k w)
    view-deleted k w (suc n) = (
      slot.read (view w) k,
      sym (slot.write-read (view w))
          ∙ ap (λ m. slot.write m (view w)) (sym (put_stored k (slot.read (view w)))),
    )

    pub object_client-IsLawful : IsLawful view slot object object_client
    object_client-IsLawful = record {
      get-view = λ k w. view-found w (visible object (slot.read w.stored) k);
      get-ok = λ k w o e. rw reads (found-ok w (visible object (slot.read w.stored) k) o e);
      get-not_found = λ k w message e.
          rw reads (found-err w (visible object (slot.read w.stored) k) (api not_found message) e);
      get_key =
          λ k w o e. same_key-eq _ k (see-eq-some k (slot.read w.stored k) o (rw reads at e)).0;
      get_lives = λ k w o e. (see-eq-some k (slot.read w.stored k) o (rw reads at e)).1;
      update-ok = λ o w u e. view-written o w w.conflicts u e;
      update_failed = λ o w e. view-written_failed o w w.conflicts e;
      create-ok = λ o w u e. view-created o w _ _ u refl e;
      create_failed = λ o w e. view-created_failed o w _ _ e;
      delete-view = λ o w. view-deleted (key_of (object.meta o)) w w.conflicts;
      delete-ok = λ o w u e. rw (read-removed (key_of (object.meta o)) w w.conflicts u e) tt;
      delete-not_found =
          λ o w message e. delete_finds (key_of (object.meta o)) w w.conflicts message e;
    }
