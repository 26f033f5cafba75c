-- ===== src/Idler/Change/Updated.antt =====
-- An idler's step as a client of the API sees it: the relation `Updated` between two states.
use kidle.Prelude.{
  ◌≡◌, refl, ap, sym, ◌∙◌, fun_ext, true, false, Option, some, arith, eq_iff, eq_refl, Bool-cases,
  inl, inr,
}
use kidle.Exec.{Result, ok}
use kidle.Meta.{Key, same_key, key_of, MetaObject}
use kidle.Cluster.{Cluster, ObjectClient, Slot, Stored, put, is_ok, is_gone, IsLawful}
use kidle.Cluster.Retry.{RetryOnConflict, IsRetry}
use kidle.Idler.Change.{Local, change}
use kidle.Idler.Change.Laws.{change-ok, change_failed}

same_key_refl : (k : Key) → same_key k k ≡ true
same_key_refl k = ground (arith, eq_refl k.namespace, eq_refl k.name)

pub same_key-eq : (k j : Key) → same_key k j ≡ true → k ≡ j
same_key-eq k j h = ground (arith, eq_iff k.namespace j.namespace, eq_iff k.name j.name)

pub put_self {ℓ} : {O : Type ℓ} (k : Key) (o : Option O) (m : Key → Option O) → put k o m k ≡ o
put_self k o m = rw (same_key_refl k)

pub put_stored {ℓ} : {O : Type ℓ} (k : Key) (m : Key → Option O) → put k (m k) m ≡ m
put_stored k m = fun_ext λ j. elim (Bool-cases (same_key k j)) [
  | inl same ↦ rw same (ap m (same_key-eq k j same))
  | inr other ↦ rw other refl
]

pub put-put {ℓ} :
    {O : Type ℓ} (k : Key) (o p : Option O) (m : Key → Option O) → put k o (put k p m) ≡ put k o m
put-put k o p m = fun_ext λ j. ground arith

module _ {W O : Type 0} (view : W → Cluster) (slot : Slot O) (object : MetaObject O) where
  abbrev pub key : Local W O → Key
  key s = key_of (object.meta s.object)

  -- The idler's copy is the stored object.
  abbrev pub IsCurrent : Local W O → Type 0
  IsCurrent s = slot.read (view s.cluster) (key s) ≡ some s.object

  pub record Updated (s t : Local W O) : Type 0 where
    pub named : key t ≡ key s
    pub written :
        view t.cluster
        ≡ slot.write (put (key s) (some t.object) (slot.read (view s.cluster))) (view s.cluster)

  pub Updated-IsCurrent : {s t : Local W O} → Updated s t → IsCurrent t
  Updated-IsCurrent {s} {t} h =
      rw (h.named, h.written, slot.read-write)
        (put_self (key s) (some t.object) (slot.read (view s.cluster)))

  pub Updated-refl : (s : Local W O) → IsCurrent s → Updated s s
  Updated-refl s h = record {
    named = refl;
    written =
        let m : Stored O = slot.read (view s.cluster) in
        sym (slot.write-read (view s.cluster))
        ∙ ap (λ n. slot.write n (view s.cluster)) (sym (put_stored (key s) m))
        ∙ ap (λ o. slot.write (put (key s) o m) (view s.cluster)) h;
  }

  pub Updated-trans : {s t u : Local W O} → Updated s t → Updated t u → Updated s u
  Updated-trans {s} {t} {u} h k = record {
    named = k.named ∙ h.named;
    written = k.written ∙ rw (h.named, h.written, slot.read-write, slot.write-write, put-put) refl;
  }

  -- Reads after the step, and a new copy of the same object, make no difference.
  pub Updated-reread :
      {s t m : Local W O}
      → m.object ≡ t.object
      → view m.cluster ≡ view t.cluster
      → Updated s t
      → Updated s m
  Updated-reread read kept h = record {
    named = rw read h.named;
    written = rw (kept, read) h.written;
  }

  -- What an idler's edit leaves alone: the key, and whether the object goes away when it is stored.
  abbrev pub KeepsIdentity : (O → Result O) → Type 0
  KeepsIdentity f =
      (o o' : O)
      → f o ≡ ok o'
      → (key_of (object.meta o') ≡ key_of (object.meta o))
        × (is_gone (object.meta o') ≡ is_gone (object.meta o))

module _ {W O : Type 0} {view : W → Cluster} {slot : Slot O} {object : MetaObject O}
    {c : ObjectClient W O} (law : IsLawful view slot object c) {retry : RetryOnConflict}
    (retries : IsRetry retry) (f : O → Result O) (keeps : KeepsIdentity view slot object f) where
  -- A change made to the stored object stores its image.
  pub change-Updated :
      (s t : Local W O) (u : Unit {0})
      → IsCurrent view slot object s
      → change object c retry f s ≡ (ok u, t)
      → Updated view slot object s t × (f s.object ≡ ok t.object)
  change-Updated s t u current e =
      let keeps_key = λ (o o' : O) (p : f o ≡ ok o'). (keeps o o' p).0 in
      let keeps_life = λ (o o' : O) (p : f o ≡ ok o'). (keeps o o' p).1 in
      let ch = change-ok view slot object c law f keeps_key keeps_life retries s t u e in
      let same : ch.before ≡ s.object = cc (ch.found, current) in
      (
        record {
          named =
              keeps_key ch.before t.object ch.computed ∙ law.get_key _ s.cluster ch.before ch.found;
          written = ch.written;
        },
        rw (← same) ch.computed,
      )

  pub change-view_failed :
      (s t : Local W O) (r : Result (Unit {0}))
      → change object c retry f s ≡ (r, t)
      → is_ok r ≡ false
      → view t.cluster ≡ view s.cluster
  change-view_failed s t r e h =
      change_failed view slot object c law f (λ o o' p. (keeps o o' p).0)
        (λ o o' p. (keeps o o' p).1) retries s t r e h
