-- ===== src/Pointer/Laws.antt =====
-- A pointer to a new variable.
use kidle.Prelude.Int.{ℤ}
use kidle.Prelude.{
  ℕ, ◌≡◌, refl, Bool, true, false, Option, none, some, [], ◌∷◌, ◌++◌, arith, ◌<◌, zero, suc,
}
use kidle.Pointer.{
  length, Heap, Pointer, new_variable, same_pointer, value_of, int32, int64, bool, differs_from_new,
}

-- What a program can hold: `nil`, or the address of a variable that it has made.
abbrev pub IsHeld {ℓ} : {A : Type ℓ} → Heap A → Pointer → Type 0
IsHeld heap none = Unit {0}
IsHeld heap (some a) = a < length heap

value_of-append {ℓ} :
    {A : Type ℓ} (heap : Heap A) (v : A) (a : ℕ)
    → a < length heap
    → value_of (heap ++ (v ∷ [])) (some a) ≡ value_of heap (some a)
unfolding value_of
value_of-append [] v a h = ground arith
value_of-append (w ∷ heap) v zero h = refl
value_of-append (w ∷ heap) v (suc a) h = value_of-append heap v a (omega arith)

value_of-new {ℓ} :
    {A : Type ℓ} (heap : Heap A) (v : A) → value_of (heap ++ (v ∷ [])) (some (length heap)) ≡ some v
unfolding value_of
value_of-new [] v = refl
value_of-new (w ∷ heap) v = value_of-new heap v

-- A new variable has the address `made.0` in the heap `made.1`: the address differs from the pointer
-- that is held, whatever the heap is, as the comparison computes it from the value behind this
-- pointer; it points to the value, and the pointer that is held points to what it did.
abbrev pub IsFresh {ℓ} :
    {A : Type ℓ} → (A → Heap A → Pointer × Heap A) → Heap A → A → Pointer → Type ℓ
IsFresh make heap v p =
    (same_pointer p (make v heap).0 ≡ false)
    × (differs_from_new make (value_of heap p) v ≡ true)
    × (value_of (make v heap).1 (make v heap).0 ≡ some v)
    × (value_of (make v heap).1 p ≡ value_of heap p)

differs_from_new_always {ℓ} :
    {A : Type ℓ} (p : Option A) (v : A) → differs_from_new new_variable p v ≡ true
unfolding differs_from_new new_variable same_pointer
differs_from_new_always none v = refl
differs_from_new_always (some w) v = refl

new_variable-IsFresh {ℓ} :
    {A : Type ℓ} (heap : Heap A) (v : A) (p : Pointer)
    → IsHeld heap p
    → IsFresh new_variable heap v p
unfolding new_variable same_pointer value_of
new_variable-IsFresh heap v none h =
    (refl, differs_from_new_always none v, value_of-new heap v, refl)
new_variable-IsFresh heap v (some a) h =
    (ground arith, differs_from_new_always _ v, value_of-new heap v, value_of-append heap v a h)

-- The guards of the idlers and of the CronJobs are always true.
pub differs_from_new-int32 : (p : Option ℤ) (v : ℤ) → differs_from_new int32 p v ≡ true
differs_from_new-int32 p v = differs_from_new_always p v

pub differs_from_new-bool : (p : Option Bool) (v : Bool) → differs_from_new bool p v ≡ true
differs_from_new-bool p v = differs_from_new_always p v

-- `Int32`, `Int64` and `Bool` each return the address of a new variable: it differs from every
-- pointer that the program holds, also by the comparison that the code's guards make; it points to
-- the given value, and every pointer that is held points to what it pointed to before.
pub pointers-IsFresh :
    (numbers : Heap ℤ) (flags : Heap Bool) (v : ℤ) (b : Bool) (p q : Pointer)
    → IsHeld numbers p
    → IsHeld flags q
    → IsFresh int32 numbers v p × IsFresh int64 numbers v p × IsFresh bool flags b q
pointers-IsFresh numbers flags v b p q held held' = (
  new_variable-IsFresh numbers v p held,
  new_variable-IsFresh numbers v p held,
  new_variable-IsFresh flags b q held',
)
