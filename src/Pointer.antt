-- ===== src/Pointer.antt =====
-- pkg/utils/pointer/pointer.go: `Int32`, `Int64` and `Bool` return the address of a new variable; and
-- the comparison with such an address in pkg/controllers/idler and pkg/controllers/cron_strategies.go.
pub mod Laws
use kidle.Prelude.{
  ℕ, zero, suc, Bool, true, false, Option, none, some, List, [], ◌∷◌, ◌++◌, eqb, ◌-◌, if◌then◌else◌,
  not,
}
use kidle.Prelude.Int.{ℤ}

-- The variables of one type that a program has made, the one at address 0 first, and a pointer to
-- one of them or `nil`.
abbrev pub Heap {ℓ} : Type ℓ → Type ℓ
Heap A = List A

abbrev pub Pointer : Type 0
Pointer = Option ℕ

abbrev pub length {ℓ} : {A : Type ℓ} → List A → ℕ
length [] = 0
length (x ∷ xs) = suc (length xs)

unfoldable pub new_variable {ℓ} : {A : Type ℓ} → A → Heap A → Pointer × Heap A
new_variable v heap = (some (length heap), heap ++ (v ∷ []))

-- `pointer.Int32`
abbrev pub int32 : ℤ → Heap ℤ → Pointer × Heap ℤ
int32 = new_variable

-- `pointer.Int64`
abbrev pub int64 : ℤ → Heap ℤ → Pointer × Heap ℤ
int64 = new_variable

-- `pointer.Bool`
abbrev pub bool : Bool → Heap Bool → Pointer × Heap Bool
bool = new_variable

-- `p == q`
unfoldable pub same_pointer : Pointer → Pointer → Bool
same_pointer none none = true
same_pointer (some a) (some b) = eqb a b
same_pointer _ _ = false

-- The value that a pointer points to.
unfoldable pub value_of {ℓ} : {A : Type ℓ} → Heap A → Pointer → Option A
value_of heap none = none
value_of [] (some a) = none
value_of (v ∷ heap) (some zero) = some v
value_of (v ∷ heap) (some (suc a)) = value_of heap (some a)

-- A field that holds a pointer, as the pointer and the variable behind it.
abbrev pub field {ℓ} : {A : Type ℓ} → Option A → Pointer × Heap A
field none = (none, [])
field (some v) = (some 0, v ∷ [])

-- `p != pointer.Int32(v)` and `p != pointer.Bool(v)`: Go compares the two addresses, not the values
-- behind them. The first argument is the function that makes the new variable.
unfoldable pub differs_from_new {ℓ} :
    {A : Type ℓ} → (A → Heap A → Pointer × Heap A) → Option A → A → Bool
unfolding same_pointer
differs_from_new make p v = let (q, heap) = field p in not (same_pointer q (make v heap).0)
