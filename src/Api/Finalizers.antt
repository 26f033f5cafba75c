-- ===== src/Api/Finalizers.antt =====
-- The finalizers of an IdlingResource after `AddFinalizer` and `RemoveFinalizer`.
use kidle.Prelude.{
  String, ◌≡◌, true, false, List, [], ◌∷◌, ◌++◌, arith, ◌==◌, eq_refl, if◌then◌else◌,
}
use kidle.Array.{contains_string, remove_string}
use kidle.Array.Laws.{contains_string-remove_string, contains_string-append}
use kidle.Api.{IdlingResource, has_finalizer, add_finalizer, remove_finalizer}

-- `HasFinalizer` after `AddFinalizer`: the added name is there, and every other one as before.
pub has_finalizer-add_finalizer :
    (ss : IdlingResource) (n m : String)
    → has_finalizer (add_finalizer ss n) m ≡ (if n == m then true else has_finalizer ss m)
unfolding has_finalizer add_finalizer contains_string
has_finalizer-add_finalizer ss n m =
    ground (arith, contains_string-append ss.meta.finalizers (n ∷ []) m)

-- `HasFinalizer` after `RemoveFinalizer`: the name is gone, however often it stood there, and
-- every other one is as before.
pub has_finalizer-remove_finalizer :
    (ss : IdlingResource) (n m : String)
    → has_finalizer (remove_finalizer ss n) m ≡ (if n == m then false else has_finalizer ss m)
unfolding has_finalizer remove_finalizer
has_finalizer-remove_finalizer ss n m = contains_string-remove_string ss.meta.finalizers n m

remove_string-append :
    (slice : List String) (n : String)
    → contains_string slice n ≡ false
    → remove_string (slice ++ (n ∷ [])) n ≡ slice
unfolding contains_string remove_string
remove_string-append [] n h = ground (arith, eq_refl n)
remove_string-append (item ∷ slice) n h = ground (arith, remove_string-append slice n)

-- Adding a finalizer that is not there and removing it gives back the object.
pub remove_finalizer-add_finalizer :
    (ss : IdlingResource) (n : String)
    → has_finalizer ss n ≡ false
    → remove_finalizer (add_finalizer ss n) n ≡ ss
unfolding has_finalizer remove_finalizer add_finalizer
remove_finalizer-add_finalizer ss n h = rw (remove_string-append ss.meta.finalizers n h)
