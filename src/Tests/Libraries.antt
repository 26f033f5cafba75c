-- ===== src/Tests/Libraries.antt =====
-- A retry of five attempts and lists of finalizers, as the development assumes them of client-go
-- and controller-runtime.
use kidle.Prelude.{
  ℕ, zero, suc, String, ◌≡◌, refl, true, List, [], ◌∷◌, ◌++◌, arith, ◌==◌, eq_iff, if◌then◌else◌,
}
use kidle.Exec.{
  not_found, conflict, already_exists, other_reason, api, bad_syntax, out_of_range, plain, errorf,
  Result, ok, err, panic, Exec,
}
use kidle.Array.{contains_string, remove_string}
use kidle.Array.Laws.{contains_string-remove_string, contains_string-append}
use kidle.Cluster.Retry.{RetryOnConflict, IsRetry, Retried, last, again}
use kidle.Controller.State.{Libraries, IsDocumented}

-- `n` more runs of the function.
abbrev rerun : {S : Type 0} → Exec S (Unit {0}) → ℕ → Result (Unit {0}) × S → Result (Unit {0}) × S
rerun fn zero r = r
rerun fn (suc n) (ok u, s) = (ok u, s)
rerun fn (suc n) (panic m, s) = (panic m, s)
rerun fn (suc n) (err (api conflict m), s) = rerun fn n (fn s)
rerun fn (suc n) (err (api not_found m), s) = (err (api not_found m), s)
rerun fn (suc n) (err (api already_exists m), s) = (err (api already_exists m), s)
rerun fn (suc n) (err (api other_reason m), s) = (err (api other_reason m), s)
rerun fn (suc n) (err (bad_syntax m), s) = (err (bad_syntax m), s)
rerun fn (suc n) (err (out_of_range m), s) = (err (out_of_range m), s)
rerun fn (suc n) (err (plain m), s) = (err (plain m), s)
rerun fn (suc n) (err (errorf m e), s) = (err (errorf m e), s)

abbrev pub five_attempts : RetryOnConflict
five_attempts S fn s = rerun fn 4 (fn s)

rerun-Retried :
    {S : Type 0} (fn : Exec S (Unit {0})) (n : ℕ) (s : S) (r : Result (Unit {0}) × S)
    → fn s ≡ r
    → Retried fn s (rerun fn n r)
rerun-Retried fn zero s r e = last e
rerun-Retried fn (suc n) s (ok u, t) e = last e
rerun-Retried fn (suc n) s (panic m, t) e = last e
rerun-Retried fn (suc n) s (err (api conflict m), t) e =
    again m e (rerun-Retried fn n t (fn t) refl)
rerun-Retried fn (suc n) s (err (api not_found m), t) e = last e
rerun-Retried fn (suc n) s (err (api already_exists m), t) e = last e
rerun-Retried fn (suc n) s (err (api other_reason m), t) e = last e
rerun-Retried fn (suc n) s (err (bad_syntax m), t) e = last e
rerun-Retried fn (suc n) s (err (out_of_range m), t) e = last e
rerun-Retried fn (suc n) s (err (plain m), t) e = last e
rerun-Retried fn (suc n) s (err (errorf m x), t) e = last e

pub five_attempts-IsRetry : IsRetry five_attempts
five_attempts-IsRetry S fn s = rerun-Retried fn 4 s (fn s) refl

abbrev pub libraries : Libraries
libraries = record {
  retry_on_conflict = five_attempts;
  add_finalizer =
      λ finalizers n. if contains_string finalizers n then finalizers else finalizers ++ (n ∷ []);
  remove_finalizer = remove_string;
}

added :
    (finalizers : List String) (n m : String)
    → contains_string (libraries.add_finalizer finalizers n) m
      ≡ (if n == m then true else contains_string finalizers m)
unfolding contains_string
added finalizers n m = ground (arith, contains_string-append finalizers (n ∷ []) m, eq_iff n m)

pub libraries-IsDocumented : IsDocumented libraries
libraries-IsDocumented = record {
  retries = five_attempts-IsRetry;
  contains_string-add_finalizer = added;
  contains_string-remove_finalizer = contains_string-remove_string;
}
