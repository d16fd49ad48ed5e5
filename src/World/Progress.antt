-- ===== src/World/Progress.antt =====
-- Code that never waits for its own lock, by rules that follow the code.
use edgelessdb.Prelude.{◌≡◌, refl, Bool, true, false, Option, arith, String, Bytes}
use edgelessdb.World.Errors.{Error}
use edgelessdb.World.Memory.{World}
use edgelessdb.World.Monad.{
  M, Outcome, Result, val, exc, ok, err, halt, Halt, deadlocked, ◌>>=◌, pure, throw, panic, attempt,
  ignore, must, branch, on_result, when, fail_if, from_result, from_option, get, modify, bind-cases,
}
use edgelessdb.World.External.{Host}
use edgelessdb.World.System.{
  fault, tick, getenv, print, setenv, read_file, write_file, mkdir_all, stat, remove,
}

abbrev pub is_deadlock : Halt → Bool
is_deadlock deadlocked = true
is_deadlock _ = false

-- The call waits forever.
abbrev pub is_stuck : {D A : Type 0} → Outcome D A → Bool
is_stuck (ok _ _) = false
is_stuck (err _ _) = false
is_stuck (halt x _) = is_deadlock x

pub record NeverStuck {D A : Type 0} (m : M D A) : Type 0 where
  pub goes_on : (w : World D) → is_stuck (m w) ≡ false

module _ {D : Type 0} where
  -- A call that goes on, and then code that does so behind a value.
  pub bind-goes_on :
      {A B : Type 0} (m : M D A) (f : A → M D B) (w : World D)
      → is_stuck (m w) ≡ false
      → ((a : A) (v : World D) → m w ≡ ok a v → is_stuck (f a v) ≡ false)
      → is_stuck ((m >>= f) w) ≡ false
  bind-goes_on m f w first go =
      bind-cases (λ r. is_stuck r ≡ false) m f w (λ e v r. refl) (λ x v r. rw r at first)
        (λ a v r. go a v r)

  pub bind-NeverStuck :
      {A B : Type 0} (m : M D A) (f : A → M D B)
      → NeverStuck m
      → ((a : A) → NeverStuck (f a))
      → NeverStuck (m >>= f)
  bind-NeverStuck m f k g = record {
    goes_on = λ w. bind-goes_on m f w (k.goes_on w) (λ a v e. (g a).goes_on v);
  }

  pub pure-NeverStuck : {A : Type 0} (a : A) → NeverStuck {D = D} (pure a)
  pure-NeverStuck a = record { goes_on = λ w. refl }

  pub throw-NeverStuck : {A : Type 0} (e : Error) → NeverStuck {D = D} {A = A} (throw e)
  throw-NeverStuck e = record { goes_on = λ w. refl }

  pub panic-NeverStuck : {A : Type 0} (e : Error) → NeverStuck {D = D} {A = A} (panic e)
  panic-NeverStuck e = record { goes_on = λ w. refl }

  pub get-NeverStuck : NeverStuck {D = D} get
  get-NeverStuck = record { goes_on = λ w. refl }

  pub modify-NeverStuck : (f : World D → World D) → NeverStuck (modify f)
  modify-NeverStuck f = record { goes_on = λ w. refl }

  pub branch-NeverStuck :
      {A : Type 0} (b : Bool) (m n : M D A)
      → NeverStuck m
      → NeverStuck n
      → NeverStuck (branch b m n)
  branch-NeverStuck true m n k l = record { goes_on = k.goes_on }
  branch-NeverStuck false m n k l = record { goes_on = l.goes_on }

  pub when-NeverStuck : (b : Bool) (m : M D (Unit {0})) → NeverStuck m → NeverStuck (when b m)
  when-NeverStuck true m k = record { goes_on = k.goes_on }
  when-NeverStuck false m k = record { goes_on = λ w. refl }

  pub on_result-NeverStuck :
      {A B : Type 0} (r : Result A) (f : A → M D B) (g : Error → M D B)
      → ((a : A) → NeverStuck (f a))
      → ((e : Error) → NeverStuck (g e))
      → NeverStuck (on_result r f g)
  on_result-NeverStuck (val a) f g k l = record { goes_on = (k a).goes_on }
  on_result-NeverStuck (exc e) f g k l = record { goes_on = (l e).goes_on }

  pub attempt-NeverStuck : {A : Type 0} (m : M D A) → NeverStuck m → NeverStuck (attempt m)
  attempt-NeverStuck m k = record { goes_on = λ w. ground (arith, k.goes_on w) }

  pub must-NeverStuck : {A : Type 0} (m : M D A) → NeverStuck m → NeverStuck (must m)
  must-NeverStuck m k = record { goes_on = λ w. ground (arith, k.goes_on w) }

  pub ignore-NeverStuck : {A : Type 0} (m : M D A) → NeverStuck m → NeverStuck (ignore m)
  ignore-NeverStuck m k = record { goes_on = λ w. ground (arith, k.goes_on w) }

  pub from_result-NeverStuck : {A : Type 0} (r : Result A) → NeverStuck {D = D} (from_result r)
  from_result-NeverStuck r = record { goes_on = λ w. ground arith }

  pub from_option-NeverStuck :
      {A : Type 0} (e : Error) (o : Option A) → NeverStuck {D = D} (from_option e o)
  from_option-NeverStuck e o = record { goes_on = λ w. ground arith }

  pub fail_if-NeverStuck : (b : Bool) (e : Error) → NeverStuck {D = D} (fail_if b e)
  fail_if-NeverStuck b e = record { goes_on = λ w. ground arith }

  pub fault-NeverStuck : (o : Option Error) → NeverStuck {D = D} (fault o)
  fault-NeverStuck o = record { goes_on = λ w. ground arith }

  pub tick-NeverStuck : NeverStuck {D = D} tick
  tick-NeverStuck = record { goes_on = λ w. refl }

  pub getenv-NeverStuck : (k : String) → NeverStuck {D = D} (getenv k)
  getenv-NeverStuck k = record { goes_on = λ w. refl }

  pub print-NeverStuck : (line : Bytes) → NeverStuck {D = D} (print line)
  print-NeverStuck line = record { goes_on = λ w. refl }

module _ (h : Host) {D : Type 0} where
  pub setenv-NeverStuck : (k : String) (v : Bytes) → NeverStuck {D = D} (setenv h k v)
  setenv-NeverStuck k v = record { goes_on = λ w. unfold setenv in ground arith }

  pub read_file-NeverStuck : (p : Bytes) → NeverStuck {D = D} (read_file h p)
  read_file-NeverStuck p = record { goes_on = λ w. unfold read_file in ground arith }

  pub write_file-NeverStuck : (p b : Bytes) → NeverStuck {D = D} (write_file h p b)
  write_file-NeverStuck p b = record { goes_on = λ w. unfold write_file in ground arith }

  pub mkdir_all-NeverStuck : (p : Bytes) → NeverStuck {D = D} (mkdir_all h p)
  mkdir_all-NeverStuck p = record { goes_on = λ w. unfold mkdir_all in ground arith }

  pub stat-NeverStuck : (p : Bytes) → NeverStuck {D = D} (stat h p)
  stat-NeverStuck p = record { goes_on = λ w. unfold stat in ground arith }

  pub remove-NeverStuck : (p : Bytes) → NeverStuck {D = D} (remove h p)
  remove-NeverStuck p = record { goes_on = λ w. unfold remove in ground arith }

-- The rules for `search`.
pub ruleset never_stuck = (
  bind-NeverStuck, pure-NeverStuck, throw-NeverStuck, panic-NeverStuck, get-NeverStuck,
  modify-NeverStuck, branch-NeverStuck, when-NeverStuck, on_result-NeverStuck, attempt-NeverStuck,
  must-NeverStuck, ignore-NeverStuck, from_result-NeverStuck, from_option-NeverStuck,
  fail_if-NeverStuck, fault-NeverStuck, tick-NeverStuck, getenv-NeverStuck, print-NeverStuck,
  setenv-NeverStuck, read_file-NeverStuck, write_file-NeverStuck, mkdir_all-NeverStuck,
  stat-NeverStuck, remove-NeverStuck,
)
