-- ===== src/World/Frame.antt =====
-- Code that leaves the fields of `Core` alone, by rules that follow the code.
use edgelessdb.Prelude.{◌≡◌, ◌∙◌, refl, Bool, true, false, Option, arith, String, Bytes}
use edgelessdb.World.Errors.{Error}
use edgelessdb.World.Memory.{World}
use edgelessdb.World.Monad.{
  M, Result, val, exc, after, ◌>>=◌, pure, throw, panic, attempt, ignore, must, branch, on_result,
  when, fail_if, from_result, from_option, get, after-bind,
}
use edgelessdb.World.External.{Host}
use edgelessdb.World.System.{
  fault, tick, getenv, print, setenv, read_file, write_file, mkdir_all, stat, remove,
}

pub record KeepsCore {D A : Type 0} (m : M D A) : Type 0 where
  pub kept : (w : World D) → (after (m w)).core ≡ w.core

module _ {D : Type 0} where
  pub bind-KeepsCore :
      {A B : Type 0} (m : M D A) (f : A → M D B)
      → KeepsCore m
      → ((a : A) → KeepsCore (f a))
      → KeepsCore (m >>= f)
  bind-KeepsCore m f k g = record {
    kept = λ w.
        after-bind (λ v. v.core ≡ w.core) m f w (k.kept w)
          (λ a v e. (g a).kept v ∙ rw e at (k.kept w));
  }

  pub pure-KeepsCore : {A : Type 0} (a : A) → KeepsCore {D = D} (pure a)
  pure-KeepsCore a = record { kept = λ w. refl }

  pub throw-KeepsCore : {A : Type 0} (e : Error) → KeepsCore {D = D} {A = A} (throw e)
  throw-KeepsCore e = record { kept = λ w. refl }

  pub panic-KeepsCore : {A : Type 0} (e : Error) → KeepsCore {D = D} {A = A} (panic e)
  panic-KeepsCore e = record { kept = λ w. refl }

  pub get-KeepsCore : KeepsCore {D = D} get
  get-KeepsCore = record { kept = λ w. refl }

  pub branch-KeepsCore :
      {A : Type 0} (b : Bool) (m n : M D A) → KeepsCore m → KeepsCore n → KeepsCore (branch b m n)
  branch-KeepsCore true m n k l = record { kept = k.kept }
  branch-KeepsCore false m n k l = record { kept = l.kept }

  pub when-KeepsCore : (b : Bool) (m : M D (Unit {0})) → KeepsCore m → KeepsCore (when b m)
  when-KeepsCore true m k = record { kept = k.kept }
  when-KeepsCore false m k = record { kept = λ w. refl }

  pub on_result-KeepsCore :
      {A B : Type 0} (r : Result A) (f : A → M D B) (g : Error → M D B)
      → ((a : A) → KeepsCore (f a))
      → ((e : Error) → KeepsCore (g e))
      → KeepsCore (on_result r f g)
  on_result-KeepsCore (val a) f g k l = record { kept = (k a).kept }
  on_result-KeepsCore (exc e) f g k l = record { kept = (l e).kept }

  pub attempt-KeepsCore : {A : Type 0} (m : M D A) → KeepsCore m → KeepsCore (attempt m)
  attempt-KeepsCore m k = record { kept = λ w. ground (arith, k.kept w) }

  pub must-KeepsCore : {A : Type 0} (m : M D A) → KeepsCore m → KeepsCore (must m)
  must-KeepsCore m k = record { kept = λ w. ground (arith, k.kept w) }

  pub ignore-KeepsCore : {A : Type 0} (m : M D A) → KeepsCore m → KeepsCore (ignore m)
  ignore-KeepsCore m k = record { kept = λ w. ground (arith, k.kept w) }

  pub from_result-KeepsCore : {A : Type 0} (r : Result A) → KeepsCore {D = D} (from_result r)
  from_result-KeepsCore r = record { kept = λ w. ground arith }

  pub from_option-KeepsCore :
      {A : Type 0} (e : Error) (o : Option A) → KeepsCore {D = D} (from_option e o)
  from_option-KeepsCore e o = record { kept = λ w. ground arith }

  pub fail_if-KeepsCore : (b : Bool) (e : Error) → KeepsCore {D = D} (fail_if b e)
  fail_if-KeepsCore b e = record { kept = λ w. ground arith }

  pub fault-KeepsCore : (o : Option Error) → KeepsCore {D = D} (fault o)
  fault-KeepsCore o = record { kept = λ w. ground arith }

  pub tick-KeepsCore : KeepsCore {D = D} tick
  tick-KeepsCore = record { kept = λ w. refl }

  pub getenv-KeepsCore : (k : String) → KeepsCore {D = D} (getenv k)
  getenv-KeepsCore k = record { kept = λ w. refl }

  pub print-KeepsCore : (line : Bytes) → KeepsCore {D = D} (print line)
  print-KeepsCore line = record { kept = λ w. refl }

module _ (h : Host) {D : Type 0} where
  pub setenv-KeepsCore : (k : String) (v : Bytes) → KeepsCore {D = D} (setenv h k v)
  setenv-KeepsCore k v = record { kept = λ w. unfold setenv in ground arith }

  pub read_file-KeepsCore : (p : Bytes) → KeepsCore {D = D} (read_file h p)
  read_file-KeepsCore p = record { kept = λ w. unfold read_file in ground arith }

  pub write_file-KeepsCore : (p b : Bytes) → KeepsCore {D = D} (write_file h p b)
  write_file-KeepsCore p b = record { kept = λ w. unfold write_file in ground arith }

  pub mkdir_all-KeepsCore : (p : Bytes) → KeepsCore {D = D} (mkdir_all h p)
  mkdir_all-KeepsCore p = record { kept = λ w. unfold mkdir_all in ground arith }

  pub stat-KeepsCore : (p : Bytes) → KeepsCore {D = D} (stat h p)
  stat-KeepsCore p = record { kept = λ w. unfold stat in ground arith }

  pub remove-KeepsCore : (p : Bytes) → KeepsCore {D = D} (remove h p)
  remove-KeepsCore p = record { kept = λ w. unfold remove in ground arith }

-- The rules for `search`.
pub ruleset keeps_core = (
  bind-KeepsCore, pure-KeepsCore, throw-KeepsCore, panic-KeepsCore, get-KeepsCore, branch-KeepsCore,
  when-KeepsCore, on_result-KeepsCore, attempt-KeepsCore, must-KeepsCore, ignore-KeepsCore,
  from_result-KeepsCore, from_option-KeepsCore, fail_if-KeepsCore, fault-KeepsCore, tick-KeepsCore,
  getenv-KeepsCore, print-KeepsCore, setenv-KeepsCore, read_file-KeepsCore, write_file-KeepsCore,
  mkdir_all-KeepsCore, stat-KeepsCore, remove-KeepsCore,
)
