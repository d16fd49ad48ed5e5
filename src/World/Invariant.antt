-- ===== src/World/Invariant.antt =====
-- Code that keeps a predicate on the state, however it ends, by rules that follow the code.
use edgelessdb.Prelude.{◌≡◌, sym, Bool, true, false, Option, none, some, arith}
use edgelessdb.World.Errors.{Error}
use edgelessdb.World.Memory.{World}
use edgelessdb.World.Monad.{
  M, Result, val, exc, after, ◌>>=◌, pure, throw, panic, attempt, ignore, must, branch, on_result,
  when, fail_if, from_result, from_option, get, modify, after-bind, after-attempt, after-must,
}
use edgelessdb.World.System.{fault}

pub record Holds {D A : Type 0} (P : World D → Type 0) (m : M D A) : Type 0 where
  pub kept : (w : World D) → P w → P (after (m w))

after-ignore : {D A : Type 0} (m : M D A) (w : World D) → after (ignore m w) ≡ after (m w)
after-ignore m w = ground arith

module _ {D : Type 0} {P : World D → Type 0} where
  -- Code that leaves the whole state.
  pub same-Holds : {A : Type 0} (m : M D A) → ((w : World D) → after (m w) ≡ w) → Holds P m
  same-Holds m same = record { kept = λ w p. rw (sym (same w)) at p }

  pub bind-Holds :
      {A B : Type 0} (m : M D A) (f : A → M D B)
      → Holds P m
      → ((a : A) → Holds P (f a))
      → Holds P (m >>= f)
  bind-Holds m f k g = record {
    kept = λ w p. after-bind P m f w (k.kept w p) (λ a v e. (g a).kept v (rw e at (k.kept w p)));
  }

  pub pure-Holds : {A : Type 0} (a : A) → Holds P (pure a)
  pure-Holds a = record { kept = λ w p. p }

  pub throw-Holds : {A : Type 0} (e : Error) → Holds {A = A} P (throw e)
  throw-Holds e = record { kept = λ w p. p }

  pub panic-Holds : {A : Type 0} (e : Error) → Holds {A = A} P (panic e)
  panic-Holds e = record { kept = λ w p. p }

  pub get-Holds : Holds P get
  get-Holds = record { kept = λ w p. p }

  pub modify-Holds : (f : World D → World D) → ((w : World D) → P w → P (f w)) → Holds P (modify f)
  modify-Holds f k = record { kept = k }

  pub branch-Holds :
      {A : Type 0} (b : Bool) (m n : M D A) → Holds P m → Holds P n → Holds P (branch b m n)
  branch-Holds true m n k l = record { kept = k.kept }
  branch-Holds false m n k l = record { kept = l.kept }

  pub when-Holds : (b : Bool) (m : M D (Unit {0})) → Holds P m → Holds P (when b m)
  when-Holds true m k = record { kept = k.kept }
  when-Holds false m k = record { kept = λ w p. p }

  pub on_result-Holds :
      {A B : Type 0} (r : Result A) (f : A → M D B) (g : Error → M D B)
      → ((a : A) → Holds P (f a))
      → ((e : Error) → Holds P (g e))
      → Holds P (on_result r f g)
  on_result-Holds (val a) f g k l = record { kept = (k a).kept }
  on_result-Holds (exc e) f g k l = record { kept = (l e).kept }

  pub attempt-Holds : {A : Type 0} (m : M D A) → Holds P m → Holds P (attempt m)
  attempt-Holds m k = record { kept = λ w p. rw (sym (after-attempt m w)) at (k.kept w p) }

  pub must-Holds : {A : Type 0} (m : M D A) → Holds P m → Holds P (must m)
  must-Holds m k = record { kept = λ w p. rw (sym (after-must m w)) at (k.kept w p) }

  pub ignore-Holds : {A : Type 0} (m : M D A) → Holds P m → Holds P (ignore m)
  ignore-Holds m k = record { kept = λ w p. rw (sym (after-ignore m w)) at (k.kept w p) }

  pub from_result-Holds : {A : Type 0} (r : Result A) → Holds P (from_result r)
  from_result-Holds (val a) = record { kept = λ w p. p }
  from_result-Holds (exc e) = record { kept = λ w p. p }

  pub from_option-Holds : {A : Type 0} (e : Error) (o : Option A) → Holds P (from_option e o)
  from_option-Holds e none = record { kept = λ w p. p }
  from_option-Holds e (some a) = record { kept = λ w p. p }

  pub fail_if-Holds : (b : Bool) (e : Error) → Holds P (fail_if b e)
  fail_if-Holds true e = record { kept = λ w p. p }
  fail_if-Holds false e = record { kept = λ w p. p }

  pub fault-Holds : (o : Option Error) → Holds P (fault o)
  fault-Holds none = record { kept = λ w p. p }
  fault-Holds (some e) = record { kept = λ w p. p }

-- The rules for `search`.
pub ruleset holds = (
  bind-Holds, pure-Holds, throw-Holds, panic-Holds, get-Holds, branch-Holds, when-Holds,
  on_result-Holds, attempt-Holds, must-Holds, ignore-Holds, from_result-Holds, from_option-Holds,
  fail_if-Holds, fault-Holds,
)
