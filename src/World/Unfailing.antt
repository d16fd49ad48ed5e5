-- ===== src/World/Unfailing.antt =====
-- Code that returns no error: it gives a value, or does not return. The rules follow the code.
use edgelessdb.Prelude.{◌≡◌, refl, arith, Bool, true, false, Bytes}
use edgelessdb.World.Errors.{Error}
use edgelessdb.World.Memory.{World}
use edgelessdb.World.Monad.{
  M, Outcome, Result, val, exc, ok, err, halt, ◌>>=◌, pure, panic, attempt, must, branch, on_result,
  get, modify, bind-cases,
}
use edgelessdb.World.System.{print}

abbrev pub is_err : {D A : Type 0} → Outcome D A → Bool
is_err (ok _ _) = false
is_err (err _ _) = true
is_err (halt _ _) = false

pub record NeverErr {D A : Type 0} (m : M D A) : Type 0 where
  pub no_err : (w : World D) → is_err (m w) ≡ false

module _ {D : Type 0} where
  pub bind-NeverErr :
      {A B : Type 0} (m : M D A) (f : A → M D B)
      → NeverErr m
      → ((a : A) → NeverErr (f a))
      → NeverErr (m >>= f)
  bind-NeverErr m f k g = record {
    no_err = λ w.
        bind-cases (λ r. is_err r ≡ false) m f w (λ e v r. rw r at (k.no_err w)) (λ x v r. refl)
          (λ a v r. (g a).no_err v);
  }

  pub pure-NeverErr : {A : Type 0} (a : A) → NeverErr {D = D} (pure a)
  pure-NeverErr a = record { no_err = λ w. refl }

  pub panic-NeverErr : {A : Type 0} (e : Error) → NeverErr {D = D} {A = A} (panic e)
  panic-NeverErr e = record { no_err = λ w. refl }

  pub get-NeverErr : NeverErr {D = D} get
  get-NeverErr = record { no_err = λ w. refl }

  pub modify-NeverErr : (f : World D → World D) → NeverErr (modify f)
  modify-NeverErr f = record { no_err = λ w. refl }

  pub print-NeverErr : (line : Bytes) → NeverErr {D = D} (print line)
  print-NeverErr line = record { no_err = λ w. refl }

  pub attempt-NeverErr : {A : Type 0} (m : M D A) → NeverErr (attempt m)
  attempt-NeverErr m = record { no_err = λ w. ground arith }

  pub must-NeverErr : {A : Type 0} (m : M D A) → NeverErr (must m)
  must-NeverErr m = record { no_err = λ w. ground arith }

  pub branch-NeverErr :
      {A : Type 0} (b : Bool) (m n : M D A) → NeverErr m → NeverErr n → NeverErr (branch b m n)
  branch-NeverErr true m n k l = record { no_err = k.no_err }
  branch-NeverErr false m n k l = record { no_err = l.no_err }

  pub on_result-NeverErr :
      {A B : Type 0} (r : Result A) (f : A → M D B) (g : Error → M D B)
      → ((a : A) → NeverErr (f a))
      → ((e : Error) → NeverErr (g e))
      → NeverErr (on_result r f g)
  on_result-NeverErr (val a) f g k l = record { no_err = (k a).no_err }
  on_result-NeverErr (exc e) f g k l = record { no_err = (l e).no_err }

-- The rules for `search`.
pub ruleset never_err = (
  bind-NeverErr, pure-NeverErr, panic-NeverErr, get-NeverErr, modify-NeverErr, print-NeverErr,
  attempt-NeverErr, must-NeverErr, branch-NeverErr, on_result-NeverErr,
)
