-- ===== src/World/Tame.antt =====
-- Code that leaves the fields of `Core` alone and never waits for its own lock, by rules that follow
-- the code.
use edgelessdb.Prelude.{◌≡◌, Bool, false, Option, String, Bytes}
use edgelessdb.World.Errors.{Error}
use edgelessdb.World.Memory.{World}
use edgelessdb.World.Monad.{
  M, Result, after, ◌>>=◌, pure, throw, panic, attempt, ignore, must, branch, on_result, when,
  fail_if, from_result, from_option, get,
}
use edgelessdb.World.External.{Host}
use edgelessdb.World.System.{
  fault, tick, getenv, print, setenv, read_file, write_file, mkdir_all, stat, remove,
}
use edgelessdb.World.Frame.{
  KeepsCore, bind-KeepsCore, pure-KeepsCore, throw-KeepsCore, panic-KeepsCore, get-KeepsCore,
  branch-KeepsCore, when-KeepsCore, on_result-KeepsCore, attempt-KeepsCore, must-KeepsCore,
  ignore-KeepsCore, from_result-KeepsCore, from_option-KeepsCore, fail_if-KeepsCore,
  fault-KeepsCore, tick-KeepsCore, getenv-KeepsCore, print-KeepsCore, setenv-KeepsCore,
  read_file-KeepsCore, write_file-KeepsCore, mkdir_all-KeepsCore, stat-KeepsCore, remove-KeepsCore,
}
use edgelessdb.World.Progress.{
  is_stuck, NeverStuck, bind-NeverStuck, pure-NeverStuck, throw-NeverStuck, panic-NeverStuck,
  get-NeverStuck, branch-NeverStuck, when-NeverStuck, on_result-NeverStuck, attempt-NeverStuck,
  must-NeverStuck, ignore-NeverStuck, from_result-NeverStuck, from_option-NeverStuck,
  fail_if-NeverStuck, fault-NeverStuck, tick-NeverStuck, getenv-NeverStuck, print-NeverStuck,
  setenv-NeverStuck, read_file-NeverStuck, write_file-NeverStuck, mkdir_all-NeverStuck,
  stat-NeverStuck, remove-NeverStuck,
}

pub record IsTame {D A : Type 0} (m : M D A) : Type 0 where
  pub keeps : KeepsCore m
  pub moves : NeverStuck m

module _ {D : Type 0} where
  pub to-IsTame :
      {A : Type 0} (m : M D A)
      → ((w : World D) → ((after (m w)).core ≡ w.core) × (is_stuck (m w) ≡ false))
      → IsTame m
  to-IsTame m p = record {
    keeps = record { kept = λ w. (p w).0 };
    moves = record { goes_on = λ w. (p w).1 };
  }

  pub bind-IsTame :
      {A B : Type 0} (m : M D A) (f : A → M D B)
      → IsTame m
      → ((a : A) → IsTame (f a))
      → IsTame (m >>= f)
  bind-IsTame m f k g = record {
    keeps = bind-KeepsCore m f k.keeps (λ a. (g a).keeps);
    moves = bind-NeverStuck m f k.moves (λ a. (g a).moves);
  }

  pub pure-IsTame : {A : Type 0} (a : A) → IsTame {D = D} (pure a)
  pure-IsTame a = record { keeps = pure-KeepsCore a; moves = pure-NeverStuck a }

  pub throw-IsTame : {A : Type 0} (e : Error) → IsTame {D = D} {A = A} (throw e)
  throw-IsTame e = record { keeps = throw-KeepsCore e; moves = throw-NeverStuck e }

  pub panic-IsTame : {A : Type 0} (e : Error) → IsTame {D = D} {A = A} (panic e)
  panic-IsTame e = record { keeps = panic-KeepsCore e; moves = panic-NeverStuck e }

  pub get-IsTame : IsTame {D = D} get
  get-IsTame = record { keeps = get-KeepsCore; moves = get-NeverStuck }

  pub branch-IsTame :
      {A : Type 0} (b : Bool) (m n : M D A) → IsTame m → IsTame n → IsTame (branch b m n)
  branch-IsTame b m n k l = record {
    keeps = branch-KeepsCore b m n k.keeps l.keeps;
    moves = branch-NeverStuck b m n k.moves l.moves;
  }

  pub when-IsTame : (b : Bool) (m : M D (Unit {0})) → IsTame m → IsTame (when b m)
  when-IsTame b m k = record {
    keeps = when-KeepsCore b m k.keeps;
    moves = when-NeverStuck b m k.moves;
  }

  pub on_result-IsTame :
      {A B : Type 0} (r : Result A) (f : A → M D B) (g : Error → M D B)
      → ((a : A) → IsTame (f a))
      → ((e : Error) → IsTame (g e))
      → IsTame (on_result r f g)
  on_result-IsTame r f g k l = record {
    keeps = on_result-KeepsCore r f g (λ a. (k a).keeps) (λ e. (l e).keeps);
    moves = on_result-NeverStuck r f g (λ a. (k a).moves) (λ e. (l e).moves);
  }

  pub attempt-IsTame : {A : Type 0} (m : M D A) → IsTame m → IsTame (attempt m)
  attempt-IsTame m k = record {
    keeps = attempt-KeepsCore m k.keeps;
    moves = attempt-NeverStuck m k.moves;
  }

  pub must-IsTame : {A : Type 0} (m : M D A) → IsTame m → IsTame (must m)
  must-IsTame m k = record { keeps = must-KeepsCore m k.keeps; moves = must-NeverStuck m k.moves }

  pub ignore-IsTame : {A : Type 0} (m : M D A) → IsTame m → IsTame (ignore m)
  ignore-IsTame m k = record {
    keeps = ignore-KeepsCore m k.keeps;
    moves = ignore-NeverStuck m k.moves;
  }

  pub from_result-IsTame : {A : Type 0} (r : Result A) → IsTame {D = D} (from_result r)
  from_result-IsTame r = record {
    keeps = from_result-KeepsCore r;
    moves = from_result-NeverStuck r;
  }

  pub from_option-IsTame :
      {A : Type 0} (e : Error) (o : Option A) → IsTame {D = D} (from_option e o)
  from_option-IsTame e o = record {
    keeps = from_option-KeepsCore e o;
    moves = from_option-NeverStuck e o;
  }

  pub fail_if-IsTame : (b : Bool) (e : Error) → IsTame {D = D} (fail_if b e)
  fail_if-IsTame b e = record { keeps = fail_if-KeepsCore b e; moves = fail_if-NeverStuck b e }

  pub fault-IsTame : (o : Option Error) → IsTame {D = D} (fault o)
  fault-IsTame o = record { keeps = fault-KeepsCore o; moves = fault-NeverStuck o }

  pub tick-IsTame : IsTame {D = D} tick
  tick-IsTame = record { keeps = tick-KeepsCore; moves = tick-NeverStuck }

  pub getenv-IsTame : (k : String) → IsTame {D = D} (getenv k)
  getenv-IsTame k = record { keeps = getenv-KeepsCore k; moves = getenv-NeverStuck k }

  pub print-IsTame : (line : Bytes) → IsTame {D = D} (print line)
  print-IsTame line = record { keeps = print-KeepsCore line; moves = print-NeverStuck line }

module _ (h : Host) {D : Type 0} where
  pub setenv-IsTame : (k : String) (v : Bytes) → IsTame {D = D} (setenv h k v)
  setenv-IsTame k v = record { keeps = setenv-KeepsCore h k v; moves = setenv-NeverStuck h k v }

  pub read_file-IsTame : (p : Bytes) → IsTame {D = D} (read_file h p)
  read_file-IsTame p = record { keeps = read_file-KeepsCore h p; moves = read_file-NeverStuck h p }

  pub write_file-IsTame : (p b : Bytes) → IsTame {D = D} (write_file h p b)
  write_file-IsTame p b = record {
    keeps = write_file-KeepsCore h p b;
    moves = write_file-NeverStuck h p b;
  }

  pub mkdir_all-IsTame : (p : Bytes) → IsTame {D = D} (mkdir_all h p)
  mkdir_all-IsTame p = record { keeps = mkdir_all-KeepsCore h p; moves = mkdir_all-NeverStuck h p }

  pub stat-IsTame : (p : Bytes) → IsTame {D = D} (stat h p)
  stat-IsTame p = record { keeps = stat-KeepsCore h p; moves = stat-NeverStuck h p }

  pub remove-IsTame : (p : Bytes) → IsTame {D = D} (remove h p)
  remove-IsTame p = record { keeps = remove-KeepsCore h p; moves = remove-NeverStuck h p }

-- The rules for `search`.
pub ruleset tame = (
  bind-IsTame, pure-IsTame, throw-IsTame, panic-IsTame, get-IsTame, branch-IsTame, when-IsTame,
  on_result-IsTame, attempt-IsTame, must-IsTame, ignore-IsTame, from_result-IsTame,
  from_option-IsTame, fail_if-IsTame, fault-IsTame, tick-IsTame, getenv-IsTame, print-IsTame,
  setenv-IsTame, read_file-IsTame, write_file-IsTame, mkdir_all-IsTame, stat-IsTame, remove-IsTame,
)
