-- ===== src/Examples/Terminal.antt =====
-- The theorem on the console at a concrete input.
use edgelessdb.Prelude.{false, ℕ, ◌≡◌, ◌∙◌, refl, Option, some, none}
use edgelessdb.World.{M, ok, pure, uninitialized, Result, val, exc, library}
use edgelessdb.Prelude.{[]}
use edgelessdb.Rt.Console.{Fds, assign, Console, stdout, stderr, save_stdout_and_stderr}
use edgelessdb.Rt.Console.Restored.{assign_other}
use edgelessdb.Prelude.Int.{pos}
use edgelessdb.Cmd.Diagnosis.{exit}
use edgelessdb.Cmd.InvokeMain.{invokemain, edgeless_exit}
use edgelessdb.Cmd.InvokeMain.Outputs.{edgeless_exit-invokemain}
use edgelessdb.Examples.Objects.{mock_host, node}

-- A kernel with room for two more files.
abbrev pick : Option ℕ → Option ℕ → Result ℕ
pick none b = val 3
pick (some x) none = val 4
pick (some x) (some y) = exc (library [])

abbrev free : Fds → Result ℕ
free fds = pick (fds 3) (fds 4)

free-IsUnused : (fds : Fds) (k : ℕ) → free fds ≡ val k → fds k ≡ none
free-IsUnused fds k e = of_slots (fds 3) (fds 4) refl refl e
  where
    of_slots : (a b : Option ℕ) → fds 3 ≡ a → fds 4 ≡ b → pick a b ≡ val k → fds k ≡ none
    of_slots none b at_3 at_4 e = let is : 3 ≡ k = cc in rw is at at_3
    of_slots (some x) none at_3 at_4 e = let is : 4 ≡ k = cc in rw is at at_4
    of_slots (some x) (some y) at_3 at_4 e = cc

abbrev terminal : Console
terminal = record {
  fds = assign stdout (some 7) (assign stderr (some 8) (λ n. none));
  saved_stdout = none;
  saved_stderr = none;
}

abbrev saved : Fds
saved = (save_stdout_and_stderr (library []) free terminal).1.fds

-- mariadbd sends both outputs to the file 9.
abbrev redirected : Fds
redirected = assign stderr (some 9) (assign stdout (some 9) saved)

-- A `main` that does nothing.
abbrev idle : M (Unit {0}) (Unit {0})
idle w = ok tt w

abbrev at_exit : M (Unit {0}) (Unit {0}) × Console
at_exit =
    edgeless_exit (library []) free mock_host [] (λ p. pure p) (pos 1)
      (record ((invokemain (library []) free idle terminal).1) { fds = redirected })

edgeless_exit-invokemain_example :
    ((invokemain (library []) free idle terminal).0 (node uninitialized false)
      ≡ idle (node uninitialized false))
    × (at_exit.0 (node uninitialized false)
        ≡ exit mock_host [] (λ p. pure p) (pos 1) (node uninitialized false))
    × (at_exit.1.fds stdout ≡ some 7)
    × (at_exit.1.fds stderr ≡ some 8)
unfolding invokemain
edgeless_exit-invokemain_example =
    edgeless_exit-invokemain (library []) free idle mock_host [] (λ p. pure p) (pos 1) terminal
      redirected 7 8 3 4 (node uninitialized false) free-IsUnused refl refl refl refl
      (λ fd o e.
        assign_other (library []) free stderr fd (some 9) (assign stdout (some 9) saved) e
        ∙ assign_other (library []) free stdout fd (some 9) saved o)
