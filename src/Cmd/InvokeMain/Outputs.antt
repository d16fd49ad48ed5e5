-- ===== src/Cmd/InvokeMain/Outputs.antt =====
-- The end of a process (cmd/edb/invokemain.go, edb/rt/console.go): where its diagnosis is printed.
use edgelessdb.Prelude.{ℕ, ◌≡◌, ◌≢◌, ap, some, none, Bytes}
use edgelessdb.Prelude.Int.{ℤ}
use edgelessdb.World.{World, Error, Host, M, Result, val, panic, on_result}
use edgelessdb.Rt.Console.{Fds, assign, Console, stdout, stderr}
use edgelessdb.Rt.Console.Restored.{restore-save}
use edgelessdb.Cmd.Diagnosis.{exit}
use edgelessdb.Cmd.InvokeMain.{invokemain, edgeless_exit}

module _ (bad_descriptor : Error) (free : Fds → Result ℕ) {D : Type 0} where
  -- The process is entered by `invokemain`, with both outputs open and room for two more
  -- descriptors, which the kernel picks among those not in use: then `main` runs. mariadbd may do
  -- with the two standard outputs what it wants, as long as it leaves all other descriptors alone:
  -- `edgeless_exit` then runs `exit`, with both outputs the files that they were.
  pub edgeless_exit-invokemain :
      {A : Type 0} (main : M D A) (h : Host) (internal_path : Bytes) (host_path : Bytes → M D Bytes)
      (status : ℤ) (c : Console) (later : Fds) (out errors n m : ℕ) (w : World D)
      → ((fds : Fds) (k : ℕ) → free fds ≡ val k → fds k ≡ none)
      → c.fds stdout ≡ some out
      → c.fds stderr ≡ some errors
      → free c.fds ≡ val n
      → free (assign n (some out) c.fds) ≡ val m
      → ((fd : ℕ)
          → fd ≢ stdout
          → fd ≢ stderr
          → later fd ≡ (invokemain bad_descriptor free main c).1.fds fd)
      → ((invokemain bad_descriptor free main c).0 w ≡ main w)
        × ((edgeless_exit bad_descriptor free h internal_path host_path status
                (record ((invokemain bad_descriptor free main c).1) { fds = later })).0
              w
            ≡ exit h internal_path host_path status w)
        × ((edgeless_exit bad_descriptor free h internal_path host_path status
                (record ((invokemain bad_descriptor free main c).1) { fds = later })).1.fds
              stdout
            ≡ some out)
        × ((edgeless_exit bad_descriptor free h internal_path host_path status
                (record ((invokemain bad_descriptor free main c).1) { fds = later })).1.fds
              stderr
            ≡ some errors)
  unfolding invokemain edgeless_exit
  edgeless_exit-invokemain {A} main h ip hp status c later out errors n m w unused open_out
        open_errors first second apart =
      let (saved, restored, at_out, at_errors) =
        restore-save bad_descriptor free c later out errors n m unused open_out open_errors first
          second apart in
      (
        ap (λ (r : Result (Unit {0})). on_result {D = D} {B = A} r (λ _. main) panic w) saved,
        ap (λ (r : Result (Unit {0})). on_result {D = D} r (λ _. exit h ip hp status) panic w)
            restored,
        at_out,
        at_errors,
      )
