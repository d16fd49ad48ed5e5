-- ===== src/Cmd/InvokeMain.antt =====
-- cmd/edb/invokemain.go: the two functions that mariadbd's C++ code calls.
pub mod Outputs
use edgelessdb.Prelude.{ℕ, Bytes}
use edgelessdb.Prelude.Int.{ℤ}
use edgelessdb.World.{Error, Host, M, Result, panic, on_result}
use edgelessdb.Rt.Console.{Fds, Console, save_stdout_and_stderr, restore_stdout_and_stderr}
use edgelessdb.Cmd.Diagnosis.{exit}

-- The console stands beside the other state: a call is given with the console that it runs on.
module _ (bad_descriptor : Error) (free : Fds → Result ℕ) {D : Type 0} where
  -- `invokemain`, for the `main` of the build
  unfoldable pub invokemain : {A : Type 0} → M D A → Console → M D A × Console
  invokemain main console =
      let (saved, held) = save_stdout_and_stderr bad_descriptor free console in
      (on_result saved (λ _. main) panic, held)

  -- `edgeless_exit`, for `internalPath` and `hostPath` of the build
  unfoldable pub edgeless_exit :
      Host → Bytes → (Bytes → M D Bytes) → ℤ → Console → M D (Unit {0}) × Console
  edgeless_exit h internal_path host_path status console =
      let (restored, shown) = restore_stdout_and_stderr bad_descriptor free console in
      (on_result restored (λ _. exit h internal_path host_path status) panic, shown)
