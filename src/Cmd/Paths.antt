-- ===== src/Cmd/Paths.antt =====
-- cmd/edb/enclavemain.go: paths of the host, in the enclave.
use edgelessdb.Prelude.{String, Bytes, [], ◌∷◌, text, is_empty}
use edgelessdb.Std.FilePath.{is_abs, clean, join_path}
use edgelessdb.World.{M, library, ◌>>=◌, pure, panic, branch, getenv}

abbrev pub cwd_var : String
cwd_var = "EDG_CWD"

module _ {D : Type 0} where
  -- `enclaveAbsPath`
  unfoldable pub enclave_abs_path : Bytes → M D Bytes
  enclave_abs_path path = branch (is_abs path) (pure path) do
    cwd ← getenv cwd_var
    branch (is_empty cwd) (panic (library (text "cwd"))) (pure (join_path (cwd ∷ path ∷ [])))

  -- `hostPath`
  unfoldable pub host_path : Bytes → M D Bytes
  host_path path = do
    p ← enclave_abs_path path
    pure (join_path (text "/edg" ∷ text "hostfs" ∷ clean p ∷ []))
