-- ===== src/Cmd/NativeMain.antt =====
-- cmd/edb/main.go: `main` of the build without an enclave.
pub mod Sweep
use edgelessdb.Prelude.{
  zero, suc, ℕ, Bool, false, Option, some, none, String, Bytes, [], ◌∷◌, ◌≡◌, ◌⊎◌, inl, inr, text,
  arith,
}
use edgelessdb.Std.FilePath.{join_path}
use edgelessdb.World.{
  World, Config, Host, M, Outcome, ok, err, halt, Halt, panicked, fatal, deadlocked, Error, Result,
  val, exc, not_in_enclave, ◌>>=◌, ◌>>◌, pure, must, when, mkdir_all, abs_path, make_temp_dir,
  remove_all, is_below, print,
}
use edgelessdb.Db.Mariadb.Config.{Mariadb}
use edgelessdb.Core.Environment.{fill_config_from_environment}
use edgelessdb.Core.Certificate.{TlsConfig}
use edgelessdb.Cmd.EnclaveMain.{must_or_exist, persistence_dir}
use edgelessdb.Cmd.Run.{run}

abbrev pub defaults : Config
defaults = record {
  data_path = text "data";
  database_address = text "127.0.0.1";
  api_address = text "127.0.0.1:8080";
  certificate_dns_name = text "localhost";
  debug = false;
  log_dir = [];
  manifest_file_path = [];
}

abbrev zeros : ℕ → Bytes
zeros zero = []
zeros (suc n) = 0 ∷ zeros n

-- `executionEnv`: no enclave, no report, and a constant for the key.
abbrev pub execution_env : Host → Host
execution_env h = record h {
  is_enclave = false;
  remote_report = λ _. exc not_in_enclave;
  product_seal_key = val (zeros 16);
}

abbrev pub get_num_tcs : ℕ
get_num_tcs = 64

module _ (h : Host) {D : Type 0} where
  -- `os.RemoveAll`, whose error nobody looks at: with a fault everything stays.
  abbrev pub remove_all_or_not : Bytes → World D → World D
  remove_all_or_not p w = elim (h.remove_fault p) [ none ↦ remove_all p w | some e ↦ w ]

  -- What a call that does not return leaves of the directory: a panic runs the deferred calls.
  abbrev pub swept : Bytes → Halt → World D → World D
  swept p (panicked e) w = remove_all_or_not p w
  swept p (fatal e) w = w
  swept p deadlocked w = w

  -- `defer os.RemoveAll(p)`
  unfoldable pub defer_remove_all : {A : Type 0} → Bytes → M D A → M D A
  defer_remove_all p m w = elim (m w) [
    | ok a w' ↦ ok a (remove_all_or_not p w')
    | err e w' ↦ err e (remove_all_or_not p w')
    | halt x w' ↦ halt x (swept p x w')
  ]

module _ (h : Host) {D : Type 0} where
  -- `hostPath`
  unfoldable pub host_path : Bytes → M D Bytes
  unfolding abs_path
  host_path path = must (abs_path h path)

  abbrev pub warn : M D (Unit {0})
  warn = do
    print (text "edb is running in non-enclave mode without Marblerun.")
    print (text "This means edb will save the encryption key used IN PLAINTEXT on the disk.")
    print (text "THIS IS OBVIOUSLY NOT SECURE AT ALL FOR PRODUCTION!")
    print (text "Only ever use non-enclave mode for testing, please...")

  -- The part of `main` between the temporary directory and `run`.
  unfoldable pub prepare_data_dir : Config → M D Config
  unfolding mkdir_all
  prepare_data_dir config = do
    path ← host_path config.data_path
    warn
    again ← host_path path
    must_or_exist (mkdir_all h (join_path (again ∷ persistence_dir ∷ [])))
    pure (record config { data_path = path })

-- `pre_main_mock` is MarbleRun's `PreMainMock`; the flag `-marble` is an argument.
module _ (root_ca_var : String) (h : Host) (bootstrap_sql : Bytes)
    (pre_main_mock : M Mariadb (Unit {0})) where
  abbrev pub run_in : Config → Bool → Bytes → M Mariadb (Bytes × TlsConfig)
  run_in filled run_as_marble internal_path = do
    config ← prepare_data_dir h filled
    run root_ca_var (execution_env h) bootstrap_sql get_num_tcs config run_as_marble internal_path
        (text "127.0.0.1")

  -- `main`
  unfoldable pub main : Bool → M Mariadb (Bytes × TlsConfig)
  unfolding run fill_config_from_environment make_temp_dir prepare_data_dir defer_remove_all
  main run_as_marble = do
    when run_as_marble (must pre_main_mock)
    filled ← fill_config_from_environment defaults
    internal_path ← must (make_temp_dir h)
    defer_remove_all h internal_path (run_in filled run_as_marble internal_path)
