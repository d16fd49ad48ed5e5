-- ===== src/Cmd/EnclaveMain.antt =====
-- cmd/edb/enclavemain.go: `main` of the build for the enclave, which mounts directories of the host
-- before it runs the node.
pub mod Directories
pub mod Mounts
use edgelessdb.Prelude.{ℕ, Bool, true, false, not, String, Bytes, [], ◌∷◌, text, is_empty}
use edgelessdb.Std.FilePath.{join_path}
use edgelessdb.World.{
  Config, Host, M, Error, is_exist, ◌>>=◌, ◌>>◌, pure, panic, must, when, attempt, on_result,
  branch, mkdir, mkdir_all, mount,
}
use edgelessdb.Db.Mariadb.Config.{Mariadb}
use edgelessdb.Core.Environment.{fill_config_from_environment}
use edgelessdb.Core.Certificate.{TlsConfig}
use edgelessdb.Cmd.Paths.{enclave_abs_path, host_path}
use edgelessdb.Cmd.Run.{run}

abbrev pub internal_path : Bytes
internal_path = text "/tmp/edb"

-- `executionEnv`, which passes the calls for reports and keys on to the enclave.
abbrev pub execution_env : Host → Host
execution_env ego = record ego { is_enclave = true }

abbrev pub defaults : Config
defaults = record {
  data_path = text "data";
  database_address = [];
  api_address = text ":8080";
  certificate_dns_name = text "localhost";
  debug = false;
  log_dir = [];
  manifest_file_path = [];
}

abbrev pub persistence_dir : Bytes
persistence_dir = text "edb-persistence"

-- An error of a call is a panic, unless it says that the file is there already.
abbrev pub must_or_exist : {D : Type 0} → M D (Unit {0}) → M D (Unit {0})
must_or_exist m = do
  r ← attempt m
  on_result r (λ _. pure tt) (λ e. branch (not (is_exist e)) (panic e) (pure tt))

module _ (h : Host) {D : Type 0} where
  -- The directory for logs, if one is set.
  unfoldable pub mount_log_dir : Config → M D Config
  unfolding mkdir_all mount enclave_abs_path host_path
  mount_log_dir config = branch (is_empty config.log_dir) (pure config) do
    abs_log_path ← enclave_abs_path config.log_dir
    on_host ← host_path abs_log_path
    must (mkdir_all h on_host)
    must (mount h abs_log_path (text "/log"))
    pure (record config { log_dir = text "/log" })

  -- The directory of RocksDB.
  unfoldable pub mount_rocksdb_dir : Bytes → M D (Unit {0})
  unfolding mkdir_all mount host_path
  mount_rocksdb_dir abs_data_path = do
    on_host ← host_path abs_data_path
    must (mkdir_all h on_host)
    must (mount h (join_path (abs_data_path ∷ text "#rocksdb" ∷ [])) (text "/data/#rocksdb"))

  -- The directory of the sealed key, which is made behind the mount.
  unfoldable pub mount_persistence_dir : Bytes → M D (Unit {0})
  unfolding mkdir mount host_path
  mount_persistence_dir abs_data_path = do
    must (
        mount h (join_path (abs_data_path ∷ persistence_dir ∷ []))
          (join_path (text "/data" ∷ persistence_dir ∷ [])))
    on_host ← host_path abs_data_path
    must_or_exist (mkdir h (join_path (on_host ∷ persistence_dir ∷ [])))

  -- The directories for data, which the node sees at `/data`.
  unfoldable pub mount_data_dirs : Bool → Config → M D Config
  unfolding enclave_abs_path
  mount_data_dirs run_as_marble config = do
    abs_data_path ← enclave_abs_path config.data_path
    mount_rocksdb_dir abs_data_path
    when (not run_as_marble) (mount_persistence_dir abs_data_path)
    pure (record config { data_path = text "/data" })

  -- `main` behind the contact with MarbleRun and before `run`.
  unfoldable pub set_up : Bool → M D Config
  unfolding mkdir fill_config_from_environment
  set_up run_as_marble = do
    filled ← fill_config_from_environment defaults
    must (mkdir h internal_path)
    config ← mount_log_dir filled
    mount_data_dirs run_as_marble config

-- `pre_main_ego` is MarbleRun's `PreMainEgo`; the flag `-marble` is an argument.
module _ (root_ca_var : String) (h : Host) (bootstrap_sql : Bytes) (num_tcs : ℕ)
    (pre_main_ego : M Mariadb (Unit {0})) where
  -- `main`
  unfoldable pub main : Bool → M Mariadb (Bytes × TlsConfig)
  unfolding run
  main run_as_marble = do
    when run_as_marble (must pre_main_ego)
    config ← set_up h run_as_marble
    run root_ca_var (execution_env h) bootstrap_sql num_tcs config run_as_marble internal_path
        (text "255.0.0.1")
