-- ===== src/Examples/Lives.antt =====
-- The theorems on the lives of a node, on a MariaDB that keeps one row.
use edgelessdb.Prelude.{subst, ◌≡◌, sym, refl, Option, some, Bytes, [], ◌∷◌, false, true, bytes_eq}
use edgelessdb.World.{
  World, Config, Disk, set_disk, with_env, after, write_file, read_file, remove,
  previous_init_failed,
}
use edgelessdb.Std.FilePath.{join_path}
use edgelessdb.Std.Hex.{encode_to_string}
use edgelessdb.Db.Mariadb.Config.{Mariadb, internal_file, write_internal, configure_bootstrap}
use edgelessdb.Db.Mariadb.Bootstrap.{
  found_errors, print_error_log, remove_old_log, run_bootstrap, check_manifest, bootstrap,
  initialize,
}
use edgelessdb.Db.Mariadb.Startup.{database_dir, mariadb}
use edgelessdb.Core.States.{lock, defer_unlock}
use edgelessdb.Core.Key.{master_key_var}
use edgelessdb.Core.Certificate.{TlsConfig}
use edgelessdb.Core.Lifecycle.{encrypt_recovery_key}
use edgelessdb.Server.Schedule.{
  Pc, arrived, ready, refused, arrives, moves, Reach, prepare, commit, move,
}
use edgelessdb.Server.Schedule
use edgelessdb.Cmd.Run.{run}
use edgelessdb.Node.Lives.{Write, runs, serves, Lives, here, then, Lives-Write}
use edgelessdb.Node.Intact.{IsOwn, IsDurable}
use edgelessdb.Examples.Api.{no_json, no_text}
use edgelessdb.Examples.Objects.{sixteen, some_key}
use edgelessdb.Examples.Databases
use edgelessdb.Examples.Restart.{storing_host, row}
use edgelessdb.Examples.Durable.{internal_dir, node_config, applied, storing_host-IsDurable}

-- One internal directory, and one configuration.
abbrev IsOurs : Bytes → Config → Type 0
IsOurs internal_path config = (internal_path ≡ internal_dir) × (config ≡ node_config)

ours : IsOurs internal_dir node_config
ours = (refl, refl)

durable :
    (internal_path : Bytes) (config : Config)
    → IsOurs internal_path config
    → IsDurable storing_host row internal_path (IsOwn internal_path config)
durable internal_path config (path, same) =
    subst (λ p. IsDurable storing_host row p (IsOwn p config)) (sym path)
      (subst (λ c. IsDurable storing_host row internal_dir (IsOwn internal_dir c)) (sym same)
        storing_host-IsDurable)

-- The process that has applied the manifest turns down another one before it ends.
abbrev recovery_key : Option Bytes
recovery_key = some (2 ∷ sixteen)

abbrev another : Bytes
another = 7 ∷ []

abbrev asked : World Mariadb
asked = after (prepare "CA" storing_host no_text no_json (mariadb storing_host []) another applied)

is_prepared :
    move "CA" storing_host no_text no_json (mariadb storing_host []) (arrived another) applied
    ≡ some (ready another recovery_key, asked)
unfolding prepare encrypt_recovery_key initialize check_manifest configure_bootstrap write_internal
    write_file bootstrap remove_old_log remove run_bootstrap print_error_log read_file internal_file
    join_path bytes_eq found_errors database_dir
is_prepared = refl

is_refused :
    move "CA" storing_host no_text no_json
      (mariadb storing_host [])
      (ready another recovery_key)
      asked
    ≡ some (refused previous_init_failed, asked)
unfolding prepare encrypt_recovery_key initialize check_manifest configure_bootstrap write_internal
    write_file bootstrap remove_old_log remove run_bootstrap print_error_log read_file internal_file
    join_path bytes_eq found_errors database_dir commit lock defer_unlock
is_refused = refl

another_refused :
    Reach "CA" storing_host no_text no_json
      (mariadb storing_host [])
      applied
      []
      asked
      (refused previous_init_failed ∷ [])
another_refused =
    Schedule.then
      (Schedule.then (Schedule.then Schedule.here (arrives another))
        (moves (arrived another) (ready another recovery_key) [] [] is_prepared))
      (moves (ready another recovery_key) (refused previous_init_failed) [] [] is_refused)

one_life : Lives "CA" storing_host no_text no_json [] 64 IsOurs applied.os.disk asked.os.disk
unfolding initialize check_manifest configure_bootstrap write_internal write_file bootstrap
    remove_old_log remove run_bootstrap print_error_log read_file internal_file join_path bytes_eq
    found_errors database_dir
one_life = then here (
    serves applied asked [] (refused previous_init_failed ∷ []) refl refl ours refl another_refused)

-- The run that follows, whatever it comes to.
abbrev rerun : World Mariadb
rerun = after (
    run "CA" storing_host [] 64 node_config false internal_dir []
      (set_disk asked.os.disk Databases.fresh))

Lives-Write_example : Write (row applied.os.disk) (row rerun.os.disk)
Lives-Write_example =
    Lives-Write "CA" storing_host no_text no_json [] 64 IsOurs row durable applied.os.disk
      rerun.os.disk
      (then one_life (
        runs false internal_dir [] node_config (set_disk asked.os.disk Databases.fresh) ours refl
          refl))

-- A node whose master key is in the environment, and two lives of it behind the one that has applied
-- the manifest.
abbrev with_key : Disk → World Mariadb
with_key disk = with_env master_key_var (encode_to_string sixteen) (set_disk disk Databases.fresh)

abbrev first_life : World Mariadb
first_life =
    after (run "CA" storing_host [] 64 node_config false internal_dir [] (with_key asked.os.disk))

abbrev second_life : World Mariadb
second_life =
    after
      (run "CA" storing_host [] 64 node_config false internal_dir [] (with_key first_life.os.disk))

abbrev served : Bytes × TlsConfig
served = ([], record { chain = (6 ∷ []) ∷ []; key = some_key; per_client = true })
