-- ===== src/Examples/Start.antt =====
-- The theorem on the start of the process at a concrete input.
use edgelessdb.Prelude.{some, ◌≤◌, ◌≡◌, ◌⊎◌, refl, Bytes, [], ◌∷◌, true, false, length, bytes_eq}
use edgelessdb.World.{
  ok, World, Config, recovery, initialized, after, exists, stat, read_file, mkdir_all,
}
use edgelessdb.Std.FilePath.{join_path}
use edgelessdb.Db.Util.{create_certificate}
use edgelessdb.Db.Mariadb.Config.{Mariadb}
use edgelessdb.Db.Mariadb.Startup.{new_mariadb, check_database, database_dir, start}
use edgelessdb.Core.States.{require_state, lock, defer_unlock}
use edgelessdb.Core.Key.{
  must_init_master_key, load_master_key, load_master_key_from_env, load_master_key_from_disk,
  generate_if_missing, settle, new_master_key, key_path, rocksdb_path, persistence_path,
  store_master_key, store_master_key_to_env, backup_key,
}
use edgelessdb.Core.Certificate.{TlsConfig, get_tls_config, generate_report, reported_certificate}
use edgelessdb.Core.Lifecycle.{
  new_core, is_recovering, start_database, start_or_wait, initialize_if_waiting,
}
use edgelessdb.Cmd.Run.{run, bring_up}
use edgelessdb.Core.Lifecycle.{encrypt_recovery_key}
use edgelessdb.Cmd.Served.{run_serves}
use edgelessdb.Db.Mariadb.Startup.{mariadb}
use edgelessdb.Server.Schedule.{prepare, move, arrived, ready, then, here, arrives, moves}
use edgelessdb.Server.Schedule.Once.{count_applied}
use edgelessdb.Examples.Api.{no_json, no_text}
use edgelessdb.Examples.Objects.{sixteen}
use edgelessdb.Examples.Objects.{mock_host, mock_config, some_key}
use edgelessdb.Examples.Databases.{fresh}

-- A configuration without a manifest file.
abbrev pub waiting_config : Config
waiting_config = record mock_config { manifest_file_path = [] }

abbrev pub served : Bytes × TlsConfig
served = ([], record { chain = (6 ∷ []) ∷ []; key = some_key; per_client = true })

abbrev pub serving : World Mariadb
serving = after (run "CA" mock_host [] 64 waiting_config false [] [] fresh)

pub is_serving : run "CA" mock_host [] 64 waiting_config false [] [] fresh ≡ ok served serving
unfolding run new_mariadb mkdir_all create_certificate new_core must_init_master_key exists stat
    rocksdb_path join_path bytes_eq load_master_key load_master_key_from_env
    load_master_key_from_disk read_file generate_if_missing settle new_master_key key_path
    persistence_path store_master_key store_master_key_to_env backup_key bring_up is_recovering
    require_state lock defer_unlock start_database start_or_wait start check_database database_dir
    generate_report reported_certificate initialize_if_waiting get_tls_config
is_serving = refl

abbrev manifest : Bytes
manifest = 5 ∷ []

abbrev prepared_world : World Mariadb
prepared_world =
    after (prepare "CA" mock_host no_text no_json (mariadb mock_host []) manifest serving)

is_prepared :
    move "CA" mock_host no_text no_json (mariadb mock_host []) (arrived manifest) serving
    ≡ some (ready manifest (some (2 ∷ sixteen)), prepared_world)
unfolding run new_mariadb mkdir_all create_certificate new_core must_init_master_key exists stat
    rocksdb_path join_path bytes_eq load_master_key load_master_key_from_env
    load_master_key_from_disk read_file generate_if_missing settle new_master_key key_path
    persistence_path store_master_key store_master_key_to_env backup_key bring_up is_recovering
    require_state lock defer_unlock start_database start_or_wait start check_database database_dir
    generate_report reported_certificate initialize_if_waiting get_tls_config prepare
    encrypt_recovery_key
is_prepared = refl

run_serves_example :
    (prepared_world.core.locked ≡ false)
    × (prepared_world.core.state ≡ serving.core.state)
    × (((prepared_world.core.state ≡ initialized)
          × (length prepared_world.core.master_key ≡ 16)
          × (count_applied (ready manifest (some (2 ∷ sixteen)) ∷ []) ≤ 1))
        ⊎ (prepared_world.core.state ≡ recovery))
run_serves_example =
    run_serves "CA" mock_host [] 64 no_text no_json waiting_config false [] [] served fresh serving
      prepared_world (ready manifest (some (2 ∷ sixteen)) ∷ []) is_serving
      (then (then here (arrives manifest))
        (moves (arrived manifest) (ready manifest (some (2 ∷ sixteen))) [] [] is_prepared))
