-- ===== src/Examples/Recovered.antt =====
-- A node that is recovered, and its next process.
use edgelessdb.Prelude.{◌≡◌, ap, sym, refl, Bytes, [], false, bytes_eq, text}
use edgelessdb.Std.FilePath.{join_path}
use edgelessdb.Std.Hex.{encode_to_string}
use edgelessdb.World.{
  World, recovery, after, ok, set_disk, with_env, read_file, write_file, remove, setenv, stat,
}
use edgelessdb.Db.Util.{to_pem}
use edgelessdb.Db.Mariadb.Config.{
  Mariadb, internal_file, write_internal, configure_bootstrap, configure_start, client_ca,
  write_certificates,
}
use edgelessdb.Db.Mariadb.Bootstrap.{
  found_errors, print_error_log, remove_old_log, run_bootstrap, check_manifest, bootstrap,
  initialize,
}
use edgelessdb.Db.Mariadb.Startup.{
  database_dir, get_config_from_sql, check_database, run_mariadbd, take_over, start, mariadb,
}
use edgelessdb.Core.States.{require_state, lock, defer_unlock}
use edgelessdb.Core.Key.{
  master_key_var, key_path, persistence_path, load_master_key, store_master_key,
  store_master_key_to_env, backup_key, set_master_key,
}
use edgelessdb.Core.Certificate.{generate_report, reported_certificate}
use edgelessdb.Core.Lifecycle.{start_database, start_or_wait, initialize_if_waiting, recover}
use edgelessdb.Node.Intact.{ca_file, cert_file, key_pem_file, cnf_file, init_file, log_file}
use edgelessdb.Node.Recovered.{IsWritten, written_file, LeavesKey, load_master_key-recover}
use edgelessdb.Examples.Objects.{sixteen}
use edgelessdb.Examples.Restart.{storing_host}
use edgelessdb.Examples.Durable.{internal_dir, node_config, began, applied}

other_path : (p : Bytes) → IsWritten internal_dir p → bytes_eq (key_path node_config) p ≡ false
unfolding join_path bytes_eq text persistence_path key_path
other_path p (written_file name ca_file) = refl
other_path p (written_file name cert_file) = refl
other_path p (written_file name key_pem_file) = refl
other_path p (written_file name cnf_file) = refl
other_path p (written_file name init_file) = refl
other_path p (written_file name log_file) = refl

storing_host-LeavesKey : LeavesKey storing_host internal_dir node_config
unfolding bytes_eq text key_path persistence_path join_path internal_file database_dir
storing_host-LeavesKey = record {
  files = λ name known. written_file name known;
  written = λ p e disk own. rw (other_path p own);
  removed = λ p disk own. rw (other_path p own);
  started = λ cnf before next e.
      let same : before ≡ next = cc in ap (λ disk. disk (key_path node_config)) (sym same);
  bootstrapped = λ cnf rest disk r found naming init stored. stored;
  cnf_apart = refl;
  cnf_no_log = refl;
  init_no_log = refl;
}

-- A node with a database, whose key is lost.
abbrev lost : World Mariadb
lost = set_disk applied.os.disk (record began { core = record (began.core) { state = recovery } })

abbrev recovered : World Mariadb
recovered = after (recover "CA" storing_host (mariadb storing_host []) sixteen lost)

is_recovered : recover "CA" storing_host (mariadb storing_host []) sixteen lost ≡ ok tt recovered
unfolding recover require_state lock defer_unlock set_master_key store_master_key
    store_master_key_to_env backup_key bytes_eq key_path join_path persistence_path start_database
    start_or_wait generate_report reported_certificate initialize_if_waiting start check_database
    stat database_dir configure_start write_internal write_file internal_file setenv run_mariadbd
    take_over get_config_from_sql write_certificates to_pem client_ca initialize check_manifest
    configure_bootstrap bootstrap remove_old_log remove run_bootstrap print_error_log read_file
    found_errors
is_recovered = refl

abbrev next : World Mariadb
next = set_disk recovered.os.disk began

load_master_key-recover_example :
    load_master_key storing_host next
    ≡ ok sixteen (with_env master_key_var (encode_to_string sixteen) next)
load_master_key-recover_example =
    load_master_key-recover "CA" storing_host [] sixteen lost recovered next storing_host-LeavesKey
      refl (λ key b e. cc) is_recovered refl refl refl refl refl refl
