-- ===== src/Examples/Databases.antt =====
-- The theorems on MariaDB and its quotes at concrete inputs.
use edgelessdb.Prelude.{
  ◌≡◌, ◌≢◌, refl, Bytes, some, none, [], ◌∷◌, true, false, text, bytes_eq, not, ◌&&◌, ◌++◌,
}
use edgelessdb.Prelude.Int.{pos}
use edgelessdb.World.{
  World, Host, Disk, Row, Manifest, PrivateKey, uninitialized, initialized, listening, after, ok,
  with_env, file, dir, put, set_disk, stat, setenv, read_file, write_file, remove, val, or_empty,
}
use edgelessdb.Std.FilePath.{join_path}
use edgelessdb.Db.Util.{to_pem}
use edgelessdb.Db.Marblerun.{root_certificate_var, root_key_var, setup_certificate_from_marblerun}
use edgelessdb.Db.Marblerun.Checks.{setup_certificate_from_marblerun-eq_ok, IsLongEnough}
use edgelessdb.Db.Mariadb.Config.{
  Mariadb, internal_file, filename_cnf, filename_bootstrap_log, write_internal, configure_bootstrap,
  configure_start, client_ca, write_certificates,
}
use edgelessdb.Db.Mariadb.Bootstrap.{
  found_errors, print_error_log, remove_old_log, run_bootstrap, check_manifest, bootstrap,
  initialize,
}
use edgelessdb.Db.Mariadb.Startup.{
  database_dir, normalized_internal_addr, internal_addr_var, get_config_from_sql, check_database,
  run_mariadbd, take_over, start, mariadb,
}
use edgelessdb.Db.Mariadb.Once.{initialize-eq_ok}
use edgelessdb.Db.Mariadb.Adopt.{start-eq_ok}
use edgelessdb.Db.Mariadb.Files.{initialize_files}
use edgelessdb.Db.Mariadb.Config.{bootstrap_cnf, filename_init, start_cnf}
use edgelessdb.Db.Mariadb.Script.{creating, statements, inserting, IsNaming}
use edgelessdb.Core.Certificate.{
  generate_report, reported_certificate, get_certificate_report, report_or_none,
}
use edgelessdb.Core.Quote.{get_certificate_report-generate_report, IsQuoted}
use edgelessdb.Examples.Objects.{mock_host, node, some_key, mock_os, mock_core}

abbrev pub mock_mariadb : Mariadb
mock_mariadb = record {
  internal_path = text "/i";
  external_path = text "/d";
  internal_address = text "127.0.0.1";
  external_address = [];
  debug = true;
  debug_log_dir = [];
  max_pool_threads = pos 32;
  cert = 6 ∷ [];
  key = some_key;
  manifest_sig = none;
  ca = [];
  attempted_init = false;
}

-- A mariadbd whose bootstrap leaves an empty log.
abbrev pub logging_host : Host
logging_host = record mock_host {
  bootstrap =
      λ cnf disk. (0, put (internal_file mock_mariadb filename_bootstrap_log) (file []) disk);
}

abbrev pub fresh : World Mariadb
fresh = record { os = mock_os; core = mock_core initialized false; db = mock_mariadb }

abbrev bootstrapped : World Mariadb
bootstrapped = after (initialize logging_host [] (5 ∷ []) fresh)

is_bootstrapped : initialize logging_host [] (5 ∷ []) fresh ≡ ok tt bootstrapped
unfolding initialize check_manifest configure_bootstrap write_internal write_file bootstrap
    remove_old_log remove run_bootstrap print_error_log read_file internal_file join_path bytes_eq
    found_errors
is_bootstrapped = refl

initialize-eq_ok_example :
    (fresh.db.manifest_sig ≡ none)
    × (fresh.db.attempted_init ≡ false)
    × ((man : Manifest) × (logging_host.json_manifest (5 ∷ []) ≡ val man)
        × ((fresh.db.debug && not man.debug) ≡ false))
    × ((disk : Disk) × (logging_host.bootstrap (internal_file bootstrapped.db filename_cnf) disk
          ≡ (0, bootstrapped.os.disk)))
    × ((log : Bytes) × (read_file logging_host
            (internal_file bootstrapped.db filename_bootstrap_log)
            bootstrapped
          ≡ ok log bootstrapped)
        × (found_errors log ≡ []))
    × (bootstrapped.db ≡ record (fresh.db) { attempted_init = true })
initialize-eq_ok_example =
    initialize-eq_ok logging_host [] (5 ∷ []) fresh bootstrapped is_bootstrapped

-- A disk with a database.
abbrev with_database : World Mariadb
with_database = set_disk (put (database_dir mock_mariadb) dir (λ p. none)) fresh

abbrev running : World Mariadb
running = after (start mock_host with_database)

is_running : start mock_host with_database ≡ ok tt running
unfolding start check_database stat database_dir join_path bytes_eq configure_start write_internal
    write_file internal_file setenv run_mariadbd take_over get_config_from_sql write_certificates
    to_pem client_ca
is_running = refl

start-eq_ok_example :
    (row : Row) × (key : PrivateKey) × (man : Manifest) × ((disk : Disk) × (mock_host.startup
          (internal_file with_database.db filename_cnf)
          (put
            (internal_file with_database.db filename_cnf)
            (file (start_cnf mock_host with_database.db))
            with_database.os.disk)
        ≡ listening disk)
      × (mock_host.query_config (normalized_internal_addr with_database.db) disk ≡ val row))
    × (mock_host.parse_pkcs8 row.key ≡ val key)
    × (mock_host.json_manifest row.manifest ≡ val man)
    × ((with_database.db.debug && not man.debug) ≡ false)
    × (running.db ≡ record (with_database.db) {
      manifest_sig = some (mock_host.sha256 row.manifest);
      ca = man.ca;
      cert = row.cert;
      key = key;
    })
    × (running.os.env internal_addr_var ≡ some [])
start-eq_ok_example = start-eq_ok mock_host with_database running is_running

-- The two variables of MarbleRun.
abbrev provisioned : World (Unit {0})
provisioned =
    with_env root_key_var (45 ∷ 4 ∷ [])
      (with_env root_certificate_var (45 ∷ 3 ∷ []) (node uninitialized true))

setup_certificate_from_marblerun-eq_ok_example :
    (or_empty (provisioned.os.env root_certificate_var) ≢ [])
    × (or_empty (provisioned.os.env root_key_var) ≢ [])
    × (mock_host.pem_decode (or_empty (provisioned.os.env root_certificate_var)) ≡ some (3 ∷ []))
    × (mock_host.parse_certificate (3 ∷ []) ≡ val true)
    × ((block : Bytes) × (mock_host.pem_decode (or_empty (provisioned.os.env root_key_var))
          ≡ some block)
        × (mock_host.parse_pkcs8 block ≡ val some_key))
    × IsLongEnough some_key
    × (provisioned ≡ provisioned)
unfolding setup_certificate_from_marblerun
setup_certificate_from_marblerun-eq_ok_example =
    setup_certificate_from_marblerun-eq_ok mock_host (3 ∷ []) some_key provisioned provisioned refl

initialize_files_example :
    (man : Manifest) × (key : Bytes) × (disk : Disk) × (logging_host.json_manifest (5 ∷ [])
      ≡ val man)
    × (logging_host.marshal_pkcs8 some_key ≡ val key)
    × (disk (internal_file mock_mariadb filename_cnf) ≡ some (file (bootstrap_cnf mock_mariadb)))
    × (disk (internal_file mock_mariadb filename_init)
        ≡ some (
            file (
              creating
              ++ ([]
                  ++ (text "\nFLUSH PRIVILEGES;\n"
                      ++ (statements man.sql ++ inserting (6 ∷ []) key (5 ∷ [])))))))
    × IsNaming mock_mariadb.internal_path (bootstrap_cnf mock_mariadb)
    × (logging_host.bootstrap (internal_file mock_mariadb filename_cnf) disk
        ≡ (0, bootstrapped.os.disk))
unfolding internal_file join_path bytes_eq text
initialize_files_example =
    initialize_files logging_host [] (5 ∷ []) fresh bootstrapped refl refl refl is_bootstrapped

-- A node that has made its report.
abbrev pub reported : World Mariadb
reported = after (generate_report "CA" mock_host (mariadb mock_host []) fresh)

get_certificate_report-generate_report_example :
    (quoted : Bytes) × ((1 ∷ 6 ∷ [])
      ≡ report_or_none (mock_host.remote_report (mock_host.sha256 quoted)))
    × IsQuoted "CA" mock_host [] fresh (45 ∷ 6 ∷ []) quoted
unfolding generate_report reported_certificate get_certificate_report
get_certificate_report-generate_report_example =
    get_certificate_report-generate_report "CA" mock_host [] (45 ∷ 6 ∷ []) (1 ∷ 6 ∷ []) fresh
      reported reported refl refl
