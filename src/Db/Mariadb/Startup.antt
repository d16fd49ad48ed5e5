-- ===== src/Db/Mariadb/Startup.antt =====
-- edb/db/mariadb.go: `NewMariadb`, `Start`, and the object as a database.
use edgelessdb.Prelude.{
  ◌≡◌, ◌≢◌, Bool, true, false, not, ◌&&◌, Option, none, some, [], ◌∷◌, String, Bytes, text,
}
use edgelessdb.Prelude.Int.{ℤ}
use edgelessdb.Std.FilePath.{join_path}
use edgelessdb.Std.Net.{join_host_port}
use edgelessdb.World.{
  World, Disk, Host, Manifest, Row, PrivateKey, Startup, listening, returned, silent, M, fatal,
  deadlocked, ok, halt, ◌>>=◌, ◌>>◌, pure, throw, attempt, must, branch, on_result, on_result,
  fail_if, from_result, get, modify, set_disk, stat, mkdir_all, setenv, fault, is_not_exist,
  not_initialized_yet, mariadbd_returned, debug_not_allowed,
}
use edgelessdb.Db.Interface.{Database}
use edgelessdb.Db.Util.{split_host_port, create_certificate}
use edgelessdb.Db.Marblerun.{setup_certificate_from_marblerun}
use edgelessdb.Db.Mariadb.Config.{
  Mariadb, filename_cnf, internal_file, db_state, set_db, configure_start, write_certificates,
}
use edgelessdb.Db.Mariadb.Bootstrap.{initialize}

-- `edbInternalAddr`
abbrev pub internal_addr_var : String
internal_addr_var = "EDB_INTERNAL_ADDR"

module _ (h : Host) {D : Type 0} where
  -- `NewMariadb`
  unfoldable pub new_mariadb :
      Bytes → Bytes → Bytes → Bytes → Bytes → Bytes → Bool → Bool → ℤ → M D Mariadb
  new_mariadb internal_path external_path internal_address external_address dns_name log_dir debug
        is_marble max_pool_threads =
      do
        mkdir_all h external_path
        (cert, key) ←
            branch is_marble (setup_certificate_from_marblerun h) (create_certificate h dns_name)
        pure (record {
          internal_path = internal_path;
          external_path = external_path;
          internal_address = internal_address;
          external_address = external_address;
          debug = debug;
          debug_log_dir = log_dir;
          max_pool_threads = max_pool_threads;
          cert = cert;
          key = key;
          manifest_sig = none;
          ca = [];
          attempted_init = false;
        })

unfoldable pub database_dir : Mariadb → Bytes
database_dir d = join_path (d.external_path ∷ text "#rocksdb" ∷ [])

unfoldable pub normalized_internal_addr : Mariadb → Bytes
normalized_internal_addr d = join_host_port (split_host_port d.internal_address (text "3305"))

-- A mariadbd that never leaves `Start` waiting: it listens or returns, and says that it has started.
pub record IsResponsive (h : Host) : Type 0 where
  pub listens : (cnf : Bytes) (disk : Disk) → h.startup cnf disk ≢ silent
  pub comes_up : (disk : Disk) → h.comes_up disk ≡ true

module _ (h : Host) where
  -- `getConfigFromSQL`
  unfoldable pub get_config_from_sql : Bytes → M Mariadb (Row × PrivateKey)
  get_config_from_sql address = do
    w ← get
    row ← from_result (h.query_config address w.os.disk)
    key ← from_result (h.parse_pkcs8 row.key)
    pure (row, key)

  -- An error that is logged before the process ends.
  abbrev pub or_fatal : {A : Type 0} → M Mariadb A → M Mariadb A
  or_fatal m = do r ← attempt m; on_result r pure (λ e. halt (fatal e))

  -- Whether there is a database to start.
  unfoldable pub check_database : M Mariadb (Unit {0})
  check_database = do
    d ← db_state
    r ← attempt (stat h (database_dir d))
    on_result r (λ _. pure tt) (λ e. branch (is_not_exist e) (throw not_initialized_yet) (throw e))

  abbrev pub started : Startup → M Mariadb (Unit {0})
  started (listening disk) w = ok tt (set_disk disk w)
  started (returned code) w = halt (fatal mariadbd_returned) w
  started silent w = halt deadlocked w

  -- The goroutine with `mariadbd.Main`, and `WaitUntilListenInternalReady`. A panic of that goroutine
  -- ends the process, and runs no deferred call of any other one; the wait for a server that never
  -- listens has no end.
  unfoldable pub run_mariadbd : M Mariadb (Unit {0})
  run_mariadbd = do w ← get; started (h.startup (internal_file w.db filename_cnf) w.os.disk)

  -- `setManifestSignature`
  abbrev pub set_manifest_signature : Bytes → Mariadb → Mariadb
  set_manifest_signature json_manifest d = record d { manifest_sig = some (h.sha256 json_manifest) }

  -- The fields that come from the database.
  abbrev pub adopt : Row → PrivateKey → Manifest → World Mariadb → World Mariadb
  adopt row key man w =
      set_db
        (record (set_manifest_signature row.manifest w.db) {
          ca = man.ca;
          cert = row.cert;
          key = key;
        })
        w

  -- `WaitUntilStarted`, which has no end if the server never says that it has started.
  abbrev pub wait_until_started : M Mariadb (Unit {0})
  wait_until_started w = branch (h.comes_up w.os.disk) (ok tt) (halt deadlocked) w

  -- `Start` once mariadbd listens, up to the signal that it may go on: errors are unrecoverable.
  unfoldable pub take_over : Bytes → M Mariadb (Unit {0})
  take_over address = do
    (row, key) ← or_fatal (get_config_from_sql address)
    man ← must (from_result (h.json_manifest row.manifest))
    d ← db_state
    must (fail_if (d.debug && not man.debug) debug_not_allowed)
    modify (adopt row key man)
    must (write_certificates h)
    must (setenv h internal_addr_var [])
    must (fault h.dial_fault)

  -- `Start`
  unfoldable pub start : M Mariadb (Unit {0})
  start = do
    check_database
    configure_start h
    d ← db_state
    setenv h internal_addr_var (normalized_internal_addr d)
    run_mariadbd
    take_over (normalized_internal_addr d)
    wait_until_started

  -- `GetManifestSignature`
  abbrev pub manifest_signature : Mariadb → Option Bytes
  manifest_signature d = d.manifest_sig

  -- The methods as the interface has them.
  abbrev pub mariadb : Bytes → Database Mariadb
  mariadb bootstrap_sql = record {
    get_certificate = λ w. ok (w.db.cert, w.db.key) w;
    initialize = initialize h bootstrap_sql;
    start = start;
    get_manifest_signature = manifest_signature;
  }
