-- ===== src/Node/Process.antt =====
-- `run` leaves the row on the disk of a node, however it ends (cmd/edb/run.go).
use edgelessdb.Prelude.{
  ◌≡◌, ◌∙◌, refl, arith, ℕ, Bool, Option, none, some, [], false, String, Bytes,
}
use edgelessdb.Prelude.Int.{ℤ, sub_ℕ}
use edgelessdb.World.{
  World, Config, Disk, Host, Row, M, PrivateKey, rsa, ecdsa, other_key, dir, put, after, ok, on_ok,
  mkdir_all, must, branch, modify, tick, getenv, ◌>>=◌, ◌>>◌, pure, after-bind,
}
use edgelessdb.World.Invariant.{Holds, holds, must-Holds, same-Holds}
use edgelessdb.Db.Util.{create_certificate, generate_serial}
use edgelessdb.Db.Marblerun.{setup_certificate_from_marblerun, check_key_size}
use edgelessdb.Db.Mariadb.Config.{Mariadb, set_db}
use edgelessdb.Db.Mariadb.Startup.{new_mariadb, mariadb}
use edgelessdb.Core.States.{set_core}
use edgelessdb.Core.Key.{must_init_master_key}
use edgelessdb.Core.Certificate.{
  TlsConfig, get_certificate_ca, get_tls_config, get_tls_config_marble,
}
use edgelessdb.Core.Lifecycle.{fresh_core, new_core}
use edgelessdb.Cmd.Run.{tell_recovery, bring_up, run}
use edgelessdb.Node.Intact.{IsOwn, IsDurable, data_dir}
use edgelessdb.Node.Files.{kept}
use edgelessdb.Node.Keys.{must_init_master_key-Kept}
use edgelessdb.Node.Methods.{Keeping, generate_report-Kept, start_database-Kept, is_recovering-Kept}

-- Before the process has its objects, only the disk counts.
abbrev pub Stored : (Disk → Option Row) → Row → World Mariadb → Type 0
Stored row r w = row w.os.disk ≡ some r

pub must_ok :
    {A : Type 0} (m : M Mariadb A) (a : A) (w v : World Mariadb) → must m w ≡ ok a v → m w ≡ ok a v
must_ok m a w v e = ground arith

module _ (h : Host) (row : Disk → Option Row) (internal_path : Bytes) (config : Config)
    (laws : IsDurable h row internal_path (IsOwn internal_path config)) (r : Row) where
  tick-Stored : Holds (Stored row r) tick
  tick-Stored = record { kept = λ w p. p }

  getenv-Stored : (k : String) → Holds (Stored row r) (getenv k)
  getenv-Stored k = record { kept = λ w p. p }

  after-mkdir_all-row :
      (p : Bytes) (w : World Mariadb)
      → row (put p dir w.os.disk) ≡ row w.os.disk
      → row (after (mkdir_all h p w)).os.disk ≡ row w.os.disk
  unfolding mkdir_all
  after-mkdir_all-row p w same = ground arith

  data_dir-Stored : Holds (Stored row r) (mkdir_all h config.data_path)
  data_dir-Stored = record {
    kept = λ w p.
        after-mkdir_all-row config.data_path w
          (laws.written config.data_path dir w.os.disk data_dir)
        ∙ p;
  }

  create_certificate-Stored : (name : Bytes) → Holds (Stored row r) (create_certificate h name)
  unfolding create_certificate generate_serial
  create_certificate-Stored name = search (holds, tick-Stored) depth 12

  check_key_size-Stored : (key : PrivateKey) → Holds (Stored row r) (check_key_size key)
  check_key_size-Stored (rsa bits _) = search holds
  check_key_size-Stored (ecdsa bits _) = search holds
  check_key_size-Stored (other_key _) = search holds

  setup_certificate_from_marblerun-Stored :
      Holds (Stored row r) (setup_certificate_from_marblerun h)
  unfolding setup_certificate_from_marblerun
  setup_certificate_from_marblerun-Stored =
      search (holds, getenv-Stored, check_key_size-Stored) depth 20

  pub new_mariadb-Stored :
      (ia ea dns log : Bytes) (debug marble : Bool) (n : ℤ)
      → Holds
          (Stored row r)
          (new_mariadb h internal_path config.data_path ia ea dns log debug marble n)
  unfolding new_mariadb
  new_mariadb-Stored ia ea dns log debug marble n =
      search
        (holds, data_dir-Stored, create_certificate-Stored, setup_certificate_from_marblerun-Stored)
        depth 12

  pub new_mariadb-inside :
      (ia ea dns log : Bytes) (debug marble : Bool) (n : ℤ) (db : Mariadb) (w v : World Mariadb)
      → must (new_mariadb h internal_path config.data_path ia ea dns log debug marble n) w ≡ ok db v
      → (db.internal_path ≡ internal_path) × (db.external_path ≡ config.data_path)
  unfolding new_mariadb
  new_mariadb-inside ia ea dns log debug marble n db w v e =
      let object : Bytes × PrivateKey → M Mariadb Mariadb = λ pair. pure (record {
        internal_path = internal_path;
        external_path = config.data_path;
        internal_address = ia;
        external_address = ea;
        debug = debug;
        debug_log_dir = log;
        max_pool_threads = n;
        cert = pair.0;
        key = pair.1;
        manifest_sig = none;
        ca = [];
        attempted_init = false;
      }) in
      let certificate : M Mariadb (Bytes × PrivateKey) =
        branch marble (setup_certificate_from_marblerun h) (create_certificate h dns) in
      let returned : (mkdir_all h config.data_path >>= λ _. certificate >>= object) w ≡ ok db v =
        must_ok (mkdir_all h config.data_path >>= λ _. certificate >>= object) db w v e in
      on_ok (mkdir_all h config.data_path) (λ _. certificate >>= object) w returned
        λ _ w1 e1 r1.
          on_ok certificate object w1 r1 λ pair w2 e2 r2. (ground (arith, r2), ground (arith, r2))

module _ (root_ca_var : String) (h : Host) (bootstrap_sql : Bytes) (num_tcs : ℕ)
    (row : Disk → Option Row) (internal_path : Bytes) (config : Config)
    (laws : IsDurable h row internal_path (IsOwn internal_path config)) (r : Row) where
  tell_recovery-Kept :
      Keeping root_ca_var h bootstrap_sql row internal_path config laws r
        (tell_recovery root_ca_var h bootstrap_sql num_tcs)
  tell_recovery-Kept = search kept depth 9

  bring_up-Kept :
      Keeping root_ca_var h bootstrap_sql row internal_path config laws r
        (bring_up root_ca_var h bootstrap_sql num_tcs)
  unfolding bring_up
  bring_up-Kept =
      search
        (kept, is_recovering-Kept, tell_recovery-Kept, generate_report-Kept, start_database-Kept)
        depth 9

  get_tls_config-Kept :
      Keeping root_ca_var h bootstrap_sql row internal_path config laws r
        (get_tls_config root_ca_var h (mariadb h bootstrap_sql))
  unfolding get_tls_config get_tls_config_marble get_certificate_ca
  get_tls_config-Kept = same-Holds _ (λ w. ground arith)

  -- The part of `run` behind the objects.
  serve : M Mariadb (Bytes × TlsConfig)
  serve = do
    bring_up root_ca_var h bootstrap_sql num_tcs
    tls ← get_tls_config root_ca_var h (mariadb h bootstrap_sql)
    pure (config.api_address, tls)

  serve-Kept :
      Keeping root_ca_var h bootstrap_sql row internal_path config laws r
        (must_init_master_key h >> serve)
  unfolding serve
  serve-Kept = search (kept, must_init_master_key-Kept, bring_up-Kept, get_tls_config-Kept) depth 9

  pub run-IsIntact :
      (marble : Bool) (internal_address : Bytes) (w : World Mariadb)
      → row w.os.disk ≡ some r
      → row
          (after (
            run root_ca_var h bootstrap_sql num_tcs config marble internal_path internal_address
              w)).os.disk
        ≡ some r
  unfolding run new_core serve
  run-IsIntact marble ia w stored =
      let made : M Mariadb Mariadb = must (
        new_mariadb h internal_path config.data_path ia config.database_address
          config.certificate_dns_name config.log_dir config.debug marble (sub_ℕ num_tcs 32)) in
      let rest : Mariadb → M Mariadb (Bytes × TlsConfig) =
        λ db. modify (set_db db) >> (new_core h config marble >> serve) in
      after-bind (λ v. row v.os.disk ≡ some r) made rest w (first.kept w stored)
        λ db v e.
          ((serve-Kept).kept (set_core (fresh_core config marble) (set_db db v)) (record {
            stored = rw e at (first.kept w stored);
            configured = refl;
            inside =
                (new_mariadb-inside h row internal_path config laws r _ _ _ _ _ _ _ db w v e).0;
            outside =
                (new_mariadb-inside h row internal_path config laws r _ _ _ _ _ _ _ db w v e).1;
          })).stored
    where
      first : Holds (Stored row r) (
          must (
            new_mariadb h internal_path config.data_path ia config.database_address
              config.certificate_dns_name config.log_dir config.debug marble
              (sub_ℕ num_tcs 32)))
      first = must-Holds _ (new_mariadb-Stored h row internal_path config laws r _ _ _ _ _ _ _)
