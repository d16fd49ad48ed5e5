-- ===== src/Cmd/Run.antt =====
-- cmd/edb/run.go: `run`, up to the server that it starts.
use edgelessdb.Prelude.{ℕ, Bool, String, Bytes, text}
use edgelessdb.Prelude.Int.{sub_ℕ}
use edgelessdb.World.{Config, Host, M, ◌>>=◌, ◌>>◌, pure, must, branch, modify, print}
use edgelessdb.Db.Mariadb.Config.{Mariadb, set_db}
use edgelessdb.Db.Mariadb.Startup.{new_mariadb, mariadb}
use edgelessdb.Core.Certificate.{TlsConfig, get_tls_config, generate_report}
use edgelessdb.Core.Lifecycle.{new_core, is_recovering, start_database}

-- The build gives the number of threads of the enclave; `bootstrap_sql` is the generated constant.
module _ (root_ca_var : String) (h : Host) (bootstrap_sql : Bytes) (num_tcs : ℕ) where
  -- The lines that tell the user of the recovery mode.
  abbrev pub tell_recovery : M Mariadb (Unit {0})
  tell_recovery = do
    print (text "edb failed to retrieve the database encryption key and has entered recovery mode.")
    print (
        text
          "You can use the /recover API endpoint to upload the recovery data which was generated when the manifest has been initialized originally.")
    print (text "For more information, visit: https://edglss.cc/doc-edb-recovery")

  -- The database is started, or the node waits for a key; errors end the process.
  unfoldable pub bring_up : M Mariadb (Unit {0})
  bring_up = do
    recovering ← is_recovering root_ca_var h (mariadb h bootstrap_sql)
    branch recovering
        (tell_recovery >> must (generate_report root_ca_var h (mariadb h bootstrap_sql)))
        (must (start_database root_ca_var h (mariadb h bootstrap_sql)))

  -- `run`: the address and the TLS configuration of the server
  unfoldable pub run : Config → Bool → Bytes → Bytes → M Mariadb (Bytes × TlsConfig)
  run config is_marble internal_path internal_address = do
    db ← must (
        new_mariadb h internal_path config.data_path internal_address config.database_address
          config.certificate_dns_name config.log_dir config.debug is_marble (sub_ℕ num_tcs 32))
    modify (set_db db)
    new_core h config is_marble
    bring_up
    tls ← get_tls_config root_ca_var h (mariadb h bootstrap_sql)
    pure (config.api_address, tls)
