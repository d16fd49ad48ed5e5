-- ===== src/Node/Run.antt =====
-- The start of the database within a `run` that gets to its server (cmd/edb/run.go).
use edgelessdb.Prelude.{◌≡◌, ◌⊎◌, ◌∙◌, refl, ap, sym, ℕ, Bool, false, Option, some, String, Bytes}
use edgelessdb.Prelude.Int.{sub_ℕ}
use edgelessdb.World.{
  World, Config, Disk, Host, Row, M, Outcome, ok, on_ok, must, pure, modify, initialized, ◌>>=◌,
  ◌>>◌,
}
use edgelessdb.Db.Mariadb.Config.{Mariadb, set_db}
use edgelessdb.Db.Mariadb.Startup.{new_mariadb, mariadb}
use edgelessdb.Core.States.{set_core}
use edgelessdb.Core.Certificate.{TlsConfig, get_tls_config}
use edgelessdb.Core.Lifecycle.{fresh_core, new_core}
use edgelessdb.Cmd.Run.{bring_up, run}
use edgelessdb.Core.Settings.{settings}
use edgelessdb.Cmd.Up.{bring_up-Keeps}
use edgelessdb.World.Invariant.{Holds, must-Holds}
use edgelessdb.Cmd.Progress.{new_core_free}
use edgelessdb.Node.Process.{Stored, new_mariadb-Stored, new_mariadb-inside}
use edgelessdb.Node.Intact.{IsOwn, IsDurable, IsIntact}
use edgelessdb.Node.Keys.{must_init_master_key-Kept}
use edgelessdb.Node.Start.{
  IsWaiting, HasStarted, start_database-eq_ok, bring_up-eq_ok, get_tls_config_same,
}

ok_world :
    {A : Type 0} {a b : A} {w v : World Mariadb}
    → Path (Outcome Mariadb A) (ok a w) (ok b v)
    → w ≡ v
ok_world e = cc

module _ (root_ca_var : String) (h : Host) (bootstrap_sql : Bytes) (num_tcs : ℕ) where
  -- A start of the database within a run: from the world that the start finds to the one in which the
  -- node gets to its server.
  abbrev pub IsStart :
      (Disk → Option Row) → Bytes → Config → Row → World Mariadb → World Mariadb → Type 0
  IsStart row internal_path config r s u =
      (s.core.locked ≡ false)
      × (s.core.state ≡ initialized)
      × (s.db.internal_path ≡ internal_path)
      × (s.db.external_path ≡ config.data_path)
      × (row s.os.disk ≡ some r)
      × (bring_up root_ca_var h bootstrap_sql num_tcs s ≡ ok tt u)
      × (HasStarted root_ca_var h bootstrap_sql s u ⊎ IsWaiting root_ca_var h bootstrap_sql s)

  core-IsIntact :
      (row : Disk → Option Row) (internal_path : Bytes) (config : Config)
      (laws : IsDurable h row internal_path (IsOwn internal_path config)) (r : Row) (marble : Bool)
      (w v : World Mariadb)
      → new_core h config marble w ≡ ok tt v
      → w.db.internal_path ≡ internal_path
      → w.db.external_path ≡ config.data_path
      → row w.os.disk ≡ some r
      → IsIntact row internal_path config r v
  unfolding new_core
  core-IsIntact row ip config laws r marble w v e inside outside stored = rw e at (
      (must_init_master_key-Kept h row ip config laws r).kept
        (set_core (fresh_core config marble) w)
        (record { stored = stored; configured = refl; inside = inside; outside = outside }))

  raised-IsStart :
      (row : Disk → Option Row) (internal_path : Bytes) (config : Config) (r : Row)
      (w v : World Mariadb)
      → bring_up root_ca_var h bootstrap_sql num_tcs w ≡ ok tt v
      → v.core.state ≡ initialized
      → w.core.locked ≡ false
      → IsIntact row internal_path config r w
      → IsStart row internal_path config r w v
  raised-IsStart row ip config r w v e up free intact =
      let same : settings v.core ≡ settings w.core =
        rw e at ((bring_up-Keeps root_ca_var h bootstrap_sql num_tcs).kept w) in
      let state : w.core.state ≡ initialized = sym (ap (λ c. c.0) same) ∙ up in
      (
        free,
        state,
        intact.inside,
        intact.outside,
        intact.stored,
        e,
        start_database-eq_ok root_ca_var h bootstrap_sql w v
            (bring_up-eq_ok root_ca_var h bootstrap_sql num_tcs w v e free state),
      )

  -- A run that gets to its server in the state initialized, on a disk with the row: it has started the
  -- database, or found none.
  pub run-eq_ok :
      (row : Disk → Option Row) (internal_path : Bytes) (config : Config)
      (laws : IsDurable h row internal_path (IsOwn internal_path config)) (r : Row) (marble : Bool)
      (internal_address : Bytes) (served : Bytes × TlsConfig) (w u : World Mariadb)
      → run root_ca_var h bootstrap_sql num_tcs config marble internal_path internal_address w
        ≡ ok served u
      → u.core.state ≡ initialized
      → row w.os.disk ≡ some r
      → (s : World Mariadb) × IsStart row internal_path config r s u
  unfolding run
  run-eq_ok row ip config laws r marble ia served w u e up stored =
      let serve : M Mariadb (Bytes × TlsConfig) =
        get_tls_config root_ca_var h (mariadb h bootstrap_sql) >>= λ tls.
        pure (config.api_address, tls) in
      let raise : M Mariadb (Bytes × TlsConfig) =
        bring_up root_ca_var h bootstrap_sql num_tcs >> serve in
      let made : M Mariadb Mariadb = must (
        new_mariadb h ip config.data_path ia config.database_address config.certificate_dns_name
          config.log_dir config.debug marble (sub_ℕ num_tcs 32)) in
      on_ok made (λ db. modify (set_db db) >> (new_core h config marble >> raise)) w e
        λ db w1 e1 r1.
          on_ok (modify (set_db db)) (λ _. new_core h config marble >> raise) w1 r1
            λ _ w2 e2 r2.
              on_ok (new_core h config marble) (λ _. raise) w2 r2
                λ _ w3 e3 r3.
                  on_ok (bring_up root_ca_var h bootstrap_sql num_tcs) (λ _. serve) w3 r3
                    λ _ w4 e4 r4.
                      on_ok (get_tls_config root_ca_var h (mariadb h bootstrap_sql))
                        (λ tls. pure (config.api_address, tls)) w4 r4
                        λ tls w5 e5 r5.
                          let inside : w2.db.internal_path ≡ ip =
                            ap (λ (x : World Mariadb). x.db.internal_path) (sym (ok_world e2))
                            ∙ (new_mariadb-inside h row ip config laws r ia config.database_address
                                config.certificate_dns_name config.log_dir config.debug marble
                                (sub_ℕ num_tcs 32) db w w1 e1).0 in
                          let outside : w2.db.external_path ≡ config.data_path =
                            ap (λ (x : World Mariadb). x.db.external_path) (sym (ok_world e2))
                            ∙ (new_mariadb-inside h row ip config laws r ia config.database_address
                                config.certificate_dns_name config.log_dir config.debug marble
                                (sub_ℕ num_tcs 32) db w w1 e1).1 in
                          let stored2 : row w2.os.disk ≡ some r =
                            ap (λ (x : World Mariadb). row x.os.disk) (sym (ok_world e2))
                            ∙ rw e1 at (first.kept w stored) in
                          let last : w4 ≡ u =
                            sym
                              (get_tls_config_same root_ca_var h bootstrap_sql num_tcs tls w4 w5 e5)
                            ∙ ok_world r5 in
                          (
                            w3,
                            raised-IsStart row ip config r w3 u (rw last at e4) up
                                (new_core_free root_ca_var h bootstrap_sql num_tcs config marble w2
                                  w3 e3)
                                (core-IsIntact row ip config laws r marble w2 w3 e3 inside outside
                                  stored2),
                          )
    where
      first : Holds (Stored row r) (
          must (
            new_mariadb h ip config.data_path ia config.database_address config.certificate_dns_name
              config.log_dir config.debug marble
              (sub_ℕ num_tcs 32)))
      first = must-Holds _ (new_mariadb-Stored h row ip config laws r _ _ _ _ _ _ _)
