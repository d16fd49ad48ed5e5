-- ===== src/Cmd/Progress.antt =====
-- `run` (cmd/edb/run.go) gets to its server or ends the process: no start of a node hangs.
use edgelessdb.Prelude.Int.{ℤ}
use edgelessdb.Prelude.{◌≡◌, ◌∙◌, refl, ap, arith, ℕ, Bool, false, String, Bytes, String}
use edgelessdb.Prelude.Int.{sub_ℕ}
use edgelessdb.World.{
  World, Config, Host, M, PrivateKey, ok, must, modify, rsa, ecdsa, other_key, ◌>>=◌, ◌>>◌, pure,
}
use edgelessdb.World.Progress.{
  is_stuck, NeverStuck, never_stuck, bind-NeverStuck, branch-NeverStuck, bind-goes_on,
  must-NeverStuck,
}
use edgelessdb.Db.Util.{create_certificate}
use edgelessdb.Db.Marblerun.{setup_certificate_from_marblerun, check_key_size}
use edgelessdb.Db.Mariadb.Config.{Mariadb, set_db}
use edgelessdb.Db.Mariadb.Startup.{new_mariadb, mariadb, IsResponsive}
use edgelessdb.Db.Mariadb.Separate.{mariadb-IsSeparate, mariadb-IsLively}
use edgelessdb.Core.States.{is_marble, set_core}
use edgelessdb.Core.Key.Progress.{must_init_master_key-Keeps, must_init_master_key-NeverStuck}
use edgelessdb.Core.Certificate.{
  TlsConfig, get_tls_config, get_certificate_ca, get_tls_config_marble,
}
use edgelessdb.Core.Lifecycle.{fresh_core, new_core, is_recovering, start_database}
use edgelessdb.Core.Recovery.{is_recovering_lem}
use edgelessdb.Core.Progress.{
  is_marble-NeverStuck, generate_report-NeverStuck, get_certificate_ca-NeverStuck, branch_goes_on,
}
use edgelessdb.Core.Progress.Methods.{start_database_goes_on}
use edgelessdb.Cmd.Run.{tell_recovery, bring_up, run}

must_goes_on :
    {D A : Type 0} (m : M D A) (w : World D) → is_stuck (m w) ≡ false → is_stuck (must m w) ≡ false
must_goes_on m w e = ground (arith, e)

module _ (h : Host) {D : Type 0} where
  create_certificate-NeverStuck : (name : Bytes) → NeverStuck {D = D} (create_certificate h name)
  unfolding create_certificate
  create_certificate-NeverStuck name = search never_stuck depth 9

  check_key_size-NeverStuck : (key : PrivateKey) → NeverStuck {D = D} (check_key_size key)
  check_key_size-NeverStuck (rsa bits _) = search never_stuck
  check_key_size-NeverStuck (ecdsa bits _) = search never_stuck
  check_key_size-NeverStuck (other_key _) = search never_stuck

  setup_certificate_from_marblerun-NeverStuck :
      NeverStuck {D = D} (setup_certificate_from_marblerun h)
  unfolding setup_certificate_from_marblerun
  setup_certificate_from_marblerun-NeverStuck =
      search (never_stuck, check_key_size-NeverStuck) depth 20

  new_mariadb-NeverStuck :
      (ip ep ia ea dns log : Bytes) (debug marble : Bool) (n : ℤ)
      → NeverStuck {D = D} (new_mariadb h ip ep ia ea dns log debug marble n)
  unfolding new_mariadb
  new_mariadb-NeverStuck ip ep ia ea dns log debug marble n =
      search
        (never_stuck, create_certificate-NeverStuck, setup_certificate_from_marblerun-NeverStuck)
        depth 12

module _ (root_ca_var : String) (h : Host) (bootstrap_sql : Bytes) (num_tcs : ℕ) where
  get_tls_config-NeverStuck :
      IsResponsive h → NeverStuck (get_tls_config root_ca_var h (mariadb h bootstrap_sql))
  unfolding get_tls_config get_tls_config_marble
  get_tls_config-NeverStuck responds = bind-NeverStuck is_marble _ is_marble-NeverStuck λ marble.
      branch-NeverStuck marble (get_tls_config_marble root_ca_var h (mariadb h bootstrap_sql)) _
        (record {
          goes_on = λ w.
              (bind-NeverStuck (must (get_certificate_ca root_ca_var h)) _
                  (must-NeverStuck _ (
                    get_certificate_ca-NeverStuck root_ca_var h (mariadb h bootstrap_sql)
                      (mariadb-IsLively h bootstrap_sql responds)))
                  (λ x. record { goes_on = λ v. refl })).goes_on
                w;
        })
        (record { goes_on = λ w. refl })

  bring_up_goes_on :
      (w : World Mariadb)
      → IsResponsive h
      → w.core.locked ≡ false
      → is_stuck (bring_up root_ca_var h bootstrap_sql num_tcs w) ≡ false
  unfolding bring_up
  bring_up_goes_on w responds free =
      bind-goes_on (is_recovering root_ca_var h (mariadb h bootstrap_sql)) _ w
        (rw (is_recovering_lem root_ca_var h (mariadb h bootstrap_sql) w free))
        λ recovering v e.
          let same : v ≡ w =
            ground (arith, is_recovering_lem root_ca_var h (mariadb h bootstrap_sql) w free) in
          branch_goes_on recovering _ _ v
            ((bind-NeverStuck (tell_recovery root_ca_var h bootstrap_sql num_tcs) _
                (search never_stuck depth 12)
                (λ _. must-NeverStuck _ (
                  generate_report-NeverStuck root_ca_var h (mariadb h bootstrap_sql)
                    (mariadb-IsLively h bootstrap_sql responds)))).goes_on
              v)
            (must_goes_on (start_database root_ca_var h (mariadb h bootstrap_sql)) v (
              start_database_goes_on root_ca_var h (mariadb h bootstrap_sql)
                (mariadb-IsLively h bootstrap_sql responds) (mariadb-IsSeparate h bootstrap_sql) v
                (ap (λ (u : World Mariadb). u.core.locked) same ∙ free)))

  new_core_goes_on :
      (config : Config) (marble : Bool) (w : World Mariadb)
      → is_stuck (new_core h config marble w) ≡ false
  unfolding new_core
  new_core_goes_on config marble w =
      (must_init_master_key-NeverStuck h).goes_on (set_core (fresh_core config marble) w)

  pub new_core_free :
      (config : Config) (marble : Bool) (w v : World Mariadb)
      → new_core h config marble w ≡ ok tt v
      → v.core.locked ≡ false
  unfolding new_core
  new_core_free config marble w v e =
      ap (λ x. x.0)
        (rw e at ((must_init_master_key-Keeps h).kept (set_core (fresh_core config marble) w)))

  -- A start of a node does not wait forever, with any configuration and on any disk: `run` gets to its
  -- server, returns an error, panics or ends the process, if the two waits for mariadbd end.
  pub run_goes_on :
      (config : Config) (marble : Bool) (internal_path internal_address : Bytes) (w : World Mariadb)
      → IsResponsive h
      → is_stuck
          (run root_ca_var h bootstrap_sql num_tcs config marble internal_path internal_address w)
        ≡ false
  unfolding run
  run_goes_on config marble ip ia w responds =
      let serve : M Mariadb (Bytes × TlsConfig) =
        get_tls_config root_ca_var h (mariadb h bootstrap_sql) >>= λ tls.
        pure (config.api_address, tls) in
      let up : M Mariadb (Bytes × TlsConfig) =
        bring_up root_ca_var h bootstrap_sql num_tcs >> serve in
      let made : M Mariadb Mariadb = must (
        new_mariadb h ip config.data_path ia config.database_address config.certificate_dns_name
          config.log_dir config.debug marble (sub_ℕ num_tcs 32)) in
      bind-goes_on made (λ db. modify (set_db db) >> (new_core h config marble >> up)) w
        ((must-NeverStuck _ (
            new_mariadb-NeverStuck h ip config.data_path ia config.database_address
              config.certificate_dns_name config.log_dir config.debug marble
              (sub_ℕ num_tcs 32))).goes_on
          w)
        λ db w1 _.
          bind-goes_on (new_core h config marble) (λ _. up) (set_db db w1)
            (new_core_goes_on config marble (set_db db w1))
            λ _ w3 e3.
              bind-goes_on (bring_up root_ca_var h bootstrap_sql num_tcs) (λ _. serve) w3
                (bring_up_goes_on w3 responds (new_core_free config marble (set_db db w1) w3 e3))
                λ _ w4 _.
                  bind-goes_on (get_tls_config root_ca_var h (mariadb h bootstrap_sql))
                    (λ tls. pure (config.api_address, tls)) w4
                    ((get_tls_config-NeverStuck responds).goes_on w4) λ tls w5 _. refl
