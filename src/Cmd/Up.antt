-- ===== src/Cmd/Up.antt =====
-- `run` (cmd/edb/run.go): the states in which a node serves its API.
use edgelessdb.Prelude.{◌≡◌, ◌⊎◌, inl, inr, ◌∙◌, refl, ap, ℕ, Bool, length, Bytes, String}
use edgelessdb.Prelude.Int.{sub_ℕ}
use edgelessdb.World.{
  World, Config, Host, M, recovery, initialized, ok, on_ok, must, modify, after-must, ◌>>=◌, ◌>>◌,
  pure,
}
use edgelessdb.World.Frame.{
  KeepsCore, keeps_core, bind-KeepsCore, branch-KeepsCore, must-KeepsCore, pure-KeepsCore,
}
use edgelessdb.Db.Mariadb.Config.{Mariadb, set_db}
use edgelessdb.Db.Mariadb.Startup.{new_mariadb, mariadb}
use edgelessdb.Db.Mariadb.Separate.{mariadb-IsSeparate}
use edgelessdb.Core.States.{is_marble, lock, require_state, set_core}
use edgelessdb.Core.Key.Start.{must_init_master_key_state}
use edgelessdb.Core.Certificate.{
  TlsConfig, get_tls_config, get_certificate_ca, get_tls_config_marble,
}
use edgelessdb.Core.Lifecycle.{fresh_core, new_core, is_recovering}
use edgelessdb.Core.Frame.{
  Keeps, attempt-Keeps, KeepsCore-Keeps, bind-Keeps, branch-Keeps, is_marble-KeepsCore,
  get_certificate_ca-KeepsCore, generate_report-Keeps,
}
use edgelessdb.Core.Settings.{settings, start_database-Keeps, defer_unlock-Keeps, lock-Keeps}
use edgelessdb.Cmd.Run.{tell_recovery, bring_up, run}

must-Keeps : {A : Type 0} (m : M Mariadb A) → Keeps settings m → Keeps settings (must m)
must-Keeps m k = record {
  kept = λ w. ap (λ (v : World Mariadb). settings v.core) (after-must m w) ∙ k.kept w;
}

module _ (root_ca_var : String) (h : Host) (bootstrap_sql : Bytes) (num_tcs : ℕ) where
  is_recovering-Keeps : Keeps settings (is_recovering root_ca_var h (mariadb h bootstrap_sql))
  unfolding is_recovering require_state
  is_recovering-Keeps =
      bind-Keeps settings _ _
        (attempt-Keeps settings _ (
          defer_unlock-Keeps settings (λ _ _. refl) _
            (bind-Keeps settings lock _ (lock-Keeps settings (λ _ _. refl))
              λ _. KeepsCore-Keeps settings _ (search keeps_core depth 9))))
        λ r. KeepsCore-Keeps settings _ (search keeps_core depth 9)

  pub get_tls_config-KeepsCore : KeepsCore (get_tls_config root_ca_var h (mariadb h bootstrap_sql))
  unfolding get_tls_config get_tls_config_marble
  get_tls_config-KeepsCore = bind-KeepsCore is_marble _ is_marble-KeepsCore λ marble.
      branch-KeepsCore marble (get_tls_config_marble root_ca_var h (mariadb h bootstrap_sql)) _
        (record {
          kept = λ w.
              (bind-KeepsCore (must (get_certificate_ca root_ca_var h)) _ (must-KeepsCore _ ca)
                  (λ x. pure-KeepsCore _)).kept
                w;
        })
        (record { kept = λ w. refl })
    where
      ca : KeepsCore {D = Mariadb} (get_certificate_ca root_ca_var h)
      ca =
          get_certificate_ca-KeepsCore root_ca_var h (mariadb h bootstrap_sql)
            (mariadb-IsSeparate h bootstrap_sql)

  get_tls_config-Keeps : Keeps settings (get_tls_config root_ca_var h (mariadb h bootstrap_sql))
  get_tls_config-Keeps = KeepsCore-Keeps settings _ get_tls_config-KeepsCore

  pub bring_up-Keeps : Keeps settings (bring_up root_ca_var h bootstrap_sql num_tcs)
  unfolding bring_up
  bring_up-Keeps = bind-Keeps settings _ _ is_recovering-Keeps λ recovering.
      branch-Keeps settings recovering _ _
        (bind-Keeps settings (tell_recovery root_ca_var h bootstrap_sql num_tcs) _
          (KeepsCore-Keeps settings (tell_recovery root_ca_var h bootstrap_sql num_tcs)
            (search keeps_core depth 12))
          λ _. must-Keeps _ (
            generate_report-Keeps root_ca_var h (mariadb h bootstrap_sql)
              (mariadb-IsSeparate h bootstrap_sql) settings (λ _ _. refl)))
        (must-Keeps _ (
          start_database-Keeps root_ca_var h (mariadb h bootstrap_sql)
            (mariadb-IsSeparate h bootstrap_sql)))

  -- A node whose `run` gets to the server is in one of two states: initialized, with a master key of
  -- 16 bytes, or in recovery.
  pub run_state :
      (config : Config) (marble : Bool) (internal_path internal_address : Bytes)
      (served : Bytes × TlsConfig) (w w' : World Mariadb)
      → run root_ca_var h bootstrap_sql num_tcs config marble internal_path internal_address w
        ≡ ok served w'
      → ((w'.core.state ≡ initialized) × (length w'.core.master_key ≡ 16))
        ⊎ (w'.core.state ≡ recovery)
  unfolding run
  run_state config marble ip ia served w w' e =
      let serve : M Mariadb (Bytes × TlsConfig) =
        get_tls_config root_ca_var h (mariadb h bootstrap_sql) >>= λ tls.
        pure (config.api_address, tls) in
      let up : M Mariadb (Bytes × TlsConfig) =
        bring_up root_ca_var h bootstrap_sql num_tcs >> serve in
      on_ok
        (must (
          new_mariadb h ip config.data_path ia config.database_address config.certificate_dns_name
            config.log_dir config.debug marble (sub_ℕ num_tcs 32)))
        _ w e
        λ db w1 e1 r1.
          on_ok (modify (set_db db)) (λ _. new_core h config marble >> up) w1 r1
            λ _ w2 e2 r2.
              on_ok (new_core h config marble) (λ _. up) w2 r2
                λ _ w3 e3 r3.
                  on_ok (bring_up root_ca_var h bootstrap_sql num_tcs) (λ _. serve) w3 r3
                    λ _ w4 e4 r4.
                      on_ok (get_tls_config root_ca_var h (mariadb h bootstrap_sql))
                        (λ tls. pure (config.api_address, tls)) w4 r4
                        λ tls w5 e5 r5.
                          let found =
                            must_init_master_key_state h (set_core (fresh_core config marble) w2) w3
                              (unfold new_core in e3) in
                          let s4 : settings w4.core ≡ settings w3.core =
                            rw e4 at (bring_up-Keeps.kept w3) in
                          let s5 : settings w5.core ≡ settings w4.core =
                            rw e5 at (get_tls_config-Keeps.kept w4) in
                          let last : w' ≡ w5 = cc in
                          let s = s5 ∙ s4 in
                          let state : w'.core.state ≡ w3.core.state =
                            ap (λ (v : World Mariadb). v.core.state) last ∙ ap (λ c. c.0) s in
                          let key : w'.core.master_key ≡ w3.core.master_key =
                            ap (λ (v : World Mariadb). v.core.master_key) last ∙ ap (λ c. c.3) s in
                          elim found [
                            | inl (up, size) ↦ inl (state ∙ up, ap length key ∙ size)
                            | inr (here, _) ↦ inr (state ∙ here)
                          ]
