-- ===== src/Cmd/Served.antt =====
-- A node from its start on (cmd/edb/run.go), while it serves requests (edb/server/server.go).
use edgelessdb.Prelude.{
  ℕ, ◌≤◌, ◌≡◌, ◌⊎◌, inl, inr, ◌∙◌, refl, ap, Bool, false, length, List, [], String, Bytes,
}
use edgelessdb.Prelude.Int.{sub_ℕ}
use edgelessdb.World.{
  World, Core, Config, Host, Error, Result, M, Outcome, ok, err, halt, panicked, fatal, deadlocked,
  on_ok, must, modify, initialized, recovery, ◌>>=◌, ◌>>◌, pure,
}
use edgelessdb.World.Frame.{keeps_core}
use edgelessdb.Db.Mariadb.Config.{Mariadb, set_db}
use edgelessdb.Db.Mariadb.Startup.{new_mariadb, mariadb}
use edgelessdb.Db.Mariadb.Separate.{mariadb-IsSeparate}
use edgelessdb.Core.Certificate.{TlsConfig, get_tls_config, generate_report}
use edgelessdb.Core.Lifecycle.{new_core, is_recovering, start_database}
use edgelessdb.Core.Frame.{control, KeepsCore-Keeps, generate_report-Keeps}
use edgelessdb.Core.Lock.{
  IsReleased, Keeps-IsReleased, chain-IsReleased, bind-IsReleased, branch-IsReleased,
  start_database-IsReleased,
}
use edgelessdb.Core.Recovery.{is_recovering_lem}
use edgelessdb.Cmd.Run.{tell_recovery, bring_up, run}
use edgelessdb.Cmd.Up.{run_state, get_tls_config-KeepsCore}
use edgelessdb.Cmd.Progress.{new_core_free}
use edgelessdb.Server.Response.{Reply}
use edgelessdb.Server.Schedule.{Pc, Reach}
use edgelessdb.Server.Schedule.Serving.{IsServing, Reach-IsServing}
use edgelessdb.Server.Schedule.Once.{count_applied, applied_once}

must-IsReleased :
    {A : Type 0} (m : M Mariadb A) (w : World Mariadb) → IsReleased (m w) → IsReleased (must m w)
must-IsReleased {A} m w free = of_outcome (m w) free
  where
    of_outcome :
        (r : Outcome Mariadb A)
        → IsReleased r
        → IsReleased {A = A}
            (elim r [ ok a v ↦ ok a v | err e v ↦ halt (panicked e) v | halt x v ↦ halt x v ])
    of_outcome (ok a v) e = e
    of_outcome (err x v) e = e
    of_outcome (halt (panicked x) v) e = e
    of_outcome (halt (fatal x) v) e = tt
    of_outcome (halt deadlocked v) e = tt

module _ (root_ca_var : String) (h : Host) (bootstrap_sql : Bytes) (num_tcs : ℕ) where
  bring_up-IsReleased :
      (w : World Mariadb)
      → w.core.locked ≡ false
      → IsReleased (bring_up root_ca_var h bootstrap_sql num_tcs w)
  unfolding bring_up
  bring_up-IsReleased w free =
      let db = mariadb h bootstrap_sql in
      let lawful = mariadb-IsSeparate h bootstrap_sql in
      chain-IsReleased (is_recovering root_ca_var h db) _ w
        (rw (is_recovering_lem root_ca_var h db w free) free)
        λ recovering v g.
          branch-IsReleased recovering _ _ v
            (bind-IsReleased (tell_recovery root_ca_var h bootstrap_sql num_tcs) _ v
              (KeepsCore-Keeps control (tell_recovery root_ca_var h bootstrap_sql num_tcs)
                (search keeps_core depth 12))
              g
              λ _ u f. must-IsReleased (generate_report root_ca_var h db) u (
                Keeps-IsReleased (generate_report root_ca_var h db) u
                  (generate_report-Keeps root_ca_var h db lawful control (λ _ _. refl)) f))
            (must-IsReleased (start_database root_ca_var h db) v
              (start_database-IsReleased root_ca_var h db v lawful g))

  -- A node that gets to its server has given the mutex back.
  run_free :
      (config : Config) (marble : Bool) (internal_path internal_address : Bytes)
      (served : Bytes × TlsConfig) (w w' : World Mariadb)
      → run root_ca_var h bootstrap_sql num_tcs config marble internal_path internal_address w
        ≡ ok served w'
      → w'.core.locked ≡ false
  unfolding run
  run_free config marble ip ia served w w' e =
      let serve : M Mariadb (Bytes × TlsConfig) =
        get_tls_config root_ca_var h (mariadb h bootstrap_sql) >>= λ tls.
        pure (config.api_address, tls) in
      let up : M Mariadb (Bytes × TlsConfig) =
        bring_up root_ca_var h bootstrap_sql num_tcs >> serve in
      on_ok
        (must (
          new_mariadb h ip config.data_path ia config.database_address config.certificate_dns_name
            config.log_dir config.debug marble (sub_ℕ num_tcs 32)))
        _ w e
        λ db w1 e1 r1.
          on_ok (modify (set_db db)) (λ _. new_core h config marble >> up) w1 r1
            λ _ w2 e2 r2.
              on_ok (new_core h config marble) (λ _. up) w2 r2
                λ _ w3 e3 r3.
                  on_ok (bring_up root_ca_var h bootstrap_sql num_tcs) (λ _. serve) w3 r3
                    λ _ w4 e4 r4.
                      on_ok (get_tls_config root_ca_var h (mariadb h bootstrap_sql))
                        (λ tls. pure (config.api_address, tls)) w4 r4
                        λ tls w5 e5 r5.
                          let f4 : w4.core.locked ≡ false = rw e4 at (
                            bring_up-IsReleased w3 (
                              new_core_free root_ca_var h bootstrap_sql num_tcs config marble w2 w3
                                e3)) in
                          let same : w5.core ≡ w4.core = rw e5 at (
                            (get_tls_config-KeepsCore root_ca_var h bootstrap_sql num_tcs).kept
                              w4) in
                          let last : w' ≡ w5 = cc in
                          ap (λ (v : World Mariadb). v.core.locked) last
                          ∙ ap (λ (c : Core). c.locked) same
                          ∙ f4

  -- A node that gets to its server stays what it is then, however many requests it serves at the same
  -- time and in whatever order their parts come: the mutex is free behind each of them, the state is
  -- the one that it got to its server with, and either the node is initialized with a master key of 16 bytes, and at most one request to apply a manifest
  -- ends without an error, or it is in recovery.
  pub run_serves :
      (error_text : Error → Bytes) (json_marshal : Reply → Result Bytes) (config : Config)
      (marble : Bool) (internal_path internal_address : Bytes) (served : Bytes × TlsConfig)
      (w w' v : World Mariadb) (ps : List Pc)
      → run root_ca_var h bootstrap_sql num_tcs config marble internal_path internal_address w
        ≡ ok served w'
      → Reach root_ca_var h error_text json_marshal (mariadb h bootstrap_sql) w' [] v ps
      → (v.core.locked ≡ false)
        × (v.core.state ≡ w'.core.state)
        × (((v.core.state ≡ initialized) × (length v.core.master_key ≡ 16) × (count_applied ps ≤ 1))
            ⊎ (v.core.state ≡ recovery))
  run_serves error_text json_marshal config marble ip ia served w w' v ps started path =
      let free = run_free config marble ip ia served w w' started in
      let s : IsServing w'.core v =
        Reach-IsServing root_ca_var h error_text json_marshal (mariadb h bootstrap_sql)
          (mariadb-IsSeparate h bootstrap_sql) w'.core w' v [] ps
          (record { free = free; same = refl; key = inr refl }) path in
      let state : v.core.state ≡ w'.core.state = ap (λ m. m.0) s.same in
      (
        s.free,
        state,
        elim (run_state root_ca_var h bootstrap_sql num_tcs config marble ip ia served w w'
            started) [
              | inl (up, size) ↦ inl (
                state ∙ up,
                elim s.key [ inl r ↦ clash up r | inr k ↦ ap length k ∙ size ],
                applied_once root_ca_var h error_text json_marshal bootstrap_sql w' v ps free up
                    path,
              )
              | inr r ↦ inr (state ∙ r)
            ],
      )
    where
      clash : {A : Type 0} → w'.core.state ≡ initialized → w'.core.state ≡ recovery → A
      clash up r = cc
