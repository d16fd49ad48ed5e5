-- ===== src/Node/Start.antt =====
-- What a `run` that gets to its server has done with the database (cmd/edb/run.go, edb/core/core.go).
use edgelessdb.Prelude.{◌≡◌, ◌⊎◌, inl, inr, refl, arith, ℕ, Bool, true, false, String, Bytes}
use edgelessdb.World.{
  World, Host, Error, Outcome, ok, err, halt, on_ok, must, attempt, on_result, branch, pure, throw,
  initialized, is_not_initialized_yet, ◌>>=◌,
}
use edgelessdb.Db.Mariadb.Config.{Mariadb}
use edgelessdb.Db.Mariadb.Startup.{mariadb, start}
use edgelessdb.Core.Certificate.{
  TlsConfig, generate_report, get_certificate_ca, get_tls_config, get_tls_config_marble,
}
use edgelessdb.Core.Lifecycle.{is_recovering, start_or_wait, initialize_if_waiting, start_database}
use edgelessdb.Core.Recovery.{is_recovering_lem}
use edgelessdb.Cmd.Run.{bring_up}
use edgelessdb.Node.Process.{must_ok}

module _ (root_ca_var : String) (h : Host) (bootstrap_sql : Bytes) where
  -- `Start` said that there is no database.
  abbrev pub IsWaiting : World Mariadb → Type 0
  IsWaiting s =
      (e : Error) × (t : World Mariadb) × (is_not_initialized_yet e ≡ true) × (start h s ≡ err e t)

  -- `Start` and then the report have returned no error.
  abbrev pub HasStarted : World Mariadb → World Mariadb → Type 0
  HasStarted s v =
      (t : World Mariadb) × (start h s ≡ ok tt t)
      × (generate_report root_ca_var h (mariadb h bootstrap_sql) t ≡ ok tt v)

  start_or_wait-eq_ok :
      (waiting : Bool) (w v : World Mariadb)
      → start_or_wait root_ca_var h (mariadb h bootstrap_sql) w ≡ ok waiting v
      → ((waiting ≡ false) × (start h w ≡ ok tt v)) ⊎ IsWaiting w
  unfolding start_or_wait
  start_or_wait-eq_ok waiting w v e = of_outcome (start h w) refl e
    where
      of_outcome :
          (o : Outcome Mariadb (Unit {0}))
          → start h w ≡ o
          → Path
              (Outcome Mariadb Bool)
              ((attempt (λ _. o) >>= λ r.
                  on_result r
                    (λ _. pure false)
                    (λ e. branch (is_not_initialized_yet e) (pure true) (throw e)))
                w)
              (ok waiting v)
          → ((waiting ≡ false) × (start h w ≡ ok tt v)) ⊎ IsWaiting w
      of_outcome (ok a t) ended e = inl (cc, cc)
      of_outcome (err x t) ended e = inr (x, t, ground arith, ended)
      of_outcome (halt x t) ended e = cc

  pub start_database-eq_ok :
      (w v : World Mariadb)
      → start_database root_ca_var h (mariadb h bootstrap_sql) w ≡ ok tt v
      → HasStarted w v ⊎ IsWaiting w
  unfolding start_database
  start_database-eq_ok w v e =
      on_ok (start_or_wait root_ca_var h (mariadb h bootstrap_sql)) _ w e λ waiting w1 e1 r1.
        on_ok (generate_report root_ca_var h (mariadb h bootstrap_sql)) _ w1 r1 λ _ w2 e2 r2.
          elim (start_or_wait-eq_ok waiting w w1 e1) [
            | inl (not_waiting, began) ↦
                let same : w2 ≡ v = unfold initialize_if_waiting in ground arith in
                inl (w1, began, rw same at e2)
            | inr waits ↦ inr waits
          ]

module _ (root_ca_var : String) (h : Host) (bootstrap_sql : Bytes) (num_tcs : ℕ) where
  pub bring_up-eq_ok :
      (w v : World Mariadb)
      → bring_up root_ca_var h bootstrap_sql num_tcs w ≡ ok tt v
      → w.core.locked ≡ false
      → w.core.state ≡ initialized
      → start_database root_ca_var h (mariadb h bootstrap_sql) w ≡ ok tt v
  unfolding bring_up
  bring_up-eq_ok w v e free up =
      on_ok (is_recovering root_ca_var h (mariadb h bootstrap_sql)) _ w e λ b w1 e1 r1.
        let known = is_recovering_lem root_ca_var h (mariadb h bootstrap_sql) w free in
        let same : w1 ≡ w = ground arith in
        let not_recovering : b ≡ false = ground arith in
        let began : must (start_database root_ca_var h (mariadb h bootstrap_sql)) w ≡ ok tt v =
          rw (not_recovering, same) at r1 in
        must_ok (start_database root_ca_var h (mariadb h bootstrap_sql)) tt w v began

  pub get_tls_config_same :
      (tls : TlsConfig) (w v : World Mariadb)
      → get_tls_config root_ca_var h (mariadb h bootstrap_sql) w ≡ ok tls v
      → v ≡ w
  unfolding get_tls_config get_tls_config_marble get_certificate_ca
  get_tls_config_same tls w v e = ground arith
