-- ===== src/Db/Mariadb/Separate.antt =====
-- MariaDB as a lawful database: none of its methods writes a field of `Core`, and none waits for a
-- mutex that its goroutine holds.
use edgelessdb.Prelude.{◌≢◌, false, ◌==◌, true, ◌≡◌, refl, Bytes, [], ◌∷◌, List, Bool}
use edgelessdb.World.{
  ignore, panic, bootstrap_failed, ◌>>◌, Host, World, Error, halt, fatal, modify, after, PrivateKey,
  Manifest, Row, Startup, listening, returned, silent, branch, ok, deadlocked,
}
use edgelessdb.World.Frame.{KeepsCore, bind-KeepsCore}
use edgelessdb.World.Progress.{is_stuck, NeverStuck, bind-NeverStuck}
use edgelessdb.World.Tame.{IsTame, to-IsTame, tame, bind-IsTame, branch-IsTame, setenv-IsTame}
use edgelessdb.Db.Interface.{IsSeparate, IsLively}
use edgelessdb.Db.Util.{create_certificate, to_pem}
use edgelessdb.Db.Mariadb.Config.{
  Mariadb, internal_file, filename_cnf, write_internal, configure_bootstrap, configure_start,
  client_ca, write_certificates, db_state,
}
use edgelessdb.Db.Mariadb.Bootstrap.{
  print_error_log, remove_old_log, run_bootstrap, check_manifest, bootstrap, initialize,
  errors_or_ok, note_attempt,
}
use edgelessdb.Db.Mariadb.Startup.{
  adopt, internal_addr_var, normalized_internal_addr, started, get_config_from_sql, check_database,
  run_mariadbd, take_over, start, mariadb, IsResponsive,
}

db_state-IsTame : IsTame db_state
db_state-IsTame = to-IsTame _ (λ w. (refl, refl))

module _ (h : Host) where
  create_certificate-IsTame :
      {D : Type 0} (name : Bytes) → IsTame {D = D} (create_certificate h name)
  unfolding create_certificate
  create_certificate-IsTame name = search tame depth 9

  write_internal-IsTame : (name contents : Bytes) → IsTame (write_internal h name contents)
  unfolding write_internal
  write_internal-IsTame name contents = search (tame, db_state-IsTame) depth 9

  configure_bootstrap-IsTame :
      (b : Bytes) (sql : List Bytes) (m : Bytes) → IsTame (configure_bootstrap h b sql m)
  unfolding configure_bootstrap
  configure_bootstrap-IsTame b sql m = search (tame, db_state-IsTame, write_internal-IsTame) depth 9

  to_pem-IsTame :
      {D : Type 0} (cert : Bytes) (key : PrivateKey) → IsTame {D = D} (to_pem h cert key)
  unfolding to_pem
  to_pem-IsTame cert key = search tame depth 12

  client_ca-IsTame : (ca : Bytes) → IsTame (client_ca h ca)
  unfolding client_ca
  client_ca-IsTame [] = search (tame, create_certificate-IsTame) depth 9
  client_ca-IsTame (c ∷ ca) = to-IsTame _ (λ w. (refl, refl))

  write_certificates-IsTame : IsTame (write_certificates h)
  unfolding write_certificates
  write_certificates-IsTame =
      search (tame, db_state-IsTame, write_internal-IsTame, to_pem-IsTame, client_ca-IsTame) depth
        12

  print_error_log-IsTame : (b : Bool) → IsTame (print_error_log h b)
  unfolding print_error_log
  print_error_log-IsTame b = search (tame, db_state-IsTame, errors_or_ok-IsTame) depth 12
    where
      errors_or_ok-IsTame : (es : List Bytes) → IsTame (errors_or_ok h es)
      errors_or_ok-IsTame [] = to-IsTame _ (λ w. (refl, refl))
      errors_or_ok-IsTame (e ∷ es) = to-IsTame _ (λ w. (refl, refl))

  remove_old_log-IsTame : IsTame (remove_old_log h)
  unfolding remove_old_log
  remove_old_log-IsTame = search (tame, db_state-IsTame) depth 12

  bootstrap-IsTame : IsTame (bootstrap h)
  unfolding bootstrap
  bootstrap-IsTame = bind-IsTame (remove_old_log h) _ remove_old_log-IsTame λ _.
      bind-IsTame (modify (note_attempt h)) _ attempted λ _.
        bind-IsTame (run_bootstrap h) _ ran λ code.
          branch-IsTame (code == 0) (print_error_log h true)
            (ignore (print_error_log h false) >> panic bootstrap_failed)
            (print_error_log-IsTame true) (search (tame, print_error_log-IsTame) depth 9)
    where
      attempted : IsTame (modify (note_attempt h))
      attempted = to-IsTame _ (λ w. (refl, refl))

      ran : IsTame (run_bootstrap h)
      ran = to-IsTame _ (λ w. unfold run_bootstrap in (refl, refl))

  check_manifest-IsTame : (m : Bytes) → IsTame (check_manifest h m)
  unfolding check_manifest
  check_manifest-IsTame m = search (tame, db_state-IsTame) depth 12

  initialize-IsTame : (b m : Bytes) → IsTame (initialize h b m)
  unfolding initialize
  initialize-IsTame b m =
      search (tame, check_manifest-IsTame, configure_bootstrap-IsTame, bootstrap-IsTame) depth 9

  take_over-IsTame : (a : Bytes) → IsTame (take_over h a)
  unfolding take_over get_config_from_sql
  take_over-IsTame a =
      search (tame, db_state-IsTame, write_certificates-IsTame, adopted, died) depth 14
    where
      adopted :
          (row : Row) (key : PrivateKey) (man : Manifest) → IsTame (modify (adopt h row key man))
      adopted row key man = to-IsTame _ (λ w. (refl, refl))

      died : {A : Type 0} (e : Error) → IsTame {D = Mariadb} {A = A} (halt (fatal e))
      died e = to-IsTame _ (λ w. (refl, refl))

  check_database-IsTame : IsTame (check_database h)
  unfolding check_database
  check_database-IsTame = search (tame, db_state-IsTame) depth 12

  configure_start-IsTame : IsTame (configure_start h)
  unfolding configure_start
  configure_start-IsTame = search (tame, db_state-IsTame, write_internal-IsTame) depth 9

  start-KeepsCore : KeepsCore (start h)
  unfolding start
  start-KeepsCore = bind-KeepsCore (check_database h) _ check_database-IsTame.keeps λ _.
      bind-KeepsCore (configure_start h) _ configure_start-IsTame.keeps λ _.
        bind-KeepsCore db_state _ db_state-IsTame.keeps λ d.
          bind-KeepsCore _ _ (setenv-IsTame h internal_addr_var (normalized_internal_addr d)).keeps
            λ _. bind-KeepsCore (run_mariadbd h) _ ran λ _.
              bind-KeepsCore (take_over h (normalized_internal_addr d)) _
                (take_over-IsTame (normalized_internal_addr d)).keeps
                λ _. record { kept = λ w. waits (h.comes_up w.os.disk) w }
    where
      began : (s : Startup) (w : World Mariadb) → (after (started h s w)).core ≡ w.core
      began (listening disk) w = refl
      began (returned code) w = refl
      began silent w = refl

      ran : KeepsCore (run_mariadbd h)
      ran = record {
        kept = λ w.
            unfold run_mariadbd in began (h.startup (internal_file w.db filename_cnf) w.os.disk) w;
      }

      waits :
          (b : Bool) (w : World Mariadb)
          → (after {A = Unit {0}} (branch b (ok tt) (halt deadlocked) w)).core ≡ w.core
      waits true w = refl
      waits false w = refl

  start-NeverStuck : IsResponsive h → NeverStuck (start h)
  unfolding start
  start-NeverStuck responds = bind-NeverStuck (check_database h) _ check_database-IsTame.moves λ _.
      bind-NeverStuck (configure_start h) _ configure_start-IsTame.moves λ _.
        bind-NeverStuck db_state _ db_state-IsTame.moves λ d.
          bind-NeverStuck _ _ (setenv-IsTame h internal_addr_var (normalized_internal_addr d)).moves
            λ _. bind-NeverStuck (run_mariadbd h) _ ran λ _.
              bind-NeverStuck (take_over h (normalized_internal_addr d)) _
                (take_over-IsTame (normalized_internal_addr d)).moves
                λ _. record { goes_on = λ w. rw (responds.comes_up w.os.disk) refl }
    where
      began : (s : Startup) (w : World Mariadb) → s ≢ silent → is_stuck (started h s w) ≡ false
      began (listening disk) w speaks = refl
      began (returned code) w speaks = refl
      began silent w speaks = absurd (speaks refl)

      ran : NeverStuck (run_mariadbd h)
      ran = record {
        goes_on = λ w.
            unfold run_mariadbd in
            began (h.startup (internal_file w.db filename_cnf) w.os.disk) w
              (responds.listens (internal_file w.db filename_cnf) w.os.disk);
      }

  -- None of the methods of the MariaDB object writes a field of the `Core` that calls it, its mutex
  -- included, however the call ends.
  pub mariadb-IsSeparate : (bootstrap_sql : Bytes) → IsSeparate (mariadb h bootstrap_sql)
  mariadb-IsSeparate bootstrap_sql = record {
    get_certificate-core = λ w. refl;
    initialize-core = λ m. (initialize-IsTame bootstrap_sql m).keeps.kept;
    start-core = start-KeepsCore.kept;
  }

  pub mariadb-IsLively :
      (bootstrap_sql : Bytes) → IsResponsive h → IsLively (mariadb h bootstrap_sql)
  mariadb-IsLively bootstrap_sql responds = record {
    get_certificate-goes_on = record { goes_on = λ w. refl };
    initialize-goes_on = λ m. (initialize-IsTame bootstrap_sql m).moves;
    start-goes_on = start-NeverStuck responds;
  }
