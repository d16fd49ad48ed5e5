-- ===== src/Node/Bootstrap.antt =====
-- `Initialize` leaves what a node keeps on its disk (edb/db/mariadb.go): the bootstrap of a disk that has
-- a database fails at the first statement of its script.
use edgelessdb.Prelude.{
  subst, sym, ◌≡◌, ◌∙◌, ◌++◌, ◌==◌, ℕ, true, false, ap, some, refl, Bool, Option, List, [], ◌∷◌,
  Bytes,
}
use edgelessdb.World.{
  World, Config, Disk, Host, after, modify, ok, file, attempt, remove, bind-cases, branch, ignore,
  panic, ◌>>◌, bootstrap_failed,
}
use edgelessdb.World.Invariant.{bind-Holds, attempt-Holds}
use edgelessdb.Db.Mariadb.Config.{
  Mariadb, internal_file, filename_cnf, filename_init, filename_bootstrap_log, bootstrap_cnf,
  write_internal, configure_bootstrap, db_state,
}
use edgelessdb.Db.Mariadb.Script.{creating, IsNaming, init_script_lem, bootstrap_cnf-IsNaming}
use edgelessdb.Db.Mariadb.Files.{configured, remove_old_log_other}
use edgelessdb.Std.FilePath.{join_path}
use edgelessdb.Db.Mariadb.Bootstrap.{
  print_error_log, remove_old_log, run_bootstrap, check_manifest, bootstrap, initialize,
  errors_or_ok, note_attempt,
}
use edgelessdb.Node.Intact.{
  IsInternal, ca_file, cert_file, key_pem_file, cnf_file, init_file, log_file, IsDurable, IsIntact,
}
use edgelessdb.Node.Files.{Kept, kept, write_file-Kept, remove-Kept, modify-Kept}

pub ruleset internal_names = (ca_file, cert_file, key_pem_file, cnf_file, init_file, log_file)

module _ {A : Type 0} {own : Bytes → Type 0} (h : Host) (row : Disk → Option A)
    (internal_path : Bytes) (config : Config) (laws : IsDurable h row internal_path own)
    (r : A) where
  pub db_state-Kept : Kept h row internal_path config laws r db_state
  db_state-Kept = record { kept = λ w p. p }

  -- A file of the object's internal directory is one of the program's own.
  internal_file-IsOwn :
      (name : Bytes) (w : World Mariadb)
      → IsInternal name
      → IsIntact row internal_path config r w
      → own (internal_file w.db name)
  unfolding internal_file
  internal_file-IsOwn name w known p = rw (p.inside) (laws.files name known)

  pub write_internal-Kept :
      (name contents : Bytes)
      → IsInternal name
      → Kept h row internal_path config laws r (write_internal h name contents)
  unfolding write_internal
  write_internal-Kept name contents known = record {
    kept = λ w p.
        (write_file-Kept h row internal_path config laws r (internal_file w.db name) contents
            (internal_file-IsOwn name w known p)).kept
          w p;
  }

  configure_bootstrap-Kept :
      (b : Bytes) (sql : List Bytes) (m : Bytes)
      → Kept h row internal_path config laws r (configure_bootstrap h b sql m)
  unfolding configure_bootstrap
  configure_bootstrap-Kept b sql m =
      search (kept, db_state-Kept, write_internal-Kept, internal_names) depth 12

  errors_or_ok-Kept : (es : List Bytes) → Kept h row internal_path config laws r (errors_or_ok h es)
  errors_or_ok-Kept [] = record { kept = λ w p. p }
  errors_or_ok-Kept (e ∷ es) = record { kept = λ w p. p }

  print_error_log-Kept :
      (only_on_error : Bool)
      → Kept h row internal_path config laws r (print_error_log h only_on_error)
  unfolding print_error_log
  print_error_log-Kept only_on_error = search (kept, db_state-Kept, errors_or_ok-Kept) depth 14

  remove_log :
      (w : World Mariadb)
      → IsIntact row internal_path config r w
      → IsIntact row internal_path config r (after (remove_old_log h w))
  unfolding remove_old_log
  remove_log w p =
      (bind-Holds (attempt (remove h (internal_file w.db filename_bootstrap_log))) _
          (attempt-Holds _
            (remove-Kept h row internal_path config laws r _ (internal_file-IsOwn _ w log_file p)))
          (λ a. search kept depth 9)).kept
        w p

  remove_old_log-Kept : Kept h row internal_path config laws r (remove_old_log h)
  remove_old_log-Kept = record { kept = remove_log }

  -- The files for a bootstrap are on the disk: a configuration file that names the init file, which
  -- begins by making the system's database.
  IsArmed : Disk → Type 0
  IsArmed disk =
      (cnf : Bytes) × (rest : Bytes) × (disk (join_path (internal_path ∷ filename_cnf ∷ []))
        ≡ some (file cnf))
      × IsNaming internal_path cnf
      × (disk (join_path (internal_path ∷ filename_init ∷ [])) ≡ some (file (creating ++ rest)))

  run_bootstrap-IsIntact :
      (w : World Mariadb)
      → IsIntact row internal_path config r w
      → IsArmed w.os.disk
      → IsIntact row internal_path config r (after (run_bootstrap h w))
  unfolding run_bootstrap internal_file IsArmed
  run_bootstrap-IsIntact w p (cnf, rest, found, naming, init) = record {
    stored = rw (p.inside) (laws.bootstrapped cnf rest w.os.disk r found naming init p.stored);
    configured = p.configured;
    inside = p.inside;
    outside = p.outside;
  }

  path_inside :
      (name : Bytes) (w : World Mariadb)
      → IsIntact row internal_path config r w
      → internal_file w.db name ≡ join_path (internal_path ∷ name ∷ [])
  unfolding internal_file
  path_inside name w p = ap (λ path. join_path (path ∷ name ∷ [])) (p.inside)

  -- The script that is written for a manifest.
  configure_bootstrap-IsArmed :
      (b : Bytes) (sql : List Bytes) (m : Bytes) (w v : World Mariadb)
      → IsIntact row internal_path config r w
      → configure_bootstrap h b sql m w ≡ ok tt v
      → IsArmed v.os.disk
  unfolding IsArmed internal_file
  configure_bootstrap-IsArmed b sql m w v p e =
      let (_, cnf, (key, _, init)) =
        configured h b sql m w v (unfold internal_file in rw (p.inside) laws.cnf_apart) e in
      (
        bootstrap_cnf w.db,
        _,
        ap v.os.disk (sym (path_inside filename_cnf w p)) ∙ cnf,
        subst (λ path. IsNaming path (bootstrap_cnf w.db)) (p.inside) (bootstrap_cnf-IsNaming w.db),
        ap v.os.disk (sym (path_inside filename_init w p))
            ∙ init
            ∙ ap (λ s. some (file s)) (init_script_lem b sql w.db.cert key m),
      )

  remove_old_log-IsArmed :
      (w v : World Mariadb)
      → IsIntact row internal_path config r w
      → remove_old_log h w ≡ ok tt v
      → IsArmed w.os.disk
      → IsArmed v.os.disk
  unfolding IsArmed internal_file
  remove_old_log-IsArmed w v p e (cnf, rest, found, naming, init) = (
    cnf,
    rest,
    remove_old_log_other h (join_path (internal_path ∷ filename_cnf ∷ [])) w v e
          (unfold internal_file in rw (p.inside) laws.cnf_no_log)
        ∙ found,
    naming,
    remove_old_log_other h (join_path (internal_path ∷ filename_init ∷ [])) w v e
          (unfold internal_file in rw (p.inside) laws.init_no_log)
        ∙ init,
  )

  check_manifest-Kept : (m : Bytes) → Kept h row internal_path config laws r (check_manifest h m)
  unfolding check_manifest
  check_manifest-Kept m = search (kept, db_state-Kept) depth 14

  note_attempt-Kept : Kept h row internal_path config laws r (modify (note_attempt h))
  note_attempt-Kept =
      modify-Kept h row internal_path config laws r (note_attempt h) (λ w. (refl, refl, refl, refl))

  ended-Kept :
      (code : ℕ)
      → Kept h row internal_path config laws r (
          branch
            (code == 0)
            (print_error_log h true)
            (ignore (print_error_log h false) >> panic bootstrap_failed))
  ended-Kept code = search (kept, print_error_log-Kept) depth 9

  bootstrap-IsIntact :
      (w : World Mariadb)
      → IsIntact row internal_path config r w
      → IsArmed w.os.disk
      → IsIntact row internal_path config r (after (bootstrap h w))
  unfolding bootstrap
  bootstrap-IsIntact w p armed =
      bind-cases (λ o. IsIntact row internal_path config r (after o)) (remove_old_log h) _ w
        (λ e v gone. rw gone at (remove_log w p)) (λ x v gone. rw gone at (remove_log w p))
        λ _ v gone.
          let q : IsIntact row internal_path config r v = rw gone at (remove_log w p) in
          let noted = note_attempt-Kept.kept v q in
          let ran =
            run_bootstrap-IsIntact (note_attempt h v) noted
              (remove_old_log-IsArmed w v p gone armed) in
          bind-cases (λ o. IsIntact row internal_path config r (after o)) (run_bootstrap h) _
            (note_attempt h v) (λ e u ended. rw ended at ran) (λ x u ended. rw ended at ran)
            λ code u ended. (ended-Kept code).kept u (rw ended at ran)

  pub initialize-Kept : (b m : Bytes) → Kept h row internal_path config laws r (initialize h b m)
  unfolding initialize
  initialize-Kept b m = record {
    kept = λ w p.
        bind-cases (λ o. IsIntact row internal_path config r (after o)) (check_manifest h m) _ w
          (λ e v checked. rw checked at ((check_manifest-Kept m).kept w p))
          (λ x v checked. rw checked at ((check_manifest-Kept m).kept w p))
          λ man v checked.
            let q : IsIntact row internal_path config r v =
              rw checked at ((check_manifest-Kept m).kept w p) in
            let s = (configure_bootstrap-Kept b man.sql m).kept v q in
            bind-cases (λ o. IsIntact row internal_path config r (after o))
              (configure_bootstrap h b man.sql m) _ v (λ e u written. rw written at s)
              (λ x u written. rw written at s)
              λ _ u written.
                bootstrap-IsIntact u (rw written at s)
                  (configure_bootstrap-IsArmed b man.sql m v u q written);
  }
