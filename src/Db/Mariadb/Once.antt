-- ===== src/Db/Mariadb/Once.antt =====
-- `Initialize` (edb/db/mariadb.go): what a manifest that was applied had to be, and that no other
-- is applied after it.
use edgelessdb.Prelude.{
  ◌≡◌, ◌∙◌, refl, ap, sym, arith, true, false, none, List, [], ◌∷◌, Bytes, is_empty, not, ◌&&◌, suc,
  zero, ◌==◌, ℕ,
}
use edgelessdb.World.{
  World, Outcome, Disk, Host, M, Manifest, ok, err, on_ok, read_file, remove, ◌>>◌, attempt,
  on_result, val, exc, fault, must, branch, panic, ignore, modify, Result, set_disk, when, print,
  cannot_read_error_log, previous_init_failed, bootstrap_failed,
}
use edgelessdb.Db.Mariadb.Config.{
  Mariadb, internal_file, filename_cnf, filename_bootstrap_log, configure_bootstrap,
}
use edgelessdb.Db.Mariadb.Bootstrap.{
  found_errors, print_error_log, remove_old_log, run_bootstrap, check_manifest, bootstrap,
  initialize, errors_or_ok, note_attempt,
}
use edgelessdb.Db.Mariadb.Fields.{configure_bootstrap_ok}

module _ (h : Host) where
  remove_old_log_ok : (w w' : World Mariadb) → remove_old_log h w ≡ ok tt w' → w'.db ≡ w.db
  unfolding remove_old_log remove
  remove_old_log_ok w w' e = ground arith

  pub run_bootstrap-eq_ok :
      (w w' : World Mariadb) (code : ℕ)
      → run_bootstrap h w ≡ ok code w'
      → (code ≡ (h.bootstrap (internal_file w.db filename_cnf) w.os.disk).0)
        × (w' ≡ set_disk (h.bootstrap (internal_file w.db filename_cnf) w.os.disk).1 w)
  unfolding run_bootstrap
  run_bootstrap-eq_ok w w' code e = (cc, cc)

  attempt-val :
      {A : Type 0} (m : M Mariadb A) (a : A) (w v : World Mariadb)
      → attempt m w ≡ ok (val a) v
      → m w ≡ ok a v
  attempt-val m a w v e = ground arith

  read_file_same : (p b : Bytes) (w v : World Mariadb) → read_file h p w ≡ ok b v → v ≡ w
  unfolding read_file
  read_file_same p b w v e = ground arith

  -- What is done with the log, once it was read.
  abbrev after_log : Result Bytes → M Mariadb (Unit {0})
  after_log r =
      on_result r
        (λ log. do
          let found = found_errors log
          when (not (is_empty found && true)) (print log)
          errors_or_ok h found)
        (λ _. panic cannot_read_error_log)

  after_log-eq_ok :
      (r : Result Bytes) (w v : World Mariadb)
      → after_log r w ≡ ok tt v
      → (v ≡ w) × ((log : Bytes) × (r ≡ val log) × (found_errors log ≡ []))
  after_log-eq_ok (val log) w v e = of_found (found_errors log) refl e
    where
      of_found :
          (found : List Bytes)
          → found_errors log ≡ found
          → ◌≡◌ {A = Outcome Mariadb (Unit {0})}
              ((when (not (is_empty found && true)) (print log) >> errors_or_ok h found) w)
              (ok tt v)
          → (v ≡ w) × ((l : Bytes) × (Result.val log ≡ val l) × (found_errors l ≡ []))
      of_found [] f e = (cc, (log, refl, f))
      of_found (x ∷ xs) f e = cc
  after_log-eq_ok (exc x) w v e = cc

  print_error_log-eq_ok :
      (w w' : World Mariadb)
      → print_error_log h true w ≡ ok tt w'
      → (w' ≡ w)
        × ((log : Bytes) × (read_file h (internal_file w.db filename_bootstrap_log) w ≡ ok log w)
            × (found_errors log ≡ []))
  unfolding print_error_log
  print_error_log-eq_ok w w' e = on_ok (must (fault h.restore_fault)) _ w e λ _ w1 e1 r1.
      on_ok (attempt (read_file h (internal_file w1.db filename_bootstrap_log))) _ w1 r1
        λ r w2 e2 r2.
          let (same, (log, is_val, clean)) = after_log-eq_ok r w2 w' r2 in
          let s1 : w1 ≡ w = ground arith in
          let got : read_file h (internal_file w1.db filename_bootstrap_log) w1 ≡ ok log w2 =
            attempt-val (read_file h (internal_file w1.db filename_bootstrap_log)) log w1 w2
              (rw is_val at e2) in
          let s2 : w2 ≡ w1 =
            read_file_same (internal_file w1.db filename_bootstrap_log) log w1 w2 got in
          let all : w' ≡ w = cc in (all, (log, rw s1 at (rw s2 at got), clean))

  pub check_manifest-eq_ok :
      (manifest : Bytes) (man : Manifest) (w w' : World Mariadb)
      → check_manifest h manifest w ≡ ok man w'
      → (w' ≡ w)
        × (w.db.manifest_sig ≡ none)
        × (w.db.attempted_init ≡ false)
        × (h.json_manifest manifest ≡ val man)
        × ((w.db.debug && not man.debug) ≡ false)
  unfolding check_manifest
  check_manifest-eq_ok manifest man w w' e =
      (ground arith, ground arith, ground arith, ground arith, ground arith)

  pub bootstrap-eq_ok :
      (w w' : World Mariadb)
      → bootstrap h w ≡ ok tt w'
      → (w'.db ≡ record (w.db) { attempted_init = true })
        × ((removed : World Mariadb) × (remove_old_log h w ≡ ok tt removed)
            × (h.bootstrap (internal_file w'.db filename_cnf) removed.os.disk ≡ (0, w'.os.disk)))
        × ((log : Bytes) × (read_file h (internal_file w'.db filename_bootstrap_log) w' ≡ ok log w')
            × (found_errors log ≡ []))
  unfolding bootstrap
  bootstrap-eq_ok w w' e = on_ok (remove_old_log h) _ w e λ _ w1 e1 r1.
      on_ok (modify (note_attempt h)) _ w1 r1 λ _ w2 e2 r2.
        on_ok (run_bootstrap h) _ w2 r2 λ code w3 e3 r3.
          let d1 = remove_old_log_ok w w1 e1 in
          let s2 : w2 ≡ note_attempt h w1 = cc in
          let (c, s3) = run_bootstrap-eq_ok w2 w3 code e3 in
          let (z, printed) = code_zero code w3 w' r3 in
          let (s4, (log, read, clean)) = print_error_log-eq_ok w3 w' printed in
          let d2 : w2.db ≡ record (w.db) { attempted_init = true } =
            ap (λ v. v.db) s2 ∙ ap (λ (d : Mariadb). record d { attempted_init = true }) d1 in
          let d3 : w'.db ≡ w2.db = cc in
          let run : h.bootstrap (internal_file w'.db filename_cnf) w2.os.disk ≡ (0, w'.os.disk) =
            cc in
          let same : w1.os.disk ≡ w2.os.disk = sym (ap (λ (v : World Mariadb). v.os.disk) s2) in
          (
            d3 ∙ d2,
            (w1, e1, ap (λ disk. h.bootstrap (internal_file w'.db filename_cnf) disk) same ∙ run),
            (log, rw (sym s4) at read, clean),
          )
    where
      code_zero :
          (code : ℕ) (v v' : World Mariadb)
          → branch
              (code == 0)
              (print_error_log h true)
              (ignore (print_error_log h false) >> panic bootstrap_failed)
              v
            ≡ ok tt v'
          → (code ≡ 0) × (print_error_log h true v ≡ ok tt v')
      code_zero zero v v' e = (refl, e)
      code_zero (suc n) v v' e = ground arith

  -- A manifest that `Initialize` applied without an error was the first one, on an object that had
  -- tried none and had not been started; it could be read, and it allows the debug mode if that is
  -- on. mariadbd has ended its bootstrap with the code 0 and left the disk as it is now, and the log
  -- on it, which could be read, has no line that begins with ERROR. Of the object's fields only the
  -- note of the attempt has changed.
  pub initialize-eq_ok :
      (bootstrap_sql manifest : Bytes) (w w' : World Mariadb)
      → initialize h bootstrap_sql manifest w ≡ ok tt w'
      → (w.db.manifest_sig ≡ none)
        × (w.db.attempted_init ≡ false)
        × ((man : Manifest) × (h.json_manifest manifest ≡ val man)
            × ((w.db.debug && not man.debug) ≡ false))
        × ((disk : Disk) × (h.bootstrap (internal_file w'.db filename_cnf) disk ≡ (0, w'.os.disk)))
        × ((log : Bytes) × (read_file h (internal_file w'.db filename_bootstrap_log) w' ≡ ok log w')
            × (found_errors log ≡ []))
        × (w'.db ≡ record (w.db) { attempted_init = true })
  unfolding initialize
  initialize-eq_ok bootstrap_sql manifest w w' e =
      on_ok (check_manifest h manifest) _ w e λ man w1 e1 r1.
        on_ok (configure_bootstrap h bootstrap_sql man.sql manifest) _ w1 r1 λ _ w2 e2 r2.
          let (same, unset, untried, parsed, debug) = check_manifest-eq_ok manifest man w w1 e1 in
          let d2 = configure_bootstrap_ok h bootstrap_sql man.sql manifest w1 w2 e2 in
          let (d3, ended, log) = bootstrap-eq_ok w2 w' r2 in
          let d : w2.db ≡ w.db = d2 ∙ ap (λ v. v.db) same in
          (
            unset,
            untried,
            (man, parsed, debug),
            (ended.0.os.disk, ended.2),
            log,
            d3 ∙ ap (λ (x : Mariadb). record x { attempted_init = true }) d,
          )

  refused :
      (bootstrap_sql another : Bytes) (v : World Mariadb)
      → v.db.manifest_sig ≡ none
      → v.db.attempted_init ≡ true
      → initialize h bootstrap_sql another v ≡ err previous_init_failed v
  unfolding initialize check_manifest
  refused bootstrap_sql another v unset tried = ground arith

  -- Once a manifest was applied without an error, the next call of `Initialize` on the object,
  -- with whatever manifest, is refused and changes nothing.
  pub initialize_again :
      (bootstrap_sql manifest another : Bytes) (w w' : World Mariadb)
      → initialize h bootstrap_sql manifest w ≡ ok tt w'
      → initialize h bootstrap_sql another w' ≡ err previous_init_failed w'
  initialize_again bootstrap_sql manifest another w w' e =
      let (unset, _, _, _, _, d) = initialize-eq_ok bootstrap_sql manifest w w' e in
      refused bootstrap_sql another w' (ap (λ (x : Mariadb). x.manifest_sig) d ∙ unset)
        (ap (λ (x : Mariadb). x.attempted_init) d)
