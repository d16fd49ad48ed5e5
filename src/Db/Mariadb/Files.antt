-- ===== src/Db/Mariadb/Files.antt =====
-- `Initialize` (edb/db/mariadb.go): the files that mariadbd is handed for the bootstrap.
use edgelessdb.Prelude.{
  ◌≡◌, ◌∙◌, refl, ap, sym, arith, true, false, some, List, Bytes, bytes_eq, bytes_eq_refl, text,
  ◌++◌,
}
use edgelessdb.World.{
  World, Disk, Host, Manifest, ok, on_ok, from_result, val, Entry, file, put, set_disk, remove,
}
use edgelessdb.Db.Mariadb.Config.{
  Mariadb, internal_file, filename_cnf, filename_init, filename_bootstrap_log, write_internal,
  configure_bootstrap, bootstrap_cnf, init_script,
}
use edgelessdb.Db.Mariadb.Script.{
  creating, statements, inserting, IsNaming, init_script_lem, bootstrap_cnf-IsNaming,
}
use edgelessdb.Db.Mariadb.Bootstrap.{remove_old_log, check_manifest, initialize}
use edgelessdb.Db.Mariadb.Fields.{write_internal-eq_ok}
use edgelessdb.Db.Mariadb.Once.{check_manifest-eq_ok, bootstrap-eq_ok}

put_same : (p : Bytes) (e : Entry) (d : Disk) → put p e d p ≡ some e
put_same p e d = rw (bytes_eq_refl p)

put_other : (p q : Bytes) (e : Entry) (d : Disk) → bytes_eq q p ≡ false → put p e d q ≡ d q
put_other p q e d other = rw other

module _ (h : Host) where
  pub remove_old_log_other :
      (p : Bytes) (w w' : World Mariadb)
      → remove_old_log h w ≡ ok tt w'
      → bytes_eq p (internal_file w.db filename_bootstrap_log) ≡ false
      → w'.os.disk p ≡ w.os.disk p
  unfolding remove_old_log remove
  remove_old_log_other p w w' e other = ground arith

  pub configured :
      (b : Bytes) (sql : List Bytes) (m : Bytes) (w w' : World Mariadb)
      → bytes_eq (internal_file w.db filename_cnf) (internal_file w.db filename_init) ≡ false
      → configure_bootstrap h b sql m w ≡ ok tt w'
      → (w'.db ≡ w.db)
        × (w'.os.disk (internal_file w.db filename_cnf) ≡ some (file (bootstrap_cnf w.db)))
        × ((key : Bytes) × (h.marshal_pkcs8 w.db.key ≡ val key)
            × (w'.os.disk (internal_file w.db filename_init)
                ≡ some (file (init_script b sql w.db.cert key m))))
  unfolding configure_bootstrap
  configured b sql m w w' other e =
      on_ok (from_result (h.marshal_pkcs8 w.db.key)) _ w e λ key w1 e1 r1.
        on_ok (write_internal h filename_cnf (bootstrap_cnf w.db)) _ w1 r1 λ _ w2 e2 r2.
          let s1 : w1 ≡ w = ground arith in
          let s2 = write_internal-eq_ok h filename_cnf (bootstrap_cnf w.db) w1 w2 e2 in
          let s3 =
            write_internal-eq_ok h filename_init (init_script b sql w.db.cert key m) w2 w' r2 in
          let cnf = internal_file w.db filename_cnf in
          let init = internal_file w.db filename_init in
          let script = file (init_script b sql w.db.cert key m) in
          let contents = file (bootstrap_cnf w.db) in
          let s : w' ≡ set_disk (put init script (put cnf contents w.os.disk)) w =
            s3
            ∙ ap
                (λ (v : World Mariadb).
                  set_disk (put (internal_file v.db filename_init) script v.os.disk) v)
                (s2
                  ∙ ap
                      (λ (v : World Mariadb).
                        set_disk (put (internal_file v.db filename_cnf) contents v.os.disk) v)
                      s1) in
          (
            ap (λ (v : World Mariadb). v.db) s,
            ap (λ (v : World Mariadb). v.os.disk cnf) s
                ∙ put_other init cnf script (put cnf contents w.os.disk) other
                ∙ put_same cnf contents w.os.disk,
            (
              key,
              ground arith,
              ap (λ (v : World Mariadb). v.os.disk init) s
                  ∙ put_same init script (put cnf contents w.os.disk),
            ),
          )

  -- The bootstrap that ends an `Initialize` without an error has the code 0, leaves the disk as it
  -- is then, and runs on a disk on which the configuration file is that of the object and names the
  -- init file, and the init file is, word by word: the statement that makes the system's database,
  -- the generated statements, the manifest's statements in their order, and the statement that stores
  -- the object's certificate, its key and the manifest, in hex. This is so if the paths of the two
  -- files and of the log differ.
  pub initialize_files :
      (bootstrap_sql manifest : Bytes) (w w' : World Mariadb)
      → bytes_eq (internal_file w.db filename_cnf) (internal_file w.db filename_init) ≡ false
      → bytes_eq (internal_file w.db filename_cnf) (internal_file w.db filename_bootstrap_log)
        ≡ false
      → bytes_eq (internal_file w.db filename_init) (internal_file w.db filename_bootstrap_log)
        ≡ false
      → initialize h bootstrap_sql manifest w ≡ ok tt w'
      → (man : Manifest) × (key : Bytes) × (disk : Disk) × (h.json_manifest manifest ≡ val man)
        × (h.marshal_pkcs8 w.db.key ≡ val key)
        × (disk (internal_file w.db filename_cnf) ≡ some (file (bootstrap_cnf w.db)))
        × (disk (internal_file w.db filename_init)
            ≡ some (
                file (
                  creating
                  ++ (bootstrap_sql
                      ++ (text "\nFLUSH PRIVILEGES;\n"
                          ++ (statements man.sql ++ inserting w.db.cert key manifest))))))
        × IsNaming w.db.internal_path (bootstrap_cnf w.db)
        × (h.bootstrap (internal_file w.db filename_cnf) disk ≡ (0, w'.os.disk))
  unfolding initialize
  initialize_files b manifest w w' ne_init ne_log ne_log' e =
      on_ok (check_manifest h manifest) _ w e λ man w1 e1 r1.
        on_ok (configure_bootstrap h b man.sql manifest) _ w1 r1 λ _ w2 e2 r2.
          let (s1, _, _, parsed, _) = check_manifest-eq_ok h manifest man w w1 e1 in
          let (d2, cnf, (key, marshalled, init)) =
            configured b man.sql manifest w w2 ne_init (rw s1 at e2) in
          let (d3, (w3, e3, run), _) = bootstrap-eq_ok h w2 w' r2 in
          let d : w'.db ≡ record (w.db) { attempted_init = true } =
            d3 ∙ ap (λ (x : Mariadb). record x { attempted_init = true }) d2 in
          (
            man,
            key,
            w3.os.disk,
            parsed,
            marshalled,
            remove_old_log_other (internal_file w.db filename_cnf) w2 w3 e3 (rw d2 ne_log) ∙ cnf,
            remove_old_log_other (internal_file w.db filename_init) w2 w3 e3 (rw d2 ne_log')
                ∙ init
                ∙ ap (λ s. some (file s)) (init_script_lem b man.sql w.db.cert key manifest),
            bootstrap_cnf-IsNaming w.db,
            ap (λ path. h.bootstrap path w3.os.disk)
                  (sym (ap (λ x. internal_file x filename_cnf) d ∙ same_path w.db))
                ∙ run,
          )
    where
      same_path :
          (d : Mariadb)
          → internal_file (record d { attempted_init = true }) filename_cnf
            ≡ internal_file d filename_cnf
      same_path d = unfold internal_file in refl
