-- ===== src/Db/Mariadb/Restart.antt =====
-- `Initialize`, the restart of the process, and `Start` (edb/db/mariadb.go): what was applied is what
-- runs.
use edgelessdb.Prelude.{
  not, ◌&&◌, ◌≡◌, ◌∙◌, ◌++◌, ap, sym, false, Option, some, List, Bytes, bytes_eq, text,
}
use edgelessdb.World.{World, Disk, Host, Manifest, Row, listening, ok, val, file, put}
use edgelessdb.Db.Mariadb.Config.{
  Mariadb, internal_file, filename_cnf, filename_init, filename_bootstrap_log, bootstrap_cnf,
  start_cnf,
}
use edgelessdb.Db.Mariadb.Script.{creating, statements, inserting, IsNaming, regroup}
use edgelessdb.Db.Mariadb.Bootstrap.{initialize}
use edgelessdb.Db.Mariadb.Startup.{normalized_internal_addr, start}
use edgelessdb.Db.Mariadb.Files.{initialize_files}
use edgelessdb.Db.Mariadb.Adopt.{start-eq_ok}

-- What MariaDB documents, with `row` for the row of `$edgeless.config` that a disk holds in the data
-- directory, if any: a bootstrap that ends with the code 0 has executed the init file that its
-- configuration file names, and where that ends in the statements that make the table and insert a
-- row, the row is there; a server reads the data directory and answers queries from it; and the
-- configuration file of a start is not part of that directory.
-- `d` is the object that applies the manifest, `e` the one that starts.
pub record KeepsTables (h : Host) (row : Disk → Option Row) (manifest : Bytes) (d e : Mariadb)
    : Type 0 where
  pub executes :
      (cnf opening key : Bytes) (before after : Disk)
      → h.marshal_pkcs8 d.key ≡ val key
      → before (internal_file d filename_cnf) ≡ some (file cnf)
      → IsNaming d.internal_path cnf
      → before (internal_file d filename_init)
        ≡ some (file (opening ++ inserting d.cert key manifest))
      → h.bootstrap (internal_file d filename_cnf) before ≡ (0, after)
      → row after ≡ some (record { cert = d.cert; key = key; manifest = manifest })
  pub apart :
      (disk : Disk)
      → row (put (internal_file e filename_cnf) (file (start_cnf h e)) disk) ≡ row disk
  pub serves :
      (before after : Disk)
      → h.startup (internal_file e filename_cnf) before ≡ listening after
      → row after ≡ row before
  pub answers :
      (address : Bytes) (disk : Disk) (r : Row)
      → row disk ≡ some r
      → h.query_config address disk ≡ val r

module _ (h : Host) (bootstrap_sql : Bytes) (row : Disk → Option Row) where
  -- The row that an applied manifest leaves on the disk.
  pub initialize-row :
      (manifest : Bytes) (w w' : World Mariadb) (e : Mariadb)
      → bytes_eq (internal_file w.db filename_cnf) (internal_file w.db filename_init) ≡ false
      → bytes_eq (internal_file w.db filename_cnf) (internal_file w.db filename_bootstrap_log)
        ≡ false
      → bytes_eq (internal_file w.db filename_init) (internal_file w.db filename_bootstrap_log)
        ≡ false
      → initialize h bootstrap_sql manifest w ≡ ok tt w'
      → KeepsTables h row manifest w.db e
      → (key : Bytes) × (h.marshal_pkcs8 w.db.key ≡ val key)
        × (row w'.os.disk ≡ some (record { cert = w.db.cert; key = key; manifest = manifest }))
  initialize-row manifest w w' e ne_init ne_log ne_log' applied tables =
      let (man, key, disk, parsed, marshalled, cnf, init, naming, ended) =
        initialize_files h bootstrap_sql manifest w w' ne_init ne_log ne_log' applied in
      (
        key,
        marshalled,
        tables.executes (bootstrap_cnf w.db) (opening man.sql) key disk w'.os.disk marshalled cnf
            naming (init ∙ ap (λ s. some (file s)) (whole man.sql key)) ended,
      )
    where
      opening : List Bytes → Bytes
      opening sql = creating ++ (bootstrap_sql ++ (text "\nFLUSH PRIVILEGES;\n" ++ statements sql))

      whole :
          (sql : List Bytes) (key : Bytes)
          → creating
              ++ (bootstrap_sql
                  ++ (text "\nFLUSH PRIVILEGES;\n"
                      ++ (statements sql ++ inserting w.db.cert key manifest)))
            ≡ opening sql ++ inserting w.db.cert key manifest
      whole sql key =
          regroup creating bootstrap_sql (text "\nFLUSH PRIVILEGES;\n") (statements sql)
            (inserting w.db.cert key manifest)

  pub start-initialize :
      (manifest : Bytes) (w w' v v' : World Mariadb)
      → bytes_eq (internal_file w.db filename_cnf) (internal_file w.db filename_init) ≡ false
      → bytes_eq (internal_file w.db filename_cnf) (internal_file w.db filename_bootstrap_log)
        ≡ false
      → bytes_eq (internal_file w.db filename_init) (internal_file w.db filename_bootstrap_log)
        ≡ false
      → initialize h bootstrap_sql manifest w ≡ ok tt w'
      → KeepsTables h row manifest w.db v.db
      → row v.os.disk ≡ row w'.os.disk
      → start h v ≡ ok tt v'
      → (v'.db.manifest_sig ≡ some (h.sha256 manifest))
        × (v'.db.cert ≡ w.db.cert)
        × ((key : Bytes) × (h.marshal_pkcs8 w.db.key ≡ val key)
            × (h.parse_pkcs8 key ≡ val v'.db.key))
        × ((man : Manifest) × (h.json_manifest manifest ≡ val man)
            × (v'.db.ca ≡ man.ca)
            × ((v.db.debug && not man.debug) ≡ false))
  start-initialize manifest w w' v v' ne_init ne_log ne_log' applied tables same started =
      let (key, marshalled, stored) =
        initialize-row manifest w w' v.db ne_init ne_log ne_log' applied tables in
      let (r, key', man', (disk', ran, queried), parsed', read, debug, adopted, _) =
        start-eq_ok h v v' started in
      let found : row disk' ≡ some (record { cert = w.db.cert; key = key; manifest = manifest }) =
        tables.serves (put (internal_file v.db filename_cnf) (file (start_cnf h v.db)) v.os.disk)
          disk' ran
        ∙ tables.apart v.os.disk
        ∙ same
        ∙ stored in
      let answer =
        tables.answers (normalized_internal_addr v.db) disk'
          (record { cert = w.db.cert; key = key; manifest = manifest }) found in
      let is_row : r ≡ record { cert = w.db.cert; key = key; manifest = manifest } = cc in
      (
        ap (λ (d : Mariadb). d.manifest_sig) adopted
            ∙ ap (λ (x : Row). some (h.sha256 x.manifest)) is_row,
        ap (λ (d : Mariadb). d.cert) adopted ∙ ap (λ (x : Row). x.cert) is_row,
        (
          key,
          marshalled,
          ap (λ (x : Row). h.parse_pkcs8 x.key) (sym is_row)
              ∙ parsed'
              ∙ ap val (sym (ap (λ (d : Mariadb). d.key) adopted)),
        ),
        (
          man',
          ap (λ (x : Row). h.json_manifest x.manifest) (sym is_row) ∙ read,
          ap (λ (d : Mariadb). d.ca) adopted,
          debug,
        ),
      )
