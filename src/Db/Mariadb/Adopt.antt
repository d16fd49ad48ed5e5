-- ===== src/Db/Mariadb/Adopt.antt =====
-- `Start` (edb/db/mariadb.go): the identity that a started database takes from its own table.
use edgelessdb.Prelude.{◌≡◌, ◌∙◌, ap, arith, Bool, true, false, some, [], Bytes, not, ◌&&◌}
use edgelessdb.World.{
  World, Disk, Startup, listening, returned, silent, Outcome, branch, halt, deadlocked, stat, Host,
  Row, Manifest, PrivateKey, ok, err, on_ok, setenv, val, already_initialized,
}
use edgelessdb.Db.Mariadb.Config.{Mariadb, internal_file, filename_cnf, configure_start}
use edgelessdb.Db.Mariadb.Bootstrap.{initialize, check_manifest}
use edgelessdb.Db.Mariadb.Startup.{
  internal_addr_var, normalized_internal_addr, check_database, run_mariadbd, started, start,
  take_over,
}
use edgelessdb.World.{file, put, set_disk}
use edgelessdb.Db.Mariadb.Config.{start_cnf}
use edgelessdb.Db.Mariadb.Fields.{configure_start_ok, write_internal-eq_ok}
use edgelessdb.Db.Mariadb.TakeOver.{take_over-eq_ok}

module _ (h : Host) where
  -- A `Start` that returned no error has taken the database's identity from the database itself: from
  -- the server that mariadbd has started on the disk with the object's configuration file, and that
  -- answers on the object's internal address. The manifest signature is the hash of the manifest in
  -- the configuration table, the certificate and its key are those of the table, and the CA for
  -- clients is the one of the manifest, which can be read and allows the debug mode if that is on.
  -- The variable that opens the internal address is empty again.
  pub start-eq_ok :
      (w w' : World Mariadb)
      → start h w ≡ ok tt w'
      → (row : Row) × (key : PrivateKey) × (man : Manifest) × ((disk : Disk) × (h.startup
              (internal_file w.db filename_cnf)
              (put (internal_file w.db filename_cnf) (file (start_cnf h w.db)) w.os.disk)
            ≡ listening disk)
          × (h.query_config (normalized_internal_addr w.db) disk ≡ val row))
        × (h.parse_pkcs8 row.key ≡ val key)
        × (h.json_manifest row.manifest ≡ val man)
        × ((w.db.debug && not man.debug) ≡ false)
        × (w'.db ≡ record (w.db) {
          manifest_sig = some (h.sha256 row.manifest);
          ca = man.ca;
          cert = row.cert;
          key = key;
        })
        × (w'.os.env internal_addr_var ≡ some [])
  unfolding start
  start-eq_ok w w' e = on_ok (check_database h) _ w e λ _ w1 e1 r1.
      on_ok (configure_start h) _ w1 r1 λ _ w2 e2 r2.
        on_ok (setenv h internal_addr_var (normalized_internal_addr w2.db)) _ w2 r2 λ _ w3 e3 r3.
          on_ok (run_mariadbd h) _ w3 r3 λ _ w4 e4 r4.
            on_ok (take_over h (normalized_internal_addr w2.db)) _ w4 r4 λ _ w5 e5 r5.
              let waited : w5 ≡ w' = came_up (h.comes_up w5.os.disk) w5 w' r5 in
              let d1 : w1.db ≡ w.db = unfold check_database stat in ground arith in
              let d2 = configure_start_ok h w1 w2 e2 in
              let d3 : w3.db ≡ w2.db = unfold setenv in ground arith in
              let d4 : w4.db ≡ w3.db =
                unfold run_mariadbd in
                began (h.startup (internal_file w3.db filename_cnf) w3.os.disk) w3 w4 e4 in
              let s1 : w1 ≡ w = unfold check_database stat in ground arith in
              let wrote : w2 ≡ with_cnf w1 =
                unfold configure_start in
                write_internal-eq_ok h filename_cnf (start_cnf h w1.db) w1 w2 e2 in
              let s2 : w2 ≡ with_cnf w = wrote ∙ ap with_cnf s1 in
              let disk3 : w3.os.disk ≡ (with_cnf w).os.disk =
                env_only w2 w3 e3 ∙ ap (λ (v : World Mariadb). v.os.disk) s2 in
              let running : h.startup (internal_file w3.db filename_cnf) w3.os.disk
                  ≡ listening w4.os.disk =
                unfold run_mariadbd in
                listens (h.startup (internal_file w3.db filename_cnf) w3.os.disk) w3 w4 e4 in
              let d : w4.db ≡ w.db = d4 ∙ d3 ∙ d2 ∙ d1 in
              let (row, key, man, queried, parsed, read, debug, adopted, cleared) =
                take_over-eq_ok h (normalized_internal_addr w2.db) w4 w' (rw waited at e5) in
              (
                row,
                key,
                man,
                (w4.os.disk, rw (d3 ∙ d2 ∙ d1, disk3) at running, rw (d2 ∙ d1) at queried),
                parsed,
                read,
                rw d at debug,
                adopted ∙ ap (taken row key man) d,
                cleared,
              )
    where
      taken : Row → PrivateKey → Manifest → Mariadb → Mariadb
      taken row key man d = record d {
        manifest_sig = some (h.sha256 row.manifest);
        ca = man.ca;
        cert = row.cert;
        key = key;
      }

      with_cnf : World Mariadb → World Mariadb
      with_cnf v =
          set_disk (put (internal_file v.db filename_cnf) (file (start_cnf h v.db)) v.os.disk) v

      env_only :
          (v u : World Mariadb)
          → setenv h internal_addr_var (normalized_internal_addr v.db) v ≡ ok tt u
          → u.os.disk ≡ v.os.disk
      env_only v u e = unfold setenv in ground arith

      listens :
          (s : Startup) (w v : World Mariadb) → started h s w ≡ ok tt v → s ≡ listening v.os.disk
      listens (listening disk) w v e = cc
      listens (returned code) w v e = cc
      listens silent w v e = cc

      began : (s : Startup) (w v : World Mariadb) → started h s w ≡ ok tt v → v.db ≡ w.db
      began (listening disk) w v e = ground arith
      began (returned code) w v e = ground arith
      began silent w v e = ground arith

      came_up :
          (b : Bool) (w v : World Mariadb)
          → Path (Outcome Mariadb (Unit {0})) (branch b (ok tt) (halt deadlocked) w) (ok tt v)
          → w ≡ v
      came_up true w v e = cc
      came_up false w v e = cc

  started_refuses :
      (bootstrap_sql manifest : Bytes) (w : World Mariadb) (sig : Bytes)
      → w.db.manifest_sig ≡ some sig
      → initialize h bootstrap_sql manifest w ≡ err already_initialized w
  unfolding initialize check_manifest
  started_refuses bootstrap_sql manifest w sig e = ground arith

  -- A database that `Start` has started without an error takes no manifest: `Initialize` is refused
  -- and changes nothing.
  pub initialize_started :
      (bootstrap_sql manifest : Bytes) (w w' : World Mariadb)
      → start h w ≡ ok tt w'
      → initialize h bootstrap_sql manifest w' ≡ err already_initialized w'
  initialize_started bootstrap_sql manifest w w' e =
      let (row, key, man, _, _, _, _, adopted, _) = start-eq_ok w w' e in
      started_refuses bootstrap_sql manifest w' (h.sha256 row.manifest)
        (ap (λ (d : Mariadb). d.manifest_sig) adopted)
