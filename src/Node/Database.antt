-- ===== src/Node/Database.antt =====
-- MariaDB's methods leave what a node keeps on its disk (edb/db/mariadb.go).
use edgelessdb.Prelude.{◌≡◌, true, false, refl, Bool, Option, [], ◌∷◌, Bytes}
use edgelessdb.World.{
  World, Config, Disk, Host, Row, Startup, listening, returned, silent, deadlocked, after, modify,
  PrivateKey, Manifest, Error, ok, halt, fatal, branch,
}
use edgelessdb.World.Invariant.{Holds}
use edgelessdb.Db.Util.{create_certificate, to_pem, generate_serial}
use edgelessdb.Db.Mariadb.Config.{
  Mariadb, internal_file, filename_cnf, configure_start, client_ca, write_certificates,
}
use edgelessdb.Db.Mariadb.Startup.{
  adopt, started, get_config_from_sql, check_database, run_mariadbd, take_over, start,
  wait_until_started,
}
use edgelessdb.Node.Intact.{IsDurable, IsIntact}
use edgelessdb.Node.Files.{Kept, same_row, kept, modify-Kept}
use edgelessdb.Node.Bootstrap.{db_state-Kept, write_internal-Kept, internal_names}

module _ {A : Type 0} {own : Bytes → Type 0} (h : Host) (row : Disk → Option A)
    (internal_path : Bytes) (config : Config) (laws : IsDurable h row internal_path own)
    (r : A) where
  create_certificate-Kept :
      (name : Bytes) → Kept h row internal_path config laws r (create_certificate h name)
  unfolding create_certificate generate_serial
  create_certificate-Kept name = search kept depth 12

  to_pem-Kept :
      (cert : Bytes) (key : PrivateKey) → Kept h row internal_path config laws r (to_pem h cert key)
  unfolding to_pem
  to_pem-Kept cert key = search kept depth 12

  client_ca-Kept : (ca : Bytes) → Kept h row internal_path config laws r (client_ca h ca)
  unfolding client_ca
  client_ca-Kept [] = search (kept, create_certificate-Kept) depth 9
  client_ca-Kept (c ∷ ca) = search kept

  configure_start-Kept : Kept h row internal_path config laws r (configure_start h)
  unfolding configure_start
  configure_start-Kept = search (kept, db_state-Kept, write_internal-Kept, internal_names) depth 9

  write_certificates-Kept : Kept h row internal_path config laws r (write_certificates h)
  unfolding write_certificates
  write_certificates-Kept =
      search (kept, db_state-Kept, to_pem-Kept, client_ca-Kept, write_internal-Kept, internal_names)
        depth 14

  check_database-Kept : Kept h row internal_path config laws r (check_database h)
  unfolding check_database
  check_database-Kept = search (kept, db_state-Kept) depth 12

  run_mariadbd-Kept : Kept h row internal_path config laws r (run_mariadbd h)
  unfolding run_mariadbd
  run_mariadbd-Kept = record { kept = λ w p. of_startup w p _ refl }
    where
      of_startup :
          (w : World Mariadb)
          → IsIntact row internal_path config r w
          → (s : Startup) → h.startup (internal_file w.db filename_cnf) w.os.disk ≡ s
          → IsIntact row internal_path config r (after (started h s w))
      of_startup w p (listening disk) e =
          same_row h row internal_path config laws r disk w (laws.started _ w.os.disk disk e) p
      of_startup w p (returned code) e = p
      of_startup w p silent e = p

  get_config_from_sql-Kept :
      (address : Bytes) → Kept h row internal_path config laws r (get_config_from_sql h address)
  unfolding get_config_from_sql
  get_config_from_sql-Kept address = search kept depth 12

  adopt-Kept :
      (x : Row) (key : PrivateKey) (man : Manifest)
      → Kept h row internal_path config laws r (modify (adopt h x key man))
  adopt-Kept x key man =
      modify-Kept h row internal_path config laws r (adopt h x key man)
        (λ w. (refl, refl, refl, refl))

  fatal-Kept :
      {A : Type 0} (e : Error)
      → Holds {D = Mariadb} {A = A} (IsIntact row internal_path config r) (halt (fatal e))
  fatal-Kept e = record { kept = λ w p. p }

  take_over-Kept : (address : Bytes) → Kept h row internal_path config laws r (take_over h address)
  unfolding take_over
  take_over-Kept address =
      search
        (
          kept, get_config_from_sql-Kept, fatal-Kept, db_state-Kept, adopt-Kept,
          write_certificates-Kept,
        )
        depth 20

  wait_until_started-Kept : Kept h row internal_path config laws r (wait_until_started h)
  wait_until_started-Kept = record { kept = λ w p. of_answer (h.comes_up w.os.disk) w p }
    where
      of_answer :
          (b : Bool) (w : World Mariadb)
          → IsIntact row internal_path config r w
          → IsIntact row internal_path config r
              (after {A = Unit {0}} (branch b (ok tt) (halt deadlocked) w))
      of_answer true w p = p
      of_answer false w p = p

  pub start-Kept : Kept h row internal_path config laws r (start h)
  unfolding start
  start-Kept =
      search
        (
          kept, check_database-Kept, configure_start-Kept, db_state-Kept, run_mariadbd-Kept,
          take_over-Kept, wait_until_started-Kept,
        )
        depth 14
