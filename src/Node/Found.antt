-- ===== src/Node/Found.antt =====
-- `Start` (edb/db/mariadb.go) where there is a database: it does not answer that there is none.
use edgelessdb.Prelude.{
  ◌≡◌, refl, arith, Bool, true, false, Option, none, some, String, Bytes, [], ◌∷◌, text,
}
use edgelessdb.Std.FilePath.{join_path}
use edgelessdb.World.{
  World, Config, Disk, Host, Entry, Error, Startup, listening, returned, silent, Outcome, ok, err,
  halt, fatal, deadlocked, branch, attempt, stat, fault, setenv, write_file, is_not_initialized_yet,
  bind-cases,
}
use edgelessdb.World.Unfailing.{
  is_err, NeverErr, never_err, bind-NeverErr, attempt-NeverErr, on_result-NeverErr, pure-NeverErr,
}
use edgelessdb.Db.Mariadb.Config.{
  Mariadb, internal_file, filename_cnf, write_internal, configure_start, db_state,
}
use edgelessdb.Db.Mariadb.Startup.{
  internal_addr_var, normalized_internal_addr, database_dir, check_database, run_mariadbd, started,
  get_config_from_sql, or_fatal, take_over, start,
}

-- The errors of the operating system are not the database's own `ErrNotInitializedYet`.
pub record IsForeign (h : Host) : Type 0 where
  pub write : (p : Bytes) (e : Error) → h.write_fault p ≡ some e → is_not_initialized_yet e ≡ false
  pub set : (k : String) (e : Error) → h.setenv_fault k ≡ some e → is_not_initialized_yet e ≡ false

-- MariaDB keeps the row among its tables, in the directory of RocksDB, which can be looked at.
pub record IsHoused {A : Type 0} (h : Host) (row : Disk → Option A) (config : Config) : Type 0 where
  pub looks : h.stat_fault (join_path (config.data_path ∷ text "#rocksdb" ∷ [])) ≡ none
  pub housed :
      (disk : Disk) (r : A)
      → row disk ≡ some r
      → (e : Entry) × (disk (join_path (config.data_path ∷ text "#rocksdb" ∷ [])) ≡ some e)

-- The answer is that there is no database.
abbrev pub says_none : {A : Type 0} → Outcome Mariadb A → Bool
says_none (ok a w) = false
says_none (err e w) = is_not_initialized_yet e
says_none (halt x w) = false

never_says : {A : Type 0} (o : Outcome Mariadb A) → is_err o ≡ false → says_none o ≡ false
never_says (ok a w) e = refl
never_says (err x w) e = cc
never_says (halt x w) e = refl

module _ (h : Host) where
  found :
      (w : World Mariadb) (e : Entry)
      → h.stat_fault (database_dir w.db) ≡ none
      → w.os.disk (database_dir w.db) ≡ some e
      → check_database h w ≡ ok tt w
  unfolding check_database stat
  found w e looks there = ground arith

  fault_says :
      (o : Option Error) (w : World Mariadb)
      → ((e : Error) → o ≡ some e → is_not_initialized_yet e ≡ false)
      → says_none (fault {D = Mariadb} o w) ≡ false
  fault_says none w foreign = refl
  fault_says (some e) w foreign = foreign e refl

  configure_start_says : (w : World Mariadb) → IsForeign h → says_none (configure_start h w) ≡ false
  unfolding configure_start write_internal write_file
  configure_start_says w foreign =
      bind-cases (λ o. says_none o ≡ false)
        (fault (h.write_fault (internal_file w.db filename_cnf))) _ w
        (λ e v r. rw r at (
          fault_says (h.write_fault (internal_file w.db filename_cnf)) w
            (foreign.write (internal_file w.db filename_cnf))))
        (λ x v r. refl) λ _ v r. ground arith

  setenv_says :
      (k : String) (v : Bytes) (w : World Mariadb)
      → IsForeign h
      → says_none (setenv h k v w) ≡ false
  unfolding setenv
  setenv_says k v w foreign =
      bind-cases (λ o. says_none o ≡ false) (fault (h.setenv_fault k)) _ w
        (λ e u r. rw r at (fault_says (h.setenv_fault k) w (foreign.set k))) (λ x u r. refl)
        λ _ u r. refl

  run_mariadbd_says : (w : World Mariadb) → says_none (run_mariadbd h w) ≡ false
  unfolding run_mariadbd
  run_mariadbd_says w = of_startup (h.startup (internal_file w.db filename_cnf) w.os.disk)
    where
      of_startup : (s : Startup) → says_none (started h s w) ≡ false
      of_startup (listening disk) = refl
      of_startup (returned code) = refl
      of_startup silent = refl

  fatal-NeverErr : {A : Type 0} (e : Error) → NeverErr {D = Mariadb} {A = A} (halt (fatal e))
  fatal-NeverErr e = record { no_err = λ v. refl }

  db_state-NeverErr : NeverErr db_state
  db_state-NeverErr = record { no_err = λ v. refl }

  config-NeverErr : (address : Bytes) → NeverErr (or_fatal h (get_config_from_sql h address))
  config-NeverErr address =
      bind-NeverErr (attempt (get_config_from_sql h address)) _ (attempt-NeverErr _)
        λ r. on_result-NeverErr r _ _ (λ a. pure-NeverErr a) (λ e. fatal-NeverErr e)

  take_over-NeverErr : (address : Bytes) → NeverErr (take_over h address)
  unfolding take_over
  take_over-NeverErr address =
      bind-NeverErr (or_fatal h (get_config_from_sql h address)) _ (config-NeverErr address)
        λ p. search (never_err, db_state-NeverErr) depth 20

  take_over_says : (address : Bytes) (w : World Mariadb) → says_none (take_over h address w) ≡ false
  take_over_says address w = never_says _ ((take_over-NeverErr address).no_err w)

  -- A start of an object whose database is on the disk.
  pub start_found :
      (w : World Mariadb) (e : Entry)
      → IsForeign h
      → h.stat_fault (database_dir w.db) ≡ none
      → w.os.disk (database_dir w.db) ≡ some e
      → says_none (start h w) ≡ false
  unfolding start
  start_found w e foreign looks there =
      bind-cases (λ o. says_none o ≡ false) (check_database h) _ w
        (λ x v r. let sees = found w e looks there in cc) (λ x v r. refl)
        λ _ v r.
          bind-cases (λ o. says_none o ≡ false) (configure_start h) _ v
            (λ x u s. rw s at (configure_start_says v foreign)) (λ x u s. refl)
            λ _ u s.
              bind-cases (λ o. says_none o ≡ false)
                (setenv h internal_addr_var (normalized_internal_addr u.db)) _ u
                (λ x t p.
                  rw p at (setenv_says internal_addr_var (normalized_internal_addr u.db) u foreign))
                (λ x t p. refl)
                λ _ t p.
                  bind-cases (λ o. says_none o ≡ false) (run_mariadbd h) _ t
                    (λ x q z. rw z at (run_mariadbd_says t)) (λ x q z. refl)
                    λ _ q z.
                      bind-cases (λ o. says_none o ≡ false)
                        (take_over h (normalized_internal_addr u.db)) _ q
                        (λ x y c. rw c at (take_over_says (normalized_internal_addr u.db) q))
                        (λ x y c. refl) λ _ y c. waits (h.comes_up y.os.disk) y
    where
      waits :
          (b : Bool) (y : World Mariadb)
          → says_none {A = Unit {0}} (branch b (ok tt) (halt deadlocked) y) ≡ false
      waits true y = refl
      waits false y = refl
