-- ===== src/Node/Intact.antt =====
-- What a node keeps on its disk, such as the row of the configuration table, and what MariaDB
-- documents about it.
use edgelessdb.Prelude.{◌≡◌, ◌++◌, false, bytes_eq, Option, some, ◌∷◌, [], Bytes}
use edgelessdb.Std.FilePath.{join_path}
use edgelessdb.World.{World, Config, Disk, Entry, Host, listening, put, erase, file}
use edgelessdb.Db.Mariadb.Config.{
  Mariadb, filename_ca, filename_cert, filename_key, filename_cnf, filename_init,
  filename_bootstrap_log,
}
use edgelessdb.Db.Mariadb.Script.{creating, IsNaming}
use edgelessdb.Core.Key.{persistence_path, key_path, backup_path}

-- The files of the internal directory.
pub data IsInternal : Bytes → Type 0 where
  ca_file : IsInternal filename_ca
  cert_file : IsInternal filename_cert
  key_pem_file : IsInternal filename_key
  cnf_file : IsInternal filename_cnf
  init_file : IsInternal filename_init
  log_file : IsInternal filename_bootstrap_log

-- The paths that the program itself writes, beside those of mariadbd: files of the internal directory,
-- the data directory, and the master key in it, with its backups.
pub data IsOwn (internal_path : Bytes) (config : Config) : Bytes → Type 0 where
  internal :
      (name : Bytes)
      → IsInternal name
      → IsOwn internal_path config (join_path (internal_path ∷ name ∷ []))
  data_dir : IsOwn internal_path config config.data_path
  persistence : IsOwn internal_path config (persistence_path config)
  key_file : IsOwn internal_path config (key_path config)
  backup : (time : Bytes) → IsOwn internal_path config (backup_path (key_path config) time)

-- With `row` for what a disk holds, if anything, in files that are not among those of `own`: the files
-- of the internal directory are among them; a write to one of them, and a start of the server, leave
-- it; and so does a bootstrap whose init file begins by making the system's database: where there is
-- a database already, that statement is an error, and mariadbd executes none behind it. The paths of
-- the files for a bootstrap differ.
pub record IsDurable {A : Type 0} (h : Host) (row : Disk → Option A) (internal_path : Bytes)
    (own : Bytes → Type 0) : Type 0 where
  pub files : (name : Bytes) → IsInternal name → own (join_path (internal_path ∷ name ∷ []))
  pub written : (p : Bytes) (e : Entry) (disk : Disk) → own p → row (put p e disk) ≡ row disk
  pub removed : (p : Bytes) (disk : Disk) → own p → row (erase p disk) ≡ row disk
  pub started :
      (cnf : Bytes) (before after : Disk)
      → h.startup cnf before ≡ listening after
      → row after ≡ row before
  pub bootstrapped :
      (cnf rest : Bytes) (disk : Disk) (r : A)
      → disk (join_path (internal_path ∷ filename_cnf ∷ [])) ≡ some (file cnf)
      → IsNaming internal_path cnf
      → disk (join_path (internal_path ∷ filename_init ∷ [])) ≡ some (file (creating ++ rest))
      → row disk ≡ some r
      → row ((h.bootstrap (join_path (internal_path ∷ filename_cnf ∷ [])) disk).1) ≡ some r
  pub cnf_apart :
      bytes_eq
        (join_path (internal_path ∷ filename_cnf ∷ []))
        (join_path (internal_path ∷ filename_init ∷ []))
      ≡ false
  pub cnf_no_log :
      bytes_eq
        (join_path (internal_path ∷ filename_cnf ∷ []))
        (join_path (internal_path ∷ filename_bootstrap_log ∷ []))
      ≡ false
  pub init_no_log :
      bytes_eq
        (join_path (internal_path ∷ filename_init ∷ []))
        (join_path (internal_path ∷ filename_bootstrap_log ∷ []))
      ≡ false

-- A node whose disk has `r`.
pub record IsIntact {A : Type 0} (row : Disk → Option A) (internal_path : Bytes) (config : Config)
    (r : A) (w : World Mariadb) : Type 0 where
  pub stored : row w.os.disk ≡ some r
  pub configured : w.core.cfg ≡ config
  pub inside : w.db.internal_path ≡ internal_path
  pub outside : w.db.external_path ≡ config.data_path
