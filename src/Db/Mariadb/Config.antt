-- ===== src/Db/Mariadb/Config.antt =====
-- edb/db/mariadb.go: the object, and the files that it writes for mariadbd.
use edgelessdb.Prelude.{
  suc, Bool, true, false, Option, List, [], ◌∷◌, ◌++◌, Bytes, text, is_empty, if◌then◌else◌,
}
use edgelessdb.Prelude.Int.{ℤ, pos, negsuc}
use edgelessdb.Std.Hex.{encode_to_string}
use edgelessdb.Std.Strings.{join, itoa}
use edgelessdb.Std.FilePath.{join_path}
use edgelessdb.World.{World, Host, PrivateKey, M, ok, ◌>>=◌, ◌>>◌, pure, from_result, write_file}
use edgelessdb.Db.Util.{split_host_port, to_pem, create_certificate}

pub record Mariadb : Type 0 where
  pub internal_path : Bytes
  pub external_path : Bytes
  pub internal_address : Bytes
  pub external_address : Bytes
  pub debug : Bool
  pub debug_log_dir : Bytes
  pub max_pool_threads : ℤ
  pub cert : Bytes
  pub key : PrivateKey
  pub manifest_sig : Option Bytes
  pub ca : Bytes
  pub attempted_init : Bool

-- The file names.
abbrev pub filename_ca : Bytes
filename_ca = text "ca.pem"

abbrev pub filename_cert : Bytes
filename_cert = text "cert.pem"

abbrev pub filename_key : Bytes
filename_key = text "key.pem"

abbrev pub filename_cnf : Bytes
filename_cnf = text "my.cnf"

abbrev pub filename_init : Bytes
filename_init = text "init.sql"

abbrev pub filename_bootstrap_log : Bytes
filename_bootstrap_log = text "mariadb-error.log"

abbrev pub filename_error_log : Bytes
filename_error_log = text "mariadb.err"

unfoldable pub internal_file : Mariadb → Bytes → Bytes
internal_file d name = join_path (d.internal_path ∷ name ∷ [])

unfoldable pub concat : List Bytes → Bytes
concat [] = []
concat (s ∷ ts) = s ++ concat ts

-- `fmt.Sprintf("%v=%v\n", name, value)`
unfoldable pub setting : Bytes → Bytes → Bytes
unfolding concat text
setting name value = concat (name ∷ text "=" ∷ value ∷ text "\n" ∷ [])

-- `%#x` of a byte slice
unfoldable pub hex_literal : Bytes → Bytes
unfolding encode_to_string text
hex_literal [] = []
hex_literal (b ∷ bs) = text "0x" ++ encode_to_string (b ∷ bs)

-- The statements of the manifest, each ended by a semicolon.
unfoldable pub queries : List Bytes → Bytes
unfolding join text
queries [] = []
queries (s ∷ sql) = join (s ∷ sql) (text ";\n") ++ text ";"

-- The init script: the system tables, the manifest's statements, and the configuration table with
-- the certificate, its key and the manifest. `bootstrap_sql` is the generated `mariadbBootstrap`.
unfoldable pub init_script : Bytes → List Bytes → Bytes → Bytes → Bytes → Bytes
unfolding concat hex_literal queries text
init_script bootstrap_sql sql cert key manifest = concat (
    text "\nCREATE DATABASE mysql;\nUSE mysql;\n"
    ∷ bootstrap_sql
    ∷ text "\nFLUSH PRIVILEGES;\n"
    ∷ queries sql
    ∷ text "\nCREATE DATABASE $edgeless;\nCREATE TABLE $edgeless.config (c BLOB, k BLOB, m BLOB);\n"
    ∷ text "INSERT INTO $edgeless.config VALUES ("
    ∷ hex_literal cert
    ∷ text ", "
    ∷ hex_literal key
    ∷ text ", "
    ∷ hex_literal manifest
    ∷ text ");\n"
    ∷ [])

-- The configuration file for a bootstrap.
unfoldable pub bootstrap_cnf : Mariadb → Bytes
unfolding internal_file concat setting text
bootstrap_cnf d = concat (
    text "\n[mysqld]\ndatadir="
    ∷ d.external_path
    ∷ text "\ndefault-storage-engine=ROCKSDB\nenforce-storage-engine=ROCKSDB\nlog-error ="
    ∷ internal_file d filename_bootstrap_log
    ∷ text "\nbootstrap\ninit-file="
    ∷ internal_file d filename_init
    ∷ text "\n"
    ∷ setting (text "rocksdb_db_log_dir")
        (if is_empty d.debug_log_dir then d.internal_path else d.debug_log_dir)
    ∷ [])

unfoldable pub itoa_ℤ : ℤ → Bytes
unfolding itoa text
itoa_ℤ (pos n) = itoa n
itoa_ℤ (negsuc n) = text "-" ++ itoa (suc n)

log_files : List (Bytes × Bytes)
unfolding text
log_files =
    (text "log_error", filename_error_log)
    ∷ (text "general_log_file", text "mariadb.log")
    ∷ (text "slow_query_log_file", text "mariadb-slow.log")
    ∷ (text "log_bin", text "mariadb-binary.log")
    ∷ (text "rocksdb_db_log_dir", [])
    ∷ []

log_settings : Bytes → List (Bytes × Bytes) → Bytes
unfolding setting join_path
log_settings log_dir [] = []
log_settings log_dir ((name, filename) ∷ more) =
    setting name (join_path (log_dir ∷ filename ∷ [])) ++ log_settings log_dir more

-- The part of the configuration file that depends on the debug mode: logs go to the debug log
-- directory, or to the standard error output, or else to the internal file system.
log_section : Host → Mariadb → Bool → Bytes
unfolding log_files log_settings internal_file setting text concat
log_section h d true =
    (if is_empty d.debug_log_dir
      then []
      else log_settings d.debug_log_dir (h.range_order log_files))
    ++ text "\ngeneral_log\nslow_query_log\nlog_warnings=9\nbinlog-format=ROW\n"
log_section h d false =
    setting (text "log_error") (internal_file d filename_error_log)
    ++ setting (text "rocksdb_db_log_dir") d.internal_path

-- The configuration file for a regular start.
unfoldable pub start_cnf : Host → Mariadb → Bytes
unfolding log_section itoa_ℤ internal_file concat text split_host_port
start_cnf h d =
    let (host, port) = split_host_port d.external_address (text "3306") in
    concat (
      text "\n[mysqld]\ndatadir="
      ∷ d.external_path
      ∷ text
          "\ndefault-storage-engine=ROCKSDB\nenforce-storage-engine=ROCKSDB\nuser=root\nbind-address="
      ∷ host
      ∷ text "\nport="
      ∷ port
      ∷ text "\nskip-name-resolve\nthread-handling=pool-of-threads\nthread-pool-max-threads="
      ∷ itoa_ℤ d.max_pool_threads
      ∷ text "\nrequire-secure-transport=1\nssl-ca = \""
      ∷ internal_file d filename_ca
      ∷ text "\"\nssl-cert = \""
      ∷ internal_file d filename_cert
      ∷ text "\"\nssl-key = \""
      ∷ internal_file d filename_key
      ∷ text "\"\n"
      ∷ log_section h d d.debug
      ∷ [])

abbrev pub db_state : M Mariadb Mariadb
db_state w = ok w.db w

abbrev pub set_db : {D : Type 0} → D → World D → World D
set_db d w = record w { db = d }

module _ (h : Host) where
  -- `writeFile`
  unfoldable pub write_internal : Bytes → Bytes → M Mariadb (Unit {0})
  write_internal name contents = do d ← db_state; write_file h (internal_file d name) contents

  -- `configureBootstrap`
  unfoldable pub configure_bootstrap : Bytes → List Bytes → Bytes → M Mariadb (Unit {0})
  configure_bootstrap bootstrap_sql sql manifest = do
    d ← db_state
    key ← from_result (h.marshal_pkcs8 d.key)
    write_internal filename_cnf (bootstrap_cnf d)
    write_internal filename_init (init_script bootstrap_sql sql d.cert key manifest)

  -- `configureStart`
  unfoldable pub configure_start : M Mariadb (Unit {0})
  configure_start = do d ← db_state; write_internal filename_cnf (start_cnf h d)

  -- The CA certificate of the manifest, or else one that no client has.
  unfoldable pub client_ca : Bytes → M Mariadb Bytes
  client_ca (c ∷ ca) = pure (c ∷ ca)
  client_ca [] = do
    (cert, key) ← create_certificate h (text "dummy")
    pure (h.pem_encode "CERTIFICATE" cert)

  -- `writeCertificates`
  unfoldable pub write_certificates : M Mariadb (Unit {0})
  write_certificates = do
    d ← db_state
    (cert, key) ← to_pem h d.cert d.key
    ca ← client_ca d.ca
    write_internal filename_ca ca
    write_internal filename_cert cert
    write_internal filename_key key
