-- ===== src/Db/Mariadb/Script.antt =====
-- The files that mariadbd is handed for the bootstrap, written out (edb/db/mariadb.go,
-- `configureBootstrap`): what MariaDB reads in them.
use edgelessdb.Prelude.{
  ◌≡◌, ◌∙◌, refl, ap, sym, List, [], ◌∷◌, ◌++◌, Bytes, text, is_empty, if◌then◌else◌,
}
use edgelessdb.Std.Hex.{encode_to_string}
use edgelessdb.Std.FilePath.{join_path}
use edgelessdb.Std.Strings.{join}
use edgelessdb.Db.Mariadb.Config.{
  Mariadb, internal_file, filename_init, filename_bootstrap_log, concat, hex_literal, queries,
  setting, init_script, bootstrap_cnf,
}

-- A hexadecimal literal of SQL; there is none for no bytes.
abbrev pub literal : Bytes → Bytes
literal [] = []
literal (b ∷ bs) = text "0x" ++ encode_to_string (b ∷ bs)

-- Statements, each with its semicolon and all but the last with a line break.
abbrev pub statements : List Bytes → Bytes
statements [] = []
statements (s ∷ []) = s ++ text ";"
statements (s ∷ t ∷ ts) = s ++ (text ";\n" ++ statements (t ∷ ts))

-- The statement that makes the system's database: an error where it is there.
abbrev pub creating : Bytes
creating = text "\nCREATE DATABASE mysql;\nUSE mysql;\n"

-- The statements that make the configuration table and its one row.
abbrev pub inserting : Bytes → Bytes → Bytes → Bytes
inserting cert key manifest =
    text "\nCREATE DATABASE $edgeless;\nCREATE TABLE $edgeless.config (c BLOB, k BLOB, m BLOB);\n"
    ++ (text "INSERT INTO $edgeless.config VALUES ("
        ++ (literal cert
            ++ (text ", " ++ (literal key ++ (text ", " ++ (literal manifest ++ text ");\n"))))))

-- A configuration file of mariadbd for a bootstrap that executes the init file of a directory.
abbrev pub IsNaming : Bytes → Bytes → Type 0
IsNaming internal_path cnf =
    (front : Bytes) × (rest : Bytes) × (cnf
      ≡ front
        ++ (text "\nbootstrap\ninit-file="
            ++ (join_path (internal_path ∷ filename_init ∷ []) ++ (text "\n" ++ rest))))

append_assoc : (a b c : Bytes) → (a ++ b) ++ c ≡ a ++ (b ++ c)
append_assoc [] b c = refl
append_assoc (x ∷ a) b c = ap (λ s. x ∷ s) (append_assoc a b c)

pub regroup : (a b c d e : Bytes) → a ++ (b ++ (c ++ (d ++ e))) ≡ (a ++ (b ++ (c ++ d))) ++ e
regroup a b c d e = sym (
    append_assoc a (b ++ (c ++ d)) e
    ∙ ap (λ s. a ++ s) (append_assoc b (c ++ d) e ∙ ap (λ s. b ++ s) (append_assoc c d e)))

literal_lem : (b : Bytes) → hex_literal b ≡ literal b
unfolding hex_literal
literal_lem [] = refl
literal_lem (b ∷ bs) = refl

join-statements :
    (s : Bytes) (sql : List Bytes) → join (s ∷ sql) (text ";\n") ++ text ";" ≡ statements (s ∷ sql)
unfolding join
join-statements s [] = refl
join-statements s (t ∷ ts) =
    append_assoc s (text ";\n" ++ join (t ∷ ts) (text ";\n")) (text ";")
    ∙ ap (λ x. s ++ x)
        (append_assoc (text ";\n") (join (t ∷ ts) (text ";\n")) (text ";")
          ∙ ap (λ x. text ";\n" ++ x) (join-statements t ts))

statements_lem : (sql : List Bytes) → queries sql ≡ statements sql
unfolding queries
statements_lem [] = refl
statements_lem (s ∷ sql) = join-statements s sql

pub init_script_lem :
    (bootstrap_sql : Bytes) (sql : List Bytes) (cert key manifest : Bytes)
    → init_script bootstrap_sql sql cert key manifest
      ≡ creating
        ++ (bootstrap_sql
            ++ (text "\nFLUSH PRIVILEGES;\n" ++ (statements sql ++ inserting cert key manifest)))
unfolding init_script concat text
init_script_lem b sql cert key manifest =
    rw (statements_lem sql, literal_lem cert, literal_lem key, literal_lem manifest) refl

pub bootstrap_cnf-IsNaming : (d : Mariadb) → IsNaming d.internal_path (bootstrap_cnf d)
unfolding bootstrap_cnf concat internal_file
bootstrap_cnf-IsNaming d =
    let rest = concat (
      setting (text "rocksdb_db_log_dir")
        (if is_empty d.debug_log_dir then d.internal_path else d.debug_log_dir)
      ∷ []) in
    let datadir = text "\n[mysqld]\ndatadir=" in
    let engine =
      text "\ndefault-storage-engine=ROCKSDB\nenforce-storage-engine=ROCKSDB\nlog-error =" in
    let log = internal_file d filename_bootstrap_log in
    (
      datadir ++ (d.external_path ++ (engine ++ log)),
      rest,
      regroup datadir d.external_path engine log (
          text "\nbootstrap\ninit-file="
          ++ (join_path (d.internal_path ∷ filename_init ∷ []) ++ (text "\n" ++ rest))),
    )
