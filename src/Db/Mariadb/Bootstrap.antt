-- ===== src/Db/Mariadb/Bootstrap.antt =====
-- edb/db/mariadb.go: `Initialize`, the bootstrap of a database from a manifest.
use edgelessdb.Prelude.{
  ℕ, ◌-◌, Bool, true, false, not, ◌&&◌, Option, none, some, List, [], ◌∷◌, Bytes, text, is_empty,
  leb, ◌==◌, if◌then◌else◌,
}
use edgelessdb.Std.Strings.{starts_with, join}
use edgelessdb.World.{
  World, Host, Manifest, M, ok, err, ◌>>=◌, ◌>>◌, pure, throw, panic, attempt, ignore, must, branch,
  on_result, when, fail_if, from_result, modify, set_disk, read_file, remove, fault, print,
  is_not_exist, already_initialized, previous_init_failed, debug_not_allowed, bootstrap_failed,
  cannot_read_error_log, log_errors,
}
use edgelessdb.Db.Mariadb.Config.{
  Mariadb, filename_cnf, filename_bootstrap_log, internal_file, db_state, set_db,
  configure_bootstrap,
}

abbrev upper : ℕ → ℕ
upper c = if leb b'a' c && leb c b'z' then c - 32 else c

abbrev upper_all : Bytes → Bytes
upper_all [] = []
upper_all (c ∷ s) = upper c ∷ upper_all s

-- The lines of a text; `line` holds the last one, backwards.
reverse_onto : Bytes → Bytes → Bytes
reverse_onto [] out = out
reverse_onto (x ∷ s) out = reverse_onto s (x ∷ out)

lines_from : Bytes → Bytes → List Bytes
unfolding reverse_onto
lines_from [] line = reverse_onto line [] ∷ []
lines_from (c ∷ s) line =
    let here = reverse_onto line [] ∷ lines_from s [] in
    let more = lines_from s (c ∷ line) in if c == 10 then here else more

unfoldable pub is_error_line : Bytes → Bool
unfolding starts_with text
is_error_line line = starts_with (upper_all line) (text "ERROR")

error_lines : List Bytes → List Bytes
unfolding is_error_line
error_lines [] = []
error_lines (l ∷ ls) = let rest = error_lines ls in if is_error_line l then l ∷ rest else rest

-- `FindAllString` of the pattern `(?mi)^ERROR.*$`
unfoldable pub found_errors : Bytes → List Bytes
unfolding lines_from error_lines
found_errors log = error_lines (lines_from log [])

-- A database that has been bootstrapped or started has a manifest signature.
abbrev pub is_set : Option Bytes → Bool
is_set none = false
is_set (some _) = true

module _ (h : Host) where
  abbrev pub errors_or_ok : List Bytes → M Mariadb (Unit {0})
  errors_or_ok [] w = ok tt w
  errors_or_ok (e ∷ es) w = err (log_errors (join (e ∷ es) [])) w

  -- `printErrorLog`
  unfoldable pub print_error_log : Bool → M Mariadb (Unit {0})
  print_error_log only_print_on_error = do
    must (fault h.restore_fault)
    d ← db_state
    r ← attempt (read_file h (internal_file d filename_bootstrap_log))
    on_result r
        (λ log. do
          let found = found_errors log
          when (not (is_empty found && only_print_on_error)) (print log)
          errors_or_ok found)
        (λ _. panic cannot_read_error_log)

  -- The log file of an earlier attempt is removed; that there is none is no error.
  unfoldable pub remove_old_log : M Mariadb (Unit {0})
  remove_old_log = do
    d ← db_state
    r ← attempt (remove h (internal_file d filename_bootstrap_log))
    on_result r (λ _. pure tt) (λ e. branch (is_not_exist e) (pure tt) (throw e))

  -- `mariadbd.Main` in bootstrap mode
  unfoldable pub run_bootstrap : M Mariadb ℕ
  run_bootstrap w =
      let (code, disk) = h.bootstrap (internal_file w.db filename_cnf) w.os.disk in
      ok code (set_disk disk w)

  abbrev pub note_attempt : World Mariadb → World Mariadb
  note_attempt w = set_db (record (w.db) { attempted_init = true }) w

  -- Whether a manifest may be applied to this object; no state is changed.
  unfoldable pub check_manifest : Bytes → M Mariadb Manifest
  check_manifest manifest = do
    d ← db_state
    fail_if (is_set d.manifest_sig) already_initialized
    fail_if d.attempted_init previous_init_failed
    man ← from_result (h.json_manifest manifest)
    fail_if (d.debug && not man.debug) debug_not_allowed
    pure man

  -- The rest of `Initialize`, once the script is written.
  unfoldable pub bootstrap : M Mariadb (Unit {0})
  bootstrap = do
    remove_old_log
    modify note_attempt
    code ← run_bootstrap
    branch (code == 0) (print_error_log true)
        (ignore (print_error_log false) >> panic bootstrap_failed)

  -- `Initialize`
  unfoldable pub initialize : Bytes → Bytes → M Mariadb (Unit {0})
  initialize bootstrap_sql manifest = do
    man ← check_manifest manifest
    configure_bootstrap h bootstrap_sql man.sql manifest
    bootstrap
