-- ===== src/Cmd/Diagnosis.antt =====
-- cmd/edb/error.go: `determineError`, which looks for a known error in the log of mariadbd.
use edgelessdb.Prelude.{
  ℕ, Bool, true, false, ◌&&◌, Option, none, some, [], ◌∷◌, ◌++◌, Bytes, text, is_empty, leb,
  if◌then◌else◌,
}
use edgelessdb.Std.Strings.{starts_with, contains, trim_prefix}
use edgelessdb.Std.FilePath.{join_path}
use edgelessdb.World.{
  halt, fatal, library, Host, M, ◌>>=◌, ◌>>◌, pure, attempt, branch, on_result, when, getenv,
  read_file, print,
}
use edgelessdb.Core.Environment.{debug_var, log_dir_var}
use edgelessdb.Db.Mariadb.Config.{filename_error_log, itoa_ℤ}
use edgelessdb.Prelude.Int.{ℤ}

abbrev pub rocksdb_init_error : Bytes
rocksdb_init_error = text "Plugin 'ROCKSDB' registration as a STORAGE ENGINE failed."

abbrev pub bind_error : Bytes
bind_error = text "Can't start server: Bind on TCP/IP port. Got error:"

abbrev is_digit : ℕ → Bool
is_digit c = leb b'0' c && leb c b'9'

-- The digits at the start of a text, after those in `seen` (backwards), and the text behind them.
append_reversed : Bytes → Bytes → Bytes
append_reversed [] out = out
append_reversed (x ∷ s) out = append_reversed s (x ∷ out)

digits_before : Bytes → Bytes → Bytes → Option Bytes
unfolding append_reversed starts_with
digits_before seen end [] =
    if is_empty seen then none else (if is_empty end then some (append_reversed seen []) else none)
digits_before seen end (c ∷ s) =
    let more = digits_before (c ∷ seen) end s in
    if is_digit c
    then more
    else if is_empty seen
    then none
    else (if starts_with (c ∷ s) end then some (append_reversed seen []) else none)

skip : Bytes → Bytes → Bytes
skip s [] = s
skip [] (_ ∷ _) = []
skip (_ ∷ s) (_ ∷ p) = skip s p

abbrev before_port : Bytes
before_port = text "running on port: "

port_here : Bytes → Option Bytes
unfolding starts_with skip digits_before text
port_here s =
    if starts_with s before_port then digits_before [] (text " ?") (skip s before_port) else none

abbrev first_of : Option Bytes → Option Bytes → Option Bytes
first_of (some p) _ = some p
first_of none o = o

-- The group of the leftmost match of `running on port: (\d+) \?`
unfoldable pub find_port : Bytes → Option Bytes
unfolding port_here
find_port [] = none
find_port (c ∷ s) = first_of (port_here (c ∷ s)) (find_port s)

abbrev bind_message : Option Bytes → Bytes
bind_message none = text "Bind on TCP/IP port failed."
bind_message (some port) = text "Bind on TCP/IP port " ++ (port ++ text " failed.")

-- `internalPath` and `hostPath` are those of the build.
module _ (h : Host) {D : Type 0} (internal_path : Bytes) (host_path : Bytes → M D Bytes) where
  -- Where the log is looked for, and whether the user can read it there; `none` where it went to the
  -- standard error output.
  unfoldable pub error_log_place : M D (Option (Bytes × Bool))
  error_log_place = do
    debug ← getenv debug_var
    branch (is_empty debug) (pure (some (internal_path, false))) do
      log_dir ← getenv log_dir_var
      branch (is_empty log_dir) (pure none) do path ← host_path log_dir; pure (some (path, true))

  -- What is printed for a log that was read.
  unfoldable pub explain : Bytes → Bool → Bytes → M D (Unit {0})
  unfolding contains find_port trim_prefix text
  explain path point_to_log log = do
    when (contains log rocksdb_init_error) (do
      print log
      print (text "eRocksDB failed to initialize correctly.")
      print (
          text
            "This likely failed due to an incorrect key being used to decrypt the database or the database being corrupted.")
      print (text "Make sure you run edb on the same machine as it was initialized on."))
    when (contains log bind_error) (print (bind_message (find_port log)))
    when point_to_log
        (print (text "You can find the error log at: " ++ trim_prefix path (text "/edg/hostfs")))

  abbrev pub explain_at : Option (Bytes × Bool) → M D (Unit {0})
  explain_at none = pure tt
  explain_at (some (base, point_to_log)) = do
    let path = join_path (base ∷ filename_error_log ∷ [])
    r ← attempt (read_file h path)
    on_result r (explain path point_to_log) (λ _. pure tt)

  -- `determineError`
  unfoldable pub determine_error : M D (Unit {0})
  determine_error = do place ← error_log_place; explain_at place

  -- `exit`, for the code that mariadbd ended with; `os.Exit` runs nothing that was deferred.
  unfoldable pub exit : ℤ → M D (Unit {0})
  unfolding itoa_ℤ
  exit status = do
    determine_error
    print (text "edb has exited unexpectedly (exit code: " ++ (itoa_ℤ status ++ text ")."))
    halt (fatal (library (text "exit")))
