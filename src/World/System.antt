-- ===== src/World/System.antt =====
-- The system calls: environment, files, time and random bytes. A fault comes first, and leaves
-- everything as it was.
use edgelessdb.Prelude.{
  ℕ, ◌+◌, Bool, true, false, Option, none, some, [], ◌∷◌, ◌++◌, String, Bytes, bytes_eq, ◌||◌,
  if◌then◌else◌,
}
use edgelessdb.Std.Strings.{starts_with}
use edgelessdb.Std.FilePath.{is_abs, clean, join_path}
use text.Mathlib.Text.{◌==◌ as str_eq}
use edgelessdb.World.Errors.{
  Error, not_exist, already_exists, is_directory, not_a_directory, is_not_exist,
}
use edgelessdb.World.Memory.{World, Entry, dir, file, Disk, put, erase}
use edgelessdb.World.Monad.{
  Result, val, exc, M, ok, err, ◌>>=◌, ◌>>◌, pure, throw, attempt, branch, on_result, get, modify,
  from_result,
}
use edgelessdb.World.External.{Host}

abbrev pub or_empty : Option Bytes → Bytes
or_empty none = []
or_empty (some v) = v

module _ {D : Type 0} where
  abbrev pub set_disk : Disk → World D → World D
  set_disk disk w = record w { os = record (w.os) { disk = disk } }

  abbrev pub set_env : (String → Option Bytes) → World D → World D
  set_env env w = record w { os = record (w.os) { env = env } }

  -- One variable is set.
  abbrev pub with_env : String → Bytes → World D → World D
  with_env k v w = set_env (λ j. if str_eq j k then some v else w.os.env j) w

  abbrev pub fault : Option Error → M D (Unit {0})
  fault none w = ok tt w
  fault (some e) w = err e w

  -- `os.LookupEnv` and `os.Getenv`
  abbrev pub lookup_env : String → M D (Option Bytes)
  lookup_env k w = ok (w.os.env k) w

  abbrev pub getenv : String → M D Bytes
  getenv k w = ok (or_empty (w.os.env k)) w

  -- A line on the terminal that users act on.
  abbrev pub print : Bytes → M D (Unit {0})
  print line =
      modify (λ w. record w { os = record (w.os) { printed = w.os.printed ++ (line ∷ []) } })

  -- The number of a call for random bytes or for the time.
  abbrev pub tick : M D ℕ
  tick w = ok w.os.ticks (record w { os = record (w.os) { ticks = w.os.ticks + 1 } })

abbrev pub entry_contents : Option Entry → Result Bytes
entry_contents none = exc not_exist
entry_contents (some dir) = exc is_directory
entry_contents (some (file b)) = val b

abbrev pub is_dir : Option Entry → Bool
is_dir (some dir) = true
is_dir _ = false

abbrev pub is_there : Option Entry → Bool
is_there none = false
is_there (some _) = true

-- A path, or one below it.
abbrev pub is_below : Bytes → Bytes → Bool
is_below p q = bytes_eq q p || starts_with q (p ++ (b'/' ∷ []))

-- `os.RemoveAll`
abbrev pub remove_all : {D : Type 0} → Bytes → World D → World D
remove_all p w = set_disk (λ q. if is_below p q then none else w.os.disk q) w

module _ (h : Host) {D : Type 0} where
  -- `os.Setenv`
  unfoldable pub setenv : String → Bytes → M D (Unit {0})
  setenv k v = do fault (h.setenv_fault k); modify (with_env k v)

  -- `ReadFile`
  unfoldable pub read_file : Bytes → M D Bytes
  read_file p = do fault (h.read_fault p); w ← get; from_result (entry_contents (w.os.disk p))

  -- `WriteFile`
  unfoldable pub write_file : Bytes → Bytes → M D (Unit {0})
  write_file p b = do
    fault (h.write_fault p)
    w ← get
    branch (is_dir (w.os.disk p)) (throw is_directory)
        (modify (set_disk (put p (file b) w.os.disk)))

  -- `os.MkdirAll`, whose missing parents are directories that nothing looks up
  unfoldable pub mkdir_all : Bytes → M D (Unit {0})
  mkdir_all p = do
    fault (h.mkdir_fault p)
    w ← get
    elim (w.os.disk p) [
      | none ↦ modify (set_disk (put p dir w.os.disk))
      | some e ↦ branch (is_dir (some e)) (pure tt) (throw not_a_directory)
    ]

  -- `os.Stat`, of which only the error is used
  unfoldable pub stat : Bytes → M D (Unit {0})
  stat p = do
    fault (h.stat_fault p)
    w ← get
    branch (is_there (w.os.disk p)) (pure tt) (throw not_exist)

  -- `afero.Exists`
  unfoldable pub exists : Bytes → M D Bool
  unfolding stat
  exists p = do
    r ← attempt (stat p)
    on_result r (λ _. pure true) (λ e. branch (is_not_exist e) (pure false) (throw e))

  -- `os.Remove`
  unfoldable pub remove : Bytes → M D (Unit {0})
  remove p = do
    fault (h.remove_fault p)
    w ← get
    branch (is_there (w.os.disk p)) (modify (set_disk (erase p w.os.disk))) (throw not_exist)

  -- `os.Mkdir`
  unfoldable pub mkdir : Bytes → M D (Unit {0})
  mkdir p = do
    fault (h.mkdir_fault p)
    w ← get
    branch (is_there (w.os.disk p)) (throw already_exists) (modify (set_disk (put p dir w.os.disk)))

  -- `syscall.Mount` of a directory of the host: which one is seen where
  unfoldable pub mount : Bytes → Bytes → M D (Unit {0})
  mount source target = do
    fault (h.mount_fault target)
    modify
        (λ w. record w { os = record (w.os) { mounts = w.os.mounts ++ ((source, target) ∷ []) } })

  -- `ioutil.TempDir`
  unfoldable pub make_temp_dir : M D Bytes
  make_temp_dir = do
    k ← tick
    p ← from_result (h.temp_dir k)
    w ← get
    modify (set_disk (put p dir w.os.disk))
    pure p

  -- `filepath.Abs`
  unfoldable pub abs_path : Bytes → M D Bytes
  abs_path p =
      branch (is_abs p) (pure (clean p)) do wd ← from_result h.getwd; pure (join_path (wd ∷ p ∷ []))

  -- `rand.Read` into a buffer of a size; the length of what comes back is the count that it returns
  unfoldable pub rand_read : ℕ → M D Bytes
  rand_read size = do k ← tick; from_result (h.random k size)

  -- `time.Now().Format("20060102150405")`
  unfoldable pub now : M D Bytes
  now = do k ← tick; pure (h.now k)
