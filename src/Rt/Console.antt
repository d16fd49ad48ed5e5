-- ===== src/Rt/Console.antt =====
-- edb/rt/console.go: the descriptors of the standard outputs are duplicated before mariadbd, which
-- redirects them, and put back behind it.
pub mod Restored
use edgelessdb.Prelude.{ℕ, Option, some, none, Bytes, ◌==◌, if◌then◌else◌}
use edgelessdb.World.{Error, Result, val, exc}

-- Open files by their descriptor; a file is known by a number.
abbrev pub Fds : Type 0
Fds = ℕ → Option ℕ

abbrev pub assign : ℕ → Option ℕ → Fds → Fds
assign fd file fds n = if n == fd then file else fds n

-- The descriptors, and the variables `savedStdout` and `savedStderr`; `none` stands for -1.
pub record Console : Type 0 where
  pub fds : Fds
  pub saved_stdout : Option ℕ
  pub saved_stderr : Option ℕ

abbrev pub stdout : ℕ
stdout = 1

abbrev pub stderr : ℕ
stderr = 2

-- `syscall.Dup`: `free` is the descriptor that the kernel picks among the unused ones, or its error;
-- a descriptor that is not open is an error as well.
module _ (bad_descriptor : Error) (free : Fds → Result ℕ) where
  abbrev picked : Option ℕ → Result ℕ → Fds → Result ℕ × Fds
  picked none r fds = (exc bad_descriptor, fds)
  picked (some file) (exc e) fds = (exc e, fds)
  picked (some file) (val n) fds = (val n, assign n (some file) fds)

  unfoldable pub dup : ℕ → Fds → Result ℕ × Fds
  dup fd fds = picked (fds fd) (free fds) fds

  abbrev duplicated : Option ℕ → ℕ → Fds → Result (Unit {0}) × Fds
  duplicated none new fds = (exc bad_descriptor, fds)
  duplicated (some file) new fds = (val tt, assign new (some file) fds)

  -- `syscall.Dup2`
  unfoldable pub dup2 : Option ℕ → ℕ → Fds → Result (Unit {0}) × Fds
  dup2 none new fds = (exc bad_descriptor, fds)
  dup2 (some old) new fds = duplicated (fds old) new fds

  abbrev pub or_minus_one : Result ℕ → Option ℕ
  or_minus_one (val n) = some n
  or_minus_one (exc e) = none

  abbrev then_stderr : Result ℕ → Console → Result (Unit {0}) × Console
  then_stderr (exc e) c = (exc e, c)
  then_stderr (val n) c =
      let (r, fds) = dup stderr c.fds in
      (saved r, record c { fds = fds; saved_stderr = or_minus_one r })
    where
      saved : Result ℕ → Result (Unit {0})
      saved (val n) = val tt
      saved (exc e) = exc e

  -- `SaveStdoutAndStderr`
  unfoldable pub save_stdout_and_stderr : Console → Result (Unit {0}) × Console
  unfolding dup
  save_stdout_and_stderr c =
      let (r, fds) = dup stdout c.fds in
      then_stderr r (record c { fds = fds; saved_stdout = or_minus_one r })

  abbrev restore_stderr : Result (Unit {0}) → Console → Result (Unit {0}) × Console
  restore_stderr (exc e) c = (exc e, c)
  restore_stderr (val _) c =
      let (r, fds) = dup2 c.saved_stderr stderr c.fds in (r, record c { fds = fds })

  -- `RestoreStdoutAndStderr`
  unfoldable pub restore_stdout_and_stderr : Console → Result (Unit {0}) × Console
  unfolding dup2
  restore_stdout_and_stderr c =
      let (r, fds) = dup2 c.saved_stdout stdout c.fds in restore_stderr r (record c { fds = fds })
