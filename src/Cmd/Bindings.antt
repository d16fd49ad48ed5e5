-- ===== src/Cmd/Bindings.antt =====
-- cmd/edb/mariadbd.go, cmd/edb/restart.go: what stands between the program and the C code. The C
-- functions that are called are parameters.
use edgelessdb.Prelude.{
  zero, suc, ℕ, ◌+◌, ◌≤◌, ◌<◌, ◌≡◌, ◌≢◌, ◌⊎◌, inl, inr, refl, arith, Option, none, some, List, [],
  ◌∷◌, ◌++◌, Bytes, text, ◌==◌, if◌then◌else◌,
}
use edgelessdb.World.{Error, Host, M, must, from_result, Disk, Startup}

-- The vector that `Main` makes for `edgeless_mysqld_main`.
abbrev pub mariadbd_argv : Bytes → List Bytes
mariadbd_argv cnf_path = text "edb" ∷ (text "--defaults-file=" ++ cnf_path) ∷ []

-- `mariadbd.Main` for a host, in its two uses: a bootstrap that returns, and a start.
abbrev pub mariadbd : (List Bytes → Disk → ℕ × Disk) → (List Bytes → Disk → Startup) → Host → Host
mariadbd bootstrap_main server_main h = record h {
  bootstrap = λ cnf_path. bootstrap_main (mariadbd_argv cnf_path);
  startup = λ cnf_path. server_main (mariadbd_argv cnf_path);
}

-- `waitUntilSet` from its k-th look at a flag on, with `flag` for what each look finds: the number of
-- the look that ends the loop, or nothing if the fuel is used up.
unfoldable pub wait_until_set : ℕ → (ℕ → ℕ) → ℕ → Option ℕ
wait_until_set zero flag k = none
wait_until_set (suc fuel) flag k =
    let rest = wait_until_set fuel flag (k + 1) in if flag k == 0 then rest else some k

-- The two waits of `Start`, each for a flag of mariadbd.
abbrev pub wait_until_started : ℕ → (ℕ → ℕ) → Option ℕ
wait_until_started fuel mysqld_server_started = wait_until_set fuel mysqld_server_started 0

abbrev pub wait_until_listen_internal_ready : ℕ → (ℕ → ℕ) → Option ℕ
wait_until_listen_internal_ready fuel edgeless_listen_internal_ready =
    wait_until_set fuel edgeless_listen_internal_ready 0

-- The process behind a restart: another image, with its working directory and its arguments, or one
-- that was aborted or has panicked.
pub data HostProcess : Type 0 where
  replaced : Bytes → Bytes → List Bytes → HostProcess
  aborted : HostProcess
  crashed : Error → HostProcess

-- The C function `restart`: `execv` returns only on an error.
abbrev pub exec_self : (Bytes → List Bytes → Option Error) → Bytes → List Bytes → HostProcess
exec_self execv dir argv = elim (execv (text "/proc/self/exe") argv) [
  | none ↦ replaced dir (text "/proc/self/exe") argv
  | some e ↦ aborted
]

module _ (chdir : Bytes → Option Error) (execv : Bytes → List Bytes → Option Error)
    (argv : List Bytes) where
  abbrev change_and_exec : Bytes → Option Error → HostProcess
  change_and_exec dir none = exec_self execv dir argv
  change_and_exec dir (some e) = crashed e

  -- `RestartHostProcess`, in the directory that the process began in
  unfoldable pub restart_host_process : Bytes → HostProcess
  restart_host_process initial_working_dir =
      change_and_exec initial_working_dir (chdir initial_working_dir)

-- `initialWorkingDir`, which is set before `main`
abbrev pub initial_working_dir : Host → {D : Type 0} → M D Bytes
initial_working_dir h = must (from_result h.getwd)

-- How many of `rounds` looks from the k-th on find the flag set.
abbrev pub set_looks : (ℕ → ℕ) → ℕ → ℕ → ℕ
set_looks flag k zero = 0
set_looks flag k (suc rounds) = (if flag k == 0 then 0 else 1) + set_looks flag (k + 1) rounds

-- One look at a flag that is set, or one more in front of the others.
set_now :
    (flag : ℕ → ℕ) (fuel start d : ℕ)
    → flag start ≢ 0
    → (rounds : ℕ) × (wait_until_set (suc fuel) flag start ≡ some (start + rounds))
      × (rounds ≤ d)
      × (flag (start + rounds) ≢ 0)
      × (set_looks flag start rounds ≡ 0)
unfolding wait_until_set
set_now flag fuel start d set =
    let same : start + 0 ≡ start = omega arith in
    (0, ground arith, omega arith, (λ z. set (rw same at z)), refl)

set_later :
    (flag : ℕ → ℕ) (fuel start rounds : ℕ)
    → flag start ≡ 0
    → wait_until_set fuel flag (start + 1) ≡ some ((start + 1) + rounds)
    → flag ((start + 1) + rounds) ≢ 0
    → set_looks flag (start + 1) rounds ≡ 0
    → (wait_until_set (suc fuel) flag start ≡ some (start + suc rounds))
      × (flag (start + suc rounds) ≢ 0)
      × (set_looks flag start (suc rounds) ≡ 0)
unfolding wait_until_set
set_later flag fuel start rounds zero_now waited set none_before =
    let same : (start + 1) + rounds ≡ start + suc rounds = omega arith in
    (ground (arith, waited), rw same at set, ground arith)

-- The wait for mariadbd ends if one of the looks that there is fuel for finds the flag set: it ends at
-- a look that finds the flag set, which is that one or comes before it, and no look before found it
-- set.
pub wait_until_set_lem :
    (flag : ℕ → ℕ) (fuel start d : ℕ)
    → d < fuel
    → flag (start + d) ≢ 0
    → (rounds : ℕ) × (wait_until_set fuel flag start ≡ some (start + rounds))
      × (rounds ≤ d)
      × (flag (start + rounds) ≢ 0)
      × (set_looks flag start rounds ≡ 0)
wait_until_set_lem flag zero start d lt set = absurd (omega arith)
wait_until_set_lem flag (suc fuel) start zero lt set =
    let same : start + 0 ≡ start = omega arith in set_now flag fuel start 0 (rw same at set)
wait_until_set_lem flag (suc fuel) start (suc d) lt set = elim (zero_or_not (flag start)) [
  | inl z ↦
      let same : start + suc d ≡ (start + 1) + d = omega arith in
      let (rounds, waited, le, found, before) =
        wait_until_set_lem flag fuel (start + 1) d (omega arith) (rw same at set) in
      let (waited', found', before') = set_later flag fuel start rounds z waited found before in
      (suc rounds, waited', omega arith, found', before')
  | inr s ↦ set_now flag fuel start (suc d) s
]
  where
    zero_or_not : (k : ℕ) → (k ≡ 0) ⊎ (k ≢ 0)
    zero_or_not zero = inl refl
    zero_or_not (suc k) = inr (λ e. omega arith)
