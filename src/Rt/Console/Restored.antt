-- ===== src/Rt/Console/Restored.antt =====
-- `RestoreStdoutAndStderr` behind `SaveStdoutAndStderr` (edb/rt/console.go).
use edgelessdb.Prelude.{ℕ, ◌≡◌, ◌≢◌, ◌∙◌, ap, sym, arith, Option, some, none}
use edgelessdb.World.{Error, Result, val}
use edgelessdb.Rt.Console.{
  Fds, assign, Console, stdout, stderr, dup, dup2, save_stdout_and_stderr,
  restore_stdout_and_stderr,
}

-- A descriptor that is not in use is no other than one that is.
other_than : (fds : Fds) (a b x : ℕ) → fds a ≡ none → fds b ≡ some x → a ≢ b
other_than fds a b x unused used same = cc

module _ (bad_descriptor : Error) (free : Fds → Result ℕ) where
  dup_lem :
      (fd file n : ℕ) (fds : Fds)
      → fds fd ≡ some file
      → free fds ≡ val n
      → dup bad_descriptor free fd fds ≡ (val n, assign n (some file) fds)
  unfolding dup
  dup_lem fd file n fds is_open picks = rw (is_open, picks)

  dup2_lem :
      (old new file : ℕ) (fds : Fds)
      → fds old ≡ some file
      → dup2 bad_descriptor free (some old) new fds ≡ (val tt, assign new (some file) fds)
  unfolding dup2
  dup2_lem old new file fds is_open = rw is_open

  assign_same : (fd : ℕ) (file : Option ℕ) (fds : Fds) → assign fd file fds fd ≡ file
  assign_same fd file fds = ground arith

  pub assign_other :
      (fd n : ℕ) (file : Option ℕ) (fds : Fds) → n ≢ fd → assign fd file fds n ≡ fds n
  assign_other fd n file fds other = ground arith

  -- The first duplicate does not take the place of the other output.
  still_open :
      (n out errors : ℕ) (fds : Fds)
      → fds n ≡ none
      → fds stderr ≡ some errors
      → assign n (some out) fds stderr ≡ some errors
  still_open n out errors fds unused is_open =
      assign_other n stderr (some out) fds (λ same. cc) ∙ is_open

  save_lem :
      (c : Console) (out errors n m : ℕ)
      → c.fds stdout ≡ some out
      → assign n (some out) c.fds stderr ≡ some errors
      → free c.fds ≡ val n
      → free (assign n (some out) c.fds) ≡ val m
      → save_stdout_and_stderr bad_descriptor free c ≡ (
        val tt,
        record {
          fds = assign m (some errors) (assign n (some out) c.fds);
          saved_stdout = some n;
          saved_stderr = some m;
        },
      )
  unfolding save_stdout_and_stderr
  save_lem c out errors n m open_out open_errors first second = rw (
    dup_lem stdout out n c.fds open_out first,
    dup_lem stderr errors m (assign n (some out) c.fds) open_errors second,
  )

  restore_lem :
      (later : Fds) (out errors n m : ℕ)
      → later n ≡ some out
      → later m ≡ some errors
      → m ≢ stdout
      → restore_stdout_and_stderr bad_descriptor free
          (record { fds = later; saved_stdout = some n; saved_stderr = some m })
        ≡ (
          val tt,
          record {
            fds = assign stderr (some errors) (assign stdout (some out) later);
            saved_stdout = some n;
            saved_stderr = some m;
          },
        )
  unfolding restore_stdout_and_stderr
  restore_lem later out errors n m at_n at_m other = rw (
    dup2_lem n stdout out later at_n,
    dup2_lem m stderr errors (assign stdout (some out) later)
        (assign_other stdout m (some out) later other ∙ at_m),
  )

  -- A save, what mariadbd makes of the descriptors, and a restore.
  abbrev pub save_and_restore : Console → Fds → Result (Unit {0}) × Console
  save_and_restore c later =
      restore_stdout_and_stderr bad_descriptor free
        (record ((save_stdout_and_stderr bad_descriptor free c).1) { fds = later })

  -- With both outputs open, a save gets two descriptors that were not in use, if the kernel has two.
  -- mariadbd may then do with the two standard outputs what it wants, as long as it leaves all other
  -- descriptors alone: a restore succeeds, and both outputs are the files that they were.
  pub restore-save :
      (c : Console) (later : Fds) (out errors n m : ℕ)
      → ((fds : Fds) (k : ℕ) → free fds ≡ val k → fds k ≡ none)
      → c.fds stdout ≡ some out
      → c.fds stderr ≡ some errors
      → free c.fds ≡ val n
      → free (assign n (some out) c.fds) ≡ val m
      → ((fd : ℕ)
          → fd ≢ stdout
          → fd ≢ stderr
          → later fd ≡ (save_stdout_and_stderr bad_descriptor free c).1.fds fd)
      → ((save_stdout_and_stderr bad_descriptor free c).0 ≡ val tt)
        × ((save_and_restore c later).0 ≡ val tt)
        × ((save_and_restore c later).1.fds stdout ≡ some out)
        × ((save_and_restore c later).1.fds stderr ≡ some errors)
  restore-save c later out errors n m unused open_out open_errors first second apart =
      let n_unused = unused c.fds n first in
      let m_unused = unused (assign n (some out) c.fds) m second in
      let open_later = still_open n out errors c.fds n_unused open_errors in
      let saved = save_lem c out errors n m open_out open_later first second in
      let first_fds : Fds = assign n (some out) c.fds in
      let n_out = other_than c.fds n stdout out n_unused open_out in
      let n_errors = other_than c.fds n stderr errors n_unused open_errors in
      let m_n = other_than first_fds m n out m_unused (assign_same n (some out) c.fds) in
      let m_out =
        other_than first_fds m stdout out m_unused
          (assign_other n stdout (some out) c.fds (λ same. n_out (sym same)) ∙ open_out) in
      let m_errors = other_than first_fds m stderr errors m_unused open_later in
      let at_n : later n ≡ some out =
        apart n n_out n_errors
        ∙ ap (λ r. r.1.fds n) saved
        ∙ assign_other m n (some errors) (assign n (some out) c.fds) (λ same. m_n (sym same))
        ∙ assign_same n (some out) c.fds in
      let at_m : later m ≡ some errors =
        apart m m_out m_errors
        ∙ ap (λ r. r.1.fds m) saved
        ∙ assign_same m (some errors) (assign n (some out) c.fds) in
      let restored =
        ap
          (λ (r : Result (Unit {0}) × Console).
            restore_stdout_and_stderr bad_descriptor free (record (r.1) { fds = later }))
          saved
        ∙ restore_lem later out errors n m at_n at_m m_out in
      (
        ap (λ r. r.0) saved,
        ap (λ r. r.0) restored,
        ap (λ r. r.1.fds stdout) restored,
        ap (λ r. r.1.fds stderr) restored,
      )
