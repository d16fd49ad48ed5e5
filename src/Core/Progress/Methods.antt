-- ===== src/Core/Progress/Methods.antt =====
-- Which methods of `Core` (edb/core/core.go) never wait for a mutex that their own goroutine holds.
use edgelessdb.Prelude.{
  ◌≡◌, ◌∙◌, refl, ap, Bool, false, not, ◌&&◌, is_empty, Option, arith, String, Bytes, [], ◌∷◌,
}
use edgelessdb.World.{
  World, Core, Host, M, ok, ◌>>=◌, from_result, read_file, recovery, no_manifest_from_marblerun,
}
use edgelessdb.World.Frame.{from_result-KeepsCore, read_file-KeepsCore}
use edgelessdb.World.Progress.{
  is_stuck, NeverStuck, bind-NeverStuck, read_file-NeverStuck, from_result-NeverStuck,
  fail_if-NeverStuck, bind-goes_on,
}
use edgelessdb.Db.Interface.{Database, IsSeparate, IsLively}
use edgelessdb.Core.States.{locked, lock, defer_unlock, require_state}
use edgelessdb.Core.Key.{set_master_key}
use edgelessdb.Core.Certificate.{generate_report}
use edgelessdb.Core.Lifecycle.{
  encrypt_recovery_key, initialize_locked, initialize, start_or_wait, initialize_if_waiting,
  start_database, recover, is_recovering, get_manifest_signature,
}
use edgelessdb.Core.Frame.{
  control, KeepsCore-Keeps, set_master_key-Keeps, encrypt_recovery_key-KeepsCore,
  generate_report-Keeps, start_or_wait-KeepsCore,
}
use edgelessdb.Core.Recovery.{is_recovering_lem}
use edgelessdb.Core.Lock.{initialize-IsReleased, IsReleased}
use edgelessdb.Core.Progress.{
  then-goes_on, lock_free_goes_on, branch_goes_on, defer_unlock_goes_on, set_master_key-NeverStuck,
  encrypt_recovery_key-NeverStuck, generate_report-NeverStuck, start_or_wait-NeverStuck,
  show_recovery-NeverStuck,
}

module _ (root_ca_var : String) (h : Host) {D : Type 0} (db : Database D)
    (lively : IsLively db) where
  pub initialize_goes_on :
      (manifest : Bytes) (w : World D)
      → w.core.locked ≡ false
      → is_stuck (initialize root_ca_var h db manifest w) ≡ false
  unfolding initialize
  initialize_goes_on manifest w free =
      then-goes_on (from_result (h.json_recovery manifest)) _ w (from_result-NeverStuck _)
        (KeepsCore-Keeps control _ (from_result-KeepsCore (h.json_recovery manifest)))
        λ pem v s.
          then-goes_on (encrypt_recovery_key h v.core.master_key pem) _ v
            (encrypt_recovery_key-NeverStuck h v.core.master_key pem)
            (KeepsCore-Keeps control _ (encrypt_recovery_key-KeepsCore h v.core.master_key pem))
            λ c u t.
              lock_free_goes_on (λ _. defer_unlock (initialize_locked root_ca_var h db manifest c))
                u (ap (λ x. x.1) (t ∙ s) ∙ free)
                (defer_unlock_goes_on (initialize_locked root_ca_var h db manifest c) (locked u)
                  ((inside c).goes_on (locked u)))
    where
      inside : (c : Option Bytes) → NeverStuck (initialize_locked root_ca_var h db manifest c)
      inside c =
          bind-NeverStuck (db.initialize manifest) _ (lively.initialize-goes_on manifest)
            λ _. record { goes_on = λ w. refl }

  -- A call of code that gives the mutex back.
  released_goes_on :
      {A B : Type 0} (m : M D A) (f : A → M D B) (w : World D)
      → is_stuck (m w) ≡ false
      → IsReleased (m w)
      → ((a : A) (v : World D) → v.core.locked ≡ false → is_stuck (f a v) ≡ false)
      → is_stuck ((m >>= f) w) ≡ false
  released_goes_on m f w first free go = bind-goes_on m f w first (λ a v e. go a v (rw e at free))

  initialize_if_waiting_goes_on :
      (waiting : Bool) (w : World D)
      → w.core.locked ≡ false
      → is_stuck (initialize_if_waiting root_ca_var h db waiting w) ≡ false
  unfolding initialize_if_waiting
  initialize_if_waiting_goes_on waiting w free =
      branch_goes_on (waiting && not (is_empty w.core.cfg.manifest_file_path)) _ _ w
        (then-goes_on (read_file h w.core.cfg.manifest_file_path) _ w
          (read_file-NeverStuck h w.core.cfg.manifest_file_path)
          (KeepsCore-Keeps control _ (read_file-KeepsCore h w.core.cfg.manifest_file_path))
          λ manifest v s.
            let g : v.core.locked ≡ false = ap (λ x. x.1) s ∙ free in
            released_goes_on (initialize root_ca_var h db manifest) _ v
              (initialize_goes_on manifest v g)
              (initialize-IsReleased root_ca_var h db manifest v g)
              λ c u _.
                (show_recovery-NeverStuck root_ca_var h db lively w.core.is_marble c).goes_on u)
        ((fail_if-NeverStuck (waiting && w.core.is_marble) no_manifest_from_marblerun).goes_on w)

  pub start_database_goes_on :
      (lawful : IsSeparate db) (w : World D)
      → w.core.locked ≡ false
      → is_stuck (start_database root_ca_var h db w) ≡ false
  unfolding start_database
  start_database_goes_on lawful w free =
      then-goes_on (start_or_wait root_ca_var h db) _ w
        (start_or_wait-NeverStuck root_ca_var h db lively)
        (KeepsCore-Keeps control _ (start_or_wait-KeepsCore root_ca_var h db lawful))
        λ waiting v s.
          then-goes_on (generate_report root_ca_var h db) _ v
            (generate_report-NeverStuck root_ca_var h db lively)
            (generate_report-Keeps root_ca_var h db lawful control (λ _ _. refl))
            λ _ u t. initialize_if_waiting_goes_on waiting u (ap (λ x. x.1) (t ∙ s) ∙ free)

  -- With no manifest file to read, a start of the database does not look at the mutex.
  start_without_file_goes_on :
      (lawful : IsSeparate db) (w : World D)
      → w.core.cfg.manifest_file_path ≡ []
      → is_stuck (start_database root_ca_var h db w) ≡ false
  unfolding start_database
  start_without_file_goes_on lawful w none_named =
      then-goes_on (start_or_wait root_ca_var h db) _ w
        (start_or_wait-NeverStuck root_ca_var h db lively)
        (KeepsCore-Keeps control _ (start_or_wait-KeepsCore root_ca_var h db lawful))
        λ waiting v s.
          then-goes_on (generate_report root_ca_var h db) _ v
            (generate_report-NeverStuck root_ca_var h db lively)
            (generate_report-Keeps root_ca_var h db lawful control (λ _ _. refl))
            λ _ u t. waits waiting u (ap (λ x. x.3.manifest_file_path) (t ∙ s) ∙ none_named)
    where
      waits :
          (waiting : Bool) (u : World D)
          → u.core.cfg.manifest_file_path ≡ []
          → is_stuck (initialize_if_waiting root_ca_var h db waiting u) ≡ false
      waits waiting u e = unfold initialize_if_waiting in ground arith

  is_recovering_goes_on :
      (w : World D) → w.core.locked ≡ false → is_stuck (is_recovering root_ca_var h db w) ≡ false
  is_recovering_goes_on w free = rw (is_recovering_lem root_ca_var h db w free)

  get_manifest_signature_goes_on :
      (w : World D)
      → w.core.locked ≡ false
      → is_stuck (get_manifest_signature root_ca_var h db w) ≡ false
  unfolding get_manifest_signature
  get_manifest_signature_goes_on w free =
      lock_free_goes_on _ w free (defer_unlock_goes_on _ (locked w) refl)

  -- No method but `Recover` waits for a mutex that its own goroutine holds: a call of `Initialize`,
  -- `StartDatabase`, `IsRecovering` or `GetManifestSignature` that begins with the mutex free does
  -- not deadlock, if the database writes no field of `Core` and does not deadlock itself.
  pub methods_go_on :
      (manifest : Bytes) (w : World D)
      → IsSeparate db
      → w.core.locked ≡ false
      → (is_stuck (initialize root_ca_var h db manifest w) ≡ false)
        × (is_stuck (start_database root_ca_var h db w) ≡ false)
        × (is_stuck (is_recovering root_ca_var h db w) ≡ false)
        × (is_stuck (get_manifest_signature root_ca_var h db w) ≡ false)
  methods_go_on manifest w lawful free = (
    initialize_goes_on manifest w free,
    start_database_goes_on lawful w free,
    is_recovering_goes_on w free,
    get_manifest_signature_goes_on w free,
  )

  -- `Recover` does not wait forever where no manifest file is configured, if it begins with the mutex
  -- free and the database writes no field of `Core` and does not either.
  pub recover_goes_on :
      (key : Bytes) (w : World D)
      → IsSeparate db
      → w.core.locked ≡ false
      → w.core.cfg.manifest_file_path ≡ []
      → is_stuck (recover root_ca_var h db key w) ≡ false
  unfolding recover
  recover_goes_on key w lawful free none_named = defer_unlock_goes_on _ w (
      bind-goes_on (require_state (recovery ∷ [])) _ w (required w free) λ _ v e.
        then-goes_on (set_master_key h key) _ v (set_master_key-NeverStuck h key)
          (set_master_key-Keeps h key)
          λ _ u t. start_without_file_goes_on lawful u (
            ap (λ x. x.3.manifest_file_path) t
            ∙ ap (λ (c : Core). c.cfg.manifest_file_path) (only_locked w v e)
            ∙ none_named))
    where
      required :
          (w : World D) → w.core.locked ≡ false → is_stuck (require_state (recovery ∷ []) w) ≡ false
      required w free = unfold require_state lock in ground arith

      only_locked :
          (w v : World D) → require_state (recovery ∷ []) w ≡ ok tt v → v.core ≡ (locked w).core
      only_locked w v e = unfold require_state lock in ground arith
