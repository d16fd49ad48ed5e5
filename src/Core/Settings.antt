-- ===== src/Core/Settings.antt =====
-- What a start of the database (edb/core/core.go) leaves alone among the fields of `Core`: its settings.
use edgelessdb.Prelude.{
  ◌∙◌, ◌≡◌, refl, Bool, true, false, not, ◌&&◌, is_empty, Option, none, some, String, Bytes,
}
use edgelessdb.World.{
  branch, modify, World, Core, Config, State, Host, M, Outcome, ok, err, halt, panicked, fatal,
  deadlocked, after, from_result, get, read_file, no_manifest_from_marblerun,
}
use edgelessdb.World.Frame.{
  KeepsCore, keeps_core, bind-KeepsCore, from_result-KeepsCore, read_file-KeepsCore,
  fail_if-KeepsCore,
}
use edgelessdb.Db.Interface.{Database, IsSeparate}
use edgelessdb.Core.States.{locked, unlocked, unwound, lock, defer_unlock}
use edgelessdb.Core.Certificate.{generate_report}
use edgelessdb.Core.Lifecycle.{
  initialize_locked, show_recovery, encrypt_recovery_key, start_or_wait, initialize,
  initialize_if_waiting, start_database,
}
use edgelessdb.Core.Frame.{
  Keeps, KeepsCore-Keeps, bind-Keeps, branch-Keeps, encrypt_recovery_key-KeepsCore,
  generate_report-Keeps, start_or_wait-KeepsCore,
}

-- What a start of the database leaves alone.
abbrev pub settings : Core → State × Bool × Config × Bytes
settings c = (c.state, c.is_marble, c.cfg, c.master_key)

-- Taking the mutex and giving it back keeps what does not look at the mutex.
module _ {V : Type 0} (view : Core → V)
    (apart : (c : Core) (b : Bool) → view (record c { locked = b }) ≡ view c) {D : Type 0} where
  pub defer_unlock-Keeps : {A : Type 0} (m : M D A) → Keeps view m → Keeps view (defer_unlock m)
  unfolding defer_unlock
  defer_unlock-Keeps {A} m k = record { kept = λ w. same (m w) w (k.kept w) }
    where
      same :
          (r : Outcome D A) (w : World D)
          → view (after r).core ≡ view w.core
          → view
              (after {A = A} (elim r [
                | ok a v ↦ ok a (unlocked v)
                | err e v ↦ err e (unlocked v)
                | halt x v ↦ halt x (unwound x v)
              ])).core
            ≡ view w.core
      same (ok a v) w e = apart v.core false ∙ e
      same (err x v) w e = apart v.core false ∙ e
      same (halt (panicked x) v) w e = apart v.core false ∙ e
      same (halt (fatal x) v) w e = e
      same (halt deadlocked v) w e = e

  pub lock-Keeps : Keeps view (lock {D = D})
  unfolding lock
  lock-Keeps = record { kept = λ w. taken w.core.locked w }
    where
      taken :
          (b : Bool) (w : World D)
          → view (after (branch b (halt deadlocked) (modify locked) w)).core ≡ view w.core
      taken true w = refl
      taken false w = apart w.core true

module _ (root_ca_var : String) (h : Host) {D : Type 0} (db : Database D)
    (lawful : IsSeparate db) where
  initialize-Keeps : (manifest : Bytes) → Keeps settings (initialize root_ca_var h db manifest)
  unfolding initialize
  initialize-Keeps manifest =
      bind-Keeps settings (from_result (h.json_recovery manifest)) _
        (KeepsCore-Keeps settings _ (from_result-KeepsCore (h.json_recovery manifest)))
        λ pem.
          bind-Keeps settings get _ (record { kept = λ w. refl })
            λ w.
              bind-Keeps settings (encrypt_recovery_key h w.core.master_key pem) _
                (KeepsCore-Keeps settings _
                  (encrypt_recovery_key-KeepsCore h w.core.master_key pem))
                λ c. bind-Keeps settings lock _ (lock-Keeps settings (λ _ _. refl)) λ _.
                  defer_unlock-Keeps settings (λ _ _. refl)
                    (initialize_locked root_ca_var h db manifest c)
                    (KeepsCore-Keeps settings _ (inside c))
    where
      inside : (c : Option Bytes) → KeepsCore (initialize_locked root_ca_var h db manifest c)
      inside c =
          bind-KeepsCore (db.initialize manifest) _
            (record { kept = lawful.initialize-core manifest }) λ _. record { kept = λ w. refl }

  show_recovery-Keeps :
      (marble : Bool) (c : Option Bytes) → Keeps settings (show_recovery root_ca_var h db marble c)
  show_recovery-Keeps marble none = record { kept = λ w. refl }
  show_recovery-Keeps marble (some c) = KeepsCore-Keeps settings _ (search keeps_core)

  initialize_if_waiting-Keeps :
      (waiting : Bool) → Keeps settings (initialize_if_waiting root_ca_var h db waiting)
  unfolding initialize_if_waiting
  initialize_if_waiting-Keeps waiting =
      bind-Keeps settings get _ (record { kept = λ w. refl })
        λ w.
          branch-Keeps settings (waiting && not (is_empty w.core.cfg.manifest_file_path)) _ _
            (bind-Keeps settings (read_file h w.core.cfg.manifest_file_path) _
              (KeepsCore-Keeps settings _ (read_file-KeepsCore h w.core.cfg.manifest_file_path))
              λ manifest.
                bind-Keeps settings (initialize root_ca_var h db manifest) _
                  (initialize-Keeps manifest) λ c. show_recovery-Keeps w.core.is_marble c)
            (KeepsCore-Keeps settings _
              (fail_if-KeepsCore (waiting && w.core.is_marble) no_manifest_from_marblerun))

  pub start_database-Keeps : Keeps settings (start_database root_ca_var h db)
  unfolding start_database
  start_database-Keeps =
      bind-Keeps settings (start_or_wait root_ca_var h db) _
        (KeepsCore-Keeps settings _ (start_or_wait-KeepsCore root_ca_var h db lawful))
        λ waiting.
          bind-Keeps settings (generate_report root_ca_var h db) _
            (generate_report-Keeps root_ca_var h db lawful settings (λ _ _. refl))
            λ _. initialize_if_waiting-Keeps waiting
