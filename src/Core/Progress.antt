-- ===== src/Core/Progress.antt =====
-- The code of `Core` (edb/core/core.go) that takes no mutex.
use edgelessdb.Prelude.{
  ◌≡◌, ◌∙◌, refl, ap, Bool, true, false, not, ◌&&◌, is_empty, Option, none, some, arith, String,
  Bytes, [], ◌∷◌,
}
use edgelessdb.World.{
  World, Core, Host, M, Outcome, ok, err, halt, PublicKey, rsa_public, other_public, ◌>>=◌, get,
  modify, attempt, branch, fail_if, from_result, read_file, recovery, no_manifest_from_marblerun,
  key_not_allowed_to_change_marblerun, after,
}
use edgelessdb.World.Frame.{
  keeps_core, from_result-KeepsCore, read_file-KeepsCore, fail_if-KeepsCore, get-KeepsCore,
}
use edgelessdb.World.Progress.{
  is_stuck, NeverStuck, never_stuck, bind-NeverStuck, branch-NeverStuck, on_result-NeverStuck,
  attempt-NeverStuck, pure-NeverStuck, read_file-NeverStuck, from_result-NeverStuck,
  fail_if-NeverStuck, bind-goes_on, get-NeverStuck,
}
use edgelessdb.Db.Interface.{Database, IsSeparate, IsLively}
use edgelessdb.Core.States.{cfg, is_marble, locked, lock, defer_unlock, require_state}
use edgelessdb.Core.Key.{store_master_key_to_env, backup_key, store_master_key, set_master_key}
use edgelessdb.Core.Certificate.{get_certificate_ca, reported_certificate, generate_report}
use edgelessdb.Core.Lifecycle.{
  encrypt_for, encrypt_recovery_key, initialize_locked, initialize, show_recovery, start_or_wait,
  initialize_if_waiting, start_database, recover, is_recovering, get_manifest_signature,
}
use edgelessdb.Core.Frame.{
  Keeps, control, KeepsCore-Keeps, set_master_key-Keeps, encrypt_recovery_key-KeepsCore,
  generate_report-Keeps, start_or_wait-KeepsCore,
}
use edgelessdb.Core.Recovery.{is_recovering_lem}
use edgelessdb.Core.Lock.{initialize-IsReleased, IsReleased}
pub mod Methods

module _ {D : Type 0} where
  cfg-NeverStuck : NeverStuck {D = D} cfg
  cfg-NeverStuck = record { goes_on = λ w. refl }

  pub is_marble-NeverStuck : NeverStuck {D = D} is_marble
  is_marble-NeverStuck = record { goes_on = λ w. refl }

  -- Code that leaves the mutex and the configuration alone, before a call.
  pub then-goes_on :
      {A B : Type 0} (m : M D A) (f : A → M D B) (w : World D)
      → NeverStuck m
      → Keeps control m
      → ((a : A) (v : World D) → control v.core ≡ control w.core → is_stuck (f a v) ≡ false)
      → is_stuck ((m >>= f) w) ≡ false
  then-goes_on m f w s k go =
      bind-goes_on m f w (s.goes_on w) (λ a v e. go a v (rw e at (k.kept w)))

  pub branch_goes_on :
      {A : Type 0} (b : Bool) (m n : M D A) (w : World D)
      → is_stuck (m w) ≡ false
      → is_stuck (n w) ≡ false
      → is_stuck (branch b m n w) ≡ false
  branch_goes_on true m n w p q = p
  branch_goes_on false m n w p q = q

  pub lock_free_goes_on :
      {A : Type 0} (f : Unit {0} → M D A) (w : World D)
      → w.core.locked ≡ false
      → is_stuck (f tt (locked w)) ≡ false
      → is_stuck ((lock >>= f) w) ≡ false
  unfolding lock
  lock_free_goes_on f w free go = rw (free, ◌>>=◌) go

  pub defer_unlock_goes_on :
      {A : Type 0} (m : M D A) (w : World D)
      → is_stuck (m w) ≡ false
      → is_stuck (defer_unlock m w) ≡ false
  unfolding defer_unlock
  defer_unlock_goes_on m w e = ground arith

module _ (h : Host) {D : Type 0} where
  store_master_key_to_env-NeverStuck :
      (key : Bytes) → NeverStuck {D = D} (store_master_key_to_env h key)
  unfolding store_master_key_to_env
  store_master_key_to_env-NeverStuck key = record { goes_on = λ w. ground arith }

  backup_key-NeverStuck : (p : Bytes) → NeverStuck {D = D} (backup_key h p)
  unfolding backup_key
  backup_key-NeverStuck p = record { goes_on = λ w. ground arith }

  pub store_master_key-NeverStuck : (key : Bytes) → NeverStuck {D = D} (store_master_key h key)
  unfolding store_master_key
  store_master_key-NeverStuck key =
      search
        (never_stuck, store_master_key_to_env-NeverStuck, cfg-NeverStuck, backup_key-NeverStuck)
        depth 14

  pub set_master_key-NeverStuck : (key : Bytes) → NeverStuck {D = D} (set_master_key h key)
  unfolding set_master_key
  set_master_key-NeverStuck key =
      search (never_stuck, is_marble-NeverStuck, store_master_key-NeverStuck) depth 12

  pub encrypt_recovery_key-NeverStuck :
      (key pem : Bytes) → NeverStuck {D = D} (encrypt_recovery_key h key pem)
  unfolding encrypt_recovery_key
  encrypt_recovery_key-NeverStuck key pem = search (never_stuck, encrypts) depth 12
    where
      encrypts : (public : PublicKey) → NeverStuck {D = D} (encrypt_for h public key)
      encrypts other_public = record { goes_on = λ w. refl }
      encrypts (rsa_public n) = search never_stuck depth 9

module _ (root_ca_var : String) (h : Host) {D : Type 0} (db : Database D)
    (lively : IsLively db) where
  pub get_certificate_ca-NeverStuck : NeverStuck {D = D} (get_certificate_ca root_ca_var h)
  unfolding get_certificate_ca
  get_certificate_ca-NeverStuck = search (never_stuck, is_marble-NeverStuck) depth 12

  reported_certificate-NeverStuck : NeverStuck (reported_certificate root_ca_var h db)
  unfolding reported_certificate
  reported_certificate-NeverStuck = bind-NeverStuck is_marble _ is_marble-NeverStuck λ marble.
      branch-NeverStuck marble _ _ get_certificate_ca-NeverStuck (
        bind-NeverStuck db.get_certificate _ (lively.get_certificate-goes_on)
          (λ _. pure-NeverStuck _))

  pub generate_report-NeverStuck : NeverStuck (generate_report root_ca_var h db)
  unfolding generate_report
  generate_report-NeverStuck =
      bind-NeverStuck (reported_certificate root_ca_var h db) _ reported_certificate-NeverStuck
        λ cert. record { goes_on = λ w. refl }

  pub start_or_wait-NeverStuck : NeverStuck (start_or_wait root_ca_var h db)
  unfolding start_or_wait
  start_or_wait-NeverStuck =
      bind-NeverStuck (attempt db.start) _ (attempt-NeverStuck db.start (lively.start-goes_on))
        λ r. on_result-NeverStuck r _ _ (λ _. pure-NeverStuck _) (λ e. search never_stuck depth 9)

  pub show_recovery-NeverStuck :
      (marble : Bool) (c : Option Bytes) → NeverStuck (show_recovery root_ca_var h db marble c)
  show_recovery-NeverStuck marble none = record { goes_on = λ w. refl }
  show_recovery-NeverStuck marble (some c) = search never_stuck
