-- ===== src/Core/Deadlock.antt =====
-- `Recover` on a node whose database is not initialized yet (edb/core/core.go): `StartDatabase`
-- calls `Initialize`, which takes the mutex that `Recover` holds.
use edgelessdb.Prelude.{
  ◌≡◌, ◌∙◌, refl, ap, true, false, is_empty, Option, arith, String, Bytes, [], ◌∷◌,
}
use edgelessdb.World.{
  World, Core, recovery, Host, M, ok, err, halt, deadlocked, ◌>>=◌, from_result, >>=_of_ok,
  read_file, val, not_initialized_yet,
}
use edgelessdb.World.Frame.{read_file-KeepsCore}
use edgelessdb.Db.Interface.{Database, IsSeparate}
use edgelessdb.Core.States.{locked, lock, defer_unlock, require_state}
use edgelessdb.Core.Key.{set_master_key}
use edgelessdb.Core.Certificate.{generate_report}
use edgelessdb.Core.Lifecycle.{
  initialize_from_file, encrypt_recovery_key, start_or_wait, initialize, initialize_if_waiting,
  start_database, recover, initialize_locked,
}
use edgelessdb.Core.Recovery.{require_recovery}
use edgelessdb.Core.Frame.{
  KeepsCore-Keeps, Keeps, control, encrypt_recovery_key-KeepsCore, generate_report-Keeps,
  set_master_key-Keeps,
}

module _ {D : Type 0} where
  lock_held :
      {A : Type 0} (f : Unit {0} → M D A) (w : World D)
      → w.core.locked ≡ true
      → (lock >>= f) w ≡ halt deadlocked w
  unfolding lock
  lock_held f w held = ground arith

  defer_unlock_of_halt :
      {A : Type 0} (m : M D A) (w v : World D)
      → m w ≡ halt deadlocked v
      → defer_unlock m w ≡ halt deadlocked v
  unfolding defer_unlock
  defer_unlock_of_halt m w v e = rw (e, defer_unlock)

  halted_first :
      {A B : Type 0} (m : M D A) (f : A → M D B) (w : World D) {v : World D}
      → m w ≡ halt deadlocked v
      → (m >>= f) w ≡ halt deadlocked v
  halted_first m f w e = rw (e, ◌>>=◌)

  held_of :
      {A : Type 0} (m : M D A) (w v : World D) {a : A}
      → Keeps control m
      → m w ≡ ok a v
      → w.core.locked ≡ true
      → v.core.locked ≡ true
  held_of m w v k e held = ap (λ c. c.1) (rw e at (k.kept w)) ∙ held

module _ (root_ca_var : String) (h : Host) {D : Type 0} (db : Database D) where
  initialize_held :
      (manifest pem : Bytes) (c : Option Bytes) (w v : World D)
      → w.core.locked ≡ true
      → h.json_recovery manifest ≡ val pem
      → encrypt_recovery_key h w.core.master_key pem w ≡ ok c v
      → initialize root_ca_var h db manifest w ≡ halt deadlocked v
  unfolding initialize
  initialize_held manifest pem c w v held json e =
      >>=_of_ok (from_result (h.json_recovery manifest)) _ w (rw (json, from_result))
      ∙ >>=_of_ok (encrypt_recovery_key h w.core.master_key pem) _ w e
      ∙ lock_held (λ _. defer_unlock (initialize_locked root_ca_var h db manifest c)) v
          (held_of (encrypt_recovery_key h w.core.master_key pem) w v
            (KeepsCore-Keeps control _ (encrypt_recovery_key-KeepsCore h w.core.master_key pem)) e
            held)

  waiting :
      (w v : World D)
      → db.start w ≡ err not_initialized_yet v
      → start_or_wait root_ca_var h db w ≡ ok true v
  unfolding start_or_wait
  waiting w v e = ground arith

  from_file :
      (w : World D)
      → is_empty w.core.cfg.manifest_file_path ≡ false
      → initialize_if_waiting root_ca_var h db true w
        ≡ initialize_from_file root_ca_var h db w.core.cfg.manifest_file_path w.core.is_marble w
  unfolding initialize_if_waiting
  from_file w named = rw named

  -- A recovery that begins with the mutex free deadlocks where the database has not been
  -- initialized and a manifest file is configured: if the key is stored, the database answers that
  -- it is not initialized, the report is made, the file can be read, its recovery key encrypts,
  -- and the database writes no field of `Core`.
  pub recover_deadlock :
      (key manifest pem : Bytes) (c : Option Bytes) (w w1 w2 w3 w4 w5 : World D)
      → IsSeparate db
      → w.core.locked ≡ false
      → w.core.state ≡ recovery
      → set_master_key h key (locked w) ≡ ok tt w1
      → db.start w1 ≡ err not_initialized_yet w2
      → generate_report root_ca_var h db w2 ≡ ok tt w3
      → is_empty w3.core.cfg.manifest_file_path ≡ false
      → read_file h w3.core.cfg.manifest_file_path w3 ≡ ok manifest w4
      → h.json_recovery manifest ≡ val pem
      → encrypt_recovery_key h w4.core.master_key pem w4 ≡ ok c w5
      → recover root_ca_var h db key w ≡ halt deadlocked w5
  unfolding recover start_database initialize_if_waiting
  recover_deadlock key manifest pem c w w1 w2 w3 w4 w5 lawful free here stored waits reported named
        readable json encrypted =
      let h1 : w1.core.locked ≡ true =
        held_of (set_master_key h key) (locked w) w1 (set_master_key-Keeps h key) stored refl in
      let h2 : w2.core.locked ≡ true =
        ap (λ (x : Core). x.locked) (rw waits at (lawful.start-core w1)) ∙ h1 in
      let h3 : w3.core.locked ≡ true =
        held_of (generate_report root_ca_var h db) w2 w3
          (generate_report-Keeps root_ca_var h db lawful control (λ _ _. refl)) reported h2 in
      let h4 : w4.core.locked ≡ true =
        held_of (read_file h w3.core.cfg.manifest_file_path) w3 w4
          (KeepsCore-Keeps control _ (read_file-KeepsCore h w3.core.cfg.manifest_file_path))
          readable h3 in
      defer_unlock_of_halt _ w w5 (
        >>=_of_ok (require_state (recovery ∷ [])) _ w (require_recovery w free here)
        ∙ >>=_of_ok (set_master_key h key) _ (locked w) stored
        ∙ >>=_of_ok (start_or_wait root_ca_var h db) _ w1 (waiting w1 w2 waits)
        ∙ >>=_of_ok (generate_report root_ca_var h db) _ w2 reported
        ∙ from_file w3 named
        ∙ >>=_of_ok (read_file h w3.core.cfg.manifest_file_path) _ w3 readable
        ∙ halted_first (initialize root_ca_var h db manifest) _ w4
            (initialize_held manifest pem c w4 w5 h4 json encrypted))
