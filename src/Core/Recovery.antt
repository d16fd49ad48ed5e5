-- ===== src/Core/Recovery.antt =====
-- `Recover` and `IsRecovering` (edb/core/core.go): when a key is taken, and what it changes.
use edgelessdb.Prelude.{◌≡◌, ◌≢◌, true, false, arith, String, Bytes, [], ◌∷◌, length, ◌==◌}
use edgelessdb.World.{
  World, recovery, Host, M, Outcome, ok, err, halt, on_ok, unexpected_state,
  key_not_allowed_to_change_marblerun, key_incorrect_size,
}
use edgelessdb.Db.Interface.{Database, IsSeparate}
use edgelessdb.Core.States.{locked, unlocked, unwound, lock, defer_unlock, require_state, rank}
use edgelessdb.Core.Key.{set_master_key, store_master_key, store_master_key_to_env, keep_master_key}
use edgelessdb.Core.Key.Store.{store_master_key-eq_ok}
use edgelessdb.Core.Lifecycle.{recover, is_recovering}
use edgelessdb.Core.Settings.{settings, start_database-Keeps}

module _ (root_ca_var : String) (h : Host) {D : Type 0} (db : Database D) where
  -- With the mutex free, `IsRecovering` says whether the state is recovery, and changes nothing.
  pub is_recovering_lem :
      (w : World D)
      → w.core.locked ≡ false
      → is_recovering root_ca_var h db w ≡ ok (rank w.core.state == 1) w
  unfolding is_recovering defer_unlock require_state lock
  is_recovering_lem w free = ground arith

  -- Outside of recovery, with the mutex free, `Recover` is refused and changes nothing.
  pub recover_refused :
      (key : Bytes) (w : World D)
      → w.core.locked ≡ false
      → w.core.state ≢ recovery
      → recover root_ca_var h db key w ≡ err unexpected_state w
  unfolding recover defer_unlock require_state lock
  recover_refused key w free other = ground arith

  -- On a Marble, in recovery and with the mutex free, `Recover` is refused and changes nothing.
  pub recover_marble :
      (key : Bytes) (w : World D)
      → w.core.locked ≡ false
      → w.core.state ≡ recovery
      → w.core.is_marble ≡ true
      → recover root_ca_var h db key w ≡ err key_not_allowed_to_change_marblerun w
  unfolding recover defer_unlock require_state lock set_master_key
  recover_marble key w free here marble = ground arith

  -- In recovery, with the mutex free and on no Marble, a key of a size other than 16 is refused.
  -- The field `masterKey` holds it all the same, and nothing else changes.
  pub recover_wrong_size :
      (key : Bytes) (w : World D)
      → w.core.locked ≡ false
      → w.core.state ≡ recovery
      → w.core.is_marble ≡ false
      → length key ≢ 16
      → recover root_ca_var h db key w ≡ err key_incorrect_size (keep_master_key h key w)
  unfolding recover defer_unlock require_state lock set_master_key store_master_key
      store_master_key_to_env
  recover_wrong_size key w free here marble size = ground arith

module _ {D : Type 0} where
  pub defer_unlock-eq_ok :
      {A : Type 0} (m : M D A) (a : A) (w w' : World D)
      → defer_unlock m w ≡ ok a w'
      → (v : World D) × (m w ≡ ok a v) × (w' ≡ unlocked v)
  unfolding defer_unlock
  defer_unlock-eq_ok {A} m a w w' e = parts (m w) e
    where
      parts :
          (r : Outcome D A)
          → ◌≡◌ {A = Outcome D A}
              (elim r [
                | ok b v ↦ ok b (unlocked v)
                | err x v ↦ err x (unlocked v)
                | halt x v ↦ halt x (unwound x v)
              ])
              (ok a w')
          → (v : World D) × (r ≡ ok a v) × (w' ≡ unlocked v)
      parts (ok b v) e = (v, cc, cc)
      parts (err x v) e = cc
      parts (halt x v) e = cc

  pub require_recovery :
      (w : World D)
      → w.core.locked ≡ false
      → w.core.state ≡ recovery
      → require_state (recovery ∷ []) w ≡ ok tt (locked w)
  unfolding require_state lock
  require_recovery w free here = ground arith

  require_recovery-eq_ok :
      (w v : World D) → require_state (recovery ∷ []) w ≡ ok tt v → v.core.state ≡ recovery
  unfolding require_state lock
  require_recovery-eq_ok w v e = ground arith

set_master_key-eq_ok :
    (h : Host) {D : Type 0} (key : Bytes) (w v : World D)
    → set_master_key h key w ≡ ok tt v
    → (length key ≡ 16) × (v.core.master_key ≡ key) × (v.core.state ≡ w.core.state)
unfolding set_master_key
set_master_key-eq_ok h key w v e =
    ground (arith, store_master_key-eq_ok h key (keep_master_key h key w) v)

module _ (root_ca_var : String) (h : Host) {D : Type 0} (db : Database D)
    (lawful : IsSeparate db) where
  -- A recovery that returned no error has taken the key, of 16 bytes, as the master key, and has
  -- given the mutex back, if the database writes no field of `Core`. The node's state is still
  -- recovery.
  pub recover_stays :
      (key : Bytes) (w w' : World D)
      → recover root_ca_var h db key w ≡ ok tt w'
      → (length key ≡ 16)
        × (w'.core.master_key ≡ key)
        × (w'.core.state ≡ recovery)
        × (w'.core.locked ≡ false)
  unfolding recover
  recover_stays key w w' e =
      let (v, body, free) = defer_unlock-eq_ok _ tt w w' e in
      on_ok (require_state (recovery ∷ [])) _ w body λ _ w1 e1 r1.
        on_ok (set_master_key h key) _ w1 r1 λ _ w2 e2 r2.
          let state = require_recovery-eq_ok w w1 e1 in
          let taken = set_master_key-eq_ok h key w1 w2 e2 in
          let same : settings v.core ≡ settings w2.core =
            rw r2 at ((start_database-Keeps root_ca_var h db lawful).kept w2) in
          ground arith
