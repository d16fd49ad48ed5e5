-- ===== src/Core/Lifecycle.antt =====
-- edb/core/core.go: initialization by a manifest, start and recovery.
use edgelessdb.Prelude.{
  Bool, true, false, not, ◌&&◌, Option, none, some, String, [], ◌∷◌, Bytes, is_empty,
}
use edgelessdb.Std.Base64.{encode}
use edgelessdb.World.{
  Core, Config, Host, PublicKey, rsa_public, other_public, M, ◌>>=◌, ◌>>◌, pure, throw, attempt,
  branch, on_result, fail_if, get, modify, from_result, from_option, when, recovery, uninitialized,
  is_not_initialized_yet, decode_recovery_key_failed, not_an_rsa_key, no_manifest_from_marblerun,
  read_file, print, tick,
}
use edgelessdb.Db.Interface.{Database}
use edgelessdb.Core.States.{set_core, lock, defer_unlock, require_state}
use edgelessdb.Core.Key.{set_master_key, must_init_master_key}
use edgelessdb.Core.Certificate.{generate_report}

-- The object that `NewCore` makes before it looks for a master key.
abbrev pub fresh_core : Config → Bool → Core
fresh_core config marble = record {
  state = uninitialized;
  cfg = config;
  locked = false;
  report = [];
  is_marble = marble;
  master_key = [];
}

module _ (h : Host) {D : Type 0} where
  -- `encryptRecoveryKey`; `none` if the manifest names no recovery key
  abbrev pub encrypt_for : PublicKey → Bytes → M D (Option Bytes)
  encrypt_for other_public key = throw not_an_rsa_key
  encrypt_for (rsa_public modulus) key = do
    k ← tick
    c ← from_result (h.encrypt_oaep k modulus key)
    pure (some c)

  unfoldable pub encrypt_recovery_key : Bytes → Bytes → M D (Option Bytes)
  encrypt_recovery_key key pem = branch (is_empty pem) (pure none) do
    block ← from_option decode_recovery_key_failed (h.pem_decode pem)
    public ← from_result (h.parse_pkix block)
    encrypt_for public key

  -- `NewCore`
  unfoldable pub new_core : Config → Bool → M D (Unit {0})
  new_core config marble = do modify (set_core (fresh_core config marble)); must_init_master_key h

abbrev pub schedule_restart : {D : Type 0} → M D (Unit {0})
schedule_restart = modify (λ w. record w { os = record (w.os) { restart_due = true } })

module _ (root_ca_var : String) (h : Host) {D : Type 0} (db : Database D) where
  -- The part of `Initialize` that runs with the mutex held.
  abbrev pub initialize_locked : Bytes → Option Bytes → M D (Option Bytes)
  initialize_locked manifest recovery_key = do
    db.initialize manifest
    schedule_restart
    pure recovery_key

  -- `Initialize`: the recovery key is made from the master key before the mutex is taken.
  unfoldable pub initialize : Bytes → M D (Option Bytes)
  initialize manifest = do
    pem ← from_result (h.json_recovery manifest)
    w ← get
    recovery_key ← encrypt_recovery_key h w.core.master_key pem
    lock
    defer_unlock (initialize_locked manifest recovery_key)

  -- What `StartDatabase` prints for the user to keep: nothing on a Marble.
  abbrev pub show_recovery : Bool → Option Bytes → M D (Unit {0})
  show_recovery marble none = pure tt
  show_recovery marble (some c) = when (not marble && not (is_empty c)) (print (encode c))

  abbrev pub initialize_from_file : Bytes → Bool → M D (Unit {0})
  initialize_from_file path marble = do
    manifest ← read_file h path
    c ← initialize manifest
    show_recovery marble c

  -- `db.Start`, where the error `ErrNotInitializedYet` is an answer
  unfoldable pub start_or_wait : M D Bool
  start_or_wait = do
    r ← attempt db.start
    on_result r (λ _. pure false) (λ e. branch (is_not_initialized_yet e) (pure true) (throw e))

  -- The second half of `StartDatabase`.
  unfoldable pub initialize_if_waiting : Bool → M D (Unit {0})
  initialize_if_waiting waiting = do
    w ← get
    branch (waiting && not (is_empty w.core.cfg.manifest_file_path))
        (initialize_from_file w.core.cfg.manifest_file_path w.core.is_marble)
        (fail_if (waiting && w.core.is_marble) no_manifest_from_marblerun)

  -- `StartDatabase`
  unfoldable pub start_database : M D (Unit {0})
  start_database = do
    waiting ← start_or_wait
    generate_report root_ca_var h db
    initialize_if_waiting waiting

  -- `Recover`: the whole body runs with the mutex held.
  unfoldable pub recover : Bytes → M D (Unit {0})
  recover key =
      defer_unlock (do require_state (recovery ∷ []); set_master_key h key; start_database)

  -- `IsRecovering`
  unfoldable pub is_recovering : M D Bool
  is_recovering = do
    r ← attempt (defer_unlock (require_state (recovery ∷ [])))
    on_result r (λ _. pure true) (λ _. pure false)

  -- `GetManifestSignature`
  unfoldable pub get_manifest_signature : M D (Option Bytes)
  get_manifest_signature = do lock; defer_unlock (do w ← get; pure (db.get_manifest_signature w.db))
