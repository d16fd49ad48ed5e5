-- ===== src/Node/Recovered.antt =====
-- A recovery, and the process after it (edb/core/core.go: `Recover`; edb/core/key.go: `loadMasterKey`):
-- MariaDB's start leaves the key file.
use edgelessdb.Prelude.{◌≡◌, refl, arith, Option, none, some, false, String, Bytes, [], ◌∷◌, length}
use edgelessdb.Std.FilePath.{join_path}
use edgelessdb.Std.Hex.{encode_to_string}
use edgelessdb.World.{World, Config, Disk, Entry, file, recovery, Host, on_ok, ok, with_env, after}
use edgelessdb.Db.Mariadb.Config.{Mariadb}
use edgelessdb.Db.Mariadb.Startup.{mariadb}
use edgelessdb.Core.States.{require_state}
use edgelessdb.Core.Key.{
  master_key_var, key_path, load_master_key, store_master_key, set_master_key, keep_master_key,
}
use edgelessdb.Core.Key.Store.{IsSealed, store_master_key-eq_ok}
use edgelessdb.Core.Key.Restart.{Unseals, load_from_sealed}
use edgelessdb.Core.Lifecycle.{start_database, recover}
use edgelessdb.Core.Recovery.{defer_unlock-eq_ok}
use edgelessdb.Node.Intact.{IsInternal, IsOwn, internal, IsDurable, IsIntact}
use edgelessdb.Node.Keys.{set_master_key-Kept}
use edgelessdb.Node.Methods.{require_state-Kept, start_database-Kept}

-- The paths that `StartDatabase` writes.
pub data IsWritten (internal_path : Bytes) : Bytes → Type 0 where
  written_file :
      (name : Bytes)
      → IsInternal name
      → IsWritten internal_path (join_path (internal_path ∷ name ∷ []))

-- The key file of a configuration on a disk.
abbrev pub key_entry : Config → Disk → Option Entry
key_entry config disk = disk (key_path config)

-- The key file is no file of the internal directory, and MariaDB leaves it.
abbrev pub LeavesKey : Host → Bytes → Config → Type 0
LeavesKey h internal_path config =
    IsDurable h (key_entry config) internal_path (IsWritten internal_path)

no_row : Disk → Option (Unit {0})
no_row disk = some tt

no_row-IsDurable :
    (h : Host) (internal_path : Bytes) (config : Config)
    → LeavesKey h internal_path config
    → IsDurable h no_row internal_path (IsOwn internal_path config)
unfolding no_row
no_row-IsDurable h internal_path config laws = record {
  files = λ name known. internal name known;
  written = λ p e disk own. refl;
  removed = λ p disk own. refl;
  started = λ cnf before next e. refl;
  bootstrapped = λ cnf rest disk r found naming init stored. stored;
  cnf_apart = laws.cnf_apart;
  cnf_no_log = laws.cnf_no_log;
  init_no_log = laws.init_no_log;
}

set_master_key-eq_ok :
    (h : Host) {D : Type 0} (key : Bytes) (w v : World D)
    → set_master_key h key w ≡ ok tt v
    → store_master_key h key (keep_master_key h key w) ≡ ok tt v
unfolding set_master_key
set_master_key-eq_ok h key w v e = ground arith

module _ (root_ca_var : String) (h : Host) (bootstrap_sql : Bytes) where
  -- A checked state and a key that is taken leave the configuration.
  require_state-inside :
      (w : World Mariadb)
      → LeavesKey h w.db.internal_path w.core.cfg
      → w.db.external_path ≡ w.core.cfg.data_path
      → IsIntact no_row w.db.internal_path w.core.cfg tt (after (require_state (recovery ∷ []) w))
  unfolding no_row
  require_state-inside w laws outside =
      (require_state-Kept root_ca_var h bootstrap_sql no_row w.db.internal_path w.core.cfg
          (no_row-IsDurable h w.db.internal_path w.core.cfg laws) tt (recovery ∷ [])).kept
        w (record { stored = refl; configured = refl; inside = refl; outside = outside })

  set_master_key-inside :
      (key internal_path : Bytes) (config : Config) (w : World Mariadb)
      → LeavesKey h internal_path config
      → IsIntact no_row internal_path config tt w
      → IsIntact no_row internal_path config tt (after (set_master_key h key w))
  set_master_key-inside key internal_path config w laws =
      (set_master_key-Kept h no_row internal_path config
          (no_row-IsDurable h internal_path config laws) tt key).kept
        w

  -- What a start finds in the key file is there after it.
  start_database-key :
      (config : Config) (internal_path : Bytes) (e : Entry) (w v : World Mariadb)
      → LeavesKey h internal_path config
      → w.core.cfg ≡ config
      → w.db.internal_path ≡ internal_path
      → w.db.external_path ≡ config.data_path
      → w.os.disk (key_path config) ≡ some e
      → start_database root_ca_var h (mariadb h bootstrap_sql) w ≡ ok tt v
      → v.os.disk (key_path config) ≡ some e
  start_database-key config internal_path e w v laws configured inside outside found started =
      let kept : IsIntact (key_entry config) internal_path config e v = rw started at (
        (start_database-Kept root_ca_var h bootstrap_sql (key_entry config) internal_path config
            laws e).kept
          w
          (record {
            stored = found;
            configured = configured;
            inside = inside;
            outside = outside;
          })) in
      kept.stored

  -- The key file holds the key after a recovery that returned no error.
  recover-stored :
      (key : Bytes) (w w' : World Mariadb)
      → LeavesKey h w.db.internal_path w.core.cfg
      → w.db.external_path ≡ w.core.cfg.data_path
      → recover root_ca_var h (mariadb h bootstrap_sql) key w ≡ ok tt w'
      → (length key ≡ 16)
        × ((b : Bytes) × (w'.os.disk (key_path w.core.cfg) ≡ some (file b)) × IsSealed h key b)
  unfolding recover
  recover-stored key w w' laws outside e =
      let (v, body, free) = defer_unlock-eq_ok _ tt w w' e in
      on_ok (require_state (recovery ∷ [])) _ w body λ _ w1 e1 r1.
        on_ok (set_master_key h key) _ w1 r1 λ _ w2 e2 r2.
          let p1 : IsIntact no_row w.db.internal_path w.core.cfg tt w1 =
            rw e1 at (require_state-inside w laws outside) in
          let p2 : IsIntact no_row w.db.internal_path w.core.cfg tt w2 =
            rw e2 at (set_master_key-inside key w.db.internal_path w.core.cfg w1 laws p1) in
          let (size, _, (b, found, form), _) =
            store_master_key-eq_ok h key (keep_master_key h key w1) w2
              (set_master_key-eq_ok h key w1 w2 e2) in
          let there : w2.os.disk (key_path w.core.cfg) ≡ some (file b) =
            rw p1.configured at found in
          let still =
            start_database-key w.core.cfg w.db.internal_path (file b) w2 v laws p2.configured
              p2.inside p2.outside there r2 in
          (size, (b, rw free still, form))

  -- After a recovery that returned no error the next process, with the disk that it left and under
  -- the same configuration, loads the key of the recovery, if the database has the
  -- data directory of the configuration, MariaDB leaves the key file and the
  -- program's files in the internal directory are others, what was sealed unseals, the process is no
  -- Marble, its variable is not set, and neither the key file nor the variable has a fault. The load
  -- sets the variable.
  pub load_master_key-recover :
      (key : Bytes) (w w' v : World Mariadb)
      → LeavesKey h w.db.internal_path w.core.cfg
      → w.db.external_path ≡ w.core.cfg.data_path
      → Unseals h
      → recover root_ca_var h (mariadb h bootstrap_sql) key w ≡ ok tt w'
      → v.os.disk ≡ w'.os.disk
      → v.core.cfg ≡ w.core.cfg
      → v.core.is_marble ≡ false
      → v.os.env master_key_var ≡ none
      → h.read_fault (key_path v.core.cfg) ≡ none
      → h.setenv_fault master_key_var ≡ none
      → load_master_key h v ≡ ok key (with_env master_key_var (encode_to_string key) v)
  load_master_key-recover key w w' v laws outside law e disk config marble unset r s =
      let (size, (b, found, form)) = recover-stored key w w' laws outside e in
      let here : v.os.disk (key_path v.core.cfg) ≡ some (file b) = rw (disk, config) found in
      load_from_sealed h key b v law size here form marble unset r s
