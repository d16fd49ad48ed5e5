-- ===== src/Examples/Nodes.antt =====
-- The theorems on `Core`, the HTTP API and the process at concrete inputs.
use edgelessdb.Prelude.{
  ◌≡◌, refl, arith, String, Bytes, some, none, [], ◌∷◌, true, false, length, text, bytes_eq,
}
use edgelessdb.World.{
  World, uninitialized, initialized, recovery, after, ok, err, halt, deadlocked, with_env, file,
  put, set_disk, read_file, val, or_empty, key_incorrect_size,
}
use edgelessdb.Std.FilePath.{join_path}
use edgelessdb.Core.States.{locked, lock, defer_unlock, require_state}
use edgelessdb.Core.Key.{
  store_master_key, store_master_key_to_env, backup_key, set_master_key, keep_master_key, key_path,
  persistence_path,
}
use edgelessdb.Core.Certificate.{generate_report, reported_certificate}
use edgelessdb.Core.Lifecycle.{
  encrypt_recovery_key, initialize, start_or_wait, initialize_if_waiting, is_recovering,
  start_database, recover, get_manifest_signature,
}
use edgelessdb.Core.Lock.{methods_release, IsReleased}
use edgelessdb.Core.Recovery.{recover_wrong_size, recover_stays}
use edgelessdb.Core.Deadlock.{recover_deadlock}
use edgelessdb.Core.Initialize.{initialize_lem, IsRecoveryFor}
use edgelessdb.Core.Environment.{fill_config_from_environment, debug_var}
use edgelessdb.Core.Environment.Fill.{effective, fill_config_from_environment_lem}
use edgelessdb.Examples.Objects.{mock_host, mock_config, mock_db, mock_db-IsSeparate, node, sixteen}

abbrev pub ca_var : String
ca_var = "ROOT_CA"

methods_release_example :
    IsReleased (initialize ca_var mock_host mock_db (45 ∷ []) (node recovery false))
    × IsReleased (start_database ca_var mock_host mock_db (node recovery false))
    × IsReleased (recover ca_var mock_host mock_db sixteen (node recovery false))
    × IsReleased (is_recovering ca_var mock_host mock_db (node recovery false))
    × IsReleased (get_manifest_signature ca_var mock_host mock_db (node recovery false))
methods_release_example =
    methods_release ca_var mock_host mock_db (45 ∷ []) sixteen (node recovery false)
      mock_db-IsSeparate refl

recover_wrong_size_example :
    recover ca_var mock_host mock_db (1 ∷ []) (node recovery false)
    ≡ err key_incorrect_size (keep_master_key mock_host (1 ∷ []) (node recovery false))
recover_wrong_size_example =
    recover_wrong_size ca_var mock_host mock_db (1 ∷ []) (node recovery false) refl refl refl
      (λ e. omega arith)

-- A node whose configuration names no manifest file.
abbrev pub without_file : World (Unit {0})
without_file = record {
  os = (node recovery false).os;
  db = tt;
  core = record ((node recovery false).core) {
    cfg = record mock_config { manifest_file_path = [] };
  };
}

abbrev recovered : World (Unit {0})
recovered = after (recover ca_var mock_host mock_db sixteen without_file)

recover_stays_example :
    (length sixteen ≡ 16)
    × (recovered.core.master_key ≡ sixteen)
    × (recovered.core.state ≡ recovery)
    × (recovered.core.locked ≡ false)
unfolding recover require_state lock defer_unlock set_master_key store_master_key
    store_master_key_to_env backup_key bytes_eq key_path join_path persistence_path start_database
    start_or_wait generate_report reported_certificate initialize_if_waiting
recover_stays_example =
    recover_stays ca_var mock_host mock_db mock_db-IsSeparate sixteen without_file recovered refl

-- A node in recovery, with a manifest file.
abbrev to_deadlock : World (Unit {0})
to_deadlock = set_disk (put (text "m") (file (45 ∷ [])) (λ p. none)) (node recovery false)

abbrev d1 : World (Unit {0})
d1 = after (set_master_key mock_host sixteen (locked to_deadlock))

abbrev d3 : World (Unit {0})
d3 = after (generate_report ca_var mock_host mock_db d1)

abbrev d5 : World (Unit {0})
d5 = after (encrypt_recovery_key mock_host d3.core.master_key (45 ∷ []) d3)

recover_deadlock_example : recover ca_var mock_host mock_db sixteen to_deadlock ≡ halt deadlocked d5
unfolding set_master_key store_master_key store_master_key_to_env backup_key bytes_eq key_path
    join_path persistence_path generate_report reported_certificate encrypt_recovery_key read_file
recover_deadlock_example =
    recover_deadlock ca_var mock_host mock_db sixteen (45 ∷ []) (45 ∷ []) (some (2 ∷ sixteen))
      to_deadlock d1 d1 d3 d3 d5 mock_db-IsSeparate refl refl refl refl refl refl refl refl refl

abbrev applied : World (Unit {0})
applied = after (initialize ca_var mock_host mock_db (45 ∷ []) (node initialized false))

initialize_lem_example :
    (pem : Bytes) × (mock_host.json_recovery (45 ∷ []) ≡ val pem)
    × IsRecoveryFor mock_host pem sixteen (some (2 ∷ sixteen))
    × ((before : World (Unit {0})) × (v : World (Unit {0})) × (mock_db.initialize (45 ∷ []) before
          ≡ ok tt v))
    × (applied.os.restart_due ≡ true)
    × (applied.core.locked ≡ false)
unfolding initialize encrypt_recovery_key lock defer_unlock
initialize_lem_example =
    initialize_lem ca_var mock_host mock_db (45 ∷ []) (some (2 ∷ sixteen)) (node initialized false)
      applied refl

fill_config_from_environment_lem_example :
    fill_config_from_environment mock_config
      (with_env debug_var (49 ∷ []) (node uninitialized false))
    ≡ ok
        (effective
          (λ k. or_empty ((with_env debug_var (49 ∷ []) (node uninitialized false)).os.env k))
          mock_config)
        (with_env debug_var (49 ∷ []) (node uninitialized false))
fill_config_from_environment_lem_example =
    fill_config_from_environment_lem mock_config
      (with_env debug_var (49 ∷ []) (node uninitialized false))
