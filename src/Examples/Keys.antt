-- ===== src/Examples/Keys.antt =====
-- The theorems on the master key at concrete inputs.
use edgelessdb.Prelude.{◌≡◌, ◌⊎◌, refl, some, none, [], ◌∷◌, true, false, length, bytes_eq}
use edgelessdb.World.{
  World, uninitialized, initialized, recovery, after, ok, with_env, file, dir, put, set_disk,
  exists, stat, read_file, tick,
}
use edgelessdb.Std.Hex.{encode_to_string, decode_string}
use edgelessdb.Std.FilePath.{join_path}
use edgelessdb.Core.Key.{
  master_key_var, load_master_key_from_env, store_master_key_to_env, load_master_key_from_disk,
  load_master_key, store_master_key, backup_key, backup_path, new_master_key, generate_if_missing,
  settle, must_init_master_key, key_path, persistence_path, rocksdb_path,
}
use edgelessdb.Core.Key.Load.{load_master_key_size}
use edgelessdb.Core.Key.Restart.{load_master_key-store_master_key, store_master_key_backup}
use edgelessdb.Core.Key.Init.{must_init_master_key_keeps_disk}
use edgelessdb.Core.Key.Start.{
  must_init_master_key_state, must_init_master_key_bad_variable, in_recovery,
}
use edgelessdb.Core.States.{locked, unlocked}
use edgelessdb.Core.Lifecycle.{new_core, initialize, schedule_restart}
use edgelessdb.Core.Initialize.{initialize-new_core}
use edgelessdb.Examples.Objects.{mock_host, mock_config, mock_db, node, sixteen}

abbrev with_key : World (Unit {0})
with_key = with_env master_key_var (encode_to_string sixteen) (node uninitialized false)

load_master_key_size_example : length sixteen ≡ 16
unfolding load_master_key load_master_key_from_env decode_string encode_to_string
load_master_key_size_example = load_master_key_size mock_host sixteen with_key with_key refl

-- The node after it has stored a key.
abbrev stored : World (Unit {0})
stored = after (store_master_key mock_host sixteen (node uninitialized false))

is_stored : store_master_key mock_host sixteen (node uninitialized false) ≡ ok tt stored
unfolding store_master_key store_master_key_to_env backup_key bytes_eq key_path join_path
    persistence_path
is_stored = refl

-- The same disk on a node that has been started anew.
abbrev restarted : World (Unit {0})
restarted = set_disk stored.os.disk (node uninitialized false)

load_master_key-store_master_key_example :
    load_master_key mock_host restarted
    ≡ ok sixteen (with_env master_key_var (encode_to_string sixteen) restarted)
load_master_key-store_master_key_example =
    load_master_key-store_master_key mock_host sixteen (node uninitialized false) stored restarted
      (λ key b e. cc) is_stored refl refl refl refl refl refl

-- A node with a key file.
abbrev with_file : World (Unit {0})
with_file =
    set_disk
      (put (key_path mock_config) (file (5 ∷ []))
        (put (persistence_path mock_config) dir (λ p. none)))
      (node uninitialized false)

store_master_key_backup_example :
    (after (store_master_key mock_host sixteen with_file)).os.disk
      (backup_path (key_path mock_config) (48 ∷ []))
    ≡ some (file (5 ∷ []))
unfolding store_master_key store_master_key_to_env backup_key key_path persistence_path join_path
store_master_key_backup_example =
    store_master_key_backup mock_host sixteen (5 ∷ []) with_file
      (after (store_master_key mock_host sixteen with_file)) refl refl refl refl refl (λ e. cc)

-- A node with a database.
abbrev with_database : World (Unit {0})
with_database = set_disk (put (rocksdb_path mock_config) dir (λ p. none)) (node uninitialized false)

must_init_master_key_keeps_disk_example :
    (after (must_init_master_key mock_host with_database)).os.disk ≡ with_database.os.disk
unfolding rocksdb_path join_path
must_init_master_key_keeps_disk_example =
    must_init_master_key_keeps_disk mock_host with_database refl (λ e. cc)

-- A start without a key file and without a database makes a key.
abbrev with_new_key : World (Unit {0})
with_new_key = after (must_init_master_key mock_host (node uninitialized false))

must_init_master_key_state_example :
    ((with_new_key.core.state ≡ initialized) × (length with_new_key.core.master_key ≡ 16))
    ⊎ ((with_new_key.core.state ≡ recovery)
        × (with_new_key.core.master_key ≡ (node uninitialized false).core.master_key))
unfolding must_init_master_key exists stat rocksdb_path join_path bytes_eq load_master_key
    load_master_key_from_env load_master_key_from_disk read_file generate_if_missing settle
    new_master_key key_path persistence_path store_master_key store_master_key_to_env backup_key
must_init_master_key_state_example =
    must_init_master_key_state mock_host (node uninitialized false) with_new_key refl

-- A Marble whose variable holds one digit.
abbrev with_bad_variable : World (Unit {0})
with_bad_variable = with_env master_key_var (53 ∷ []) (node uninitialized true)

must_init_master_key_bad_variable_example :
    must_init_master_key mock_host with_bad_variable ≡ ok tt (in_recovery with_bad_variable)
unfolding decode_string
must_init_master_key_bad_variable_example =
    must_init_master_key_bad_variable mock_host (53 ∷ []) with_bad_variable refl refl refl refl

-- A manifest that is applied in recovery.
abbrev lost : World (Unit {0})
lost = after (new_core mock_host mock_config false with_database)

-- The database has applied it.
abbrev applied_in_recovery : World (Unit {0})
applied_in_recovery = after (mock_db.initialize (45 ∷ []) (locked (after (tick lost))))

initialize-new_core_example :
    initialize "CA" mock_host mock_db (45 ∷ []) lost
    ≡ ok (some (2 ∷ [])) (unlocked (after (schedule_restart applied_in_recovery)))
unfolding new_core must_init_master_key exists stat rocksdb_path join_path bytes_eq load_master_key
    load_master_key_from_env load_master_key_from_disk read_file generate_if_missing settle
    new_master_key key_path persistence_path store_master_key store_master_key_to_env backup_key
initialize-new_core_example =
    initialize-new_core "CA" mock_host mock_db mock_config false (45 ∷ []) 45 [] [] [] (2 ∷ [])
      with_database lost applied_in_recovery refl refl refl refl refl refl refl
