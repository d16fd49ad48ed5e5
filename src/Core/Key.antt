-- ===== src/Core/Key.antt =====
-- edb/core/key.go: the master key of the storage engine, in the environment and sealed on disk.
pub mod Env
pub mod Load
pub mod Store
pub mod Restart
pub mod Progress
pub mod Init
pub mod Start
use edgelessdb.Prelude.{
  Bool, not, ◌&&◌, Option, none, some, String, [], ◌∷◌, ◌++◌, Bytes, text, length, ◌==◌,
  if◌then◌else◌,
}
use edgelessdb.Std.Hex.{encode_to_string, decode_string}
use edgelessdb.Std.FilePath.{join_path}
use edgelessdb.World.{
  Config, World, Host, M, ok, err, ◌>>=◌, ◌>>◌, pure, throw, panic, attempt, ignore, must, branch,
  from_result, fail_if, modify, Result, val, exc, recovery, initialized, is_not_exist,
  is_key_not_provided, invalid_hex, env_key_incorrect_size, key_incorrect_size,
  key_not_provided_marblerun, key_not_allowed_to_change_marblerun, lookup_env, setenv, read_file,
  write_file, mkdir_all, exists, rand_read, now,
}
use edgelessdb.Core.States.{cfg, is_marble, advance_state}

-- `ERocksDBMasterKeyVar`
abbrev pub master_key_var : String
master_key_var = "EROCKSDB_MASTERKEY"

-- The directory `PersistenceDir` and the file `sealedKeyFname` under the data path, and RocksDB's
-- directory.
unfoldable pub persistence_path : Config → Bytes
persistence_path c = join_path (c.data_path ∷ text "edb-persistence" ∷ [])

unfoldable pub key_path : Config → Bytes
key_path c = join_path (c.data_path ∷ text "edb-persistence" ∷ text "sealed_key" ∷ [])

unfoldable pub rocksdb_path : Config → Bytes
rocksdb_path c = join_path (c.data_path ∷ text "#rocksdb" ∷ [])

abbrev pub backup_path : Bytes → Bytes → Bytes
backup_path fname time = fname ++ (text "_" ++ (time ++ text ".bak"))

-- The size that the storage engine wants.
abbrev pub has_key_size : Bytes → Bool
has_key_size key = length key == 16

module _ {D : Type 0} where
  -- What the variable holds, decoded; an odd length or a bad digit is an error, and so is any size
  -- but 16.
  abbrev pub decode_key : Option Bytes → M D (Option Bytes)
  decode_key none w = ok none w
  decode_key (some hex) w = elim (decode_string hex) [
    | none ↦ err invalid_hex w
    | some key ↦ if has_key_size key then ok (some key) w else err env_key_incorrect_size w
  ]

  -- `loadMasterKeyFromEnv`; `none` if the variable is not set
  unfoldable pub load_master_key_from_env : M D (Option Bytes)
  load_master_key_from_env = do v ← lookup_env master_key_var; decode_key v

module _ (h : Host) {D : Type 0} where
  -- `storeMasterKeyToEnv`
  unfoldable pub store_master_key_to_env : Bytes → M D (Unit {0})
  unfolding setenv
  store_master_key_to_env key = do
    fail_if (not (has_key_size key)) key_incorrect_size
    setenv h master_key_var (encode_to_string key)

  abbrev pub unsealed : Bytes → M D Bytes
  unsealed b = branch h.is_enclave (from_result (h.unseal b)) (pure b)

  abbrev pub sealed : Bytes → M D Bytes
  sealed key = branch h.is_enclave (from_result (h.seal key)) (pure key)

  -- The part of `loadMasterKey` behind the look at the environment.
  unfoldable pub load_master_key_from_disk : M D Bytes
  unfolding read_file
  load_master_key_from_disk = do
    marble ← is_marble
    fail_if marble key_not_provided_marblerun
    c ← cfg
    contents ← read_file h (key_path c)
    key ← unsealed contents
    fail_if (not (has_key_size key)) key_incorrect_size
    store_master_key_to_env key
    pure key

  abbrev pub or_from_disk : Option Bytes → M D Bytes
  or_from_disk (some key) w = ok key w
  or_from_disk none w = load_master_key_from_disk w

  -- `loadMasterKey`
  unfoldable pub load_master_key : M D Bytes
  load_master_key = do found ← load_master_key_from_env; or_from_disk found

  -- A key file that is there is copied aside; a failure of the copy is ignored.
  unfoldable pub backup_key : Bytes → M D (Unit {0})
  unfolding read_file write_file now
  backup_key fname = do
    r ← attempt (read_file h fname)
    elim r [
      | exc _ ↦ pure tt
      | val old ↦ do t ← now h; ignore (write_file h (backup_path fname t) old)
    ]

  -- `storeMasterKey`
  unfoldable pub store_master_key : Bytes → M D (Unit {0})
  unfolding write_file mkdir_all
  store_master_key key = do
    store_master_key_to_env key
    contents ← sealed key
    c ← cfg
    mkdir_all h (persistence_path c)
    backup_key (key_path c)
    write_file h (key_path c) contents

  -- `newMasterKey`
  unfoldable pub new_master_key : M D Bytes
  unfolding rand_read
  new_master_key = do
    key ← rand_read h 16
    fail_if (not (has_key_size key)) key_incorrect_size
    store_master_key key
    pure key

  abbrev pub keep_master_key : Bytes → World D → World D
  keep_master_key key w = record w { core = record (w.core) { master_key = key } }

  -- `setMasterKey`: the field is written before the key's size is checked.
  unfoldable pub set_master_key : Bytes → M D (Unit {0})
  set_master_key key = do
    marble ← is_marble
    fail_if marble key_not_allowed_to_change_marblerun
    modify (keep_master_key key)
    store_master_key key

  -- The branches of `mustInitMasterKey` behind the attempt to load a key: a new key if there is no
  -- key file and no database, a panic if MarbleRun gave no key.
  unfoldable pub generate_if_missing : Bool → Result Bytes → M D (Result Bytes)
  generate_if_missing has_database (val key) = pure (val key)
  generate_if_missing has_database (exc e) =
      branch (is_not_exist e && not has_database) (attempt (must new_master_key))
        (branch (is_key_not_provided e) (panic e) (pure (exc e)))

  unfoldable pub settle : Result Bytes → M D (Unit {0})
  unfolding advance_state
  settle (exc e) = advance_state recovery
  settle (val key) = do advance_state initialized; modify (keep_master_key key)

  -- `mustInitMasterKey`
  unfoldable pub must_init_master_key : M D (Unit {0})
  unfolding exists
  must_init_master_key = do
    c ← cfg
    has_database ← must (exists h (rocksdb_path c))
    loaded ← attempt load_master_key
    key ← generate_if_missing has_database loaded
    settle key
