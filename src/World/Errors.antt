-- ===== src/World/Errors.antt =====
-- The errors that the program makes (`errors.New`, sentinels) and those that it passes on.
use edgelessdb.Prelude.{Bool, true, false, Bytes}

pub data Error : Type 0 where
  -- edb/core/key.go
  env_key_incorrect_size key_incorrect_size key_not_provided_marblerun : Error
  key_not_allowed_to_change_marblerun : Error
  -- edb/core/core.go
  unexpected_state encode_certificate_failed decode_recovery_key_failed not_an_rsa_key : Error
  not_a_marble no_root_ca bad_root_ca no_manifest_from_marblerun cannot_advance_state : Error
  -- edb/db/mariadb.go
  already_initialized previous_init_failed not_initialized_yet debug_not_allowed : Error
  bootstrap_failed mariadbd_returned cannot_read_error_log : Error
  log_errors : Bytes → Error
  -- edb/db/util.go and edb/db/marblerun.go
  pem_encode_failed no_root_secret bad_root_cert_pem root_cert_not_ca bad_root_key_pem : Error
  rsa_key_too_short ecdsa_key_too_short : Error
  -- cmd/edb/main.go
  not_in_enclave : Error
  -- the libraries': a missing file (`os.IsNotExist`), one that is
  -- there (`os.IsExist`), `hex.DecodeString`'s, and all others
  not_exist already_exists invalid_hex is_directory not_a_directory : Error
  library : Bytes → Error

-- `os.IsNotExist`
abbrev pub is_not_exist : Error → Bool
is_not_exist not_exist = true
is_not_exist _ = false

-- `os.IsExist`
abbrev pub is_exist : Error → Bool
is_exist already_exists = true
is_exist _ = false

-- `err == ErrKeyNotProvidedMarblerun`
abbrev pub is_key_not_provided : Error → Bool
is_key_not_provided key_not_provided_marblerun = true
is_key_not_provided _ = false

-- `err == db.ErrNotInitializedYet`
abbrev pub is_not_initialized_yet : Error → Bool
is_not_initialized_yet not_initialized_yet = true
is_not_initialized_yet _ = false
