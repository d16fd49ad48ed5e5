-- ===== src/Core/Key/Env.antt =====
-- The master key in the environment (edb/core/key.go): what is stored there is loaded again.
use edgelessdb.Prelude.{◌<◌, ◌≡◌, some, Bytes, All, length, arith}
use edgelessdb.Std.Hex.{encode_to_string, decode_string-encode_to_string}
use edgelessdb.World.{World, Host, ok}
use edgelessdb.Core.Key.{master_key_var, load_master_key_from_env, store_master_key_to_env}

-- Every element is a byte.
abbrev pub AreBytes : Bytes → Type 0
AreBytes = All (λ b. b < 256)

-- A key is a list of 16 bytes.
abbrev pub IsKey : Bytes → Type 0
IsKey key = (length key ≡ 16) × AreBytes key

module _ (h : Host) {D : Type 0} where
  pub load_master_key_from_env_of_hex :
      (key : Bytes) (w : World D)
      → IsKey key
      → w.os.env master_key_var ≡ some (encode_to_string key)
      → load_master_key_from_env w ≡ ok (some key) w
  unfolding load_master_key_from_env
  load_master_key_from_env_of_hex key w k e = ground (arith, decode_string-encode_to_string key k.1)

  pub store_master_key_to_env-eq_ok :
      (key : Bytes) (w w' : World D)
      → store_master_key_to_env h key w ≡ ok tt w'
      → (length key ≡ 16)
        × (w'.os.env master_key_var ≡ some (encode_to_string key))
        × (w'.os.disk ≡ w.os.disk)
        × (w'.core ≡ w.core)
  unfolding store_master_key_to_env
  store_master_key_to_env-eq_ok key w w' e = ground arith

  -- A key of bytes that was put into the environment without an error is the key that is loaded
  -- from there.
  pub load_master_key_from_env-store_master_key_to_env :
      (key : Bytes) (w w' : World D)
      → AreBytes key
      → store_master_key_to_env h key w ≡ ok tt w'
      → load_master_key_from_env w' ≡ ok (some key) w'
  load_master_key_from_env-store_master_key_to_env key w w' b e =
      let s = store_master_key_to_env-eq_ok key w w' e in
      load_master_key_from_env_of_hex key w' (s.0, b) s.1
