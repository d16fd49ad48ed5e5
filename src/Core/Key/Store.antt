-- ===== src/Core/Key/Store.antt =====
-- `storeMasterKey` (edb/core/key.go): the sealed key reaches the disk, and the key that was there is
-- kept aside.
use edgelessdb.Prelude.{◌≡◌, ◌⊎◌, some, Bytes, length, arith, true, false, bytes_eq_refl}
use edgelessdb.Std.Hex.{encode_to_string}
use edgelessdb.World.{World, Host, on_ok, ok, val, file, write_file, mkdir_all}
use edgelessdb.Core.Key.{
  master_key_var, key_path, persistence_path, sealed, backup_key, store_master_key,
  store_master_key_to_env,
}
use edgelessdb.Core.Key.Env.{store_master_key_to_env-eq_ok}

-- What is on disk for a key: the key sealed, in an enclave, and the plain key outside of one.
abbrev pub IsSealed : Host → Bytes → Bytes → Type 0
IsSealed h key b =
    ((h.is_enclave ≡ true) × (h.seal key ≡ val b)) ⊎ ((h.is_enclave ≡ false) × (b ≡ key))

module _ (h : Host) {D : Type 0} where
  pub write_file-eq_ok :
      (p b : Bytes) (w w' : World D)
      → write_file h p b w ≡ ok tt w'
      → (w'.os.disk p ≡ some (file b)) × (w'.os.env ≡ w.os.env) × (w'.core ≡ w.core)
  unfolding write_file
  write_file-eq_ok p b w w' e = ground (arith, bytes_eq_refl p)

  mkdir_all-eq_ok :
      (p : Bytes) (w w' : World D)
      → mkdir_all h p w ≡ ok tt w'
      → (w'.os.env ≡ w.os.env) × (w'.core ≡ w.core)
  unfolding mkdir_all
  mkdir_all-eq_ok p w w' e = ground (arith, bytes_eq_refl p)

  backup_key-eq_ok :
      (p : Bytes) (w w' : World D)
      → backup_key h p w ≡ ok tt w'
      → (w'.os.env ≡ w.os.env) × (w'.core ≡ w.core)
  unfolding backup_key
  backup_key-eq_ok p w w' e = ground (arith, bytes_eq_refl p)

  pub sealed-eq_ok :
      (key b : Bytes) (w w' : World D) → sealed h key w ≡ ok b w' → IsSealed h key b × (w' ≡ w)
  sealed-eq_ok key b w w' e = ground arith

  -- After a store that returned no error the key has 16 bytes, the variable holds it in hex, the
  -- key file holds it sealed, or plain outside of an enclave, and the fields of `Core` are as
  -- before.
  pub store_master_key-eq_ok :
      (key : Bytes) (w w' : World D)
      → store_master_key h key w ≡ ok tt w'
      → (length key ≡ 16)
        × (w'.os.env master_key_var ≡ some (encode_to_string key))
        × ((b : Bytes) × (w'.os.disk (key_path w.core.cfg) ≡ some (file b)) × IsSealed h key b)
        × (w'.core ≡ w.core)
  unfolding store_master_key
  store_master_key-eq_ok key w w' e = on_ok (store_master_key_to_env h key) _ w e λ _ w1 e1 r1.
      on_ok (sealed h key) _ w1 r1 λ b w2 e2 r2.
        on_ok (mkdir_all h (persistence_path w2.core.cfg)) _ w2 r2 λ _ w3 e3 r3.
          on_ok (backup_key h (key_path w2.core.cfg)) _ w3 r3 λ _ w4 e4 r4.
            let s1 = store_master_key_to_env-eq_ok h key w w1 e1 in
            let s2 = sealed-eq_ok key b w1 w2 e2 in
            let s3 = mkdir_all-eq_ok (persistence_path w2.core.cfg) w2 w3 e3 in
            let s4 = backup_key-eq_ok (key_path w2.core.cfg) w3 w4 e4 in
            let s5 = write_file-eq_ok (key_path w2.core.cfg) b w4 w' r4 in
            let same : w2.core ≡ w.core = cc in (s1.0, cc, (b, rw same at s5.0, s2.0), cc)
