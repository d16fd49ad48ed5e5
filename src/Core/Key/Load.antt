-- ===== src/Core/Key/Load.antt =====
-- `loadMasterKey` (edb/core/key.go): where the key comes from, and what a load leaves behind.
use edgelessdb.Prelude.{◌≡◌, some, none, Bytes, length, arith, Option, true, false}
use edgelessdb.World.{World, Host, >>=-eq-ok, ok, err, after, key_not_provided_marblerun}
use edgelessdb.Core.Key.{
  master_key_var, load_master_key_from_env, load_master_key_from_disk, load_master_key,
  or_from_disk, store_master_key_to_env,
}
use edgelessdb.Core.Key.Env.{
  AreBytes, load_master_key_from_env-store_master_key_to_env, store_master_key_to_env-eq_ok,
}

-- A look at the environment changes nothing, and gives no key of another size than 16.
pub load_master_key_from_env_pure :
    {D : Type 0} (w : World D) → after (load_master_key_from_env w) ≡ w
unfolding load_master_key_from_env
load_master_key_from_env_pure w = ground arith

pub load_master_key_from_env-eq_ok :
    {D : Type 0} (w : World D) (found : Option Bytes) (v : World D)
    → load_master_key_from_env w ≡ ok found v
    → v ≡ w
unfolding load_master_key_from_env
load_master_key_from_env-eq_ok w found v e = ground arith

module _ (h : Host) {D : Type 0} where
  pub load_master_key_from_disk-eq_ok :
      (key : Bytes) (w w' : World D)
      → load_master_key_from_disk h w ≡ ok key w'
      → (w.core.is_marble ≡ false) × (store_master_key_to_env h key w ≡ ok tt w')
  unfolding load_master_key_from_disk
  load_master_key_from_disk-eq_ok key w w' e = ground arith

  -- A key that is loaded without an error has 16 bytes, whether it comes from the environment or
  -- from the disk.
  pub load_master_key_size :
      (key : Bytes) (w w' : World D) → load_master_key h w ≡ ok key w' → length key ≡ 16
  unfolding load_master_key load_master_key_from_env
  load_master_key_size key w w' e =
      ground
        (arith, load_master_key_from_disk-eq_ok key w w', store_master_key_to_env-eq_ok h key w w')

  -- After a load of a key of bytes that returned no error the key is in the environment, where the
  -- next load finds it.
  pub load_master_key_in_env :
      (key : Bytes) (w w' : World D)
      → AreBytes key
      → load_master_key h w ≡ ok key w'
      → load_master_key_from_env w' ≡ ok (some key) w'
  unfolding load_master_key
  load_master_key_in_env key w w' b e =
      let (found, v, env, rest) = >>=-eq-ok load_master_key_from_env (or_from_disk h) w e in
      found_in_env found v w' key b (load_master_key_from_env-eq_ok w found v env) env rest
    where
      found_in_env :
          (found : Option Bytes) (v w' : World D) (key : Bytes)
          → AreBytes key
          → v ≡ w
          → load_master_key_from_env w ≡ ok found v
          → or_from_disk h found v ≡ ok key w'
          → load_master_key_from_env w' ≡ ok (some key) w'
      found_in_env (some k) v w' key b same env rest = cc
      found_in_env none v w' key b same env rest =
          load_master_key_from_env-store_master_key_to_env h key v w' b
            (load_master_key_from_disk-eq_ok key v w' rest).1

  -- On a Marble a load changes nothing at all, however it ends: the disk is not looked at, and the
  -- environment is MarbleRun's.
  pub load_master_key_marble :
      (w : World D) → w.core.is_marble ≡ true → after (load_master_key h w) ≡ w
  unfolding load_master_key load_master_key_from_env load_master_key_from_disk
  load_master_key_marble w m = ground arith

  -- On a Marble with no key in the environment the load fails with `ErrKeyNotProvidedMarblerun`.
  pub load_master_key_not_provided :
      (w : World D)
      → w.core.is_marble ≡ true
      → w.os.env master_key_var ≡ none
      → load_master_key h w ≡ err key_not_provided_marblerun w
  unfolding load_master_key load_master_key_from_env load_master_key_from_disk
  load_master_key_not_provided w m e = ground arith
