-- ===== src/Core/Key/Start.antt =====
-- `mustInitMasterKey` (edb/core/key.go): the state that a node is in behind it.
use edgelessdb.Prelude.{
  ◌≡◌, ◌⊎◌, refl, some, none, Bytes, length, arith, false, Bool, not, ◌&&◌, ◌∙◌,
}
use edgelessdb.Std.Hex.{decode_string}
use edgelessdb.World.{
  World, Host, on_ok, >>=_of_ok, ok, err, Result, val, exc, Error, exists, is_there, uninitialized,
  recovery, initialized, is_not_exist, is_key_not_provided, attempt, must, rand_read, after-must,
  invalid_hex,
}
use edgelessdb.Core.Key.{
  master_key_var, rocksdb_path, load_master_key_from_env, load_master_key, new_master_key,
  generate_if_missing, settle, must_init_master_key,
}
use edgelessdb.Core.Key.Load.{load_master_key_size}
use edgelessdb.Core.Key.Store.{store_master_key-eq_ok}
use edgelessdb.Core.Key.Init.{load_master_key_frame, exists_frame}

abbrev HasSize : Result Bytes → Type 0
HasSize (val key) = length key ≡ 16
HasSize (exc _) = Unit

-- The world `w` once the node has entered recovery.
abbrev pub in_recovery : {D : Type 0} → World D → World D
in_recovery w = record w { core = record (w.core) { state = recovery } }

module _ (h : Host) {D : Type 0} where
  -- A new key has 16 bytes, and making it writes no field of `Core`.
  new_master_key-eq_ok :
      (key : Bytes) (w w' : World D)
      → new_master_key h w ≡ ok key w'
      → (length key ≡ 16) × (w'.core ≡ w.core)
  unfolding new_master_key
  new_master_key-eq_ok key w w' e =
      on_ok (rand_read h 16) _ w e λ k v drawn rest. ground (arith, store_master_key-eq_ok h k v w')

  loaded-eq_ok :
      (r : Result Bytes) (w w' : World D)
      → attempt (load_master_key h) w ≡ ok r w'
      → HasSize r × (w'.core ≡ w.core)
  loaded-eq_ok (val key) w w' e =
      ground (arith, load_master_key_size h key w w', load_master_key_frame h w)
  loaded-eq_ok (exc x) w w' e = ground (arith, load_master_key_frame h w)

  generated-eq_ok :
      (b : Bool) (r k : Result Bytes) (w w' : World D)
      → generate_if_missing h b r w ≡ ok k w'
      → HasSize r
      → HasSize k × (w'.core ≡ w.core)
  unfolding generate_if_missing
  generated-eq_ok b (val key) (val k) w w' e s = ground arith
  generated-eq_ok b (val key) (exc x) w w' e s = cc
  generated-eq_ok b (exc x) (val key) w w' e s = ground (arith, new_master_key-eq_ok key w w')
  generated-eq_ok b (exc x) (exc y) w w' e s = ground (arith)

  settled-eq_ok :
      (k : Result Bytes) (w w' : World D)
      → settle h k w ≡ ok tt w'
      → HasSize k
      → ((w'.core.state ≡ initialized) × (length w'.core.master_key ≡ 16))
        ⊎ ((w'.core.state ≡ recovery) × (w'.core.master_key ≡ w.core.master_key))
  unfolding settle
  settled-eq_ok (val key) w w' e s = ground arith
  settled-eq_ok (exc x) w w' e s = ground arith

  -- A start that does not panic ends in one of two states: initialized, with a master key of 16
  -- bytes in `Core`, or in recovery, with the field `masterKey` as it was.
  pub must_init_master_key_state :
      (w w' : World D)
      → must_init_master_key h w ≡ ok tt w'
      → ((w'.core.state ≡ initialized) × (length w'.core.master_key ≡ 16))
        ⊎ ((w'.core.state ≡ recovery) × (w'.core.master_key ≡ w.core.master_key))
  unfolding must_init_master_key
  must_init_master_key_state w w' e =
      on_ok (must (exists h (rocksdb_path w.core.cfg))) _ w e λ b w1 e1 r1.
        on_ok (attempt (load_master_key h)) _ w1 r1 λ r w2 e2 r2.
          on_ok (generate_if_missing h b r) _ w2 r2 λ k w3 e3 r3.
            let s1 : w1 ≡ w = rw e1 at (
              after-must (exists h (rocksdb_path w.core.cfg)) w
              ∙ exists_frame h (rocksdb_path w.core.cfg) w) in
            let s2 = loaded-eq_ok r w1 w2 e2 in
            let s3 = generated-eq_ok b r k w2 w3 e3 s2.0 in
            ground (arith, settled-eq_ok k w3 w' r3 s3.0)

  exists_lem :
      (p : Bytes) (w : World D)
      → h.stat_fault p ≡ none
      → must (exists h p) w ≡ ok (is_there (w.os.disk p)) w
  unfolding exists
  exists_lem p w s = ground arith

  not_generated :
      (x : Error) (b : Bool) (v : World D)
      → is_key_not_provided x ≡ false
      → (is_not_exist x && not b) ≡ false
      → generate_if_missing h b (exc x) v ≡ ok (exc x) v
  unfolding generate_if_missing
  not_generated x b v p n = rw (n, p)

  settled_in_recovery :
      (x : Error) (v : World D)
      → v.core.state ≡ uninitialized
      → settle h (exc x) v ≡ ok tt (in_recovery v)
  unfolding settle
  settled_in_recovery x v u = ground arith

  -- In the first state, and if the look at the database has no fault, a load that fails leads to
  -- recovery, unless MarbleRun gave no key, and unless no key file and no database were there: the
  -- state of `Core` is all that the start then changes.
  pub must_init_master_key_recovery :
      (x : Error) (w v : World D)
      → w.core.state ≡ uninitialized
      → h.stat_fault (rocksdb_path w.core.cfg) ≡ none
      → load_master_key h w ≡ err x v
      → is_key_not_provided x ≡ false
      → (is_not_exist x && not (is_there (w.os.disk (rocksdb_path w.core.cfg)))) ≡ false
      → must_init_master_key h w ≡ ok tt (in_recovery v)
  unfolding must_init_master_key
  must_init_master_key_recovery x w v u s l p n =
      >>=_of_ok (must (exists h (rocksdb_path w.core.cfg))) _ w
        (exists_lem (rocksdb_path w.core.cfg) w s)
      ∙ >>=_of_ok (attempt (load_master_key h)) _ w (rw (l, attempt))
      ∙ >>=_of_ok (generate_if_missing h (is_there (w.os.disk (rocksdb_path w.core.cfg))) (exc x)) _
          v (not_generated x _ v p n)
      ∙ settled_in_recovery x v (ground (arith, load_master_key_frame h w))

  -- In the first state, and if the look at the database has no fault, a variable that does not
  -- hold hexadecimal digits in pairs leads to recovery, on a Marble and on any other node, and
  -- whatever is on disk. Nothing but the state changes.
  pub must_init_master_key_bad_variable :
      (hex : Bytes) (w : World D)
      → w.core.state ≡ uninitialized
      → h.stat_fault (rocksdb_path w.core.cfg) ≡ none
      → w.os.env master_key_var ≡ some hex
      → decode_string hex ≡ none
      → must_init_master_key h w ≡ ok tt (in_recovery w)
  unfolding load_master_key load_master_key_from_env
  must_init_master_key_bad_variable hex w u s set bad =
      must_init_master_key_recovery invalid_hex w w u s (ground arith) refl refl
