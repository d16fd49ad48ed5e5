-- ===== src/Core/Key/Init.antt =====
-- `mustInitMasterKey` (edb/core/key.go): which state a node starts in, and when it makes a key.
use edgelessdb.Prelude.{
  ◌≡◌, ◌≢◌, refl, some, none, Bytes, arith, Option, true, false, Bool, not, ◌&&◌, ◌∙◌, ap,
}
use edgelessdb.World.{
  World, Host, ok, after, Result, val, exc, Error, exists, Entry, is_there, is_not_exist, attempt,
  must, after-bind, after-attempt, after-must,
}
use edgelessdb.Core.Key.{
  rocksdb_path, load_master_key_from_env, load_master_key_from_disk, load_master_key,
  store_master_key_to_env, generate_if_missing, settle, must_init_master_key,
}

-- The condition under which `mustInitMasterKey` makes a key.
abbrev is_retry : Bool → Result Bytes → Bool
is_retry has_database (val _) = false
is_retry has_database (exc e) = is_not_exist e && not has_database

module _ (h : Host) {D : Type 0} where
  store_env_frame :
      (key : Bytes) (w : World D)
      → ((after (store_master_key_to_env h key w)).os.disk ≡ w.os.disk)
        × ((after (store_master_key_to_env h key w)).core ≡ w.core)
  unfolding store_master_key_to_env
  store_env_frame key w = ground arith

  load_disk_frame :
      (w : World D)
      → ((after (load_master_key_from_disk h w)).os.disk ≡ w.os.disk)
        × ((after (load_master_key_from_disk h w)).core ≡ w.core)
  unfolding load_master_key_from_disk store_master_key_to_env
  load_disk_frame w = ground arith

  -- A load writes no file and no field of `Core`.
  pub load_master_key_frame :
      (w : World D)
      → ((after (load_master_key h w)).os.disk ≡ w.os.disk)
        × ((after (load_master_key h w)).core ≡ w.core)
  unfolding load_master_key load_master_key_from_env
  load_master_key_frame w = ground (arith, load_disk_frame w)

  pub exists_frame : (p : Bytes) (w : World D) → after (exists h p w) ≡ w
  unfolding exists
  exists_frame p w = ground arith

  pub exists_there :
      (p : Bytes) (w v : World D) (b : Bool)
      → must (exists h p) w ≡ ok b v
      → h.stat_fault p ≡ none
      → (v ≡ w) × (b ≡ is_there (w.os.disk p))
  unfolding exists
  exists_there p w v b e s = ground arith

  settle_frame : (r : Result Bytes) (w : World D) → (after (settle h r w)).os.disk ≡ w.os.disk
  unfolding settle
  settle_frame (val key) w = ground arith
  settle_frame (exc e) w = ground arith

  generate_frame :
      (b : Bool) (r : Result Bytes) (w : World D)
      → is_retry b r ≡ false
      → after (generate_if_missing h b r w) ≡ w
  unfolding generate_if_missing
  generate_frame b (val key) w e = refl
  generate_frame b (exc x) w e = ground arith

  -- Where no key is made, the disk stays as it is.
  must_init_frame :
      (w : World D)
      → ((b : Bool) (v : World D) (r : Result Bytes) (u : World D)
          → must (exists h (rocksdb_path w.core.cfg)) w ≡ ok b v
          → attempt (load_master_key h) v ≡ ok r u
          → is_retry b r ≡ false)
      → (after (must_init_master_key h w)).os.disk ≡ w.os.disk
  unfolding must_init_master_key
  must_init_frame w never =
      after-bind (λ x. x.os.disk ≡ w.os.disk) (must (exists h (rocksdb_path w.core.cfg))) _ w
        (ap (λ (x : World D). x.os.disk) looked)
        λ b v e.
          let same : v ≡ w = same_state e looked in
          let kept : (after (attempt (load_master_key h) v)).os.disk ≡ w.os.disk =
            ap (λ (x : World D). x.os.disk) (after-attempt (load_master_key h) v)
            ∙ (load_master_key_frame v).0
            ∙ ap (λ (x : World D). x.os.disk) same in
          after-bind (λ x. x.os.disk ≡ w.os.disk) (attempt (load_master_key h)) _ v kept
            λ r u l.
              let loaded : u.os.disk ≡ w.os.disk = rw l at kept in
              let made : (after (generate_if_missing h b r u)).os.disk ≡ w.os.disk =
                ap (λ (x : World D). x.os.disk) (generate_frame b r u (never b v r u e l))
                ∙ loaded in
              after-bind (λ x. x.os.disk ≡ w.os.disk) (generate_if_missing h b r) _ u made
                λ k t g. settle_frame k t ∙ rw g at made
    where
      looked : after (must (exists h (rocksdb_path w.core.cfg)) w) ≡ w
      looked =
          after-must (exists h (rocksdb_path w.core.cfg)) w
          ∙ exists_frame (rocksdb_path w.core.cfg) w

      same_state :
          {b : Bool} {v : World D}
          → must (exists h (rocksdb_path w.core.cfg)) w ≡ ok b v
          → after (must (exists h (rocksdb_path w.core.cfg)) w) ≡ w
          → v ≡ w
      same_state e l = rw e at l

  -- With a database on disk, if the look at it has no fault, no key is made: the disk stays as it
  -- is, however the start ends.
  pub must_init_master_key_keeps_disk :
      (w : World D)
      → h.stat_fault (rocksdb_path w.core.cfg) ≡ none
      → w.os.disk (rocksdb_path w.core.cfg) ≢ none
      → (after (must_init_master_key h w)).os.disk ≡ w.os.disk
  must_init_master_key_keeps_disk w s there = must_init_frame w λ b v r u e l.
      not_retried b r (exists_there (rocksdb_path w.core.cfg) w v b e s).1
        (present (w.os.disk (rocksdb_path w.core.cfg)) there)
    where
      present : (e : Option Entry) → e ≢ none → is_there e ≡ true
      present none n = absurd (n refl)
      present (some e) n = refl

      not_retried :
          (b : Bool) (r : Result Bytes)
          → b ≡ is_there (w.os.disk (rocksdb_path w.core.cfg))
          → is_there (w.os.disk (rocksdb_path w.core.cfg)) ≡ true
          → is_retry b r ≡ false
      not_retried b (val _) e t = refl
      not_retried b (exc x) e t = ground arith

  marble_error :
      (v u : World D) (x : Error)
      → v.core.is_marble ≡ true
      → attempt (load_master_key h) v ≡ ok (exc x) u
      → is_not_exist x ≡ false
  unfolding load_master_key load_master_key_from_env load_master_key_from_disk
  marble_error v u x m e = ground arith

  -- On a Marble no key is made, with or without a database: the disk stays as it is.
  pub must_init_master_key_marble :
      (w : World D)
      → w.core.is_marble ≡ true
      → (after (must_init_master_key h w)).os.disk ≡ w.os.disk
  must_init_master_key_marble w m = must_init_frame w λ b v r u e l. never b v u r l (
      rw e at (
        after-must (exists h (rocksdb_path w.core.cfg)) w
        ∙ exists_frame (rocksdb_path w.core.cfg) w))
    where
      never :
          (b : Bool) (v u : World D) (r : Result Bytes)
          → attempt (load_master_key h) v ≡ ok r u
          → v ≡ w
          → is_retry b r ≡ false
      never b v u (val _) l same = refl
      never b v u (exc x) l same = ground (arith, marble_error v u x)
