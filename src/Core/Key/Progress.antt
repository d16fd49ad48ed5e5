-- ===== src/Core/Key/Progress.antt =====
-- `mustInitMasterKey` (edb/core/key.go) takes no mutex and leaves the mode of the node alone.
use edgelessdb.Prelude.{ℕ, refl, arith, Bool, Bytes}
use edgelessdb.World.{Host, Result, val, exc, attempt, must, exists, rand_read}
use edgelessdb.World.Tame.{IsTame, to-IsTame, tame, attempt-IsTame, must-IsTame}
use edgelessdb.Core.States.{cfg, is_marble}
use edgelessdb.Core.Key.{
  rocksdb_path, load_master_key_from_env, load_master_key_from_disk, load_master_key,
  store_master_key_to_env, backup_key, store_master_key, new_master_key, generate_if_missing,
  settle, must_init_master_key,
}
use edgelessdb.Core.Frame.{Keeps, fence, KeepsCore-Keeps, bind-Keeps}
use edgelessdb.World.Progress.{NeverStuck, bind-NeverStuck}

module _ (h : Host) {D : Type 0} where
  cfg-IsTame : IsTame {D = D} cfg
  cfg-IsTame = to-IsTame cfg (λ w. (refl, refl))

  is_marble-IsTame : IsTame {D = D} is_marble
  is_marble-IsTame = to-IsTame is_marble (λ w. (refl, refl))

  store_master_key_to_env-IsTame : (key : Bytes) → IsTame {D = D} (store_master_key_to_env h key)
  unfolding store_master_key_to_env
  store_master_key_to_env-IsTame key = search tame depth 12

  backup_key-IsTame : (p : Bytes) → IsTame {D = D} (backup_key h p)
  unfolding backup_key
  backup_key-IsTame p = to-IsTame _ (λ w. ground arith)

  store_master_key-IsTame : (key : Bytes) → IsTame {D = D} (store_master_key h key)
  unfolding store_master_key
  store_master_key-IsTame key =
      search (tame, store_master_key_to_env-IsTame, cfg-IsTame, backup_key-IsTame) depth 14

  rand_read-IsTame : (n : ℕ) → IsTame {D = D} (rand_read h n)
  unfolding rand_read
  rand_read-IsTame n = search tame depth 9

  new_master_key-IsTame : IsTame {D = D} (new_master_key h)
  unfolding new_master_key
  new_master_key-IsTame = search (tame, rand_read-IsTame, store_master_key-IsTame) depth 12

  exists-IsTame : (p : Bytes) → IsTame {D = D} (exists h p)
  unfolding exists
  exists-IsTame p = search tame depth 12

  load_master_key_from_disk-IsTame : IsTame {D = D} (load_master_key_from_disk h)
  unfolding load_master_key_from_disk
  load_master_key_from_disk-IsTame =
      search (tame, is_marble-IsTame, cfg-IsTame, store_master_key_to_env-IsTame) depth 14

  load_master_key-IsTame : IsTame {D = D} (load_master_key h)
  unfolding load_master_key load_master_key_from_env
  load_master_key-IsTame = to-IsTame _ (λ w. ground (
    arith,
    load_master_key_from_disk-IsTame.keeps.kept w,
    load_master_key_from_disk-IsTame.moves.goes_on w,
  ))

  generate_if_missing-IsTame :
      (b : Bool) (r : Result Bytes) → IsTame {D = D} (generate_if_missing h b r)
  unfolding generate_if_missing
  generate_if_missing-IsTame b (val key) = search tame
  generate_if_missing-IsTame b (exc e) = search (tame, new_master_key-IsTame) depth 12

  settle-Keeps : (r : Result Bytes) → Keeps {D = D} fence (settle h r)
  unfolding settle
  settle-Keeps (val key) = record { kept = λ w. ground arith }
  settle-Keeps (exc e) = record { kept = λ w. ground arith }

  settle-NeverStuck : (r : Result Bytes) → NeverStuck {D = D} (settle h r)
  unfolding settle
  settle-NeverStuck (val key) = record { goes_on = λ w. ground arith }
  settle-NeverStuck (exc e) = record { goes_on = λ w. ground arith }

  looked-IsTame : (p : Bytes) → IsTame {D = D} (must (exists h p))
  looked-IsTame p = must-IsTame _ (exists-IsTame p)

  attempted-IsTame : IsTame {D = D} (attempt (load_master_key h))
  attempted-IsTame = attempt-IsTame _ load_master_key-IsTame

  -- The search for a master key writes the state and the key in `Core`, and no other field.
  pub must_init_master_key-Keeps : Keeps {D = D} fence (must_init_master_key h)
  unfolding must_init_master_key
  must_init_master_key-Keeps =
      bind-Keeps fence cfg _ (KeepsCore-Keeps fence _ cfg-IsTame.keeps) λ c.
        bind-Keeps fence (must (exists h (rocksdb_path c))) _
          (KeepsCore-Keeps fence _ (looked-IsTame (rocksdb_path c)).keeps)
          λ b.
            bind-Keeps fence (attempt (load_master_key h)) _
              (KeepsCore-Keeps fence _ attempted-IsTame.keeps)
              λ r.
                bind-Keeps fence (generate_if_missing h b r) _
                  (KeepsCore-Keeps fence _ (generate_if_missing-IsTame b r).keeps)
                  λ k. settle-Keeps k

  pub must_init_master_key-NeverStuck : NeverStuck {D = D} (must_init_master_key h)
  unfolding must_init_master_key
  must_init_master_key-NeverStuck = bind-NeverStuck cfg _ cfg-IsTame.moves λ c.
      bind-NeverStuck (must (exists h (rocksdb_path c))) _ (looked-IsTame (rocksdb_path c)).moves
        λ b. bind-NeverStuck (attempt (load_master_key h)) _ attempted-IsTame.moves λ r.
          bind-NeverStuck (generate_if_missing h b r) _ (generate_if_missing-IsTame b r).moves
            λ k. settle-NeverStuck k
