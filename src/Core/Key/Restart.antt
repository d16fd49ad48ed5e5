-- ===== src/Core/Key/Restart.antt =====
-- A key that was stored is found again by the next process, and the key before it is not lost
-- (edb/core/key.go: `storeMasterKey`, then `loadMasterKey`).
use edgelessdb.Prelude.{
  ◌≡◌, ◌≢◌, inl, inr, refl, some, none, Bytes, length, arith, false, bytes_eq, bytes_eq_refl,
  bytes_ne_of_length, length-append, ◌++◌, text, ◌∙◌,
}
use edgelessdb.Std.Hex.{encode_to_string}
use edgelessdb.World.{with_env, World, Host, on_ok, ok, val, file, dir, write_file, mkdir_all}
use edgelessdb.Core.Key.{
  master_key_var, key_path, persistence_path, backup_path, sealed, backup_key,
  load_master_key_from_env, load_master_key_from_disk, load_master_key, store_master_key,
  store_master_key_to_env,
}
use edgelessdb.Core.Key.Store.{store_master_key-eq_ok, sealed-eq_ok, IsSealed}

length_underscore : length (text "_") ≡ 1
unfolding text
length_underscore = refl

backup_ne_key : (p t : Bytes) → bytes_eq (backup_path p t) p ≡ false
backup_ne_key p t = bytes_ne_of_length (backup_path p t) p (
    ground (
      arith,
      length-append p (text "_" ++ (t ++ text ".bak")),
      length-append (text "_") (t ++ text ".bak"),
      length_underscore,
    ))

-- What ego's ecrypto documents: what it has sealed it unseals.
abbrev pub Unseals : Host → Type 0
Unseals h = (key b : Bytes) → h.seal key ≡ val b → h.unseal b ≡ val key

module _ (h : Host) {D : Type 0} where
  -- A key that the key file holds, sealed or plain, is the key that a process loads, with the
  -- variable not set, if it is no Marble, has 16 bytes, what was sealed unseals, and neither the file nor
  -- the variable has a fault. The load sets the variable.
  pub load_from_sealed :
      (key b : Bytes) (v : World D)
      → Unseals h
      → length key ≡ 16
      → v.os.disk (key_path v.core.cfg) ≡ some (file b)
      → IsSealed h key b
      → v.core.is_marble ≡ false
      → v.os.env master_key_var ≡ none
      → h.read_fault (key_path v.core.cfg) ≡ none
      → h.setenv_fault master_key_var ≡ none
      → load_master_key h v ≡ ok key (with_env master_key_var (encode_to_string key) v)
  unfolding load_master_key load_master_key_from_env load_master_key_from_disk
      store_master_key_to_env
  load_from_sealed key b v law size found (inl (inside, e)) m unset r s =
      ground (arith, law key b e)
  load_from_sealed key b v law size found (inr (outside, e)) m unset r s = ground arith

  -- A key that was stored without an error is the key that the next process loads, with the variable
  -- not set, from the same disk and under the same configuration, if it is no Marble: sealed or
  -- plain, if what was sealed unseals and neither the file nor the variable has a fault. The load
  -- sets the variable.
  pub load_master_key-store_master_key :
      (key : Bytes) (w w' v : World D)
      → Unseals h
      → store_master_key h key w ≡ ok tt w'
      → v.os.disk ≡ w'.os.disk
      → v.core.cfg ≡ w.core.cfg
      → v.core.is_marble ≡ false
      → v.os.env master_key_var ≡ none
      → h.read_fault (key_path v.core.cfg) ≡ none
      → h.setenv_fault master_key_var ≡ none
      → load_master_key h v ≡ ok key (with_env master_key_var (encode_to_string key) v)
  load_master_key-store_master_key key w w' v law stored disk config marble unset r s =
      let (size, _, (b, on_disk, form), _) = store_master_key-eq_ok h key w w' stored in
      let found : v.os.disk (key_path v.core.cfg) ≡ some (file b) = rw (disk, config) on_disk in
      load_from_sealed key b v law size found form marble unset r s

  mkdir_all_there :
      (p : Bytes) (w w' : World D) → mkdir_all h p w ≡ ok tt w' → w.os.disk p ≡ some dir → w' ≡ w
  unfolding mkdir_all
  mkdir_all_there p w w' e there = ground arith

  store_env_disk :
      (key : Bytes) (w w' : World D)
      → store_master_key_to_env h key w ≡ ok tt w'
      → (w'.os.disk ≡ w.os.disk) × (w'.os.ticks ≡ w.os.ticks) × (w'.core ≡ w.core)
  unfolding store_master_key_to_env
  store_env_disk key w w' e = ground arith

  backup_key_copies :
      (p old : Bytes) (w w' : World D)
      → backup_key h p w ≡ ok tt w'
      → w.os.disk p ≡ some (file old)
      → h.read_fault p ≡ none
      → h.write_fault (backup_path p (h.now w.os.ticks)) ≡ none
      → w.os.disk (backup_path p (h.now w.os.ticks)) ≢ some dir
      → w'.os.disk (backup_path p (h.now w.os.ticks)) ≡ some (file old)
  unfolding backup_key
  backup_key_copies p old w w' e there r wf nd =
      ground (arith, bytes_eq_refl (backup_path p (h.now w.os.ticks)))

  write_file_keeps :
      (p q b : Bytes) (w w' : World D)
      → write_file h p b w ≡ ok tt w'
      → bytes_eq q p ≡ false
      → w'.os.disk q ≡ w.os.disk q
  unfolding write_file
  write_file_keeps p q b w w' e ne = ground arith

  copied_and_written :
      (p b old : Bytes) (w w3 w4 w' : World D)
      → w3.os.disk ≡ w.os.disk
      → w3.os.ticks ≡ w.os.ticks
      → backup_key h p w3 ≡ ok tt w4
      → write_file h p b w4 ≡ ok tt w'
      → w.os.disk p ≡ some (file old)
      → h.read_fault p ≡ none
      → h.write_fault (backup_path p (h.now w.os.ticks)) ≡ none
      → w.os.disk (backup_path p (h.now w.os.ticks)) ≢ some dir
      → w'.os.disk (backup_path p (h.now w.os.ticks)) ≡ some (file old)
  copied_and_written p b old w w3 w4 w' disk ticks copy write found r wf nd =
      write_file_keeps p (backup_path p (h.now w.os.ticks)) b w4 w' write
        (backup_ne_key p (h.now w.os.ticks))
      ∙ rw (← ticks)
          (backup_key_copies p old w3 w4 copy (rw disk found) r (rw ticks wf) (rw (disk, ticks) nd))

  -- A store that returned no error has kept the key file that it found: its contents are in the
  -- file named by the time of the store, if that can be written and is no directory, if the key
  -- file can be read, and if its directory is there.
  pub store_master_key_backup :
      (key old : Bytes) (w w' : World D)
      → store_master_key h key w ≡ ok tt w'
      → w.os.disk (persistence_path w.core.cfg) ≡ some dir
      → w.os.disk (key_path w.core.cfg) ≡ some (file old)
      → h.read_fault (key_path w.core.cfg) ≡ none
      → h.write_fault (backup_path (key_path w.core.cfg) (h.now w.os.ticks)) ≡ none
      → w.os.disk (backup_path (key_path w.core.cfg) (h.now w.os.ticks)) ≢ some dir
      → w'.os.disk (backup_path (key_path w.core.cfg) (h.now w.os.ticks)) ≡ some (file old)
  unfolding store_master_key
  store_master_key_backup key old w w' e there found r wf nd =
      on_ok (store_master_key_to_env h key) _ w e λ _ w1 e1 r1.
        on_ok (sealed h key) _ w1 r1 λ b w2 e2 r2.
          on_ok (mkdir_all h (persistence_path w2.core.cfg)) _ w2 r2 λ _ w3 e3 r3.
            on_ok (backup_key h (key_path w2.core.cfg)) _ w3 r3 λ _ w4 e4 r4.
              let s1 = store_env_disk key w w1 e1 in
              let s2 : w2 ≡ w1 = (sealed-eq_ok h key b w1 w2 e2).1 in
              let config : w2.core.cfg ≡ w.core.cfg = cc in
              let s3 : w3 ≡ w2 =
                mkdir_all_there (persistence_path w2.core.cfg) w2 w3 e3
                  (rw (s2, s1.0, s1.2) there) in
              let disk : w3.os.disk ≡ w.os.disk = cc in
              let ticks : w3.os.ticks ≡ w.os.ticks = cc in
              copied_and_written (key_path w.core.cfg) b old w w3 w4 w' disk ticks (rw config at e4)
                (rw config at r4) found r wf nd
