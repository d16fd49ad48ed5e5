-- ===== src/Cmd/EnclaveMain/Directories.antt =====
-- The parts of `main` in the enclave (cmd/edb/enclavemain.go) that mount a directory each.
use edgelessdb.Prelude.{
  ◌≡◌, ◌∙◌, refl, ap, arith, Bool, true, false, not, Bytes, List, [], ◌∷◌, ◌++◌, text,
  if◌then◌else◌,
}
use edgelessdb.Std.FilePath.{is_abs, join_path}
use edgelessdb.World.{World, Config, Host, ok, on_ok, must, or_empty, mkdir, mkdir_all, mount, when}
use edgelessdb.Core.Environment.{fill_config_from_environment}
use edgelessdb.Core.Environment.Fill.{effective, fill_config_from_environment_lem}
use edgelessdb.Cmd.Paths.{cwd_var, enclave_abs_path, host_path}
use edgelessdb.Cmd.EnclaveMain.{
  persistence_dir, must_or_exist, mount_log_dir, mount_rocksdb_dir, mount_persistence_dir,
}

-- A path of the host: relative ones are below the working directory `cwd`.
abbrev pub absolute : Bytes → Bytes → Bytes
absolute cwd path = if is_abs path then path else join_path (cwd ∷ path ∷ [])

-- The mount for logs, if a directory is set, and the configuration's entry behind it.
abbrev pub log_mounts : Bytes → Bytes → List (Bytes × Bytes)
log_mounts cwd [] = []
log_mounts cwd (c ∷ path) = (absolute cwd (c ∷ path), text "/log") ∷ []

abbrev pub log_seen : Bytes → Bytes
log_seen [] = []
log_seen (c ∷ path) = text "/log"

-- The mounts for data: the sealed key's directory is not for a Marble.
abbrev pub rocksdb_mount : Bytes → Bytes × Bytes
rocksdb_mount dir = (join_path (dir ∷ text "#rocksdb" ∷ []), text "/data/#rocksdb")

abbrev pub persistence_mount : Bytes → Bytes × Bytes
persistence_mount dir =
    (join_path (dir ∷ persistence_dir ∷ []), join_path (text "/data" ∷ persistence_dir ∷ []))

abbrev pub data_mounts : Bool → Bytes → List (Bytes × Bytes)
data_mounts true dir = rocksdb_mount dir ∷ []
data_mounts false dir = rocksdb_mount dir ∷ persistence_mount dir ∷ []

++-assoc_pairs : (a b c : List (Bytes × Bytes)) → (a ++ b) ++ c ≡ a ++ (b ++ c)
++-assoc_pairs [] b c = refl
++-assoc_pairs (x ∷ a) b c = ap (λ l. x ∷ l) (++-assoc_pairs a b c)

++-nil_pairs : (a : List (Bytes × Bytes)) → a ≡ a ++ []
++-nil_pairs [] = refl
++-nil_pairs (x ∷ a) = ap (λ l. x ∷ l) (++-nil_pairs a)

module _ {D : Type 0} where
  pub enclave_abs_path-eq_ok :
      (path q : Bytes) (w v : World D)
      → enclave_abs_path path w ≡ ok q v
      → (v ≡ w) × (q ≡ absolute (or_empty (w.os.env cwd_var)) path)
  unfolding enclave_abs_path
  enclave_abs_path-eq_ok path q w v e = ground arith

  host_path-eq_ok : (path q : Bytes) (w v : World D) → host_path path w ≡ ok q v → v ≡ w
  unfolding host_path
  host_path-eq_ok path q w v e = on_ok (enclave_abs_path path) _ w e λ p u e1 r1.
      let (same, _) = enclave_abs_path-eq_ok path p w u e1 in let last : v ≡ u = cc in last ∙ same

  pub filled-eq_ok :
      (c filled : Config) (w v : World D)
      → fill_config_from_environment c w ≡ ok filled v
      → (v ≡ w) × (filled ≡ effective (λ k. or_empty (w.os.env k)) c)
  filled-eq_ok c filled w v e = let known = fill_config_from_environment_lem c w in (cc, cc)

module _ (h : Host) {D : Type 0} where
  -- A new directory is no mount, and no variable.
  mkdir_all-eq_ok :
      (p : Bytes) (w v : World D)
      → must (mkdir_all h p) w ≡ ok tt v
      → (v.os.mounts ≡ w.os.mounts) × (v.os.env ≡ w.os.env)
  unfolding mkdir_all
  mkdir_all-eq_ok p w v e = ground arith

  pub mkdir-eq_ok :
      (p : Bytes) (w v : World D)
      → must (mkdir h p) w ≡ ok tt v
      → (v.os.mounts ≡ w.os.mounts) × (v.os.env ≡ w.os.env)
  unfolding mkdir
  mkdir-eq_ok p w v e = ground arith

  must_or_exist-eq_ok :
      (p : Bytes) (w v : World D)
      → must_or_exist (mkdir h p) w ≡ ok tt v
      → (v.os.mounts ≡ w.os.mounts) × (v.os.env ≡ w.os.env)
  unfolding mkdir
  must_or_exist-eq_ok p w v e = ground arith

  mount-eq_ok :
      (source target : Bytes) (w v : World D)
      → must (mount h source target) w ≡ ok tt v
      → (v.os.mounts ≡ w.os.mounts ++ (source, target) ∷ []) × (v.os.env ≡ w.os.env)
  unfolding mount
  mount-eq_ok source target w v e = ground arith

  pub mount_log_dir-eq_ok :
      (config c : Config) (w v : World D)
      → mount_log_dir h config w ≡ ok c v
      → (c ≡ record config { log_dir = log_seen config.log_dir })
        × (v.os.mounts ≡ w.os.mounts ++ log_mounts (or_empty (w.os.env cwd_var)) config.log_dir)
        × (v.os.env ≡ w.os.env)
  unfolding mount_log_dir
  mount_log_dir-eq_ok config c w v e = of_dir config.log_dir e
    where
      of_dir :
          (dir : Bytes)
          → mount_log_dir h (record config { log_dir = dir }) w ≡ ok c v
          → (c ≡ record config { log_dir = log_seen dir })
            × (v.os.mounts ≡ w.os.mounts ++ log_mounts (or_empty (w.os.env cwd_var)) dir)
            × (v.os.env ≡ w.os.env)
      of_dir [] e =
          let same : v ≡ w = cc in
          (
            cc,
            ap (λ (u : World D). u.os.mounts) same ∙ ++-nil_pairs w.os.mounts,
            ap (λ (u : World D). u.os.env) same,
          )
      of_dir (x ∷ dir) e = on_ok (enclave_abs_path (x ∷ dir)) _ w e λ abs w1 e1 r1.
          on_ok (host_path abs) _ w1 r1 λ p w2 e2 r2.
            on_ok (must (mkdir_all h p)) _ w2 r2 λ _ w3 e3 r3.
              on_ok (must (mount h abs (text "/log"))) _ w3 r3 λ _ w4 e4 r4.
                let (s1, is_abs) = enclave_abs_path-eq_ok (x ∷ dir) abs w w1 e1 in
                let s2 : w2 ≡ w = host_path-eq_ok abs p w1 w2 e2 ∙ s1 in
                let (m3, n3) = mkdir_all-eq_ok p w2 w3 e3 in
                let (m4, n4) = mount-eq_ok abs (text "/log") w3 w4 e4 in
                let s5 : v ≡ w4 = cc in
                (
                  cc,
                  ap (λ (u : World D). u.os.mounts) s5
                      ∙ m4
                      ∙ ap (λ l. l ++ (abs, text "/log") ∷ [])
                          (m3 ∙ ap (λ (u : World D). u.os.mounts) s2)
                      ∙ ap (λ q. w.os.mounts ++ (q, text "/log") ∷ []) is_abs,
                  ap (λ (u : World D). u.os.env) s5 ∙ n4 ∙ n3 ∙ ap (λ (u : World D). u.os.env) s2,
                )

  pub mount_rocksdb_dir-eq_ok :
      (dir : Bytes) (w v : World D)
      → mount_rocksdb_dir h dir w ≡ ok tt v
      → (v.os.mounts ≡ w.os.mounts ++ data_mounts true dir) × (v.os.env ≡ w.os.env)
  unfolding mount_rocksdb_dir
  mount_rocksdb_dir-eq_ok dir w v e = on_ok (host_path dir) _ w e λ p w1 e1 r1.
      on_ok (must (mkdir_all h p)) _ w1 r1 λ _ w2 e2 r2.
        let s1 : w1 ≡ w = host_path-eq_ok dir p w w1 e1 in
        let (m2, n2) = mkdir_all-eq_ok p w1 w2 e2 in
        let (m3, n3) = mount-eq_ok _ _ w2 v r2 in
        (
          m3 ∙ ap (λ l. l ++ data_mounts true dir) (m2 ∙ ap (λ (u : World D). u.os.mounts) s1),
          n3 ∙ n2 ∙ ap (λ (u : World D). u.os.env) s1,
        )

  mount_persistence_dir-eq_ok :
      (dir : Bytes) (w v : World D)
      → mount_persistence_dir h dir w ≡ ok tt v
      → v.os.mounts ≡ w.os.mounts ++ persistence_mount dir ∷ []
  unfolding mount_persistence_dir
  mount_persistence_dir-eq_ok dir w v e =
      on_ok
        (must (
          mount h (join_path (dir ∷ persistence_dir ∷ []))
            (join_path (text "/data" ∷ persistence_dir ∷ []))))
        _ w e
        λ _ w1 e1 r1. on_ok (host_path dir) _ w1 r1 λ p w2 e2 r2.
          let (m1, n1) = mount-eq_ok _ _ w w1 e1 in
          let s2 : w2 ≡ w1 = host_path-eq_ok dir p w1 w2 e2 in
          let (m3, n3) = must_or_exist-eq_ok _ w2 v r2 in
          m3 ∙ ap (λ (u : World D). u.os.mounts) s2 ∙ m1

  pub data_dirs-eq_ok :
      (marble : Bool) (dir : Bytes) (w u v : World D)
      → mount_rocksdb_dir h dir w ≡ ok tt u
      → when (not marble) (mount_persistence_dir h dir) u ≡ ok tt v
      → v.os.mounts ≡ w.os.mounts ++ data_mounts marble dir
  data_dirs-eq_ok true dir w u v e f =
      let same : v ≡ u = cc in
      ap (λ (x : World D). x.os.mounts) same ∙ (mount_rocksdb_dir-eq_ok dir w u e).0
  data_dirs-eq_ok false dir w u v e f =
      mount_persistence_dir-eq_ok dir u v f
      ∙ ap (λ l. l ++ persistence_mount dir ∷ []) (mount_rocksdb_dir-eq_ok dir w u e).0
      ∙ ++-assoc_pairs w.os.mounts (data_mounts true dir) (persistence_mount dir ∷ [])
