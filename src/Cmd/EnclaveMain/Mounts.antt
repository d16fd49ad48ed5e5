-- ===== src/Cmd/EnclaveMain/Mounts.antt =====
-- `main` in the enclave (cmd/edb/enclavemain.go): which directories of the host the node sees, and where.
use edgelessdb.Prelude.{Option, ◌≡◌, ◌∙◌, refl, ap, Bool, not, String, Bytes, [], ◌∷◌, ◌++◌, text}
use edgelessdb.Std.FilePath.{join_path}
use edgelessdb.World.{◌>>=◌, ◌>>◌, World, Config, Host, M, ok, on_ok, must, or_empty, mkdir, when}
use edgelessdb.Core.Environment.{fill_config_from_environment}
use edgelessdb.Core.Environment.Fill.{effective}
use edgelessdb.Core.Key.{rocksdb_path, persistence_path}
use edgelessdb.Cmd.Paths.{cwd_var, enclave_abs_path}
use edgelessdb.Cmd.EnclaveMain.{
  internal_path, defaults, persistence_dir, mount_log_dir, mount_rocksdb_dir, mount_persistence_dir,
  mount_data_dirs, set_up,
}
use edgelessdb.Cmd.EnclaveMain.Directories.{
  absolute, log_mounts, log_seen, data_mounts, enclave_abs_path-eq_ok, filled-eq_ok, mkdir-eq_ok,
  mount_log_dir-eq_ok, data_dirs-eq_ok,
}

rocksdb_joined : join_path (text "/data" ∷ text "#rocksdb" ∷ []) ≡ text "/data/#rocksdb"
unfolding join_path text
rocksdb_joined = refl

module _ (h : Host) {D : Type 0} where
  mount_data_dirs-eq_ok :
      (marble : Bool) (c config : Config) (w v : World D)
      → mount_data_dirs h marble c w ≡ ok config v
      → (config ≡ record c { data_path = text "/data" })
        × (v.os.mounts
            ≡ w.os.mounts
              ++ data_mounts marble (absolute (or_empty (w.os.env cwd_var)) c.data_path))
  unfolding mount_data_dirs
  mount_data_dirs-eq_ok marble c config w v e =
      on_ok (enclave_abs_path c.data_path) _ w e λ dir w1 e1 r1.
        on_ok (mount_rocksdb_dir h dir) _ w1 r1 λ _ w2 e2 r2.
          on_ok (when (not marble) (mount_persistence_dir h dir)) _ w2 r2 λ _ w3 e3 r3.
            let (s1, d1) = enclave_abs_path-eq_ok c.data_path dir w w1 e1 in
            let m3 = data_dirs-eq_ok h marble dir w1 w2 w3 e2 e3 in
            let last : v ≡ w3 = cc in
            (
              cc,
              ap (λ (u : World D). u.os.mounts) last
                  ∙ m3
                  ∙ ap (λ (u : World D). u.os.mounts ++ data_mounts marble dir) s1
                  ∙ ap (λ d. w.os.mounts ++ data_mounts marble d) d1,
            )

  -- Where `main` in the enclave gets to `run`, the configuration is that of the environment and the
  -- defaults, with the paths of the enclave in it, and the mounts that were added are those of the
  -- log directory, if one is set, of RocksDB's directory and, on no Marble, of the directory of the
  -- sealed key; a relative path is one below the host's working directory. The paths at which `Core`
  -- looks for RocksDB and for its key are the places of these mounts.
  pub set_up-eq_ok :
      (marble : Bool) (config : Config) (w v : World D)
      → set_up h marble w ≡ ok config v
      → (config ≡ record (effective (λ k. or_empty (w.os.env k)) defaults) {
        data_path = text "/data";
        log_dir = log_seen (effective (λ k. or_empty (w.os.env k)) defaults).log_dir;
      })
        × (v.os.mounts
            ≡ w.os.mounts
              ++ log_mounts
                  (or_empty (w.os.env cwd_var))
                  (effective (λ k. or_empty (w.os.env k)) defaults).log_dir
              ++ data_mounts marble (
                  absolute
                    (or_empty (w.os.env cwd_var))
                    (effective (λ k. or_empty (w.os.env k)) defaults).data_path))
        × (rocksdb_path config ≡ text "/data/#rocksdb")
        × (persistence_path config ≡ join_path (text "/data" ∷ persistence_dir ∷ []))
  unfolding set_up rocksdb_path persistence_path
  set_up-eq_ok marble config w v e =
      let env : String → Bytes = λ k. or_empty (w.os.env k) in
      let cwd : Bytes = or_empty (w.os.env cwd_var) in
      let dirs : Config → M D Config = mount_data_dirs h marble in
      on_ok (fill_config_from_environment defaults)
        (λ filled. must (mkdir h internal_path) >> (mount_log_dir h filled >>= dirs)) w e
        λ filled w1 e1 r1.
          on_ok (must (mkdir h internal_path)) (λ _. mount_log_dir h filled >>= dirs) w1 r1
            λ _ w2 e2 r2. on_ok (mount_log_dir h filled) dirs w2 r2 λ c w3 e3 r3.
              let (s1, f1) = filled-eq_ok defaults filled w w1 e1 in
              let (m2, n2) = mkdir-eq_ok h internal_path w1 w2 e2 in
              let (c3, m3, n3) = mount_log_dir-eq_ok h filled c w2 w3 e3 in
              let (made, m4) = mount_data_dirs-eq_ok marble c config w3 v r3 in
              let n : w2.os.env ≡ w.os.env = n2 ∙ ap (λ (u : World D). u.os.env) s1 in
              let c4 : c ≡ record (effective env defaults) {
                log_dir = log_seen (effective env defaults).log_dir;
              } =
                c3 ∙ ap (λ (x : Config). record x { log_dir = log_seen x.log_dir }) f1 in
              let logs : w3.os.mounts
                  ≡ w.os.mounts ++ log_mounts cwd (effective env defaults).log_dir =
                m3
                ∙ ap (λ l. l ++ log_mounts (or_empty (w2.os.env cwd_var)) filled.log_dir)
                    (m2 ∙ ap (λ (u : World D). u.os.mounts) s1)
                ∙ ap
                    (λ (x : String → Option Bytes).
                      w.os.mounts ++ log_mounts (or_empty (x cwd_var)) filled.log_dir)
                    n
                ∙ ap (λ (x : Config). w.os.mounts ++ log_mounts cwd x.log_dir) f1 in
              let f : config ≡ record (effective env defaults) {
                data_path = text "/data";
                log_dir = log_seen (effective env defaults).log_dir;
              } =
                made ∙ ap (λ (x : Config). record x { data_path = text "/data" }) c4 in
              (
                f,
                m4
                    ∙ ap
                        (λ l.
                          l
                          ++ data_mounts marble
                              (absolute (or_empty (w3.os.env cwd_var)) c.data_path))
                        logs
                    ∙ ap
                        (λ (x : String → Option Bytes).
                          w.os.mounts
                          ++ log_mounts cwd (effective env defaults).log_dir
                          ++ data_mounts marble (absolute (or_empty (x cwd_var)) c.data_path))
                        (n3 ∙ n)
                    ∙ ap
                        (λ (x : Config).
                          w.os.mounts
                          ++ log_mounts cwd (effective env defaults).log_dir
                          ++ data_mounts marble (absolute cwd x.data_path))
                        c4,
                ap rocksdb_path f ∙ rocksdb_joined,
                ap persistence_path f,
              )
