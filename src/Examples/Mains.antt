-- ===== src/Examples/Mains.antt =====
-- The theorems on the two `main` functions at concrete inputs.
use edgelessdb.Prelude.{◌≡◌, ◌⊎◌, refl, some, none, false, Bytes, [], ◌∷◌, ◌++◌, text}
use edgelessdb.Std.FilePath.{join_path, is_abs}
use edgelessdb.World.{
  World, Config, Host, library, val, exc, after, with_env, uninitialized, or_empty, is_below, pure,
}
use edgelessdb.Core.Environment.Fill.{effective}
use edgelessdb.Core.Key.{rocksdb_path, persistence_path}
use edgelessdb.Db.Mariadb.Config.{Mariadb}
use edgelessdb.Cmd.Paths.{cwd_var}
use edgelessdb.Cmd.EnclaveMain
use edgelessdb.Cmd.EnclaveMain.{persistence_dir, set_up}
use edgelessdb.Cmd.EnclaveMain.Directories.{absolute, log_mounts, log_seen, data_mounts}
use edgelessdb.Cmd.EnclaveMain.Mounts.{set_up-eq_ok}
use edgelessdb.Cmd.NativeMain
use edgelessdb.Cmd.NativeMain.{main}
use edgelessdb.Cmd.NativeMain.Sweep.{main-sweeps}
use edgelessdb.Examples.Objects.{mock_host, node}
use edgelessdb.Examples.Databases.{fresh}

-- A process whose working directory on the host is `/h`.
abbrev started : World (Unit {0})
started = with_env cwd_var (47 ∷ 104 ∷ []) (node uninitialized false)

abbrev found : Config
found = effective (λ k. or_empty (started.os.env k)) EnclaveMain.defaults

abbrev seen : Config
seen = record found { data_path = text "/data"; log_dir = log_seen found.log_dir }

abbrev mounted : World (Unit {0})
mounted = after (set_up mock_host false started)

set_up-eq_ok_example :
    (seen ≡ record found { data_path = text "/data"; log_dir = log_seen found.log_dir })
    × (mounted.os.mounts
        ≡ []
          ++ log_mounts (47 ∷ 104 ∷ []) found.log_dir
          ++ data_mounts false (absolute (47 ∷ 104 ∷ []) found.data_path))
    × (rocksdb_path seen ≡ text "/data/#rocksdb")
    × (persistence_path seen ≡ join_path (text "/data" ∷ persistence_dir ∷ []))
unfolding set_up EnclaveMain.mount_log_dir EnclaveMain.mount_data_dirs is_abs text
    EnclaveMain.mount_rocksdb_dir join_path EnclaveMain.mount_persistence_dir
set_up-eq_ok_example = set_up-eq_ok mock_host false seen started mounted refl

-- A host on which no directory can be made.
abbrev no_dirs : Host
no_dirs = record mock_host { mkdir_fault = λ p. some (library []) }

abbrev swept_world : World Mariadb
swept_world = after (main "CA" no_dirs [] (pure tt) false fresh)

main-sweeps_example :
    (no_dirs.temp_dir fresh.os.ticks ≡ exc (library []))
    ⊎ ((p : Bytes) × (no_dirs.temp_dir fresh.os.ticks ≡ val p)
        × ((is_below p (47 ∷ 116 ∷ []) ≡ false) ⊎ (swept_world.os.disk (47 ∷ 116 ∷ []) ≡ none)))
unfolding main NativeMain.host_path is_abs text join_path
main-sweeps_example =
    main-sweeps "CA" no_dirs [] (pure tt) (library []) (47 ∷ 116 ∷ []) fresh swept_world
      (λ p made. refl) refl
