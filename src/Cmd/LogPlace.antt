-- ===== src/Cmd/LogPlace.antt =====
-- Where `determineError` (cmd/edb/error.go) looks, against the configuration (edb/core/config.go).
use edgelessdb.Prelude.{
  ◌≡◌, ◌≢◌, refl, arith, true, false, some, Bytes, [], ◌∷◌, ◌||◌, not, is_empty,
}
use edgelessdb.World.{Config, World, Host, M, ok, or_empty}
use edgelessdb.Core.Environment.{debug_var, log_dir_var, fill_config_from_environment}
use edgelessdb.Core.Environment.Fill.{effective, or_default, fill_config_from_environment_lem}
use edgelessdb.Cmd.Diagnosis.{error_log_place}

module _ (h : Host) {D : Type 0} (internal_path : Bytes) (host_path : Bytes → M D Bytes) where
  -- With a log directory and no value for the debug variable, the configuration has the debug mode
  -- on and that log directory, but the error log is looked for in the internal directory, and the
  -- user is not pointed to it.
  pub error_log_place_of_log_dir :
      (c : Config) (w : World D)
      → or_empty (w.os.env debug_var) ≡ []
      → or_empty (w.os.env log_dir_var) ≢ []
      → ((filled : Config) × (fill_config_from_environment c w ≡ ok filled w)
          × (filled.debug ≡ true)
          × (filled.log_dir ≡ or_empty (w.os.env log_dir_var)))
        × (error_log_place h internal_path host_path w ≡ ok (some (internal_path, false)) w)
  unfolding error_log_place
  error_log_place_of_log_dir c w quiet logged =
      let (on, kept) = with_log_dir (or_empty (w.os.env log_dir_var)) logged in
      (
        (effective (λ k. or_empty (w.os.env k)) c, fill_config_from_environment_lem c w, on, kept),
        ground arith,
      )
    where
      with_log_dir :
          (dir : Bytes)
          → dir ≢ []
          → (((c.debug || not (is_empty (or_empty (w.os.env debug_var)))) || not (is_empty dir))
              ≡ true)
            × (or_default dir c.log_dir ≡ dir)
      with_log_dir [] e = elim (e refl) [ ]
      with_log_dir (x ∷ dir) e = (ground arith, refl)
