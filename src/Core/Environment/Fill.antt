-- ===== src/Core/Environment/Fill.antt =====
-- `FillConfigFromEnvironment` (edb/core/config.go): which value wins.
use edgelessdb.Prelude.{
  ◌≡◌, refl, ap, arith, Bool, true, false, ◌||◌, not, is_empty, Bytes, [], ◌∷◌, String,
}
use edgelessdb.World.{Config, World, ok, or_empty}
use edgelessdb.Core.Environment.{
  data_path_var, database_address_var, api_address_var, certificate_dns_name_var, debug_var,
  log_dir_var, manifest_file_var, fill_config_from_environment, override,
}

-- A value that is not empty, or the one to fall back on.
abbrev pub or_default : Bytes → Bytes → Bytes
or_default [] fallback = fallback
or_default (x ∷ value) _ = x ∷ value

-- The configuration that the environment `env` and the defaults `c` give, field by field.
abbrev pub effective : (String → Bytes) → Config → Config
effective env c = record {
  data_path = or_default (env data_path_var) c.data_path;
  database_address = or_default (env database_address_var) c.database_address;
  api_address = or_default (env api_address_var) c.api_address;
  certificate_dns_name = or_default (env certificate_dns_name_var) c.certificate_dns_name;
  debug = (c.debug || not (is_empty (env debug_var))) || not (is_empty (env log_dir_var));
  log_dir = or_default (env log_dir_var) c.log_dir;
  manifest_file_path = or_default (env manifest_file_var) c.manifest_file_path;
}

override-data_path :
    (v : Bytes) (c : Config)
    → override v (λ (x : Config). record x { data_path = v }) c
      ≡ record c { data_path = or_default v c.data_path }
override-data_path [] c = refl
override-data_path (x ∷ v) c = refl

override-database_address :
    (v : Bytes) (c : Config)
    → override v (λ (x : Config). record x { database_address = v }) c
      ≡ record c { database_address = or_default v c.database_address }
override-database_address [] c = refl
override-database_address (x ∷ v) c = refl

override-api_address :
    (v : Bytes) (c : Config)
    → override v (λ (x : Config). record x { api_address = v }) c
      ≡ record c { api_address = or_default v c.api_address }
override-api_address [] c = refl
override-api_address (x ∷ v) c = refl

override-certificate_dns_name :
    (v : Bytes) (c : Config)
    → override v (λ (x : Config). record x { certificate_dns_name = v }) c
      ≡ record c { certificate_dns_name = or_default v c.certificate_dns_name }
override-certificate_dns_name [] c = refl
override-certificate_dns_name (x ∷ v) c = refl

override-manifest_file_path :
    (v : Bytes) (c : Config)
    → override v (λ (x : Config). record x { manifest_file_path = v }) c
      ≡ record c { manifest_file_path = or_default v c.manifest_file_path }
override-manifest_file_path [] c = refl
override-manifest_file_path (x ∷ v) c = refl

or_false : (b : Bool) → b ≡ (b || false)
or_false b = ground arith

or_true : (b : Bool) → true ≡ (b || true)
or_true b = ground arith

override-debug :
    (v : Bytes) (c : Config)
    → override v (λ (x : Config). record x { debug = true }) c
      ≡ record c { debug = c.debug || not (is_empty v) }
override-debug [] c = ap (λ b. record c { debug = b }) (or_false c.debug)
override-debug (x ∷ v) c = ap (λ b. record c { debug = b }) (or_true c.debug)

override-log_dir :
    (v : Bytes) (c : Config)
    → override v (λ (x : Config). record x { log_dir = v; debug = true }) c
      ≡ record c { log_dir = or_default v c.log_dir; debug = c.debug || not (is_empty v) }
override-log_dir [] c = ap (λ b. record c { debug = b }) (or_false c.debug)
override-log_dir (x ∷ v) c = ap (λ b. record c { log_dir = x ∷ v; debug = b }) (or_true c.debug)

module _ {D : Type 0} where
  -- The configuration is made field by field: a variable that is set to a value wins over the
  -- default, one that is empty or not set does not, and the debug mode is on if the default has it
  -- on or a value is set for it or for the log directory. Nothing else is changed.
  pub fill_config_from_environment_lem :
      (c : Config) (w : World D)
      → fill_config_from_environment c w ≡ ok (effective (λ k. or_empty (w.os.env k)) c) w
  unfolding fill_config_from_environment
  fill_config_from_environment_lem c w = rw (
    override-data_path, override-database_address, override-api_address,
    override-certificate_dns_name, override-debug, override-log_dir, override-manifest_file_path,
  )
