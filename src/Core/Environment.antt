-- ===== src/Core/Environment.antt =====
-- edb/core/config.go: the configuration, from defaults and the environment.
pub mod Fill
use edgelessdb.Prelude.{true, String, Bytes, [], ◌∷◌}
use edgelessdb.World.{Config, World, M, ◌>>=◌, pure, getenv}

-- The names of the variables, in the order of the source.
abbrev pub data_path_var : String
data_path_var = "EDG_EDB_DATA_PATH"

abbrev pub database_address_var : String
database_address_var = "EDG_EDB_DATABASE_ADDR"

abbrev pub api_address_var : String
api_address_var = "EDG_EDB_API_ADDR"

abbrev pub certificate_dns_name_var : String
certificate_dns_name_var = "EDG_EDB_CERT_DNS"

abbrev pub debug_var : String
debug_var = "EDG_EDB_DEBUG"

abbrev pub log_dir_var : String
log_dir_var = "EDG_EDB_LOG_DIR"

abbrev pub manifest_file_var : String
manifest_file_var = "EDG_EDB_MANIFEST_FILE"

-- One `if env != "" { ... }`: a change of the configuration that is skipped for an empty value.
abbrev pub override : Bytes → (Config → Config) → Config → Config
override [] change c = c
override (x ∷ value) change c = change c

module _ {D : Type 0} where
  -- `FillConfigFromEnvironment`
  unfoldable pub fill_config_from_environment : Config → M D Config
  fill_config_from_environment config = do
    data_path ← getenv data_path_var
    database_address ← getenv database_address_var
    api_address ← getenv api_address_var
    dns_name ← getenv certificate_dns_name_var
    debug ← getenv debug_var
    log_dir ← getenv log_dir_var
    manifest_file ← getenv manifest_file_var
    let c1 = override data_path (λ c. record c { data_path = data_path }) config
    let c2 = override database_address (λ c. record c { database_address = database_address }) c1
    let c3 = override api_address (λ c. record c { api_address = api_address }) c2
    let c4 = override dns_name (λ c. record c { certificate_dns_name = dns_name }) c3
    let c5 = override debug (λ c. record c { debug = true }) c4
    let c6 = override log_dir (λ c. record c { log_dir = log_dir; debug = true }) c5
    let c7 = override manifest_file (λ c. record c { manifest_file_path = manifest_file }) c6
    pure c7
