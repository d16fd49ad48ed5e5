-- ===== src/Examples/Objects.antt =====
-- A host whose calls succeed, a state with nothing set, and a database that does nothing.
use edgelessdb.Prelude.{refl, Bool, true, false, Option, none, some, Bytes, [], ◌∷◌, text}
use edgelessdb.World.{
  Host, World, Config, Core, Os, State, Manifest, Row, Result, val, exc, PrivateKey, rsa,
  rsa_public, listening, ok, library, not_initialized_yet, err,
}
use edgelessdb.Db.Mariadb.Startup.{IsResponsive}
use edgelessdb.Db.Interface.{Database, IsSeparate, IsLively}

-- A constant prefix stands for sealing, and another one for PEM.
abbrev pub unseal_mock : Bytes → Result Bytes
unseal_mock (_ ∷ b) = val b
unseal_mock [] = exc (library [])

abbrev pub pem_decode_mock : Bytes → Option Bytes
pem_decode_mock (_ ∷ b) = some b
pem_decode_mock [] = none

abbrev pub sixteen : Bytes
sixteen = 1 ∷ 2 ∷ 3 ∷ 4 ∷ 5 ∷ 6 ∷ 7 ∷ 8 ∷ 9 ∷ 10 ∷ 11 ∷ 12 ∷ 13 ∷ 14 ∷ 15 ∷ 16 ∷ []

abbrev pub some_key : PrivateKey
some_key = rsa 2048 (9 ∷ [])

abbrev pub some_manifest : Manifest
some_manifest = record { sql = []; ca = 8 ∷ []; debug = true }

abbrev pub some_row : Row
some_row = record { cert = 3 ∷ []; key = 4 ∷ []; manifest = 5 ∷ [] }

abbrev pub mock_host : Host
mock_host = record {
  is_enclave = true;
  remote_report = λ b. val b;
  product_seal_key = val [];
  seal = λ b. val (7 ∷ b);
  unseal = unseal_mock;
  random = λ k size. val sixteen;
  now = λ k. 48 ∷ [];
  read_fault = λ p. none;
  write_fault = λ p. none;
  stat_fault = λ p. none;
  mkdir_fault = λ p. none;
  remove_fault = λ p. none;
  setenv_fault = λ k. none;
  mount_fault = λ p. none;
  restore_fault = none;
  dial_fault = none;
  getwd = val (47 ∷ []);
  temp_dir = λ k. val (47 ∷ 116 ∷ []);
  range_order = λ l. l;
  json_recovery = λ b. val b;
  json_manifest = λ b. val some_manifest;
  pem_encode = λ kind b. 45 ∷ b;
  pem_decode = pem_decode_mock;
  sha256 = λ b. 1 ∷ b;
  parse_pkix = λ b. val (rsa_public b);
  encrypt_oaep = λ k n b. val (2 ∷ b);
  serial = λ k. val (k ∷ []);
  parse_certificate = λ b. val true;
  generate_key = λ k. val some_key;
  sign = λ t c k j. val (6 ∷ []);
  self_sign = λ t k. val (6 ∷ []);
  marshal_pkcs8 = λ k. val (4 ∷ []);
  parse_pkcs8 = λ b. val some_key;
  bootstrap = λ cnf disk. (0, disk);
  startup = λ cnf disk. listening disk;
  comes_up = λ disk. true;
  query_config = λ address disk. val some_row;
}

abbrev pub mock_config : Config
mock_config = record {
  data_path = text "data";
  database_address = [];
  api_address = [];
  certificate_dns_name = [];
  debug = true;
  log_dir = [];
  manifest_file_path = text "m";
}

abbrev pub mock_os : Os
mock_os = record {
  env = λ k. none;
  disk = λ p. none;
  ticks = 0;
  printed = [];
  restart_due = false;
  mounts = [];
}

abbrev pub mock_core : State → Bool → Core
mock_core s marble = record {
  state = s;
  cfg = mock_config;
  locked = false;
  report = [];
  is_marble = marble;
  master_key = sixteen;
}

-- A node with a database of no state.
abbrev pub node : State → Bool → World (Unit {0})
node s marble = record { os = mock_os; core = mock_core s marble; db = tt }

-- A database that is not initialized yet.
abbrev pub mock_db : Database (Unit {0})
mock_db = record {
  get_certificate = λ w. ok (6 ∷ [], some_key) w;
  initialize = λ m w. ok tt w;
  start = λ w. err not_initialized_yet w;
  get_manifest_signature = λ d. some (1 ∷ 5 ∷ []);
}

pub mock_db-IsSeparate : IsSeparate mock_db
mock_db-IsSeparate = record {
  get_certificate-core = λ w. refl;
  initialize-core = λ m w. refl;
  start-core = λ w. refl;
}

pub mock_db-IsLively : IsLively mock_db
mock_db-IsLively = record {
  get_certificate-goes_on = record { goes_on = λ w. refl };
  initialize-goes_on = λ m. record { goes_on = λ w. refl };
  start-goes_on = record { goes_on = λ w. refl };
}

pub mock_host-IsResponsive : IsResponsive mock_host
mock_host-IsResponsive = record { listens = λ cnf disk e. cc; comes_up = λ disk. refl }
