-- ===== src/World/Memory.antt =====
-- The state: the operating system, the `Core` object of edb/core/core.go and the database object.
use edgelessdb.Prelude.{ℕ, Bool, Option, none, some, List, String, Bytes, bytes_eq, if◌then◌else◌}

pub data Entry : Type 0 where
  dir : Entry
  file : Bytes → Entry

-- Files and directories by their path.
abbrev pub Disk : Type 0
Disk = Bytes → Option Entry

abbrev pub put : Bytes → Entry → Disk → Disk
put p e disk q = if bytes_eq q p then some e else disk q

abbrev pub erase : Bytes → Disk → Disk
erase p disk q = if bytes_eq q p then none else disk q

-- The environment variables, the disk, a counter of the calls for random bytes and for the time,
-- what was printed on purpose, whether a restart of the host process is due, and the directories of
-- the host that were mounted, each with the path that it is seen at.
pub record Os : Type 0 where
  pub env : String → Option Bytes
  pub disk : Disk
  pub ticks : ℕ
  pub printed : List Bytes
  pub restart_due : Bool
  pub mounts : List (Bytes × Bytes)

-- edb/core/config.go: `Config`
pub record Config : Type 0 where
  pub data_path : Bytes
  pub database_address : Bytes
  pub api_address : Bytes
  pub certificate_dns_name : Bytes
  pub debug : Bool
  pub log_dir : Bytes
  pub manifest_file_path : Bytes

-- The sequence of states that EDB may be in.
pub data State : Type 0 where
  uninitialized recovery initialized state_max : State

-- The objects behind the fields `rt`, `db` and `fs` are parameters or stand beside this record.
pub record Core : Type 0 where
  pub state : State
  pub cfg : Config
  pub locked : Bool
  pub report : Bytes
  pub is_marble : Bool
  pub master_key : Bytes

-- `D` is the state of the database object that `Core` holds.
pub record World (D : Type 0) : Type 0 where
  pub os : Os
  pub core : Core
  pub db : D
