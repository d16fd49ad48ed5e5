-- ===== src/World/External.antt =====
-- What src/ calls and does not implement: the enclave runtime, cryptography and encodings, the
-- faults of the operating system, and mariadbd.
use edgelessdb.Prelude.{ℕ, Bool, Option, String, List, Bytes}
use edgelessdb.World.Errors.{Error}
use edgelessdb.World.Memory.{Disk}
use edgelessdb.World.Monad.{Result}

-- A `crypto.PrivateKey` by its dynamic type, with the key's size in bits and its contents.
pub data PrivateKey : Type 0 where
  rsa : ℕ → Bytes → PrivateKey
  ecdsa : ℕ → Bytes → PrivateKey
  other_key : Bytes → PrivateKey

-- What `x509.ParsePKIXPublicKey` gives: an RSA key or one of another kind.
pub data PublicKey : Type 0 where
  rsa_public : Bytes → PublicKey
  other_public : PublicKey

-- edb/db/interface.go: `manifest`
pub record Manifest : Type 0 where
  pub sql : List Bytes
  pub ca : Bytes
  pub debug : Bool

-- The row of the table `$edgeless.config`.
pub record Row : Type 0 where
  pub cert : Bytes
  pub key : Bytes
  pub manifest : Bytes

pub data Lifetime : Type 0 where
  hours years : ℕ → Lifetime

-- The template that a certificate is made from, as far as the program sets it: the organization,
-- the DNS name (also the common name), the IP addresses, the lifetime from now, a CA or not.
pub record Template : Type 0 where
  pub serial : Bytes
  pub organization : Bytes
  pub dns_name : Bytes
  pub ips : List Bytes
  pub lifetime : Lifetime
  pub is_ca : Bool

-- `mariadbd.Main` on a regular start: it listens on the internal address, or it returns, or neither.
pub data Startup : Type 0 where
  listening : Disk → Startup
  returned : ℕ → Startup
  silent : Startup

pub record Host : Type 0 where
  -- rt.Runtime and ego's ecrypto
  pub is_enclave : Bool
  pub remote_report : Bytes → Result Bytes
  pub product_seal_key : Result Bytes
  pub seal : Bytes → Result Bytes
  pub unseal : Bytes → Result Bytes
  -- crypto/rand: the bytes of the k-th draw, for a buffer of a size; the time of the k-th call,
  -- in the layout 20060102150405
  pub random : ℕ → ℕ → Result Bytes
  pub now : ℕ → Bytes
  -- faults of the operating system: the error of an operation on a path, if it has one
  pub read_fault : Bytes → Option Error
  pub write_fault : Bytes → Option Error
  pub stat_fault : Bytes → Option Error
  pub mkdir_fault : Bytes → Option Error
  pub remove_fault : Bytes → Option Error
  pub setenv_fault : String → Option Error
  pub mount_fault : Bytes → Option Error
  pub restore_fault : Option Error
  pub dial_fault : Option Error
  -- the working directory, and the name of a new directory for temporary files
  pub getwd : Result Bytes
  pub temp_dir : ℕ → Result Bytes
  -- the order in which `range` goes through a map
  pub range_order : List (Bytes × Bytes) → List (Bytes × Bytes)
  -- encoding/json, into the field `Recovery` and into a manifest
  pub json_recovery : Bytes → Result Bytes
  pub json_manifest : Bytes → Result Manifest
  -- encoding/pem: a block of a type, and the bytes of the first block
  pub pem_encode : String → Bytes → Bytes
  pub pem_decode : Bytes → Option Bytes
  -- crypto: the draw's number comes first where a call is random
  pub sha256 : Bytes → Bytes
  pub parse_pkix : Bytes → Result PublicKey
  pub encrypt_oaep : ℕ → Bytes → Bytes → Result Bytes
  pub serial : ℕ → Result Bytes
  pub parse_certificate : Bytes → Result Bool
  pub generate_key : ℕ → Result PrivateKey
  pub sign : Template → Bytes → PrivateKey → PrivateKey → Result Bytes
  pub self_sign : Template → PrivateKey → Result Bytes
  pub marshal_pkcs8 : PrivateKey → Result Bytes
  pub parse_pkcs8 : Bytes → Result PrivateKey
  -- mariadbd: a bootstrap with a configuration file ends with a code and a new disk; a start;
  -- whether a server that was told to go on says that it has started; and what
  -- `SELECT * from $edgeless.config` gives at an address
  pub bootstrap : Bytes → Disk → ℕ × Disk
  pub startup : Bytes → Disk → Startup
  pub comes_up : Disk → Bool
  pub query_config : Bytes → Disk → Result Row
