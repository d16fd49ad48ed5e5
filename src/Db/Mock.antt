-- ===== src/Db/Mock.antt =====
-- edb/db/mock.go: the database that the tests use.
pub mod Lawful
use edgelessdb.Prelude.{Option, none, Bytes, []}
use edgelessdb.World.{
  Host, Manifest, Error, M, ok, PrivateKey, ◌>>=◌, ◌>>◌, must, fault, modify, get,
}
use edgelessdb.Db.Interface.{Database}
use edgelessdb.Db.Util.{create_certificate}

-- `DatabaseMock`, by its field `Man`; `json_unmarshal` is `json.Unmarshal` into it: what it leaves
-- there, and its error.
module _ (h : Host) (json_unmarshal : Bytes → Manifest → Manifest × Option Error) where
  -- `GetCertificate`
  unfoldable pub get_certificate : M Manifest (Bytes × PrivateKey)
  unfolding create_certificate
  get_certificate = must (create_certificate h [])

  -- `Initialize`
  unfoldable pub initialize : Bytes → M Manifest (Unit {0})
  initialize json_manifest = do
    w ← get
    let (man, failure) = json_unmarshal json_manifest w.db
    modify (λ v. record v { db = man })
    fault failure

  -- `Start`
  abbrev pub start : M Manifest (Unit {0})
  start w = ok tt w

  -- `GetManifestSignature`
  abbrev pub get_manifest_signature : Manifest → Option Bytes
  get_manifest_signature d = none

  abbrev pub database_mock : Database Manifest
  database_mock = record {
    get_certificate = get_certificate;
    initialize = initialize;
    start = start;
    get_manifest_signature = get_manifest_signature;
  }
