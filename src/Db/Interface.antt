-- ===== src/Db/Interface.antt =====
-- edb/db/interface.go: what `Core` knows of its database, and what it relies on.
use edgelessdb.Prelude.{◌≡◌, Option, Bytes}
use edgelessdb.World.Progress.{NeverStuck}
use edgelessdb.World.{World, M, PrivateKey, after}

pub record Database (D : Type 0) : Type 0 where
  pub get_certificate : M D (Bytes × PrivateKey)
  pub initialize : Bytes → M D (Unit {0})
  pub start : M D (Unit {0})
  pub get_manifest_signature : D → Option Bytes

-- A database keeps its hands off the fields of the `Core` that calls it, its mutex included.
pub record IsSeparate {D : Type 0} (db : Database D) : Type 0 where
  pub get_certificate-core : (w : World D) → (after (db.get_certificate w)).core ≡ w.core
  pub initialize-core : (m : Bytes) (w : World D) → (after (db.initialize m w)).core ≡ w.core
  pub start-core : (w : World D) → (after (db.start w)).core ≡ w.core

-- A database never waits for a mutex that its own goroutine holds.
pub record IsLively {D : Type 0} (db : Database D) : Type 0 where
  pub get_certificate-goes_on : NeverStuck db.get_certificate
  pub initialize-goes_on : (m : Bytes) → NeverStuck (db.initialize m)
  pub start-goes_on : NeverStuck db.start
