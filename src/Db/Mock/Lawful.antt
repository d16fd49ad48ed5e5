-- ===== src/Db/Mock/Lawful.antt =====
-- The tests' database (edb/db/mock.go) keeps the laws that `Core` relies on.
use edgelessdb.Prelude.{refl, arith, Option, Bytes}
use edgelessdb.World.{Host, Manifest, Error}
use edgelessdb.World.Tame.{IsTame, to-IsTame, tame}
use edgelessdb.Db.Interface.{IsSeparate, IsLively}
use edgelessdb.Db.Util.{create_certificate}
use edgelessdb.Db.Mock.{get_certificate, initialize, database_mock}

module _ (h : Host) (json_unmarshal : Bytes → Manifest → Manifest × Option Error) where
  get_certificate-IsTame : IsTame (get_certificate h json_unmarshal)
  unfolding get_certificate create_certificate
  get_certificate-IsTame = search tame depth 12

  initialize-IsTame : (m : Bytes) → IsTame (initialize h json_unmarshal m)
  unfolding initialize
  initialize-IsTame m = to-IsTame _ (λ w. ground arith)

  pub database_mock-IsSeparate : IsSeparate (database_mock h json_unmarshal)
  database_mock-IsSeparate = record {
    get_certificate-core = get_certificate-IsTame.keeps.kept;
    initialize-core = λ m. (initialize-IsTame m).keeps.kept;
    start-core = λ w. refl;
  }

  pub database_mock-IsLively : IsLively (database_mock h json_unmarshal)
  database_mock-IsLively = record {
    get_certificate-goes_on = get_certificate-IsTame.moves;
    initialize-goes_on = λ m. (initialize-IsTame m).moves;
    start-goes_on = record { goes_on = λ w. refl };
  }
