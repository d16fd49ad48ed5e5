-- ===== src/Rt/Mock.antt =====
-- edb/rt/mock.go: the runtime that the tests use.
use edgelessdb.Prelude.{false, ◌&&◌, not, Bytes, [], ◌∷◌, length, ltb, leb, if◌then◌else◌}
use edgelessdb.World.{Host, Result, val, exc, library}

-- `GetRemoteReport`, of data of 1 to 64 bytes
abbrev pub get_remote_report : Bytes → Result Bytes
get_remote_report report_data =
    if not (ltb 0 (length report_data) && leb (length report_data) 64)
    then exc (library [])
    else val (2 ∷ 3 ∷ 4 ∷ [])

-- `RuntimeMock`: the rest of the host is that of `h`.
abbrev pub runtime_mock : Host → Host
runtime_mock h = record h {
  is_enclave = false;
  remote_report = get_remote_report;
  product_seal_key = val (3 ∷ 4 ∷ 5 ∷ []);
}
