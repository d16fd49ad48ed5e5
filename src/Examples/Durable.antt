-- ===== src/Examples/Durable.antt =====
-- A node whose MariaDB keeps one row, and what it documents.
use edgelessdb.Prelude.{
  ◌≡◌, ap, sym, refl, Option, none, some, Bytes, [], ◌∷◌, false, bytes_eq, text,
}
use edgelessdb.World.{World, Config, Entry, Row, after, ok, write_file, read_file, remove}
use edgelessdb.Std.FilePath.{join_path}
use edgelessdb.Db.Mariadb.Config.{Mariadb, internal_file, write_internal, configure_bootstrap}
use edgelessdb.Db.Mariadb.Bootstrap.{
  found_errors, print_error_log, remove_old_log, run_bootstrap, check_manifest, bootstrap,
  initialize,
}
use edgelessdb.Db.Mariadb.Startup.{database_dir}
use edgelessdb.Core.Key.{key_path, persistence_path}
use edgelessdb.Node.Intact.{
  IsOwn, internal, data_dir, persistence, key_file, backup, ca_file, cert_file, key_pem_file,
  cnf_file, init_file, log_file, IsDurable,
}
use edgelessdb.Examples.Objects.{mock_config}
use edgelessdb.Examples.Databases
use edgelessdb.Examples.Databases.{mock_mariadb}
use edgelessdb.Examples.Restart.{storing_host, row, row_at, marker, stored_row}

abbrev pub internal_dir : Bytes
internal_dir = text "/i"

abbrev pub node_config : Config
node_config = record mock_config { data_path = text "/d"; manifest_file_path = [] }

abbrev pub began : World Mariadb
began = record Databases.fresh { core = record (Databases.fresh.core) { cfg = node_config } }

abbrev pub applied : World Mariadb
applied = after (initialize storing_host [] (5 ∷ []) began)

pub is_applied : initialize storing_host [] (5 ∷ []) began ≡ ok tt applied
unfolding initialize check_manifest configure_bootstrap write_internal write_file bootstrap
    remove_old_log remove run_bootstrap print_error_log read_file internal_file join_path bytes_eq
    found_errors database_dir
is_applied = refl

other_path : (p : Bytes) → IsOwn internal_dir node_config p → bytes_eq marker p ≡ false
unfolding join_path bytes_eq text persistence_path key_path
other_path p (internal name ca_file) = refl
other_path p (internal name cert_file) = refl
other_path p (internal name key_pem_file) = refl
other_path p (internal name cnf_file) = refl
other_path p (internal name init_file) = refl
other_path p (internal name log_file) = refl
other_path p data_dir = refl
other_path p persistence = refl
other_path p key_file = refl
other_path p (backup time) = refl

same_row : (e : Option Entry) (r : Row) → row_at e ≡ some r → some stored_row ≡ some r
same_row none r stored = cc
same_row (some e) r stored = stored

pub storing_host-IsDurable :
    IsDurable storing_host row internal_dir (IsOwn internal_dir node_config)
unfolding bytes_eq text join_path
storing_host-IsDurable = record {
  files = λ name known. internal name known;
  written = λ p e disk own. rw (other_path p own);
  removed = λ p disk own. rw (other_path p own);
  started = λ cnf before after e. let same : before ≡ after = cc in ap row (sym same);
  bootstrapped = λ cnf rest disk r found naming init stored. same_row (disk marker) r stored;
  cnf_apart = refl;
  cnf_no_log = refl;
  init_no_log = refl;
}
