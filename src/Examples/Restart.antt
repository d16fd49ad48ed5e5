-- ===== src/Examples/Restart.antt =====
-- A manifest that is applied and then run, on a MariaDB that keeps one row.
use edgelessdb.Prelude.{Option, none, some, Bytes, [], ◌∷◌}
use edgelessdb.World.{
  World, Host, Disk, Entry, file, dir, put, set_disk, Row, Result, val, exc, library, after,
}
use edgelessdb.Db.Mariadb.Config.{Mariadb, internal_file, filename_bootstrap_log}
use edgelessdb.Db.Mariadb.Bootstrap.{bootstrap, initialize}
use edgelessdb.Db.Mariadb.Startup.{database_dir, start}
use edgelessdb.Examples.Objects.{mock_host}
use edgelessdb.Examples.Databases.{fresh, mock_mariadb}

abbrev pub stored_row : Row
stored_row = record { cert = 6 ∷ []; key = 4 ∷ []; manifest = 5 ∷ [] }

-- The row is there once the directory of RocksDB is.
abbrev pub row_at : Option Entry → Option Row
row_at none = none
row_at (some e) = some stored_row

abbrev pub marker : Bytes
marker = 47 ∷ 100 ∷ 47 ∷ 35 ∷ 114 ∷ 111 ∷ 99 ∷ 107 ∷ 115 ∷ 100 ∷ 98 ∷ []

abbrev pub row : Disk → Option Row
row disk = row_at (disk marker)

abbrev pub answer : Option Row → Result Row
answer none = exc (library [])
answer (some r) = val r

abbrev pub storing_host : Host
storing_host = record mock_host {
  bootstrap = λ cnf disk. (
    0,
    put marker (file []) (
        put (database_dir mock_mariadb) dir
          (put (internal_file mock_mariadb filename_bootstrap_log) (file []) disk)),
  );
  query_config = λ address disk. answer (row disk);
}

abbrev applied : World Mariadb
applied = after (initialize storing_host [] (5 ∷ []) fresh)

-- The next process, on the disk that is left.
abbrev next : World Mariadb
next = set_disk applied.os.disk fresh

abbrev running : World Mariadb
running = after (start storing_host next)
