-- ===== src/Server/Applied.antt =====
-- From the request that applies a manifest (edb/db/mariadb.go), over the restart of the process, to
-- the requests that the next process serves (edb/core/core.go, edb/server/server.go).
use edgelessdb.Prelude.{◌≡◌, ◌∙◌, ap, false, Option, List, [], Bytes, String, bytes_eq}
use edgelessdb.Std.Hex.{encode_to_string}
use edgelessdb.World.{World, Core, Disk, Host, Row, Error, Result, ok, initialized}
use edgelessdb.Db.Mariadb.Config.{
  Mariadb, internal_file, filename_cnf, filename_init, filename_bootstrap_log,
}
use edgelessdb.Db.Mariadb.Bootstrap.{initialize}
use edgelessdb.Db.Mariadb.Startup.{start, mariadb}
use edgelessdb.Db.Mariadb.Separate.{mariadb-IsSeparate}
use edgelessdb.Db.Mariadb.Restart.{KeepsTables, start-initialize}
use edgelessdb.Core.Certificate.{generate_report}
use edgelessdb.Core.Quote.{generated}
use edgelessdb.Server.Response.{Reply, no_response, write_body}
use edgelessdb.Server.Handlers.{Request, signature_handler}
use edgelessdb.Server.Schedule.{Pc, Reach}
use edgelessdb.Server.Schedule.Once.{count_applied}
use edgelessdb.Server.Schedule.Signature.{signature_stays}

module _ (root_ca_var : String) (h : Host) (error_text : Error → Bytes)
    (json_marshal : Reply → Result Bytes) (bootstrap_sql : Bytes) (row : Disk → Option Row) where
  -- A client that has had a manifest applied without an error reads the hash of that manifest from
  -- `/signature` of the next process, at each moment and in hex, and no request of the next process
  -- applies another manifest. The next process is in the state initialized and has its mutex free when
  -- it starts the database, finds the data directory as the bootstrap has left it, and gets without an
  -- error to the report that is made behind the start. MariaDB does what it documents, and the paths of
  -- the files for the bootstrap differ.
  pub signature_of_applied :
      (manifest : Bytes) (r : Request) (w w' v v' u x : World Mariadb) (ps : List Pc)
      → bytes_eq (internal_file w.db filename_cnf) (internal_file w.db filename_init) ≡ false
      → bytes_eq (internal_file w.db filename_cnf) (internal_file w.db filename_bootstrap_log)
        ≡ false
      → bytes_eq (internal_file w.db filename_init) (internal_file w.db filename_bootstrap_log)
        ≡ false
      → initialize h bootstrap_sql manifest w ≡ ok tt w'
      → KeepsTables h row manifest w.db v.db
      → row v.os.disk ≡ row w'.os.disk
      → v.core.locked ≡ false
      → v.core.state ≡ initialized
      → start h v ≡ ok tt v'
      → generate_report root_ca_var h (mariadb h bootstrap_sql) v' ≡ ok tt u
      → Reach root_ca_var h error_text json_marshal (mariadb h bootstrap_sql) u [] x ps
      → (count_applied ps ≡ 0)
        × (x.db.cert ≡ w.db.cert)
        × (signature_handler root_ca_var h error_text json_marshal (mariadb h bootstrap_sql) r x
            ≡ ok (write_body (encode_to_string (h.sha256 manifest)) no_response) x)
  signature_of_applied manifest r w w' v v' u x ps ne_init ne_log ne_log' applied tables same free
        up started reported path =
      let (sig, cert, _, _) =
        start-initialize h bootstrap_sql row manifest w w' v v' ne_init ne_log ne_log' applied
          tables same started in
      let (_, put, _) = generated root_ca_var h bootstrap_sql v' u reported in
      let core : v'.core ≡ v.core =
        rw started at ((mariadb-IsSeparate h bootstrap_sql).start-core v) in
      let db : u.db ≡ v'.db = ap (λ (y : World Mariadb). y.db) put in
      let free' : u.core.locked ≡ false =
        ap (λ (y : World Mariadb). y.core.locked) put ∙ ap (λ (c : Core). c.locked) core ∙ free in
      let up' : u.core.state ≡ initialized =
        ap (λ (y : World Mariadb). y.core.state) put ∙ ap (λ (c : Core). c.state) core ∙ up in
      let (kept, count, answer) =
        signature_stays root_ca_var h error_text json_marshal bootstrap_sql (h.sha256 manifest) r u
          x ps (ap (λ (d : Mariadb). d.manifest_sig) db ∙ sig) free' up' path in
      (count, ap (λ (d : Mariadb). d.cert) (kept ∙ db) ∙ cert, answer)
