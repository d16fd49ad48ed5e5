-- ===== src/Node/Requests.antt =====
-- The requests that a node serves leave the row on its disk (edb/server/server.go).
use edgelessdb.Prelude.{◌≡◌, Option, some, List, String, Bytes}
use edgelessdb.World.{World, Config, Disk, Host, Row, Error, Result, after}
use edgelessdb.Db.Mariadb.Config.{Mariadb}
use edgelessdb.Db.Mariadb.Startup.{mariadb}
use edgelessdb.Server.Response.{Reply}
use edgelessdb.Server.Handlers.{Request, signature_handler, quote_handler, recover_handler}
use edgelessdb.Server.Schedule.{
  Pc, arrived, ready, applied, refused, crashed, Endpoint, signature, quote, prepare, commit, move,
  serve, Step, arrives, moves, serves, Reach, here, then,
}
use edgelessdb.Server.Schedule.Serving.{survivor-after, prepared-survives, committed-survives}
use edgelessdb.Node.Intact.{IsOwn, IsDurable, IsIntact}
use edgelessdb.Node.Files.{kept}
use edgelessdb.Node.Methods.{
  Keeping, lock-Kept, encrypt_recovery_key-Kept, commit-Kept, recover-Kept,
  get_manifest_signature-Kept, get_certificate_report-Kept,
}

module _ (root_ca_var : String) (h : Host) (bootstrap_sql : Bytes) (row : Disk → Option Row)
    (internal_path : Bytes) (config : Config)
    (laws : IsDurable h row internal_path (IsOwn internal_path config)) (r : Row)
    (error_text : Error → Bytes) (json_marshal : Reply → Result Bytes) where
  prepare-Kept :
      (m : Bytes)
      → Keeping root_ca_var h bootstrap_sql row internal_path config laws r
          (prepare root_ca_var h error_text json_marshal (mariadb h bootstrap_sql) m)
  unfolding prepare
  prepare-Kept m = search (kept, encrypt_recovery_key-Kept) depth 9

  commits-Kept :
      (m : Bytes) (c : Option Bytes)
      → Keeping root_ca_var h bootstrap_sql row internal_path config laws r
          (commit root_ca_var h error_text json_marshal (mariadb h bootstrap_sql) m c)
  unfolding commit
  commits-Kept m c = search (kept, lock-Kept, commit-Kept) depth 9

  serve-Kept :
      (path : Endpoint) (q : Request)
      → Keeping root_ca_var h bootstrap_sql row internal_path config laws r
          (serve root_ca_var h error_text json_marshal (mariadb h bootstrap_sql) path q)
  unfolding signature_handler quote_handler recover_handler
  serve-Kept signature q = search (kept, get_manifest_signature-Kept) depth 9
  serve-Kept quote q = search (kept, get_certificate_report-Kept) depth 9
  serve-Kept Endpoint.recover q = search (kept, recover-Kept) depth 12

  move-IsIntact :
      (p q : Pc) (w v : World Mariadb)
      → move root_ca_var h error_text json_marshal (mariadb h bootstrap_sql) p w ≡ some (q, v)
      → IsIntact row internal_path config r w
      → IsIntact row internal_path config r v
  move-IsIntact (arrived m) q w v e k =
      let o = prepare root_ca_var h error_text json_marshal (mariadb h bootstrap_sql) m w in
      let left : after o ≡ v = survivor-after o v (
        prepared-survives root_ca_var h error_text json_marshal (mariadb h bootstrap_sql) m o q v
          e) in
      rw left at ((prepare-Kept m).kept w k)
  move-IsIntact (ready m c) q w v e k =
      let o = commit root_ca_var h error_text json_marshal (mariadb h bootstrap_sql) m c w in
      let left : after o ≡ v = survivor-after o v (
        committed-survives root_ca_var h error_text json_marshal (mariadb h bootstrap_sql) m o q v
          e) in
      rw left at ((commits-Kept m c).kept w k)
  move-IsIntact (applied m c) q w v e k = cc
  move-IsIntact (refused x) q w v e k = cc
  move-IsIntact crashed q w v e k = cc

  Step-IsIntact :
      (w v : World Mariadb) (ps qs : List Pc)
      → Step root_ca_var h error_text json_marshal (mariadb h bootstrap_sql) w ps v qs
      → IsIntact row internal_path config r w
      → IsIntact row internal_path config r v
  Step-IsIntact w v ps qs (arrives m) k = k
  Step-IsIntact w v ps qs (moves p q before behind e) k = move-IsIntact p q w v e k
  Step-IsIntact w v ps qs (serves path q e) k =
      rw (survivor-after _ v e) at ((serve-Kept path q).kept w k)

  -- Whatever requests are served, in whatever order: the row stays on the disk.
  pub Reach-IsIntact :
      (w v : World Mariadb) (ps qs : List Pc)
      → Reach root_ca_var h error_text json_marshal (mariadb h bootstrap_sql) w ps v qs
      → IsIntact row internal_path config r w
      → IsIntact row internal_path config r v
  Reach-IsIntact w v ps qs here k = k
  Reach-IsIntact w v ps qs (then {u = u} {rs = rs} path e) k =
      Step-IsIntact u v rs qs e (Reach-IsIntact w u ps rs path k)
