-- ===== src/Node/Served.antt =====
-- What a client reads of a node, from the request that applies a manifest on, over the later lives of
-- its process (cmd/edb/run.go, edb/server/server.go, edb/core/core.go, edb/db/mariadb.go).
use edgelessdb.Prelude.{◌≡◌, ℕ, Option, List, Bytes, String}
use edgelessdb.Std.Hex.{encode_to_string}
use edgelessdb.World.{World, Config, Disk, Host, Row, Error, Result, ok}
use edgelessdb.Db.Mariadb.Config.{Mariadb}
use edgelessdb.Db.Mariadb.Startup.{mariadb}
use edgelessdb.Server.Response.{Reply, no_response, write_body}
use edgelessdb.Server.Handlers.{Request, signature_handler}
use edgelessdb.Server.Schedule.{Pc}
use edgelessdb.Server.Schedule.Once.{count_applied}
use edgelessdb.Node.Intact.{IsOwn, IsDurable}
use edgelessdb.Node.Lives.{Lives}

module _ (root_ca_var : String) (h : Host) (error_text : Error → Bytes)
    (json_marshal : Reply → Result Bytes) (bootstrap_sql : Bytes) (num_tcs : ℕ)
    (IsAllowed : Bytes → Config → Type 0) (row : Disk → Option Row)
    (laws : (internal_path : Bytes) (config : Config)
      → IsAllowed internal_path config
      → IsDurable h row internal_path (IsOwn internal_path config)) where
  -- What a client that pins the certificate reads from `/signature`.
  abbrev pub IsSigned : Bytes → World Mariadb → Request → World Mariadb → List Pc → Type 0
  IsSigned manifest w q x ps =
      (count_applied ps ≡ 0)
      × (x.db.cert ≡ w.db.cert)
      × (signature_handler root_ca_var h error_text json_marshal (mariadb h bootstrap_sql) q x
          ≡ ok (write_body (encode_to_string (h.sha256 manifest)) no_response) x)
