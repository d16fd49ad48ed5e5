-- ===== src/Node/Lives.antt =====
-- The lives of a node: its process ends and is started again, on the disk that is left (cmd/edb/run.go,
-- edb/server/server.go, edb/db/mariadb.go).
use edgelessdb.Prelude.{◌≡◌, ◌∙◌, ap, refl, ℕ, Bool, Option, none, some, List, Bytes, String}
use edgelessdb.World.{World, Config, Disk, Host, Row, Error, Result, after}
use edgelessdb.Db.Mariadb.Config.{Mariadb}
use edgelessdb.Db.Mariadb.Startup.{mariadb}
use edgelessdb.Server.Response.{Reply}
use edgelessdb.Server.Schedule.{Pc, Reach}
use edgelessdb.Cmd.Run.{run}
use edgelessdb.Node.Intact.{IsOwn, IsDurable}
use edgelessdb.Node.Requests.{Reach-IsIntact}
use edgelessdb.Node.Process.{run-IsIntact}

-- What a client may rely on: a register that is written once.
pub data Write : Option Row → Option Row → Type 0 where
  fresh : (o : Option Row) → Write none o
  kept : (r : Row) → Write (some r) (some r)

module _ (root_ca_var : String) (h : Host) (error_text : Error → Bytes)
    (json_marshal : Reply → Result Bytes) (bootstrap_sql : Bytes) (num_tcs : ℕ)
    (IsAllowed : Bytes → Config → Type 0) where
  -- A stretch of a process: a run up to its server, or to its end on the way; and requests that are
  -- served. Behind each of them the process may be gone. Each process has an internal directory and a
  -- configuration of its own, among those that are allowed.
  pub data Stretch (before behind : Disk) : Type 0 where
    runs :
        (marble : Bool) (internal_path internal_address : Bytes) (config : Config)
        (w : World Mariadb)
        → IsAllowed internal_path config
        → before ≡ w.os.disk
        → behind
          ≡ (after (
              run root_ca_var h bootstrap_sql num_tcs config marble internal_path internal_address
                w)).os.disk
        → Stretch before behind
    serves :
        (w v : World Mariadb) (ps qs : List Pc)
        → before ≡ w.os.disk
        → behind ≡ v.os.disk
        → IsAllowed w.db.internal_path w.core.cfg
        → w.db.external_path ≡ w.core.cfg.data_path
        → Reach root_ca_var h error_text json_marshal (mariadb h bootstrap_sql) w ps v qs
        → Stretch before behind

  pub data Lives (first : Disk) : Disk → Type 0 where
    here : Lives first first
    then : {d e : Disk} → Lives first d → Stretch d e → Lives first e

  module _ (row : Disk → Option Row)
      (laws : (internal_path : Bytes) (config : Config)
        → IsAllowed internal_path config
        → IsDurable h row internal_path (IsOwn internal_path config)) where
    Stretch-row : (d e : Disk) (r : Row) → Stretch d e → row d ≡ some r → row e ≡ some r
    Stretch-row d e r (runs marble ip ia config w allowed same left) stored =
        ap row left
        ∙ run-IsIntact root_ca_var h bootstrap_sql num_tcs row ip config (laws ip config allowed) r
            marble ia w (rw same at stored)
    Stretch-row d e r (serves w v ps qs same left allowed outside path) stored =
        ap row left
        ∙ (Reach-IsIntact root_ca_var h bootstrap_sql row w.db.internal_path w.core.cfg
            (laws w.db.internal_path w.core.cfg allowed) r error_text json_marshal w v ps qs path
            (record {
              stored = rw same at stored;
              configured = refl;
              inside = refl;
              outside = outside;
            })).stored

    pub Lives-row : (d e : Disk) (r : Row) → Lives d e → row d ≡ some r → row e ≡ some r
    Lives-row d e r here stored = stored
    Lives-row d e r (then {d = m} path s) stored = Stretch-row m e r s (Lives-row d m r path stored)

    -- The disk of a node is a register that is written once: over all lives of its process, with starts
    -- that fail, end in recovery or serve, and with whatever requests, recoveries and further manifests
    -- among them, a configuration row that is there stays as it is. Each process has an
    -- internal directory and a configuration of its own. For each of them MariaDB keeps its tables apart
    -- from the program's own files, leaves the row where it is started, and also where it is to execute
    -- an init file that begins by making the system's database.
    pub Lives-Write : (d e : Disk) → Lives d e → Write (row d) (row e)
    Lives-Write d e path = of_row (row d) refl
      where
        of_row : (o : Option Row) → row d ≡ o → Write o (row e)
        of_row none stored = fresh (row e)
        of_row (some r) stored = rw (Lives-row d e r path stored) (kept r)
