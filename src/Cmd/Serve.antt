-- ===== src/Cmd/Serve.antt =====
-- cmd/edb/run.go: `run` with the server that it ends in.
use edgelessdb.Prelude.{◌≡◌, ◌⊎◌, ℕ, Bool, false, List, [], String, Bytes, length}
use edgelessdb.World.{
  World, Config, Host, Error, Result, M, Outcome, ok, err, halt, Halt, fatal, initialized, recovery,
  ◌>>=◌,
}
use edgelessdb.Db.Mariadb.Config.{Mariadb}
use edgelessdb.Db.Mariadb.Startup.{mariadb}
use edgelessdb.Core.States.{is_marble}
use edgelessdb.Core.Certificate.{TlsConfig}
use edgelessdb.Server.Response.{Reply}
use edgelessdb.Server.Mux.{ServeMux, create_serve_mux, run_server}
use edgelessdb.Server.Schedule.{Pc, Reach}
use edgelessdb.Cmd.Run.{run}
use edgelessdb.World.Progress.{is_deadlock}

module _ (root_ca_var : String) (h : Host) (bootstrap_sql : Bytes) (num_tcs : ℕ)
    (error_text : Error → Bytes) (json_marshal : Reply → Result Bytes)
    (listen : ServeMux Mariadb → Bytes → TlsConfig → M Mariadb Error) where
  abbrev pub edb_mux : ServeMux Mariadb
  edb_mux = create_serve_mux root_ca_var h error_text json_marshal (mariadb h bootstrap_sql)

  -- `run`, which has no value to return.
  unfoldable pub run_to_end : Config → Bool → Bytes → Bytes → M Mariadb (Unit {0})
  unfolding run run_server
  run_to_end config is_marble internal_path internal_address = do
    served ← run root_ca_var h bootstrap_sql num_tcs config is_marble internal_path internal_address
    run_server listen edb_mux served.0 served.1

  -- What net/http documents of `ListenAndServeTLS`: it returns with an error that is not nil, and
  -- what it has done by then is to serve requests, each in a goroutine of its own, whose waits are not
  -- its own. A request that ends the process ends it as well.
  abbrev pub IsService : World Mariadb → Outcome Mariadb Error → Type 0
  IsService w (ok e v) =
      (ps : List Pc) × Reach root_ca_var h error_text json_marshal (mariadb h bootstrap_sql) w [] v
        ps
  IsService w (err e v) = ⊥
  IsService w (halt x v) = is_deadlock x ≡ false

  -- The state that a node serves in.
  abbrev pub IsInService : World Mariadb → Type 0
  IsInService v =
      (v.core.locked ≡ false)
      × (((v.core.state ≡ initialized) × (length v.core.master_key ≡ 16))
          ⊎ (v.core.state ≡ recovery))

  -- How a process ends: before its server, in a request, or by the error of the server.
  abbrev pub HasEnded :
      Config → Bool → Bytes → Bytes → World Mariadb → Halt → World Mariadb → Type 0
  HasEnded config marble ip ia w x v =
      (run root_ca_var h bootstrap_sql num_tcs config marble ip ia w ≡ halt x v)
      ⊎ ((served : Bytes × TlsConfig) × (w' : World Mariadb) × (run root_ca_var h bootstrap_sql
              num_tcs config marble ip ia w
            ≡ ok served w')
          × ((listen edb_mux served.0 served.1 w' ≡ halt x v)
              ⊎ ((e : Error) × (x ≡ fatal e)
                  × (listen edb_mux served.0 served.1 w' ≡ ok e v)
                  × IsInService v)))
