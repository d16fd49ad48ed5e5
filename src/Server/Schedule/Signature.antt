-- ===== src/Server/Schedule/Signature.antt =====
-- The manifest signature of a node that serves requests at the same time (edb/server/server.go,
-- edb/db/mariadb.go), from the request that applies the manifest on.
use edgelessdb.Prelude.{
  inr, ◌≡◌, ◌∙◌, refl, ap, sym, arith, ◌+◌, false, Option, some, String, Bytes, List, [], ◌++◌,
}
use edgelessdb.Std.Hex.{encode_to_string}
use edgelessdb.World.{
  World, Host, Error, Result, Outcome, ok, err, halt, panicked, fatal, deadlocked, after,
  initialized, already_initialized,
}
use edgelessdb.Db.Mariadb.Config.{Mariadb}
use edgelessdb.Db.Mariadb.Bootstrap.{initialize, check_manifest}
use edgelessdb.Db.Mariadb.Startup.{mariadb}
use edgelessdb.Db.Mariadb.Separate.{mariadb-IsSeparate}
use edgelessdb.Core.States.{locked, lock, defer_unlock}
use edgelessdb.Core.Lifecycle.{get_manifest_signature}
use edgelessdb.Server.Response.{Reply, no_response, write_body}
use edgelessdb.Server.Handlers.{Request, signature_handler}
use edgelessdb.Server.Schedule.{
  Pc, arrived, ready, applied, refused, crashed, prepare, commit, prepared, move, Step, arrives,
  moves, serves, Reach, here, then,
}
use edgelessdb.Server.Schedule.Serving.{IsServing, Reach-IsServing, survivor-after}
use edgelessdb.Server.Schedule.Attempts.{prepare_db, serve_db}
use edgelessdb.Server.Schedule.Once.{one_if_applied, count_applied, count_applied-++}

module _ (h : Host) (bootstrap_sql : Bytes) where
  initialize_set :
      (manifest sig : Bytes) (w : World Mariadb)
      → w.db.manifest_sig ≡ some sig
      → initialize h bootstrap_sql manifest w ≡ err already_initialized w
  unfolding initialize check_manifest
  initialize_set manifest sig w is_set = ground arith

module _ (root_ca_var : String) (h : Host) (error_text : Error → Bytes)
    (json_marshal : Reply → Result Bytes) (bootstrap_sql : Bytes) where
  commit_set :
      (manifest sig : Bytes) (c : Option Bytes) (w : World Mariadb)
      → w.db.manifest_sig ≡ some sig
      → w.core.locked ≡ false
      → commit root_ca_var h error_text json_marshal (mariadb h bootstrap_sql) manifest c w
        ≡ err already_initialized w
  unfolding commit lock defer_unlock
  commit_set manifest sig c w is_set free =
      ground (arith, initialize_set h bootstrap_sql manifest sig (locked w) is_set)

  prepared_same :
      (manifest : Bytes) (o : Outcome Mariadb (Option Bytes)) (q : Pc) (w v : World Mariadb)
      → prepared root_ca_var h error_text json_marshal (mariadb h bootstrap_sql) manifest o
        ≡ some (q, v)
      → (after o).db ≡ w.db
      → (v.db ≡ w.db) × (one_if_applied q ≡ 0)
  prepared_same manifest (ok c u) q w v e d = ground arith
  prepared_same manifest (err x u) q w v e d = ground arith
  prepared_same manifest (halt (panicked x) u) q w v e d = ground arith
  prepared_same manifest (halt (fatal x) u) q w v e d = cc
  prepared_same manifest (halt deadlocked u) q w v e d = cc

  move_same :
      (p q : Pc) (sig : Bytes) (w v : World Mariadb)
      → move root_ca_var h error_text json_marshal (mariadb h bootstrap_sql) p w ≡ some (q, v)
      → w.db.manifest_sig ≡ some sig
      → w.core.locked ≡ false
      → (v.db ≡ w.db) × (one_if_applied q ≡ one_if_applied p)
  move_same (arrived m) q sig w v e is_set free =
      prepared_same m (prepare root_ca_var h error_text json_marshal (mariadb h bootstrap_sql) m w)
        q w v e (prepare_db root_ca_var h error_text json_marshal bootstrap_sql m w)
  move_same (ready m c) q sig w v e is_set free =
      let refusal : some (refused already_initialized, w) ≡ some (q, v) =
        rw (commit_set m sig c w is_set free) at e in
      ground (arith, refusal)
  move_same (applied m c) q sig w v e is_set free = cc
  move_same (refused x) q sig w v e is_set free = cc
  move_same crashed q sig w v e is_set free = cc

  Step-same :
      (w v : World Mariadb) (ps qs : List Pc) (sig : Bytes)
      → Step root_ca_var h error_text json_marshal (mariadb h bootstrap_sql) w ps v qs
      → w.db.manifest_sig ≡ some sig
      → w.core.locked ≡ false
      → w.core.state ≡ initialized
      → (v.db ≡ w.db) × (count_applied qs ≡ count_applied ps)
  unfolding count_applied
  Step-same w v ps qs sig (arrives manifest) is_set free up = (refl, omega arith)
  Step-same w v ps qs sig (moves p q before behind e) is_set free up =
      let (same, count) = move_same p q sig w v e is_set free in
      (
        same,
        count_applied-++ before behind q
            ∙ ap (λ n. n + count_applied (before ++ behind)) count
            ∙ sym (count_applied-++ before behind p),
      )
  Step-same w v ps qs sig (serves path r e) is_set free up = (
    ap (λ u. u.db) (sym (survivor-after _ v e))
        ∙ serve_db root_ca_var h error_text json_marshal bootstrap_sql path r w free up,
    refl,
  )

  Reach-same :
      (w v : World Mariadb) (ps qs : List Pc) (sig : Bytes)
      → Reach root_ca_var h error_text json_marshal (mariadb h bootstrap_sql) w ps v qs
      → w.db.manifest_sig ≡ some sig
      → w.core.locked ≡ false
      → w.core.state ≡ initialized
      → (v.db ≡ w.db) × (count_applied qs ≡ count_applied ps)
  Reach-same w v ps qs sig here is_set free up = (refl, refl)
  Reach-same w v ps qs sig (then {u = u} {rs = rs} path e) is_set free up =
      let s : IsServing w.core u =
        Reach-IsServing root_ca_var h error_text json_marshal (mariadb h bootstrap_sql)
          (mariadb-IsSeparate h bootstrap_sql) w.core w u ps rs
          (record { free = free; same = refl; key = inr refl }) path in
      let (same, count) = Reach-same w u ps rs sig path is_set free up in
      let (same', count') =
        Step-same u v rs qs sig e (ap (λ (d : Mariadb). d.manifest_sig) same ∙ is_set) s.free
          (ap (λ m. m.0) s.same ∙ up) in
      (same' ∙ same, count' ∙ count)

  -- On a node whose database has a manifest signature, in the state initialized and with the mutex
  -- free, no request applies another manifest, however many are served at the same time and in
  -- whatever order their parts come: the object of the database stays as it is, and at each moment
  -- `/signature` would answer with that signature in hex.
  pub signature_stays :
      (sig : Bytes) (r : Request) (w v : World Mariadb) (ps : List Pc)
      → w.db.manifest_sig ≡ some sig
      → w.core.locked ≡ false
      → w.core.state ≡ initialized
      → Reach root_ca_var h error_text json_marshal (mariadb h bootstrap_sql) w [] v ps
      → (v.db ≡ w.db)
        × (count_applied ps ≡ 0)
        × (signature_handler root_ca_var h error_text json_marshal (mariadb h bootstrap_sql) r v
            ≡ ok (write_body (encode_to_string sig) no_response) v)
  signature_stays sig r w v ps is_set free up path =
      let s : IsServing w.core v =
        Reach-IsServing root_ca_var h error_text json_marshal (mariadb h bootstrap_sql)
          (mariadb-IsSeparate h bootstrap_sql) w.core w v [] ps
          (record { free = free; same = refl; key = inr refl }) path in
      let (same, count) = Reach-same w v [] ps sig path is_set free up in
      (
        same,
        unfold count_applied in count,
        signature_of r v (ap (λ (d : Mariadb). d.manifest_sig) same ∙ is_set) s.free,
      )
    where
      signature_of :
          (r : Request) (v : World Mariadb)
          → v.db.manifest_sig ≡ some sig
          → v.core.locked ≡ false
          → signature_handler root_ca_var h error_text json_marshal (mariadb h bootstrap_sql) r v
            ≡ ok (write_body (encode_to_string sig) no_response) v
      signature_of r v is_set free =
          unfold signature_handler get_manifest_signature lock defer_unlock in ground arith
