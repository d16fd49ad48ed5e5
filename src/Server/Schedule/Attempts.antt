-- ===== src/Server/Schedule/Attempts.antt =====
-- What the parts of requests (edb/server/server.go, edb/core/core.go) do to the MariaDB object's note
-- that a manifest was tried.
use edgelessdb.Prelude.{◌≡◌, ◌∙◌, ap, sym, arith, true, false, Option, String, Bytes}
use edgelessdb.World.{World, Host, Error, Result, M, ok, after, on_ok, initialized, after-bind}
use edgelessdb.Db.Mariadb.Config.{Mariadb}
use edgelessdb.Db.Mariadb.Bootstrap.{initialize, check_manifest}
use edgelessdb.Db.Mariadb.Once.{initialize-eq_ok}
use edgelessdb.Db.Mariadb.Startup.{mariadb}
use edgelessdb.Db.Mariadb.Separate.{mariadb-IsSeparate}
use edgelessdb.Core.States.{lock, defer_unlock}
use edgelessdb.Core.Lifecycle.{initialize_locked, encrypt_recovery_key, get_manifest_signature}
use edgelessdb.Core.Certificate.{
  get_certificate_report, get_certificate_report_marble, get_certificate_ca,
}
use edgelessdb.Core.Recovery.{defer_unlock-eq_ok}
use edgelessdb.Server.Response.{Reply}
use edgelessdb.Server.Handlers.{Request, signature_handler, quote_handler}
use edgelessdb.Server.Schedule.{Endpoint, signature, quote, prepare, commit, serve}
use edgelessdb.Server.Schedule.Frame.{recover_handler_refused}

lock_db : (w : World Mariadb) → (after (lock w)).db ≡ w.db
unfolding lock
lock_db w = ground arith

defer_unlock_db :
    {A : Type 0} (m : M Mariadb A) (w : World Mariadb)
    → (after (defer_unlock m w)).db ≡ (after (m w)).db
unfolding defer_unlock
defer_unlock_db m w = ground arith

module _ (h : Host) where
  -- On an object that has tried a manifest nothing changes.
  initialize_tried :
      (bootstrap_sql manifest : Bytes) (w : World Mariadb)
      → w.db.attempted_init ≡ true
      → after (initialize h bootstrap_sql manifest w) ≡ w
  unfolding initialize check_manifest
  initialize_tried bootstrap_sql manifest w tried = ground arith

module _ (root_ca_var : String) (h : Host) (error_text : Error → Bytes)
    (json_marshal : Reply → Result Bytes) (bootstrap_sql : Bytes) where
  pub prepare_db :
      (manifest : Bytes) (w : World Mariadb)
      → (after
          (prepare root_ca_var h error_text json_marshal (mariadb h bootstrap_sql) manifest w)).db
        ≡ w.db
  unfolding prepare encrypt_recovery_key
  prepare_db manifest w = ground arith

  locked_tried :
      (manifest : Bytes) (c : Option Bytes) (w : World Mariadb)
      → w.db.attempted_init ≡ true
      → (after (
          initialize_locked root_ca_var h (mariadb h bootstrap_sql) manifest c w)).db.attempted_init
        ≡ true
  locked_tried manifest c w tried =
      after-bind (λ v. v.db.attempted_init ≡ true) (initialize h bootstrap_sql manifest) _ w
        (ap (λ (v : World Mariadb). v.db.attempted_init)
            (initialize_tried h bootstrap_sql manifest w tried)
          ∙ tried)
        (λ _ v e.
          ap (λ (v : World Mariadb). v.db.attempted_init)
            (rw e at (initialize_tried h bootstrap_sql manifest w tried))
          ∙ tried)

  pub commit_tried :
      (manifest : Bytes) (c : Option Bytes) (w : World Mariadb)
      → w.db.attempted_init ≡ true
      → (after (
          commit root_ca_var h error_text json_marshal
            (mariadb h bootstrap_sql)
            manifest
            c
            w)).db.attempted_init
        ≡ true
  unfolding commit
  commit_tried manifest c w tried =
      after-bind (λ v. v.db.attempted_init ≡ true) lock _ w
        (ap (λ (x : Mariadb). x.attempted_init) (lock_db w) ∙ tried)
        (λ _ v e.
          let same : v.db ≡ w.db = rw e at (lock_db w) in
          ap (λ (x : Mariadb). x.attempted_init)
            (defer_unlock_db (initialize_locked root_ca_var h (mariadb h bootstrap_sql) manifest c)
              v)
          ∙ locked_tried manifest c v (ap (λ (x : Mariadb). x.attempted_init) same ∙ tried))

  pub commit-eq_ok :
      (manifest : Bytes) (c k : Option Bytes) (w v : World Mariadb)
      → commit root_ca_var h error_text json_marshal (mariadb h bootstrap_sql) manifest c w ≡ ok k v
      → (w.db.attempted_init ≡ false) × (v.db.attempted_init ≡ true)
  unfolding commit
  commit-eq_ok manifest c k w v e = on_ok lock _ w e λ _ w1 e1 r1.
      let (u, body, free) = defer_unlock-eq_ok _ k w1 v r1 in
      on_ok (initialize h bootstrap_sql manifest) _ w1 body λ _ w2 e2 r2.
        let (_, untried, _, _, _, d) = initialize-eq_ok h bootstrap_sql manifest w1 w2 e2 in
        let s1 : w1.db ≡ w.db = unfold lock in ground arith in
        let s2 : u.db ≡ w2.db = ground arith in
        (
          sym (ap (λ (x : Mariadb). x.attempted_init) s1) ∙ untried,
          ap (λ (x : World Mariadb). x.db.attempted_init) free
              ∙ ap (λ (x : Mariadb). x.attempted_init) (s2 ∙ d),
        )

  pub serve_db :
      (path : Endpoint) (r : Request) (w : World Mariadb)
      → w.core.locked ≡ false
      → w.core.state ≡ initialized
      → (after (serve root_ca_var h error_text json_marshal (mariadb h bootstrap_sql) path r w)).db
        ≡ w.db
  unfolding signature_handler get_manifest_signature quote_handler get_certificate_report
      get_certificate_report_marble get_certificate_ca lock defer_unlock
  serve_db signature r w free up = ground arith
  serve_db quote r w free up = ground arith
  serve_db Endpoint.recover r w free up =
      ap (λ v. v.db)
        (recover_handler_refused root_ca_var h error_text json_marshal (mariadb h bootstrap_sql)
          (mariadb-IsSeparate h bootstrap_sql) r w free (λ e. cc))
