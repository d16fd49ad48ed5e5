-- ===== src/Server/Mux/Reads.antt =====
-- edb/server/server.go: the requests of the API that only read.
use edgelessdb.Prelude.{
  ℕ, ◌≢◌, ◌≡◌, refl, ap, arith, Bool, true, false, Option, some, String, Bytes, bytes_eq,
  if◌then◌else◌,
}
use edgelessdb.World.{
  World, Host, Error, Result, M, Outcome, ok, err, after, halt, Halt, val, exc, ◌>>=◌, attempt,
  on_result, pure, or_empty,
}
use edgelessdb.Std.Hex.{encode_to_string}
use edgelessdb.Db.Mariadb.Config.{Mariadb}
use edgelessdb.Db.Mariadb.Startup.{mariadb}
use edgelessdb.Core.States.{lock, defer_unlock}
use edgelessdb.Core.Lifecycle.{get_manifest_signature}
use edgelessdb.Core.Certificate.{
  get_certificate_report, get_certificate_report_marble, get_certificate_ca,
}
use edgelessdb.Server.Response.{
  Response, Reply, on_encoded, on_marshalled, no_response, write_json, write_json_error,
  success_quote, write_body, failure,
}
use edgelessdb.Server.Handlers.{
  Request, method_not_allowed, manifest_handler, signature_handler, quote_handler, recover_handler,
}
use edgelessdb.Server.Mux.{
  not_found, or_not_found, serve_http, create_serve_mux, manifest_path, signature_path, quote_path,
  recover_path,
}

-- The request was answered, and nothing has changed.
abbrev pub IsRead : World Mariadb → Outcome Mariadb Response → Type 0
IsRead w o = (a : Response) × (code : ℕ) × (o ≡ ok a w) × (a.status ≡ some code)

module _ (error_text : Error → Bytes) (json_marshal : Reply → Result Bytes) where
  on_encoded-status :
      (e : Result Bytes)
      → (code : ℕ) × ((on_encoded error_text json_marshal e no_response).status ≡ some code)
  on_encoded-status (val b) = (200, refl)
  on_encoded-status (exc e) = (500, refl)

  on_marshalled-status :
      (message : Bytes) (e : Result Bytes)
      → (on_marshalled error_text json_marshal message 500 e no_response).status ≡ some 500
  on_marshalled-status message (val b) = refl
  on_marshalled-status message (exc e) = refl

  -- What `/quote` answers, once it has the report or an error.
  answered :
      (o : Outcome Mariadb (Bytes × Bytes)) (w : World Mariadb)
      → after o ≡ w
      → ((x : Halt) (v : World Mariadb) → o ≢ halt x v)
      → IsRead w (
          (attempt (λ _. o) >>= λ got.
          on_result got
            (λ p. pure (write_json error_text json_marshal (success_quote p.0 p.1) no_response))
            (λ e. pure (write_json_error error_text json_marshal (error_text e) 500 no_response)))
            w)
  unfolding write_json write_json_error
  answered (ok (cert, report) v) w e n =
      let (code, settled) = on_encoded-status (json_marshal (success_quote cert report)) in
      let a = write_json error_text json_marshal (success_quote cert report) no_response in
      (a, code, ap (ok a) e, settled)
  answered (err x v) w e n =
      let a = write_json_error error_text json_marshal (error_text x) 500 no_response in
      (
        a,
        500,
        ap (ok a) e,
        on_marshalled-status (error_text x) (json_marshal (failure (error_text x))),
      )
  answered (halt x v) w e n = absurd (n x v refl)

module _ (root_ca_var : String) (h : Host) (error_text : Error → Bytes)
    (json_marshal : Reply → Result Bytes) (bootstrap_sql : Bytes) where
  signature_reads :
      (r : Request) (w : World Mariadb)
      → w.core.locked ≡ false
      → IsRead w
          (signature_handler root_ca_var h error_text json_marshal (mariadb h bootstrap_sql) r w)
  unfolding signature_handler get_manifest_signature lock defer_unlock
  signature_reads r w free = (
    write_body (encode_to_string (or_empty w.db.manifest_sig)) no_response,
    200,
    ground arith,
    refl,
  )

  report_reads :
      (w : World Mariadb)
      → (after (get_certificate_report root_ca_var h (mariadb h bootstrap_sql) w) ≡ w)
        × ((x : Halt) (v : World Mariadb)
            → get_certificate_report root_ca_var h (mariadb h bootstrap_sql) w ≢ halt x v)
  unfolding get_certificate_report get_certificate_report_marble get_certificate_ca
  report_reads w = (ground arith, λ x v e. ground arith)

  quote_reads :
      (r : Request) (w : World Mariadb)
      → IsRead w (quote_handler root_ca_var h error_text json_marshal (mariadb h bootstrap_sql) r w)
  unfolding quote_handler
  quote_reads r w =
      let (same, ends) = report_reads w in answered error_text json_marshal _ w same ends

  manifest_refused :
      (r : Request) (w : World Mariadb)
      → r.is_post ≡ false
      → IsRead w
          (manifest_handler root_ca_var h error_text json_marshal (mariadb h bootstrap_sql) r w)
  unfolding manifest_handler
  manifest_refused r w get = (method_not_allowed, 405, ground arith, refl)

  recover_refused :
      (r : Request) (w : World Mariadb)
      → r.is_post ≡ false
      → IsRead w
          (recover_handler root_ca_var h error_text json_marshal (mariadb h bootstrap_sql) r w)
  unfolding recover_handler
  recover_refused r w get = (method_not_allowed, 405, ground arith, refl)

  -- One of the four handlers, or none.
  of_match :
      (path pattern : Bytes) (handle : Request → M Mariadb Response)
      (rest : Option (Request → M Mariadb Response)) (r : Request) (w : World Mariadb)
      → IsRead w (handle r w)
      → IsRead w (or_not_found rest r w)
      → IsRead w (or_not_found (if bytes_eq path pattern then some handle else rest) r w)
  of_match path pattern handle rest r w hit miss = of_test (bytes_eq path pattern)
    where
      of_test : (b : Bool) → IsRead w (or_not_found (if b then some handle else rest) r w)
      of_test true = hit
      of_test false = miss

  -- A request that is no POST is answered on every path, if the mutex is free: the answer has a
  -- status, and the request leaves everything as it was.
  pub serve_http-IsRead :
      (path : Bytes) (r : Request) (w : World Mariadb)
      → w.core.locked ≡ false
      → r.is_post ≡ false
      → IsRead w (
          serve_http
            (create_serve_mux root_ca_var h error_text json_marshal (mariadb h bootstrap_sql))
            path
            r
            w)
  unfolding create_serve_mux
  serve_http-IsRead path r w free get =
      of_match path manifest_path _ _ r w (manifest_refused r w get) (
        of_match path signature_path _ _ r w (signature_reads r w free) (
          of_match path quote_path _ _ r w (quote_reads r w) (
            of_match path recover_path _ _ r w (recover_refused r w get)
              (not_found, 404, refl, refl))))
