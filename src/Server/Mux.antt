-- ===== src/Server/Mux.antt =====
-- edb/server/server.go: `CreateServeMux`, the table of paths, and `RunServer`.
pub mod Reads
pub mod Routes
use edgelessdb.Prelude.{
  Bool, Option, none, some, String, List, [], ◌∷◌, Bytes, bytes_eq, text, if◌then◌else◌,
}
use edgelessdb.World.{Error, Host, M, Result, fatal, halt, ◌>>=◌, pure}
use edgelessdb.Db.Interface.{Database}
use edgelessdb.Core.Certificate.{TlsConfig}
use edgelessdb.Server.Response.{Response, no_response, Reply, http_error}
use edgelessdb.Server.Handlers.{
  Request, manifest_handler, signature_handler, quote_handler, recover_handler,
}

-- A `http.ServeMux` without patterns that end in a slash: handlers by their path.
abbrev pub ServeMux : Type 0 → Type 0
ServeMux D = List (Bytes × (Request → M D Response))

-- `http.NotFound`
abbrev pub not_found : Response
not_found = http_error (text "404 page not found") 404 no_response

module _ {D : Type 0} where
  abbrev pub handler : ServeMux D → Bytes → Option (Request → M D Response)
  handler [] path = none
  handler ((pattern, handle) ∷ mux) path =
      let rest = handler mux path in if bytes_eq path pattern then some handle else rest

  abbrev pub or_not_found : Option (Request → M D Response) → Request → M D Response
  or_not_found none r = pure not_found
  or_not_found (some handle) r = handle r

  -- `mux.ServeHTTP`, for a path that net/http does not redirect since it is clean
  abbrev pub serve_http : ServeMux D → Bytes → Request → M D Response
  serve_http mux path r = or_not_found (handler mux path) r

  -- `RunServer`: `listen` stands for `ListenAndServeTLS`, which serves until it has an error.
  unfoldable pub run_server :
      {A : Type 0}
      → (ServeMux D → Bytes → TlsConfig → M D Error)
      → ServeMux D
      → Bytes
      → TlsConfig
      → M D A
  run_server listen mux address tls = do e ← listen mux address tls; halt (fatal e)

abbrev pub manifest_path : Bytes
manifest_path = text "/manifest"

abbrev pub signature_path : Bytes
signature_path = text "/signature"

abbrev pub quote_path : Bytes
quote_path = text "/quote"

abbrev pub recover_path : Bytes
recover_path = text "/recover"

-- `CreateServeMux`
unfoldable pub create_serve_mux :
    String
    → Host
    → (Error → Bytes)
    → (Reply → Result Bytes)
    → {D : Type 0} → Database D
    → ServeMux D
create_serve_mux root_ca_var h error_text json_marshal db =
    (manifest_path, manifest_handler root_ca_var h error_text json_marshal db)
    ∷ (signature_path, signature_handler root_ca_var h error_text json_marshal db)
    ∷ (quote_path, quote_handler root_ca_var h error_text json_marshal db)
    ∷ (recover_path, recover_handler root_ca_var h error_text json_marshal db)
    ∷ []
