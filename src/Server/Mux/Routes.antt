-- ===== src/Server/Mux/Routes.antt =====
-- edb/server/server.go: the table of paths, and the requests that are served at the same time.
use edgelessdb.Prelude.{
  ◌≡◌, ◌≢◌, ◌⊎◌, inl, inr, refl, ap, Bool, true, false, Option, some, String, Bytes, bytes_eq,
  eq_of_bytes_eq, bytes_eq_refl, if◌then◌else◌,
}
use edgelessdb.World.{
  World, Host, Error, Result, val, M, Outcome, ok, ◌>>=◌, pure, attempt, on_result,
}
use edgelessdb.Db.Interface.{Database}
use edgelessdb.Server.Response.{Response, Reply, no_response, http_error}
use edgelessdb.Server.Handlers.{Request, recovery_key_response, manifest_handler}
use edgelessdb.Server.Schedule.{Endpoint, signature, quote, prepare, commit, serve}
use edgelessdb.Server.Schedule.Split.{initialize_lem}
use edgelessdb.Server.Mux.{
  not_found, or_not_found, serve_http, create_serve_mux, manifest_path, signature_path, quote_path,
  recover_path,
}

-- The path of an endpoint.
abbrev pub path_of : Endpoint → Bytes
path_of signature = signature_path
path_of quote = quote_path
path_of Endpoint.recover = recover_path

module _ (root_ca_var : String) (h : Host) (error_text : Error → Bytes)
    (json_marshal : Reply → Result Bytes) {D : Type 0} (db : Database D) where
  -- What a request with a manifest does: the two parts of the schedule, one behind the other, and the
  -- answer.
  abbrev pub apply_manifest : Bytes → M D Response
  apply_manifest m = do
    done ← attempt (
        prepare root_ca_var h error_text json_marshal db m
        >>= commit root_ca_var h error_text json_marshal db m)
    on_result done (λ c. pure (recovery_key_response c))
        (λ e. pure (http_error (error_text e) 400 no_response))

  posted :
      (m : Bytes) (w : World D)
      → manifest_handler root_ca_var h error_text json_marshal db
          (record { is_post = true; body = val m })
          w
        ≡ apply_manifest m w
  unfolding manifest_handler
  posted m w =
      ap
        (λ o.
          (attempt (λ _. o) >>= λ done.
          on_result done (λ c. pure (recovery_key_response c))
            (λ e. pure (http_error (error_text e) 400 no_response)))
            w)
        (initialize_lem root_ca_var h error_text json_marshal db m w)

  -- How a path is served: by the steps of the schedule, or not at all.
  abbrev pub IsRouted : Bytes → Request → World D → Outcome D Response → Type 0
  IsRouted path r w o =
      ((path ≡ manifest_path) × (o ≡ manifest_handler root_ca_var h error_text json_marshal db r w))
      ⊎ (((endpoint : Endpoint) × (path ≡ path_of endpoint)
            × (o ≡ serve root_ca_var h error_text json_marshal db endpoint r w))
          ⊎ ((path ≢ manifest_path)
              × ((endpoint : Endpoint) → path ≢ path_of endpoint)
              × (o ≡ ok not_found w)))

  of_match :
      (path pattern : Bytes) (handle : Request → M D Response)
      (rest : Option (Request → M D Response)) (r : Request) (w : World D)
      → (path ≡ pattern → IsRouted path r w (handle r w))
      → (path ≢ pattern → IsRouted path r w (or_not_found rest r w))
      → IsRouted path r w (or_not_found (if bytes_eq path pattern then some handle else rest) r w)
  of_match path pattern handle rest r w hit miss = of_test (bytes_eq path pattern) refl
    where
      of_test :
          (b : Bool)
          → bytes_eq path pattern ≡ b
          → IsRouted path r w (or_not_found (if b then some handle else rest) r w)
      of_test true e = hit (eq_of_bytes_eq path pattern e)
      of_test false e =
          miss (λ same.
            let found : bytes_eq path pattern ≡ true = rw same (bytes_eq_refl pattern) in cc)

  apart :
      {path : Bytes}
      → path ≢ signature_path
      → path ≢ quote_path
      → path ≢ recover_path
      → (endpoint : Endpoint) → path ≢ path_of endpoint
  apart no_signature no_quote no_recover signature = no_signature
  apart no_signature no_quote no_recover quote = no_quote
  apart no_signature no_quote no_recover Endpoint.recover = no_recover

  first_row :
      (m : Bytes) (w : World D)
      → serve_http
          (create_serve_mux root_ca_var h error_text json_marshal db)
          manifest_path
          (record { is_post = true; body = val m })
          w
        ≡ apply_manifest m w
  unfolding create_serve_mux
  first_row m w = rw (bytes_eq_refl manifest_path) (posted m w)

  -- The API serves a path as the schedule of requests has it: `/manifest` by its handler, which for a
  -- POST with a manifest is the two parts of the schedule one behind the other, with the answer; the
  -- paths of the three endpoints by the steps for these; and any other path with the status 404, which
  -- changes nothing.
  pub serve_http_lem :
      (path : Bytes) (r : Request) (m : Bytes) (w : World D)
      → IsRouted path r w
          (serve_http (create_serve_mux root_ca_var h error_text json_marshal db) path r w)
        × (serve_http
              (create_serve_mux root_ca_var h error_text json_marshal db)
              manifest_path
              (record { is_post = true; body = val m })
              w
            ≡ apply_manifest m w)
  unfolding create_serve_mux
  serve_http_lem path r m w = (
    of_match path manifest_path _ _ r w (λ e. inl (e, refl))
        (λ no_manifest.
          of_match path signature_path _ _ r w (λ e. inr (inl (signature, e, refl)))
            (λ no_signature.
              of_match path quote_path _ _ r w (λ e. inr (inl (quote, e, refl)))
                (λ no_quote.
                  of_match path recover_path _ _ r w (λ e. inr (inl (Endpoint.recover, e, refl)))
                    (λ no_recover.
                      inr (inr (no_manifest, apart no_signature no_quote no_recover, refl)))))),
    first_row m w,
  )
