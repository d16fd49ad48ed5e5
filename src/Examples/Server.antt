-- ===== src/Examples/Server.antt =====
-- The theorems on the server and on what stands around it, at concrete inputs.
use edgelessdb.Prelude.{ℕ, ◌+◌, ◌/◌, ◌≤◌, ◌≢◌, ◌≡◌, refl, arith, some, Bytes, [], ◌∷◌, true, false}
use edgelessdb.World.{World, M, Error, library, ok, val}
use edgelessdb.Db.Mariadb.Config.{Mariadb}
use edgelessdb.Db.Mariadb.Startup.{mariadb}
use edgelessdb.Core.Certificate.{TlsConfig}
use edgelessdb.Server.Handlers.{Request}
use edgelessdb.Server.Schedule
use edgelessdb.Server.Mux.{ServeMux, serve_http, create_serve_mux, quote_path, manifest_path}
use edgelessdb.Server.Mux.Routes.{IsRouted, apply_manifest, serve_http_lem}
use edgelessdb.Server.Mux.Reads.{IsRead, serve_http-IsRead}
use edgelessdb.Cmd.Bindings.{wait_until_set, set_looks, wait_until_set_lem}
use edgelessdb.Examples.Api.{no_json, no_text}
use edgelessdb.Examples.Objects.{mock_host}
use edgelessdb.Examples.Databases.{fresh}

abbrev read_request : Request
read_request = record { is_post = false; body = val [] }

serve_http-IsRead_example : IsRead fresh (
    serve_http
      (create_serve_mux "CA" mock_host no_text no_json (mariadb mock_host []))
      quote_path
      read_request
      fresh)
serve_http-IsRead_example =
    serve_http-IsRead "CA" mock_host no_text no_json [] quote_path read_request fresh refl refl

serve_http_lem_example :
    IsRouted "CA" mock_host no_text no_json (mariadb mock_host []) quote_path read_request fresh (
      serve_http
        (create_serve_mux "CA" mock_host no_text no_json (mariadb mock_host []))
        quote_path
        read_request
        fresh)
    × (serve_http
          (create_serve_mux "CA" mock_host no_text no_json (mariadb mock_host []))
          manifest_path
          (record { is_post = true; body = val (5 ∷ []) })
          fresh
        ≡ apply_manifest "CA" mock_host no_text no_json (mariadb mock_host []) (5 ∷ []) fresh)
serve_http_lem_example =
    serve_http_lem "CA" mock_host no_text no_json (mariadb mock_host []) quote_path read_request
      (5 ∷ []) fresh

-- A server that cannot listen.
abbrev listen_fails : ServeMux Mariadb → Bytes → TlsConfig → M Mariadb Error
listen_fails mux address tls w = ok (library []) w

-- The flag is set from the third look on.
abbrev set_later : ℕ → ℕ
set_later k = k / 2

wait_until_set_lem_example :
    (rounds : ℕ) × (wait_until_set 9 set_later 0 ≡ some (0 + rounds))
    × (rounds ≤ 3)
    × (set_later (0 + rounds) ≢ 0)
    × (set_looks set_later 0 rounds ≡ 0)
wait_until_set_lem_example =
    wait_until_set_lem set_later 9 0 3 (omega arith) (λ e. omega (arith, e))
