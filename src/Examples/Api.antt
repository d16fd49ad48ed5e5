-- ===== src/Examples/Api.antt =====
-- The theorems on addresses, the HTTP API and the process at concrete inputs.
use edgelessdb.Prelude.{◌≡◌, ◌⊎◌, refl, arith, Bytes, some, [], ◌∷◌, true, false, text, Option}
use edgelessdb.World.{
  World, Config, uninitialized, initialized, after, ok, with_env, Result, Error, val, exc, library,
}
use edgelessdb.Std.Hex.{decode_string}
use edgelessdb.Core.Environment.{fill_config_from_environment, log_dir_var}
use edgelessdb.Cmd.Paths.{host_path}
use edgelessdb.Cmd.Diagnosis.{error_log_place}
use edgelessdb.Cmd.LogPlace.{error_log_place_of_log_dir}
use edgelessdb.Core.Lifecycle
use edgelessdb.Core.Lifecycle.{encrypt_recovery_key}
use edgelessdb.Core.States.{lock, defer_unlock}
use edgelessdb.Server.Response.{Response, Reply}
use edgelessdb.Server.Handlers.{Request, manifest_handler, signature_handler, recovery_key_response}
use edgelessdb.Server.Laws.{manifest_handler_lem, signature_handler_lem}
use edgelessdb.Examples.Objects.{mock_host, mock_config, mock_db, node, sixteen}

-- JSON is not looked at by the handlers that follow.
abbrev pub no_json : Reply → Result Bytes
no_json v = exc (library [])

abbrev pub no_text : Error → Bytes
no_text e = []

abbrev pub post : Request
post = record { is_post = true; body = val (45 ∷ []) }

signature_handler_lem_example :
    (a : Response) × (signature_handler "CA" mock_host no_text no_json mock_db post
        (node initialized false)
      ≡ ok a (node initialized false))
    × (a.status ≡ some 200)
    × (decode_string a.body ≡ some (1 ∷ 5 ∷ []))
signature_handler_lem_example =
    signature_handler_lem "CA" mock_host no_text no_json mock_db post (node initialized false) refl
      (ground arith)

abbrev pub posted : World (Unit {0})
posted =
    after (manifest_handler "CA" mock_host no_text no_json mock_db post (node initialized false))

abbrev key_sent : Response
key_sent = recovery_key_response (some (2 ∷ sixteen))

manifest_handler_lem_example :
    ((key_sent.status ≡ some 405) × (post.is_post ≡ false) × (posted ≡ node initialized false))
    ⊎ (((key_sent.status ≡ some 400) × (post.is_post ≡ true))
        ⊎ ((json : Bytes) × (c : Option Bytes) × (post.is_post ≡ true)
            × (post.body ≡ val json)
            × (Lifecycle.initialize "CA" mock_host mock_db json (node initialized false)
                ≡ ok c posted)
            × (key_sent ≡ recovery_key_response c)))
unfolding manifest_handler Lifecycle.initialize encrypt_recovery_key lock defer_unlock
manifest_handler_lem_example =
    manifest_handler_lem "CA" mock_host no_text no_json mock_db post key_sent
      (node initialized false) posted refl

-- A node with a log directory alone.
abbrev logging : World (Unit {0})
logging = with_env log_dir_var (47 ∷ []) (node uninitialized false)

error_log_place_of_log_dir_example :
    ((filled : Config) × (fill_config_from_environment mock_config logging ≡ ok filled logging)
      × (filled.debug ≡ true)
      × (filled.log_dir ≡ 47 ∷ []))
    × (error_log_place mock_host (text "/tmp/edb") host_path logging
        ≡ ok (some (text "/tmp/edb", false)) logging)
error_log_place_of_log_dir_example =
    error_log_place_of_log_dir mock_host (text "/tmp/edb") host_path mock_config logging refl
      (λ e. cc)
