-- ===== src/Server/Handlers.antt =====
-- edb/server/server.go: `CreateServeMux`, one handler per path.
use edgelessdb.Prelude.{Bool, not, Option, none, some, String, Bytes, text, ◌++◌}
use edgelessdb.Std.Hex.{encode_to_string}
use edgelessdb.Std.Base64.{encode}
use edgelessdb.World.{
  Error, Host, M, Result, val, exc, ◌>>=◌, pure, attempt, branch, on_result, or_empty,
}
use edgelessdb.Db.Interface.{Database}
use edgelessdb.Core.Certificate.{get_certificate_report}
use edgelessdb.Core.Lifecycle.{initialize, recover, get_manifest_signature}
use edgelessdb.Server.Response.{
  Response, no_response, Reply, success_message, success_quote, write_body, http_error, write_json,
  write_json_error,
}

-- Of a request the handlers look at the method and the body, whose reading may fail.
pub record Request : Type 0 where
  pub is_post : Bool
  pub body : Result Bytes

abbrev pub method_not_allowed : Response
method_not_allowed = http_error (text "Method Not Allowed") 405 no_response

-- The recovery key in Base64; without one, nothing is written.
abbrev pub recovery_key_response : Option Bytes → Response
recovery_key_response none = no_response
recovery_key_response (some c) = write_body (encode c) no_response

module _ (root_ca_var : String) (h : Host) (error_text : Error → Bytes)
    (json_marshal : Reply → Result Bytes) {D : Type 0} (db : Database D) where
  -- A POST with a body, or an answer that it is none.
  abbrev pub with_posted : Request → (Bytes → M D Response) → M D Response
  with_posted r handle =
      branch (not r.is_post) (pure method_not_allowed)
        (on_result r.body handle (λ e. pure (http_error (error_text e) 400 no_response)))

  -- `/manifest`
  unfoldable pub manifest_handler : Request → M D Response
  manifest_handler r = with_posted r λ json_manifest. do
    done ← attempt (initialize root_ca_var h db json_manifest)
    on_result done (λ c. pure (recovery_key_response c))
        (λ e. pure (http_error (error_text e) 400 no_response))

  -- `/signature`
  unfoldable pub signature_handler : Request → M D Response
  signature_handler r = do
    sig ← get_manifest_signature root_ca_var h db
    pure (write_body (encode_to_string (or_empty sig)) no_response)

  -- `/quote`
  unfoldable pub quote_handler : Request → M D Response
  quote_handler r = do
    got ← attempt (get_certificate_report root_ca_var h db)
    on_result got
        (λ p. pure (write_json error_text json_marshal (success_quote p.0 p.1) no_response))
        (λ e. pure (write_json_error error_text json_marshal (error_text e) 500 no_response))

  abbrev pub recovery_message : Result (Unit {0}) → Bytes
  recovery_message (val _) = text "Recovery successful."
  recovery_message (exc e) = text "Recovery failed: " ++ error_text e

  -- `/recover`: a failure is told in the text of a success.
  unfoldable pub recover_handler : Request → M D Response
  recover_handler r = with_posted r λ key. do
    done ← attempt (recover root_ca_var h db key)
    pure (write_json error_text json_marshal (success_message (recovery_message done)) no_response)
