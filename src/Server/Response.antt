-- ===== src/Server/Response.antt =====
-- edb/server/server.go: answers. What net/http makes of the calls of a handler is a status, which
-- the first call of `WriteHeader` or of `Write` settles, and a body.
use edgelessdb.Prelude.{ℕ, Option, none, some, [], ◌++◌, Bytes, text}
use edgelessdb.World.{Error, Result, val, exc}

pub record Response : Type 0 where
  pub status : Option ℕ
  pub body : Bytes

abbrev pub no_response : Response
no_response = record { status = none; body = [] }

-- `generalResponse`, with the data that the handlers put there
pub data Reply : Type 0 where
  success_message : Bytes → Reply
  success_quote : Bytes → Bytes → Reply
  failure : Bytes → Reply

abbrev pub settle_status : ℕ → Option ℕ → Option ℕ
settle_status code none = some code
settle_status code (some first) = some first

-- `WriteHeader` and `Write`
abbrev pub write_header : ℕ → Response → Response
write_header code r = record r { status = settle_status code r.status }

abbrev pub write_body : Bytes → Response → Response
write_body b r = record { status = settle_status 200 r.status; body = r.body ++ b }

-- `http.Error`, which ends the text with a line feed
abbrev pub http_error : Bytes → ℕ → Response → Response
http_error message code r = write_body (message ++ text "\n") (write_header code r)

-- The texts of errors, and encoding/json for `generalResponse`.
module _ (error_text : Error → Bytes) (json_marshal : Reply → Result Bytes) where
  -- `json.NewEncoder(w).Encode`, which writes a line feed behind the value and nothing on an error
  abbrev pub on_encoded : Result Bytes → Response → Response
  on_encoded (val b) r = write_body (b ++ text "\n") r
  on_encoded (exc e) r = http_error (error_text e) 500 r

  -- `writeJSON`
  unfoldable pub write_json : Reply → Response → Response
  write_json v r = on_encoded (json_marshal v) r

  abbrev pub on_marshalled : Bytes → ℕ → Result Bytes → Response → Response
  on_marshalled message code (val b) r = http_error b code r
  on_marshalled message code (exc _) r = http_error [] code (http_error message code r)

  -- `writeJSONError`: behind the fall-back the empty result is written as well.
  unfoldable pub write_json_error : Bytes → ℕ → Response → Response
  write_json_error message code r = on_marshalled message code (json_marshal (failure message)) r
