-- ===== src/Server/Laws.antt =====
-- The HTTP API (edb/server/server.go): what an answer tells of the call behind it.
use edgelessdb.Prelude.{
  ◌<◌, ◌≡◌, ◌⊎◌, inl, inr, refl, arith, Bool, true, false, Option, some, String, Bytes, All,
}
use edgelessdb.Std.Hex.{encode_to_string, decode_string, decode_string-encode_to_string}
use edgelessdb.World.{
  World, Outcome, Error, Host, Result, val, exc, ok, on_ok, >>=_of_ok, ◌>>=◌, pure, attempt,
  on_result, or_empty,
}
use edgelessdb.Db.Interface.{Database}
use edgelessdb.Core.States.{lock, defer_unlock}
use edgelessdb.Core.Lifecycle.{initialize, get_manifest_signature}
use edgelessdb.Server.Response.{Response, no_response, Reply, write_body, http_error}
use edgelessdb.Server.Handlers.{
  Request, recovery_key_response, with_posted, manifest_handler, signature_handler,
}

module _ (root_ca_var : String) (h : Host) (error_text : Error → Bytes)
    (json_marshal : Reply → Result Bytes) {D : Type 0} (db : Database D) where
  -- With the mutex free, `/signature` answers with the status 200 and, in hex, the bytes of the
  -- database's manifest signature, or none if there is no signature, and changes nothing.
  pub signature_handler_lem :
      (r : Request) (w : World D)
      → w.core.locked ≡ false
      → All (λ b. b < 256) (or_empty (db.get_manifest_signature w.db))
      → (a : Response) × (signature_handler root_ca_var h error_text json_marshal db r w ≡ ok a w)
        × (a.status ≡ some 200)
        × (decode_string a.body ≡ some (or_empty (db.get_manifest_signature w.db)))
  unfolding signature_handler get_manifest_signature lock defer_unlock
  signature_handler_lem r w free bytes =
      let got : get_manifest_signature root_ca_var h db w ≡ ok (db.get_manifest_signature w.db) w =
        ground arith in
      (
        write_body (encode_to_string (or_empty (db.get_manifest_signature w.db))) no_response,
        >>=_of_ok (get_manifest_signature root_ca_var h db) _ w got,
        refl,
        decode_string-encode_to_string (or_empty (db.get_manifest_signature w.db)) bytes,
      )

  -- An answer of `/manifest` has the status 405, to a request that is no POST and with nothing
  -- changed, or the status 400, to a POST, or else the manifest was applied: the request was a
  -- POST, `Initialize` returned no error for its body and left the state as it is, and the answer
  -- holds the recovery key that it gave.
  pub manifest_handler_lem :
      (r : Request) (a : Response) (w w' : World D)
      → manifest_handler root_ca_var h error_text json_marshal db r w ≡ ok a w'
      → ((a.status ≡ some 405) × (r.is_post ≡ false) × (w' ≡ w))
        ⊎ (((a.status ≡ some 400) × (r.is_post ≡ true))
            ⊎ ((json : Bytes) × (c : Option Bytes) × (r.is_post ≡ true)
                × (r.body ≡ val json)
                × (initialize root_ca_var h db json w ≡ ok c w')
                × (a ≡ recovery_key_response c)))
  unfolding manifest_handler
  manifest_handler_lem r a w w' e = of_post r.is_post r.body e
    where
      of_done :
          (json : Bytes) (done : Result (Option Bytes)) (v : World D)
          → attempt (initialize root_ca_var h db json) w ≡ ok done v
          → ◌≡◌ {A = Outcome D Response}
              (on_result done
                (λ c. pure (recovery_key_response c))
                (λ x. pure (http_error (error_text x) 400 no_response))
                v)
              (ok a w')
          → (a.status ≡ some 400)
            ⊎ ((c : Option Bytes) × (initialize root_ca_var h db json w ≡ ok c w')
                × (a ≡ recovery_key_response c))
      of_done json (val c) v d e = inr (c, ground arith, cc)
      of_done json (exc x) v d e = inl (ground arith)

      of_post :
          (b : Bool) (body : Result Bytes)
          → ◌≡◌ {A = Outcome D Response}
              (with_posted root_ca_var h error_text json_marshal db
                (record { is_post = b; body = body })
                (λ json. do
                  done ← attempt (initialize root_ca_var h db json)
                  on_result done
                      (λ c. pure (recovery_key_response c))
                      (λ x. pure (http_error (error_text x) 400 no_response)))
                w)
              (ok a w')
          → ((a.status ≡ some 405) × (b ≡ false) × (w' ≡ w))
            ⊎ (((a.status ≡ some 400) × (b ≡ true))
                ⊎ ((json : Bytes) × (c : Option Bytes) × (b ≡ true)
                    × (body ≡ val json)
                    × (initialize root_ca_var h db json w ≡ ok c w')
                    × (a ≡ recovery_key_response c)))
      of_post false body e = inl (ground arith, refl, ground arith)
      of_post true (exc x) e = inr (inl (ground arith, refl))
      of_post true (val json) e =
          on_ok (attempt (initialize root_ca_var h db json)) _ w e λ done v e1 r1.
            elim (of_done json done v e1 r1) [
              | inl bad ↦ inr (inl (bad, refl))
              | inr (c, called, answer) ↦ inr (inr (json, c, refl, refl, called, answer))
            ]
