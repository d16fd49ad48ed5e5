-- ===== src/Server/Schedule/Frame.antt =====
-- What the parts of requests (edb/server/server.go) leave alone.
use edgelessdb.Prelude.{false, true, ◌≡◌, ◌≢◌, refl, ap, Bool, not, Option, String, Bytes, ◌∷◌, []}
use edgelessdb.World.{
  val, exc, World, Host, Error, Result, Outcome, after, attempt, pure, recovery, ◌>>=◌,
}
use edgelessdb.World.Frame.{KeepsCore, keeps_core, bind-KeepsCore, pure-KeepsCore, branch-KeepsCore}
use edgelessdb.Db.Interface.{Database, IsSeparate}
use edgelessdb.Core.States.{lock, defer_unlock, is_marble, require_state}
use edgelessdb.Core.Certificate.{
  encode_certificate, get_certificate_report, get_certificate_report_marble, get_certificate_ca,
}
use edgelessdb.Core.Key.{set_master_key}
use edgelessdb.Core.Lifecycle.{
  initialize_locked, encrypt_recovery_key, get_manifest_signature, start_database,
}
use edgelessdb.Core.Lifecycle
use edgelessdb.Core.Frame.{
  Keeps, mode, KeepsCore-Keeps, bind-Keeps, branch-Keeps, on_result-Keeps, attempt-Keeps,
  encrypt_recovery_key-KeepsCore, is_marble-KeepsCore, get_certificate_ca-KeepsCore,
  set_master_key-Keeps,
}
use edgelessdb.Core.Lock.{
  IsReleased, chain-IsReleased, branch-IsReleased, on_result-IsReleased, attempt-IsReleased,
  defer_unlock-IsReleased, lock_free, recover-IsReleased,
}
use edgelessdb.Core.Recovery.{recover_refused}
use edgelessdb.Core.Settings.{settings, lock-Keeps, defer_unlock-Keeps, start_database-Keeps}
use edgelessdb.Server.Response.{success_message, write_json, Response, Reply, no_response}
use edgelessdb.Server.Handlers.{
  Request, recovery_message, signature_handler, quote_handler, recover_handler, with_posted,
}
use edgelessdb.Server.Schedule.{prepare, commit}

module _ (root_ca_var : String) (h : Host) (error_text : Error → Bytes)
    (json_marshal : Reply → Result Bytes) {D : Type 0} (db : Database D)
    (lawful : IsSeparate db) where
  pub prepare-KeepsCore :
      (manifest : Bytes) → KeepsCore (prepare root_ca_var h error_text json_marshal db manifest)
  unfolding prepare
  prepare-KeepsCore manifest = search (keeps_core, encrypted) depth 12
    where
      encrypted : (key pem : Bytes) → KeepsCore {D = D} (encrypt_recovery_key h key pem)
      encrypted key pem = encrypt_recovery_key-KeepsCore h key pem

  pub commit-Keeps :
      (manifest : Bytes) (c : Option Bytes)
      → Keeps settings (commit root_ca_var h error_text json_marshal db manifest c)
  unfolding commit
  commit-Keeps manifest c = bind-Keeps settings lock _ (lock-Keeps settings (λ _ _. refl)) λ _.
      defer_unlock-Keeps settings (λ _ _. refl) (initialize_locked root_ca_var h db manifest c)
        (KeepsCore-Keeps settings _ inside)
    where
      inside : KeepsCore (initialize_locked root_ca_var h db manifest c)
      inside =
          bind-KeepsCore (db.initialize manifest) _
            (record { kept = lawful.initialize-core manifest }) λ _. record { kept = λ w. refl }

  pub commit-IsReleased :
      (manifest : Bytes) (c : Option Bytes) (w : World D)
      → w.core.locked ≡ false
      → IsReleased (commit root_ca_var h error_text json_marshal db manifest c w)
  unfolding commit
  commit-IsReleased manifest c w free =
      lock_free (λ _. defer_unlock (initialize_locked root_ca_var h db manifest c)) w free
        λ t. defer_unlock-IsReleased (initialize_locked root_ca_var h db manifest c) t

  get_manifest_signature-Keeps : Keeps settings (get_manifest_signature root_ca_var h db)
  unfolding get_manifest_signature
  get_manifest_signature-Keeps =
      bind-Keeps settings lock _ (lock-Keeps settings (λ _ _. refl))
        λ _. defer_unlock-Keeps settings (λ _ _. refl) _ (record { kept = λ w. refl })

  own-KeepsCore : KeepsCore db.get_certificate
  own-KeepsCore = record { kept = lawful.get_certificate-core }

  get_certificate_report-KeepsCore : KeepsCore (get_certificate_report root_ca_var h db)
  unfolding get_certificate_report get_certificate_report_marble
  get_certificate_report-KeepsCore = bind-KeepsCore is_marble _ is_marble-KeepsCore λ marble.
      branch-KeepsCore marble (get_certificate_report_marble root_ca_var h db) _
        (record {
          kept = λ w.
              (bind-KeepsCore _ _ certificate λ cert.
                  bind-KeepsCore (get_certificate_ca root_ca_var h) _
                    (get_certificate_ca-KeepsCore root_ca_var h db lawful)
                    λ ca. search (keeps_core, encoded) depth 9).kept
                w;
        })
        (bind-KeepsCore _ _ certificate λ cert. search (keeps_core, encoded) depth 9)
    where
      certificate : KeepsCore {A = Bytes} (db.get_certificate >>= λ p. pure p.0)
      certificate = bind-KeepsCore db.get_certificate _ own-KeepsCore (λ _. pure-KeepsCore _)

      encoded : (cert : Bytes) → KeepsCore {D = D} (encode_certificate h cert)
      encoded cert = search keeps_core depth 9

  recover-Keeps : (key : Bytes) → Keeps mode (Lifecycle.recover root_ca_var h db key)
  unfolding Lifecycle.recover
  recover-Keeps key =
      defer_unlock-Keeps mode (λ _ _. refl) _
        (bind-Keeps mode (require_state (recovery ∷ [])) _ required λ _.
          bind-Keeps mode (set_master_key h key) _
            (record { kept = λ w. ap (λ x. (x.0, x.2, x.3)) ((set_master_key-Keeps h key).kept w) })
            λ _. record {
              kept = λ w.
                  ap (λ x. (x.0, x.1, x.2)) ((start_database-Keeps root_ca_var h db lawful).kept w);
            })
    where
      required : Keeps {D = D} mode (require_state (recovery ∷ []))
      required =
          unfold require_state in
          bind-Keeps mode lock _ (lock-Keeps mode (λ _ _. refl))
            λ _. KeepsCore-Keeps mode _ (search keeps_core depth 9)

  pub signature_handler-Keeps :
      (r : Request) → Keeps settings (signature_handler root_ca_var h error_text json_marshal db r)
  unfolding signature_handler
  signature_handler-Keeps r =
      bind-Keeps settings (get_manifest_signature root_ca_var h db) _ get_manifest_signature-Keeps
        λ sig. record { kept = λ w. refl }

  pub quote_handler-KeepsCore :
      (r : Request) → KeepsCore (quote_handler root_ca_var h error_text json_marshal db r)
  unfolding quote_handler
  quote_handler-KeepsCore r = search (keeps_core, get_certificate_report-KeepsCore) depth 9

  pub recover_handler-Keeps :
      (r : Request) → Keeps mode (recover_handler root_ca_var h error_text json_marshal db r)
  unfolding recover_handler
  recover_handler-Keeps r =
      branch-Keeps mode (not r.is_post) _ _ (record { kept = λ w. refl })
        (on_result-Keeps mode r.body _ _
          (λ key.
            bind-Keeps mode (attempt (Lifecycle.recover root_ca_var h db key)) _
              (attempt-Keeps mode _ (recover-Keeps key)) λ done. record { kept = λ w. refl })
          (λ e. record { kept = λ w. refl }))

  pub signature_handler-IsReleased :
      (r : Request) (w : World D)
      → w.core.locked ≡ false
      → IsReleased (signature_handler root_ca_var h error_text json_marshal db r w)
  unfolding signature_handler get_manifest_signature
  signature_handler-IsReleased r w free =
      chain-IsReleased (get_manifest_signature root_ca_var h db) _ w
        (lock_free _ w free (λ t. defer_unlock-IsReleased _ t)) λ sig v g. g

  pub recover_handler-IsReleased :
      (r : Request) (w : World D)
      → w.core.locked ≡ false
      → IsReleased (recover_handler root_ca_var h error_text json_marshal db r w)
  unfolding recover_handler
  recover_handler-IsReleased r w free = branch-IsReleased (not r.is_post) _ _ w free (
      on_result-IsReleased r.body _ _ w
        (λ key.
          chain-IsReleased (attempt (Lifecycle.recover root_ca_var h db key)) _ w
            (attempt-IsReleased (Lifecycle.recover root_ca_var h db key) w
              (recover-IsReleased root_ca_var h db key w))
            λ done v g. g)
        (λ e. free))

  -- Outside of recovery `/recover` changes nothing.
  pub recover_handler_refused :
      (r : Request) (w : World D)
      → w.core.locked ≡ false
      → w.core.state ≢ recovery
      → after (recover_handler root_ca_var h error_text json_marshal db r w) ≡ w
  unfolding recover_handler
  recover_handler_refused r w free other = of_post r.is_post r.body
    where
      answered : Outcome D (Unit {0}) → Outcome D Response
      answered o =
          (attempt (λ _. o) >>= λ done. pure (
              write_json error_text json_marshal
                (success_message (recovery_message root_ca_var h error_text json_marshal db done))
                no_response))
            w

      of_post :
          (b : Bool) (body : Result Bytes)
          → after (
              with_posted root_ca_var h error_text json_marshal db
                (record { is_post = b; body = body })
                (λ key. do
                  done ← attempt (Lifecycle.recover root_ca_var h db key)
                  pure (
                      write_json error_text json_marshal
                        (success_message
                          (recovery_message root_ca_var h error_text json_marshal db done))
                        no_response))
                w)
            ≡ w
      of_post false body = refl
      of_post true (exc x) = refl
      of_post true (val key) =
          ap (λ o. after (answered o)) (recover_refused root_ca_var h db key w free other)
