-- ===== src/Server/Schedule/Split.antt =====
-- The two parts of a request to apply a manifest are `Initialize` (edb/core/core.go).
use edgelessdb.Prelude.{sym, ◌≡◌, arith, String, Bytes}
use edgelessdb.World.{World, Host, Error, Result, M, ◌>>=◌, get, from_result}
use edgelessdb.Db.Interface.{Database}
use edgelessdb.Core.Lifecycle.{encrypt_recovery_key, initialize}
use edgelessdb.Server.Response.{Reply}
use edgelessdb.Server.Schedule.{prepare, commit}

module _ {D : Type 0} where
  >>=-assoc :
      {A B C : Type 0} (m : M D A) (f : A → M D B) (g : B → M D C) (w : World D)
      → ((m >>= f) >>= g) w ≡ (m >>= λ a. f a >>= g) w
  >>=-assoc m f g w = ground arith

module _ (root_ca_var : String) (h : Host) (error_text : Error → Bytes)
    (json_marshal : Reply → Result Bytes) {D : Type 0} (db : Database D) where
  -- `Initialize` is its part before the mutex, and then the part behind it.
  pub initialize_lem :
      (manifest : Bytes) (w : World D)
      → initialize root_ca_var h db manifest w
        ≡ (prepare root_ca_var h error_text json_marshal db manifest
              >>= commit root_ca_var h error_text json_marshal db manifest)
            w
  unfolding initialize prepare commit
  initialize_lem manifest w = sym (
      >>=-assoc (from_result (h.json_recovery manifest))
        (λ pem. get >>= λ v. encrypt_recovery_key h v.core.master_key pem)
        (commit root_ca_var h error_text json_marshal db manifest) w)
