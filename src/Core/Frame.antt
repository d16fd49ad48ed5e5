-- ===== src/Core/Frame.antt =====
-- What the calls of edb/core leave alone among the fields of `Core`.
use edgelessdb.Prelude.{◌≡◌, ◌∙◌, refl, ap, Bool, true, false, arith, String, Bytes}
use edgelessdb.World.{
  World, Core, State, Error, Result, val, exc, on_result, after-attempt, Config, Host, M, after,
  ◌>>=◌, attempt, branch, fail_if, key_not_allowed_to_change_marblerun, after-bind, modify,
  rsa_public, other_public, PublicKey,
}
use edgelessdb.World.Frame.{
  KeepsCore, keeps_core, bind-KeepsCore, branch-KeepsCore, pure-KeepsCore, attempt-KeepsCore,
  on_result-KeepsCore,
}
use edgelessdb.Db.Interface.{Database, IsSeparate}
use edgelessdb.Core.States.{cfg, is_marble}
use edgelessdb.Core.Key.{
  store_master_key_to_env, backup_key, store_master_key, set_master_key, keep_master_key,
}
use edgelessdb.Core.Certificate.{get_certificate_ca, reported_certificate, generate_report}
use edgelessdb.Core.Lifecycle.{encrypt_for, encrypt_recovery_key, start_or_wait}

-- `view` picks the fields that are meant.
pub record Keeps {D A V : Type 0} (view : Core → V) (m : M D A) : Type 0 where
  pub kept : (w : World D) → view (after (m w)).core ≡ view w.core

-- The state, the mutex, the mode and the configuration.
abbrev pub control : Core → State × Bool × Bool × Config
control c = (c.state, c.locked, c.is_marble, c.cfg)

-- The state, the mode and the configuration.
abbrev pub mode : Core → State × Bool × Config
mode c = (c.state, c.is_marble, c.cfg)

-- What the search for a master key leaves alone.
abbrev pub fence : Core → Bool × Bool × Config
fence c = (c.locked, c.is_marble, c.cfg)

module _ {V : Type 0} (view : Core → V) {D : Type 0} where
  pub KeepsCore-Keeps : {A : Type 0} (m : M D A) → KeepsCore m → Keeps view m
  KeepsCore-Keeps m k = record { kept = λ w. ap view (k.kept w) }

  pub bind-Keeps :
      {A B : Type 0} (m : M D A) (f : A → M D B)
      → Keeps view m
      → ((a : A) → Keeps view (f a))
      → Keeps view (m >>= f)
  bind-Keeps m f k g = record {
    kept = λ w.
        after-bind (λ v. view v.core ≡ view w.core) m f w (k.kept w)
          (λ a v e. (g a).kept v ∙ rw e at (k.kept w));
  }

  pub branch-Keeps :
      {A : Type 0} (b : Bool) (m n : M D A)
      → Keeps view m
      → Keeps view n
      → Keeps view (branch b m n)
  branch-Keeps true m n k l = record { kept = k.kept }
  branch-Keeps false m n k l = record { kept = l.kept }

  pub on_result-Keeps :
      {A B : Type 0} (r : Result A) (f : A → M D B) (g : Error → M D B)
      → ((a : A) → Keeps view (f a))
      → ((e : Error) → Keeps view (g e))
      → Keeps view (on_result r f g)
  on_result-Keeps (val a) f g k l = record { kept = (k a).kept }
  on_result-Keeps (exc e) f g k l = record { kept = (l e).kept }

  pub attempt-Keeps : {A : Type 0} (m : M D A) → Keeps view m → Keeps view (attempt m)
  attempt-Keeps m k = record {
    kept = λ w. ap (λ (v : World D). view v.core) (after-attempt m w) ∙ k.kept w;
  }

cfg-KeepsCore : {D : Type 0} → KeepsCore {D = D} cfg
cfg-KeepsCore = record { kept = λ w. refl }

pub is_marble-KeepsCore : {D : Type 0} → KeepsCore {D = D} is_marble
is_marble-KeepsCore = record { kept = λ w. refl }

module _ (h : Host) {D : Type 0} where
  backup_key-KeepsCore : (p : Bytes) → KeepsCore {D = D} (backup_key h p)
  unfolding backup_key
  backup_key-KeepsCore p = record { kept = λ w. ground arith }

  store_master_key_to_env-KeepsCore :
      (key : Bytes) → KeepsCore {D = D} (store_master_key_to_env h key)
  unfolding store_master_key_to_env
  store_master_key_to_env-KeepsCore key = record { kept = λ w. ground arith }

  pub store_master_key-KeepsCore : (key : Bytes) → KeepsCore {D = D} (store_master_key h key)
  unfolding store_master_key
  store_master_key-KeepsCore key =
      search (keeps_core, store_master_key_to_env-KeepsCore, cfg-KeepsCore, backup_key-KeepsCore)
        depth 14

  -- Setting the master key writes that field of `Core` and no other.
  pub set_master_key-Keeps : (key : Bytes) → Keeps {D = D} control (set_master_key h key)
  unfolding set_master_key
  set_master_key-Keeps key =
      bind-Keeps control is_marble _ (KeepsCore-Keeps control _ is_marble-KeepsCore) λ marble.
        bind-Keeps control (fail_if marble key_not_allowed_to_change_marblerun) _
          (KeepsCore-Keeps control _ (search keeps_core))
          λ _.
            bind-Keeps control (modify (keep_master_key h key)) _ (record { kept = λ w. refl })
              λ _. KeepsCore-Keeps control _ (store_master_key-KeepsCore key)

  pub encrypt_recovery_key-KeepsCore :
      (key pem : Bytes) → KeepsCore {D = D} (encrypt_recovery_key h key pem)
  unfolding encrypt_recovery_key
  encrypt_recovery_key-KeepsCore key pem = search (keeps_core, encrypts) depth 12
    where
      encrypts : (public : PublicKey) → KeepsCore {D = D} (encrypt_for h public key)
      encrypts other_public = record { kept = λ w. refl }
      encrypts (rsa_public n) = search keeps_core depth 9

module _ (root_ca_var : String) (h : Host) {D : Type 0} (db : Database D)
    (lawful : IsSeparate db) where
  get_certificate-KeepsCore : KeepsCore db.get_certificate
  get_certificate-KeepsCore = record { kept = lawful.get_certificate-core }

  pub get_certificate_ca-KeepsCore : KeepsCore {D = D} (get_certificate_ca root_ca_var h)
  unfolding get_certificate_ca
  get_certificate_ca-KeepsCore = search (keeps_core, is_marble-KeepsCore) depth 12

  reported_certificate-KeepsCore : KeepsCore (reported_certificate root_ca_var h db)
  unfolding reported_certificate
  reported_certificate-KeepsCore = bind-KeepsCore is_marble _ is_marble-KeepsCore λ marble.
      branch-KeepsCore marble _ _ get_certificate_ca-KeepsCore
        (bind-KeepsCore db.get_certificate _ get_certificate-KeepsCore (λ _. pure-KeepsCore _))

  -- Making a report writes that field of `Core` and no other.
  pub generate_report-Keeps :
      {V : Type 0} (view : Core → V)
      → ((c : Core) (report : Bytes) → view (record c { report = report }) ≡ view c)
      → Keeps view (generate_report root_ca_var h db)
  unfolding generate_report
  generate_report-Keeps view same =
      bind-Keeps view (reported_certificate root_ca_var h db) _
        (KeepsCore-Keeps view _ reported_certificate-KeepsCore)
        λ cert. record { kept = λ w. same w.core _ }

  pub start_or_wait-KeepsCore : KeepsCore (start_or_wait root_ca_var h db)
  unfolding start_or_wait
  start_or_wait-KeepsCore =
      bind-KeepsCore (attempt db.start) _ (attempt-KeepsCore db.start started)
        λ r. on_result-KeepsCore r _ _ (λ _. pure-KeepsCore _) (λ e. search keeps_core depth 9)
    where
      started : KeepsCore db.start
      started = record { kept = lawful.start-core }
