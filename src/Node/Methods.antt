-- ===== src/Node/Methods.antt =====
-- The methods of `Core` leave what a node keeps on its disk (edb/core/core.go).
use edgelessdb.Prelude.{arith, refl, Bool, true, false, Option, none, some, List, String, Bytes}
use edgelessdb.World.{
  World, Config, Disk, Host, PublicKey, rsa_public, other_public, Row, M, Outcome, ok, err, halt,
  panicked, fatal, deadlocked, State, modify, after, branch,
}
use edgelessdb.World.Invariant.{bind-Holds, same-Holds, pure-Holds}
use edgelessdb.Db.Mariadb.Config.{Mariadb}
use edgelessdb.Db.Mariadb.Startup.{mariadb}
use edgelessdb.Db.Mariadb.Bootstrap
use edgelessdb.Core.States.{lock, locked, unlocked, unwound, defer_unlock, require_state}
use edgelessdb.Core.Certificate.{
  get_certificate_ca, reported_certificate, report_for, generate_report, get_certificate_report,
  get_certificate_report_marble, own_certificate,
}
use edgelessdb.Core.Lifecycle.{
  encrypt_for, encrypt_recovery_key, schedule_restart, initialize_locked, initialize, show_recovery,
  initialize_from_file, start_or_wait, initialize_if_waiting, start_database, recover,
  is_recovering, get_manifest_signature,
}
use edgelessdb.Node.Intact.{IsOwn, IsDurable, IsIntact}
use edgelessdb.Node.Files.{is_marble-Kept, Kept, kept, modify-Kept}
use edgelessdb.Node.Keys.{set_master_key-Kept}
use edgelessdb.Node.Bootstrap.{initialize-Kept}
use edgelessdb.Node.Database.{start-Kept}

module _ {A : Type 0} {own : Bytes → Type 0} (root_ca_var : String) (h : Host)
    (bootstrap_sql : Bytes) (row : Disk → Option A) (internal_path : Bytes) (config : Config)
    (laws : IsDurable h row internal_path own) (r : A) where
  -- The code leaves a node with its row.
  abbrev pub Keeping : {A : Type 0} → M Mariadb A → Type 0
  Keeping m = Kept h row internal_path config laws r m

  unlocked-IsIntact :
      (w : World Mariadb)
      → IsIntact row internal_path config r w
      → IsIntact row internal_path config r (unlocked w)
  unlocked-IsIntact w p = record {
    stored = p.stored;
    configured = p.configured;
    inside = p.inside;
    outside = p.outside;
  }

  pub lock-Kept : Keeping lock
  unfolding lock
  lock-Kept = record { kept = λ w p. of_mutex w p w.core.locked }
    where
      of_mutex :
          (w : World Mariadb)
          → IsIntact row internal_path config r w
          → (b : Bool)
          → IsIntact row internal_path config r
              (after (branch b (halt deadlocked) (modify locked) w))
      of_mutex w p true = p
      of_mutex w p false = record {
        stored = p.stored;
        configured = p.configured;
        inside = p.inside;
        outside = p.outside;
      }

  pub defer_unlock-Kept : {A : Type 0} (m : M Mariadb A) → Keeping m → Keeping (defer_unlock m)
  unfolding defer_unlock
  defer_unlock-Kept {A} m k = record { kept = λ w p. of_outcome (m w) (k.kept w p) }
    where
      of_outcome :
          (o : Outcome Mariadb A)
          → IsIntact row internal_path config r (after o)
          → IsIntact row internal_path config r (
              after {A = A} (elim o [
                | ok a v ↦ ok a (unlocked v)
                | err e v ↦ err e (unlocked v)
                | halt x v ↦ halt x (unwound x v)
              ]))
      of_outcome (ok a v) p = unlocked-IsIntact v p
      of_outcome (err e v) p = unlocked-IsIntact v p
      of_outcome (halt (panicked e) v) p = unlocked-IsIntact v p
      of_outcome (halt (fatal e) v) p = p
      of_outcome (halt deadlocked v) p = p

  pub require_state-Kept : (states : List State) → Keeping (require_state states)
  unfolding require_state
  require_state-Kept states = search (kept, lock-Kept) depth 9

  get_certificate_ca-Kept : Keeping (get_certificate_ca root_ca_var h)
  unfolding get_certificate_ca
  get_certificate_ca-Kept = search (kept, is_marble-Kept) depth 9

  own_certificate-Kept : Keeping (own_certificate root_ca_var h (mariadb h bootstrap_sql))
  own_certificate-Kept = same-Holds _ (λ w. refl)

  report_for-Kept :
      (cert : Bytes) → Keeping (report_for root_ca_var h (mariadb h bootstrap_sql) cert)
  report_for-Kept cert =
      modify-Kept h row internal_path config laws r _ (λ w. (refl, refl, refl, refl))

  pub generate_report-Kept : Keeping (generate_report root_ca_var h (mariadb h bootstrap_sql))
  unfolding generate_report reported_certificate
  generate_report-Kept =
      search (kept, is_marble-Kept, get_certificate_ca-Kept, own_certificate-Kept, report_for-Kept)
        depth 9

  encrypt_for-Kept : (public : PublicKey) (key : Bytes) → Keeping (encrypt_for h public key)
  encrypt_for-Kept (rsa_public n) key = search kept depth 9
  encrypt_for-Kept other_public key = record { kept = λ w p. p }

  pub encrypt_recovery_key-Kept : (key pem : Bytes) → Keeping (encrypt_recovery_key h key pem)
  unfolding encrypt_recovery_key
  encrypt_recovery_key-Kept key pem = search (kept, encrypt_for-Kept) depth 12

  pub initialize_locked-Kept :
      (m : Bytes) (c : Option Bytes)
      → Keeping (initialize_locked root_ca_var h (mariadb h bootstrap_sql) m c)
  initialize_locked-Kept m c =
      bind-Holds (Bootstrap.initialize h bootstrap_sql m) _
        (initialize-Kept h row internal_path config laws r bootstrap_sql m)
        λ _. bind-Holds schedule_restart _ scheduled λ _. pure-Holds c
    where
      scheduled : Keeping schedule_restart
      scheduled = modify-Kept h row internal_path config laws r _ (λ w. (refl, refl, refl, refl))

  pub commit-Kept :
      (m : Bytes) (c : Option Bytes)
      → Keeping (defer_unlock (initialize_locked root_ca_var h (mariadb h bootstrap_sql) m c))
  commit-Kept m c = defer_unlock-Kept _ (initialize_locked-Kept m c)

  initialize-Keeping : (m : Bytes) → Keeping (initialize root_ca_var h (mariadb h bootstrap_sql) m)
  unfolding initialize
  initialize-Keeping m = search (kept, encrypt_recovery_key-Kept, lock-Kept, commit-Kept) depth 14

  show_recovery-Kept :
      (marble : Bool) (c : Option Bytes)
      → Keeping (show_recovery root_ca_var h (mariadb h bootstrap_sql) marble c)
  show_recovery-Kept marble none = pure-Holds tt
  show_recovery-Kept marble (some c) = search kept depth 9

  initialize_from_file-Kept :
      (path : Bytes) (marble : Bool)
      → Keeping (initialize_from_file root_ca_var h (mariadb h bootstrap_sql) path marble)
  initialize_from_file-Kept path marble =
      search (kept, initialize-Keeping, show_recovery-Kept) depth 9

  start_or_wait-Kept : Keeping (start_or_wait root_ca_var h (mariadb h bootstrap_sql))
  unfolding start_or_wait
  start_or_wait-Kept = search (kept, start-Kept) depth 9

  initialize_if_waiting-Kept :
      (waiting : Bool)
      → Keeping (initialize_if_waiting root_ca_var h (mariadb h bootstrap_sql) waiting)
  unfolding initialize_if_waiting
  initialize_if_waiting-Kept waiting = search (kept, initialize_from_file-Kept) depth 9

  pub start_database-Kept : Keeping (start_database root_ca_var h (mariadb h bootstrap_sql))
  unfolding start_database
  start_database-Kept =
      search (kept, start_or_wait-Kept, generate_report-Kept, initialize_if_waiting-Kept) depth 9

  pub is_recovering-Kept : Keeping (is_recovering root_ca_var h (mariadb h bootstrap_sql))
  unfolding is_recovering
  is_recovering-Kept = search (kept, require_state-Kept, defer_unlock-Kept) depth 9

  pub get_manifest_signature-Kept :
      Keeping (get_manifest_signature root_ca_var h (mariadb h bootstrap_sql))
  unfolding get_manifest_signature
  get_manifest_signature-Kept = search (kept, lock-Kept, defer_unlock-Kept) depth 12

  pub get_certificate_report-Kept :
      Keeping (get_certificate_report root_ca_var h (mariadb h bootstrap_sql))
  unfolding get_certificate_report get_certificate_report_marble get_certificate_ca
  get_certificate_report-Kept = same-Holds _ (λ w. ground arith)

-- `Recover` writes the key file as well, so that what is kept is apart from that, too.
module _ (root_ca_var : String) (h : Host) (bootstrap_sql : Bytes) (row : Disk → Option Row)
    (internal_path : Bytes) (config : Config)
    (laws : IsDurable h row internal_path (IsOwn internal_path config)) (r : Row) where
  pub recover-Kept :
      (key : Bytes)
      → Keeping root_ca_var h bootstrap_sql row internal_path config laws r
          (recover root_ca_var h (mariadb h bootstrap_sql) key)
  unfolding recover
  recover-Kept key =
      defer_unlock-Kept root_ca_var h bootstrap_sql row internal_path config laws r _
        (search (kept, require_state-Kept, set_master_key-Kept, start_database-Kept) depth 9)
