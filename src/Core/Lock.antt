-- ===== src/Core/Lock.antt =====
-- The mutex of `Core` (edb/core/core.go): who takes it gives it back.
use edgelessdb.Prelude.{
  [], ◌∷◌, not, ◌&&◌, is_empty, ◌≡◌, ◌∙◌, refl, ap, Bool, true, false, Option, none, some, String,
  Bytes,
}
use edgelessdb.World.{
  recovery, Result, val, exc, Error, attempt, on_result, World, Host, M, Halt, panicked, fatal,
  deadlocked, Outcome, ok, err, halt, after, ◌>>=◌, from_result, bind-cases, branch, read_file,
  fail_if, no_manifest_from_marblerun,
}
use edgelessdb.World.Frame.{
  keeps_core, from_result-KeepsCore, read_file-KeepsCore, fail_if-KeepsCore,
}
use edgelessdb.Db.Interface.{Database, IsSeparate}
use edgelessdb.Core.States.{unlocked, unwound, lock, defer_unlock, require_state}
use edgelessdb.Core.Certificate.{generate_report}
use edgelessdb.Core.Lifecycle.{
  is_recovering, initialize_locked, show_recovery, encrypt_recovery_key, start_or_wait, initialize,
  initialize_if_waiting, start_database, recover, get_manifest_signature,
}
use edgelessdb.Core.Frame.{
  Keeps, control, KeepsCore-Keeps, encrypt_recovery_key-KeepsCore, generate_report-Keeps,
  start_or_wait-KeepsCore,
}

-- A call that returned, with a value or an error, or that panicked, has left the mutex free.
abbrev pub IsReleased : {D A : Type 0} → Outcome D A → Type 0
IsReleased (ok _ w) = w.core.locked ≡ false
IsReleased (err _ w) = w.core.locked ≡ false
IsReleased (halt (panicked _) w) = w.core.locked ≡ false
IsReleased (halt (fatal _) w) = Unit
IsReleased (halt deadlocked w) = Unit

module _ {D : Type 0} where
  pub defer_unlock-IsReleased :
      {A : Type 0} (m : M D A) (w : World D) → IsReleased (defer_unlock m w)
  unfolding defer_unlock
  defer_unlock-IsReleased {A} m w = unlocks (m w)
    where
      unlocks :
          (r : Outcome D A)
          → IsReleased (elim r [
            | ok a w' ↦ ok a (unlocked w')
            | err e w' ↦ err e (unlocked w')
            | halt h w' ↦ halt h (unwound h w')
          ])
      unlocks (ok a v) = refl
      unlocks (err e v) = refl
      unlocks (halt (panicked x) v) = refl
      unlocks (halt (fatal x) v) = tt
      unlocks (halt deadlocked v) = tt

  pub Keeps-IsReleased :
      {A : Type 0} (m : M D A) (w : World D)
      → Keeps control m
      → w.core.locked ≡ false
      → IsReleased (m w)
  Keeps-IsReleased {A} m w k free = of_outcome (m w) (ap (λ c. c.1) (k.kept w) ∙ free)
    where
      of_outcome : (r : Outcome D A) → (after r).core.locked ≡ false → IsReleased r
      of_outcome (ok a v) e = e
      of_outcome (err x v) e = e
      of_outcome (halt (panicked x) v) e = e
      of_outcome (halt (fatal x) v) e = tt
      of_outcome (halt deadlocked v) e = tt

  of_halt :
      (A B : Type 0) (x : Halt) (v : World D)
      → IsReleased {A = A} (halt x v)
      → IsReleased {A = B} (halt x v)
  of_halt A B (panicked e) v free = free
  of_halt A B (fatal e) v free = tt
  of_halt A B deadlocked v free = tt

  pub chain-IsReleased :
      {A B : Type 0} (m : M D A) (f : A → M D B) (w : World D)
      → IsReleased (m w)
      → ((a : A) (v : World D) → v.core.locked ≡ false → IsReleased (f a v))
      → IsReleased ((m >>= f) w)
  chain-IsReleased {A} {B} m f w free go =
      bind-cases IsReleased m f w (λ e v r. rw r at free) (λ x v r. of_halt A B x v (rw r at free))
        (λ a v r. go a v (rw r at free))

  -- Code that leaves the mutex alone, before a call.
  pub bind-IsReleased :
      {A B : Type 0} (m : M D A) (f : A → M D B) (w : World D)
      → Keeps control m
      → w.core.locked ≡ false
      → ((a : A) (v : World D) → v.core.locked ≡ false → IsReleased (f a v))
      → IsReleased ((m >>= f) w)
  bind-IsReleased m f w k free go = chain-IsReleased m f w (Keeps-IsReleased m w k free) go

  pub branch-IsReleased :
      {A : Type 0} (b : Bool) (m n : M D A) (w : World D)
      → IsReleased (m w)
      → IsReleased (n w)
      → IsReleased (branch b m n w)
  branch-IsReleased true m n w p q = p
  branch-IsReleased false m n w p q = q

  pub on_result-IsReleased :
      {A B : Type 0} (r : Result A) (f : A → M D B) (g : Error → M D B) (w : World D)
      → ((a : A) → IsReleased (f a w))
      → ((e : Error) → IsReleased (g e w))
      → IsReleased (on_result r f g w)
  on_result-IsReleased (val a) f g w p q = p a
  on_result-IsReleased (exc e) f g w p q = q e

  pub attempt-IsReleased :
      {A : Type 0} (m : M D A) (w : World D) → IsReleased (m w) → IsReleased (attempt m w)
  attempt-IsReleased {A} m w free = of_outcome (m w) free
    where
      of_outcome :
          (r : Outcome D A)
          → IsReleased r
          → IsReleased {A = Result A}
              (elim r [ ok a v ↦ ok (val a) v | err e v ↦ ok (exc e) v | halt x v ↦ halt x v ])
      of_outcome (ok a v) e = e
      of_outcome (err x v) e = e
      of_outcome (halt (panicked x) v) e = e
      of_outcome (halt (fatal x) v) e = tt
      of_outcome (halt deadlocked v) e = tt

  -- With the mutex free it can be taken.
  pub lock_free :
      {A : Type 0} (f : Unit {0} → M D A) (w : World D)
      → w.core.locked ≡ false
      → ((v : World D) → IsReleased (f tt v))
      → IsReleased ((lock >>= f) w)
  unfolding lock
  lock_free f w free go = rw (free, ◌>>=◌) (go _)

module _ (root_ca_var : String) (h : Host) {D : Type 0} (db : Database D) where
  pub initialize-IsReleased :
      (manifest : Bytes) (w : World D)
      → w.core.locked ≡ false
      → IsReleased (initialize root_ca_var h db manifest w)
  unfolding initialize
  initialize-IsReleased manifest w free =
      bind-IsReleased (from_result (h.json_recovery manifest)) _ w
        (KeepsCore-Keeps control _ (from_result-KeepsCore (h.json_recovery manifest))) free
        λ pem v f.
          bind-IsReleased (encrypt_recovery_key h v.core.master_key pem) _ v
            (KeepsCore-Keeps control _ (encrypt_recovery_key-KeepsCore h v.core.master_key pem)) f
            λ c u g.
              lock_free (λ _. defer_unlock (initialize_locked root_ca_var h db manifest c)) u g
                λ t. defer_unlock-IsReleased (initialize_locked root_ca_var h db manifest c) t

  show_recovery-Keeps :
      (marble : Bool) (c : Option Bytes) → Keeps control (show_recovery root_ca_var h db marble c)
  show_recovery-Keeps marble none = record { kept = λ w. refl }
  show_recovery-Keeps marble (some c) = KeepsCore-Keeps control _ (search keeps_core)

  initialize_if_waiting-IsReleased :
      (waiting : Bool) (w : World D)
      → w.core.locked ≡ false
      → IsReleased (initialize_if_waiting root_ca_var h db waiting w)
  unfolding initialize_if_waiting
  initialize_if_waiting-IsReleased waiting w free =
      branch-IsReleased (waiting && not (is_empty w.core.cfg.manifest_file_path)) _ _ w
        (bind-IsReleased (read_file h w.core.cfg.manifest_file_path) _ w
          (KeepsCore-Keeps control _ (read_file-KeepsCore h w.core.cfg.manifest_file_path)) free
          λ manifest v f.
            chain-IsReleased (initialize root_ca_var h db manifest) _ v
              (initialize-IsReleased manifest v f)
              λ c u g.
                Keeps-IsReleased (show_recovery root_ca_var h db w.core.is_marble c) u
                  (show_recovery-Keeps w.core.is_marble c) g)
        (Keeps-IsReleased (fail_if (waiting && w.core.is_marble) no_manifest_from_marblerun) w
          (KeepsCore-Keeps control _ (fail_if-KeepsCore _ _)) free)

  pub start_database-IsReleased :
      (w : World D)
      → IsSeparate db
      → w.core.locked ≡ false
      → IsReleased (start_database root_ca_var h db w)
  unfolding start_database
  start_database-IsReleased w lawful free =
      bind-IsReleased (start_or_wait root_ca_var h db) _ w
        (KeepsCore-Keeps control _ (start_or_wait-KeepsCore root_ca_var h db lawful)) free
        λ waiting v f.
          bind-IsReleased (generate_report root_ca_var h db) _ v
            (generate_report-Keeps root_ca_var h db lawful control (λ _ _. refl)) f
            λ _ u g. initialize_if_waiting-IsReleased waiting u g

  pub recover-IsReleased : (key : Bytes) (w : World D) → IsReleased (recover root_ca_var h db key w)
  unfolding recover
  recover-IsReleased key w = defer_unlock-IsReleased _ w

  is_recovering-IsReleased : (w : World D) → IsReleased (is_recovering root_ca_var h db w)
  unfolding is_recovering
  is_recovering-IsReleased w =
      chain-IsReleased (attempt (defer_unlock (require_state (recovery ∷ [])))) _ w
        (attempt-IsReleased (defer_unlock (require_state (recovery ∷ []))) w
          (defer_unlock-IsReleased (require_state (recovery ∷ [])) w))
        λ r v g. on_result-IsReleased r _ _ v (λ _. g) (λ _. g)

  -- Every exported method that takes the mutex gives it back: a call of `Initialize`,
  -- `StartDatabase`, `Recover`, `IsRecovering` or `GetManifestSignature` that begins with the mutex free and returns, with a value or an error,
  -- leaves it free, if the database writes no field of `Core`; and so does one that panics.
  pub methods_release :
      (manifest key : Bytes) (w : World D)
      → IsSeparate db
      → w.core.locked ≡ false
      → IsReleased (initialize root_ca_var h db manifest w)
        × IsReleased (start_database root_ca_var h db w)
        × IsReleased (recover root_ca_var h db key w)
        × IsReleased (is_recovering root_ca_var h db w)
        × IsReleased (get_manifest_signature root_ca_var h db w)
  unfolding get_manifest_signature
  methods_release manifest key w lawful free = (
    initialize-IsReleased manifest w free,
    start_database-IsReleased w lawful free,
    recover-IsReleased key w,
    is_recovering-IsReleased w,
    lock_free _ w free (λ t. defer_unlock-IsReleased _ t),
  )
