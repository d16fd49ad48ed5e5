-- ===== src/Cmd/NativeMain/Sweep.antt =====
-- `main` without an enclave (cmd/edb/main.go): a panic leaves nothing of the temporary directory,
-- which holds the configuration and the certificates of mariadbd.
use edgelessdb.Prelude.{
  ap, ◌∙◌, ◌≡◌, ◌⊎◌, inl, inr, refl, arith, Bool, true, false, none, String, Bytes,
}
use edgelessdb.World.{
  World, Config, Host, M, Outcome, ok, err, halt, Halt, panicked, fatal, deadlocked, Error, val,
  exc, ◌>>=◌, must, make_temp_dir, remove_all, is_below,
}
use edgelessdb.Core.Environment.{fill_config_from_environment}
use edgelessdb.Core.Environment.Fill.{fill_config_from_environment_lem}
use edgelessdb.Core.Certificate.{TlsConfig}
use edgelessdb.Db.Mariadb.Config.{Mariadb}
use edgelessdb.Cmd.NativeMain.{defaults, swept, remove_all_or_not, defer_remove_all, run_in, main}

module _ {D : Type 0} where
  -- Two calls in a row that do not return: the first one does not, or the second one.
  bind-eq_halt :
      {A B : Type 0} (m : M D A) (f : A → M D B) (x : Halt) (w w' : World D)
      → (m >>= f) w ≡ halt x w'
      → (m w ≡ halt x w') ⊎ ((a : A) × (v : World D) × (m w ≡ ok a v) × (f a v ≡ halt x w'))
  bind-eq_halt {A} {B} m f x w w' e = of_outcome (m w) e
    where
      of_outcome :
          (r : Outcome D A)
          → ◌≡◌ {A = Outcome D B}
              (elim r [ ok a v ↦ f a v | err y v ↦ err y v | halt y v ↦ halt y v ])
              (halt x w')
          → (r ≡ halt x w') ⊎ ((a : A) × (v : World D) × (r ≡ ok a v) × (f a v ≡ halt x w'))
      of_outcome (ok a v) e = inr (a, v, refl, e)
      of_outcome (err y v) e = cc
      of_outcome (halt y v) e = inl cc

  removed :
      (h : Host) (p q : Bytes) (w : World D)
      → h.remove_fault p ≡ none
      → (is_below p q ≡ false) ⊎ ((remove_all_or_not h p w).os.disk q ≡ none)
  removed h p q w works = rw (remove_all_or_not, works) (of_test (is_below p q) refl)
    where
      of_test :
          (b : Bool)
          → is_below p q ≡ b
          → (is_below p q ≡ false) ⊎ ((remove_all p w).os.disk q ≡ none)
      of_test true e = inr (rw e)
      of_test false e = inl e

  defer_remove_all-eq_panicked :
      {A : Type 0} (h : Host) (p q : Bytes) (m : M D A) (x : Error) (w w' : World D)
      → h.remove_fault p ≡ none
      → defer_remove_all h p m w ≡ halt (panicked x) w'
      → (is_below p q ≡ false) ⊎ (w'.os.disk q ≡ none)
  unfolding defer_remove_all
  defer_remove_all-eq_panicked {A} h p q m x w w' works e = of_outcome (m w) e
    where
      of_outcome :
          (r : Outcome D A)
          → ◌≡◌ {A = Outcome D A}
              (elim r [
                | ok a v ↦ ok a (remove_all_or_not h p v)
                | err y v ↦ err y (remove_all_or_not h p v)
                | halt y v ↦ halt y (swept h p y v)
              ])
              (halt (panicked x) w')
          → (is_below p q ≡ false) ⊎ (w'.os.disk q ≡ none)
      of_outcome (ok a v) e = cc
      of_outcome (err y v) e = cc
      of_outcome (halt (panicked y) v) e =
          let last : w' ≡ remove_all_or_not h p v = cc in
          elim (removed h p q v works) [
            | inl apart ↦ inl apart
            | inr gone ↦ inr (ap (λ (u : World D). u.os.disk q) last ∙ gone)
          ]
      of_outcome (halt (fatal y) v) e = cc
      of_outcome (halt deadlocked v) e = cc

module _ (root_ca_var : String) (h : Host) (bootstrap_sql : Bytes)
    (pre_main_mock : M Mariadb (Unit {0})) where
  temp_dir_cases :
      (w : World Mariadb) (p : Bytes) (v : World Mariadb)
      → must (make_temp_dir h) w ≡ ok p v
      → h.temp_dir w.os.ticks ≡ val p
  unfolding make_temp_dir
  temp_dir_cases w p v e = ground arith

  temp_dir_failed :
      (w w' : World Mariadb) (x : Error)
      → must (make_temp_dir h) w ≡ halt (panicked x) w'
      → h.temp_dir w.os.ticks ≡ exc x
  unfolding make_temp_dir
  temp_dir_failed w w' x e = ground arith

  -- Without MarbleRun, a `main` that panics leaves no file and no directory at or below the
  -- temporary directory that it made, unless it could make none, if that directory can be removed. An
  -- end of the process, such as the panic of the goroutine of mariadbd, is no panic of `main`.
  pub main-sweeps :
      (x : Error) (q : Bytes) (w w' : World Mariadb)
      → ((p : Bytes) → h.temp_dir w.os.ticks ≡ val p → h.remove_fault p ≡ none)
      → main root_ca_var h bootstrap_sql pre_main_mock false w ≡ halt (panicked x) w'
      → (h.temp_dir w.os.ticks ≡ exc x)
        ⊎ ((p : Bytes) × (h.temp_dir w.os.ticks ≡ val p)
            × ((is_below p q ≡ false) ⊎ (w'.os.disk q ≡ none)))
  unfolding main
  main-sweeps x q w w' works e =
      let body : Config → Bytes → M Mariadb (Bytes × TlsConfig) = λ filled p.
        defer_remove_all h p (run_in root_ca_var h bootstrap_sql pre_main_mock filled false p) in
      elim (bind-eq_halt (fill_config_from_environment defaults)
        (λ filled. must (make_temp_dir h) >>= body filled) (panicked x) w w' e) [
          | inl stopped ↦ let known = fill_config_from_environment_lem defaults w in cc
          | inr (filled, w1, e1, r1) ↦
              let known = fill_config_from_environment_lem defaults w in
              let same : w1 ≡ w = cc in
              elim (bind-eq_halt (must (make_temp_dir h)) (body filled) (panicked x) w1 w' r1) [
                | inl failed ↦ inl (rw same at (temp_dir_failed w1 w' x failed))
                | inr (p, w2, e2, r2) ↦
                    let made : h.temp_dir w.os.ticks ≡ val p =
                      rw same at (temp_dir_cases w1 p w2 e2) in
                    inr (
                      p,
                      made,
                      defer_remove_all-eq_panicked h p q
                          (run_in root_ca_var h bootstrap_sql pre_main_mock filled false p) x w2 w'
                          (works p made) r2,
                    )
              ]
        ]
