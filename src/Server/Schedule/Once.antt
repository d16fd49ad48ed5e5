-- ===== src/Server/Schedule/Once.antt =====
-- Requests that apply a manifest at the same time, to a node with MariaDB (edb/server/server.go,
-- edb/core/core.go, edb/db/mariadb.go).
use edgelessdb.Prelude.{
  inl, inr, ◌⊎◌, ℕ, ◌+◌, ◌≤◌, ◌≡◌, ◌∙◌, refl, ap, sym, arith, Bool, true, false, Option, some,
  String, Bytes, List, [], ◌∷◌, ◌++◌,
}
use edgelessdb.World.{
  World, Host, Error, Result, Outcome, ok, err, halt, panicked, fatal, deadlocked, after,
  initialized,
}
use edgelessdb.Db.Mariadb.Config.{Mariadb}
use edgelessdb.Db.Mariadb.Startup.{mariadb}
use edgelessdb.Db.Mariadb.Separate.{mariadb-IsSeparate}
use edgelessdb.Server.Response.{Reply}
use edgelessdb.Server.Schedule.{
  Pc, arrived, ready, applied, refused, crashed, prepare, commit, prepared, committed, move, Step,
  arrives, moves, serves, Reach, here, then,
}
use edgelessdb.Server.Schedule.Serving.{IsServing, Reach-IsServing, survivor-after}
use edgelessdb.Server.Schedule.Attempts.{prepare_db, commit_tried, commit-eq_ok, serve_db}

-- How many requests had their manifest applied without an error.
abbrev pub one_if_applied : Pc → ℕ
one_if_applied (arrived m) = 0
one_if_applied (ready m c) = 0
one_if_applied (applied m c) = 1
one_if_applied (refused e) = 0
one_if_applied crashed = 0

unfoldable pub count_applied : List Pc → ℕ
count_applied [] = 0
count_applied (p ∷ ps) = one_if_applied p + count_applied ps

abbrev one_if : Bool → ℕ
one_if true = 1
one_if false = 0

pub count_applied-++ :
    (before behind : List Pc) (p : Pc)
    → count_applied (before ++ p ∷ behind) ≡ one_if_applied p + count_applied (before ++ behind)
unfolding count_applied
count_applied-++ [] behind p = refl
count_applied-++ (x ∷ before) behind p = ground (arith, count_applied-++ before behind p)

module _ (root_ca_var : String) (h : Host) (error_text : Error → Bytes)
    (json_marshal : Reply → Result Bytes) (bootstrap_sql : Bytes) where
  -- A part that applies nothing, and behind which the object has tried a manifest if it had before.
  uncounted :
      (q : Pc) (n : ℕ) (w v : World Mariadb)
      → one_if_applied q ≡ 0
      → n ≤ one_if w.db.attempted_init
      → ((w.db.attempted_init ≡ false) ⊎ (v.db.attempted_init ≡ true))
      → one_if_applied q + n ≤ one_if v.db.attempted_init
  uncounted q n w v z le tried = ground arith

  tried_or_not : (b : Bool) → (b ≡ false) ⊎ (b ≡ true)
  tried_or_not true = inr refl
  tried_or_not false = inl refl

  prepared-count :
      (manifest : Bytes) (o : Outcome Mariadb (Option Bytes)) (q : Pc) (n : ℕ) (w v : World Mariadb)
      → prepared root_ca_var h error_text json_marshal (mariadb h bootstrap_sql) manifest o
        ≡ some (q, v)
      → (after o).db ≡ w.db
      → n ≤ one_if w.db.attempted_init
      → one_if_applied q + n ≤ one_if v.db.attempted_init
  prepared-count manifest (ok c u) q n w v e d le = ground arith
  prepared-count manifest (err x u) q n w v e d le = ground arith
  prepared-count manifest (halt (panicked x) u) q n w v e d le = ground arith
  prepared-count manifest (halt (fatal x) u) q n w v e d le = cc
  prepared-count manifest (halt deadlocked u) q n w v e d le = cc

  committed-count :
      (manifest : Bytes) (o : Outcome Mariadb (Option Bytes)) (q : Pc) (n : ℕ) (w v : World Mariadb)
      → committed root_ca_var h error_text json_marshal (mariadb h bootstrap_sql) manifest o
        ≡ some (q, v)
      → ((k : Option Bytes) (u : World Mariadb)
          → o ≡ ok k u
          → (w.db.attempted_init ≡ false) × (u.db.attempted_init ≡ true))
      → ((w.db.attempted_init ≡ false) ⊎ ((after o).db.attempted_init ≡ true))
      → n ≤ one_if w.db.attempted_init
      → one_if_applied q + n ≤ one_if v.db.attempted_init
  committed-count manifest (ok k u) q n w v e first tried le =
      let (before, behind) = first k u refl in ground arith
  committed-count manifest (err x u) q n w v e first tried le = ground arith
  committed-count manifest (halt (panicked x) u) q n w v e first tried le = ground arith
  committed-count manifest (halt (fatal x) u) q n w v e first tried le = cc
  committed-count manifest (halt deadlocked u) q n w v e first tried le = cc

  move-count :
      (p q : Pc) (n : ℕ) (w v : World Mariadb)
      → move root_ca_var h error_text json_marshal (mariadb h bootstrap_sql) p w ≡ some (q, v)
      → one_if_applied p + n ≤ one_if w.db.attempted_init
      → one_if_applied q + n ≤ one_if v.db.attempted_init
  move-count (arrived m) q n w v e le =
      prepared-count m (prepare root_ca_var h error_text json_marshal (mariadb h bootstrap_sql) m w)
        q n w v e (prepare_db root_ca_var h error_text json_marshal bootstrap_sql m w) (omega arith)
  move-count (ready m c) q n w v e le =
      committed-count m
        (commit root_ca_var h error_text json_marshal (mariadb h bootstrap_sql) m c w) q n w v e
        (λ k u. commit-eq_ok root_ca_var h error_text json_marshal bootstrap_sql m c k w u)
        (elim (tried_or_not w.db.attempted_init) [
          | inl untried ↦ inl untried
          | inr tried ↦
              inr (commit_tried root_ca_var h error_text json_marshal bootstrap_sql m c w tried)
        ])
        (omega arith)
  move-count (applied m c) q n w v e le = cc
  move-count (refused x) q n w v e le = cc
  move-count crashed q n w v e le = cc

  Step-count :
      (w v : World Mariadb) (ps qs : List Pc)
      → Step root_ca_var h error_text json_marshal (mariadb h bootstrap_sql) w ps v qs
      → w.core.locked ≡ false
      → w.core.state ≡ initialized
      → count_applied ps ≤ one_if w.db.attempted_init
      → count_applied qs ≤ one_if v.db.attempted_init
  unfolding count_applied
  Step-count w v ps qs (arrives manifest) free up le = omega arith
  Step-count w v ps qs (moves p q before behind e) free up le =
      rw (sym (count_applied-++ before behind q)) at (
        move-count p q (count_applied (before ++ behind)) w v e
          (rw (count_applied-++ before behind p) at le))
  Step-count w v ps qs (serves path r e) free up le =
      let same : v.db ≡ w.db =
        ap (λ u. u.db) (sym (survivor-after _ v e))
        ∙ serve_db root_ca_var h error_text json_marshal bootstrap_sql path r w free up in
      rw (sym same) at le

  Reach-count :
      (w v : World Mariadb) (ps qs : List Pc)
      → Reach root_ca_var h error_text json_marshal (mariadb h bootstrap_sql) w ps v qs
      → w.core.locked ≡ false
      → w.core.state ≡ initialized
      → count_applied ps ≤ one_if w.db.attempted_init
      → count_applied qs ≤ one_if v.db.attempted_init
  Reach-count w v ps qs here free up le = le
  Reach-count w v ps qs (then {u = u} {rs = rs} path e) free up le =
      let s : IsServing w.core u =
        Reach-IsServing root_ca_var h error_text json_marshal (mariadb h bootstrap_sql)
          (mariadb-IsSeparate h bootstrap_sql) w.core w u ps rs
          (record { free = free; same = refl; key = inr refl }) path in
      Step-count u v rs qs e s.free (ap (λ m. m.0) s.same ∙ up)
        (Reach-count w u ps rs path free up le)

  -- However many requests a node serves at the same time, and in whatever order their parts come:
  -- at most one request to apply a manifest ends without an error, if the node began in the state
  -- initialized, with the mutex free and with no such request.
  pub applied_once :
      (w v : World Mariadb) (ps : List Pc)
      → w.core.locked ≡ false
      → w.core.state ≡ initialized
      → Reach root_ca_var h error_text json_marshal (mariadb h bootstrap_sql) w [] v ps
      → count_applied ps ≤ 1
  unfolding count_applied
  applied_once w v ps free up path =
      at_most v.db.attempted_init
        (Reach-count w v [] ps path free up (unfold count_applied in ground arith))
    where
      at_most : (b : Bool) → count_applied ps ≤ one_if b → count_applied ps ≤ 1
      at_most true le = le
      at_most false le = ground arith
