-- ===== src/Server/Schedule/Serving.antt =====
-- What a node keeps while it serves requests at the same time (edb/server/server.go).
use edgelessdb.Prelude.{
  sym, false, ◌≡◌, ◌≢◌, ◌⊎◌, inl, inr, ◌∙◌, refl, ap, Option, some, String, Bytes, List,
}
use edgelessdb.World.{
  State, uninitialized, state_max, World, Core, Host, Error, Result, Outcome, ok, err, halt,
  panicked, fatal, deadlocked, after, initialized, recovery,
}
use edgelessdb.Db.Interface.{Database, IsSeparate}
use edgelessdb.Core.Frame.{mode, control, KeepsCore-Keeps}
use edgelessdb.Core.Lock.{IsReleased, Keeps-IsReleased}
use edgelessdb.Core.Settings.{settings}
use edgelessdb.Server.Response.{Reply}
use edgelessdb.Server.Handlers.{Request}
use edgelessdb.Server.Schedule.{
  Pc, arrived, ready, applied, refused, crashed, Endpoint, signature, quote, survivor, prepare,
  commit, prepared, committed, move, serve, Step, arrives, moves, serves, Reach, here, then,
}
use edgelessdb.Server.Schedule.Frame.{
  prepare-KeepsCore, commit-Keeps, commit-IsReleased, signature_handler-Keeps,
  quote_handler-KeepsCore, recover_handler-Keeps, signature_handler-IsReleased,
  recover_handler-IsReleased, recover_handler_refused,
}

module _ {D : Type 0} where
  pub survivor-after :
      {A : Type 0} (o : Outcome D A) (v : World D) → survivor o ≡ some v → after o ≡ v
  survivor-after (ok a w) v e = cc
  survivor-after (err x w) v e = cc
  survivor-after (halt (panicked x) w) v e = cc
  survivor-after (halt (fatal x) w) v e = cc
  survivor-after (halt deadlocked w) v e = cc

  survivor-free :
      {A : Type 0} (o : Outcome D A) (v : World D)
      → survivor o ≡ some v
      → IsReleased o
      → v.core.locked ≡ false
  survivor-free (ok a w) v e free = cc
  survivor-free (err x w) v e free = cc
  survivor-free (halt (panicked x) w) v e free = cc
  survivor-free (halt (fatal x) w) v e free = cc
  survivor-free (halt deadlocked w) v e free = cc

-- What a node is, for the requests that it serves: the mutex is free, the state, the mode and the
-- configuration are those of `c`, and so is the master key, unless the node is in recovery.
pub record IsServing {D : Type 0} (c : Core) (w : World D) : Type 0 where
  pub free : w.core.locked ≡ false
  pub same : mode w.core ≡ mode c
  pub key : (c.state ≡ recovery) ⊎ (w.core.master_key ≡ c.master_key)

is_recovery : (s : State) → (s ≡ recovery) ⊎ (s ≢ recovery)
is_recovery uninitialized = inr (λ e. cc)
is_recovery recovery = inl refl
is_recovery initialized = inr (λ e. cc)
is_recovery state_max = inr (λ e. cc)

module _ {D : Type 0} where
  -- A part of a request that survives leaves a node that serves, if it gives the mutex back, and
  -- keeps the mode, and the master key outside of recovery.
  part-IsServing :
      {A : Type 0} (c : Core) (o : Outcome D A) (w v : World D)
      → IsServing c w
      → survivor o ≡ some v
      → IsReleased o
      → mode (after o).core ≡ mode w.core
      → (c.state ≡ recovery) ⊎ ((after o).core.master_key ≡ w.core.master_key)
      → IsServing c v
  part-IsServing c o w v s e free kept key =
      let last = survivor-after o v e in
      record {
        free = survivor-free o v e free;
        same = ap (λ (u : World D). mode u.core) (sym last) ∙ kept ∙ s.same;
        key = elim key [
          | inl r ↦ inl r
          | inr k ↦ elim s.key [
            | inl r ↦ inl r
            | inr l ↦ inr (ap (λ (u : World D). u.core.master_key) (sym last) ∙ k ∙ l)
          ]
        ];
      }

  -- The same for a part that writes no setting.
  quiet-IsServing :
      {A : Type 0} (c : Core) (o : Outcome D A) (w v : World D)
      → IsServing c w
      → survivor o ≡ some v
      → IsReleased o
      → settings (after o).core ≡ settings w.core
      → IsServing c v
  quiet-IsServing c o w v s e free kept =
      part-IsServing c o w v s e free (ap (λ x. (x.0, x.1, x.2)) kept) (inr (ap (λ x. x.3) kept))

module _ (root_ca_var : String) (h : Host) (error_text : Error → Bytes)
    (json_marshal : Reply → Result Bytes) {D : Type 0} (db : Database D) where
  pub prepared-survives :
      (manifest : Bytes) (o : Outcome D (Option Bytes)) (q : Pc) (v : World D)
      → prepared root_ca_var h error_text json_marshal db manifest o ≡ some (q, v)
      → survivor o ≡ some v
  prepared-survives manifest (ok c w) q v e = cc
  prepared-survives manifest (err x w) q v e = cc
  prepared-survives manifest (halt (panicked x) w) q v e = cc
  prepared-survives manifest (halt (fatal x) w) q v e = cc
  prepared-survives manifest (halt deadlocked w) q v e = cc

  pub committed-survives :
      (manifest : Bytes) (o : Outcome D (Option Bytes)) (q : Pc) (v : World D)
      → committed root_ca_var h error_text json_marshal db manifest o ≡ some (q, v)
      → survivor o ≡ some v
  committed-survives manifest (ok c w) q v e = cc
  committed-survives manifest (err x w) q v e = cc
  committed-survives manifest (halt (panicked x) w) q v e = cc
  committed-survives manifest (halt (fatal x) w) q v e = cc
  committed-survives manifest (halt deadlocked w) q v e = cc

  module _ (lawful : IsSeparate db) (c : Core) where
    move-IsServing :
        (p q : Pc) (w v : World D)
        → IsServing c w
        → move root_ca_var h error_text json_marshal db p w ≡ some (q, v)
        → IsServing c v
    move-IsServing (arrived manifest) q w v s e =
        let m = prepare root_ca_var h error_text json_marshal db manifest in
        let k = prepare-KeepsCore root_ca_var h error_text json_marshal db lawful manifest in
        quiet-IsServing c (m w) w v s (prepared-survives manifest (m w) q v e)
          (Keeps-IsReleased m w (KeepsCore-Keeps control m k) s.free) (ap settings (k.kept w))
    move-IsServing (ready manifest key) q w v s e =
        let m = commit root_ca_var h error_text json_marshal db manifest key in
        quiet-IsServing c (m w) w v s (committed-survives manifest (m w) q v e)
          (commit-IsReleased root_ca_var h error_text json_marshal db lawful manifest key w s.free)
          ((commit-Keeps root_ca_var h error_text json_marshal db lawful manifest key).kept w)
    move-IsServing (applied manifest key) q w v s e = cc
    move-IsServing (refused x) q w v s e = cc
    move-IsServing crashed q w v s e = cc

    serve-IsServing :
        (path : Endpoint) (r : Request) (w v : World D)
        → IsServing c w
        → survivor (serve root_ca_var h error_text json_marshal db path r w) ≡ some v
        → IsServing c v
    serve-IsServing signature r w v s e =
        quiet-IsServing c _ w v s e
          (signature_handler-IsReleased root_ca_var h error_text json_marshal db lawful r w s.free)
          ((signature_handler-Keeps root_ca_var h error_text json_marshal db lawful r).kept w)
    serve-IsServing quote r w v s e =
        let k = quote_handler-KeepsCore root_ca_var h error_text json_marshal db lawful r in
        quiet-IsServing c _ w v s e (Keeps-IsReleased _ w (KeepsCore-Keeps control _ k) s.free)
          (ap settings (k.kept w))
    serve-IsServing Endpoint.recover r w v s e =
        part-IsServing c _ w v s e
          (recover_handler-IsReleased root_ca_var h error_text json_marshal db lawful r w s.free)
          ((recover_handler-Keeps root_ca_var h error_text json_marshal db lawful r).kept w)
          (elim (is_recovery c.state) [
            | inl r ↦ inl r
            | inr other ↦ inr (
                ap (λ (u : World D). u.core.master_key)
                  (recover_handler_refused root_ca_var h error_text json_marshal db lawful r w
                    s.free (λ x. other (sym (ap (λ m. m.0) s.same) ∙ x))))
          ])

    Step-IsServing :
        (w v : World D) (ps qs : List Pc)
        → Step root_ca_var h error_text json_marshal db w ps v qs
        → IsServing c w
        → IsServing c v
    Step-IsServing w v ps qs (arrives manifest) s = s
    Step-IsServing w v ps qs (moves p q before behind e) s = move-IsServing p q w v s e
    Step-IsServing w v ps qs (serves path r e) s = serve-IsServing path r w v s e

    -- However many requests a node serves at the same time, and in whatever order their parts come:
    -- behind each part the mutex is free, the state, the mode and the configuration are as they
    -- were, and so is the master key unless the node is in recovery, if it began so, with the mutex
    -- free, and the database writes no field of `Core`.
    pub Reach-IsServing :
        (w v : World D) (ps qs : List Pc)
        → IsServing c w
        → Reach root_ca_var h error_text json_marshal db w ps v qs
        → IsServing c v
    Reach-IsServing w v ps qs s here = s
    Reach-IsServing w v ps qs s (then {u = u} {rs = rs} path e) =
        Step-IsServing u v rs qs e (Reach-IsServing w u ps rs s path)
