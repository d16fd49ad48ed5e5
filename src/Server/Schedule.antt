-- ===== src/Server/Schedule.antt =====
-- edb/server/server.go and edb/core/core.go: the requests that a node serves at the same time, each
-- in a goroutine of its own. A step is a part of a request that the mutex keeps whole, the part of
-- `Initialize` before it takes the mutex, or a request to /quote.
mod Frame
mod Attempts
pub mod Split
pub mod Serving
pub mod Once
pub mod Signature
use edgelessdb.Prelude.{ℕ, suc, zero, Option, none, some, String, Bytes, List, [], ◌∷◌, ◌++◌, ◌≡◌}
use edgelessdb.World.{
  World, Host, Error, Result, M, Outcome, ok, err, halt, panicked, fatal, deadlocked, ◌>>=◌, ◌>>◌,
  get, from_result,
}
use edgelessdb.Db.Interface.{Database}
use edgelessdb.Core.States.{lock, defer_unlock}
use edgelessdb.Core.Lifecycle.{encrypt_recovery_key, initialize_locked}
use edgelessdb.Server.Response.{Response, Reply}
use edgelessdb.Server.Handlers.{Request, signature_handler, quote_handler, recover_handler}

-- Where a request to apply a manifest is: before `Initialize`, with a recovery key and before the
-- mutex, behind it with a value, with an error, or ended by a panic.
pub data Pc : Type 0 where
  arrived : Bytes → Pc
  ready : Bytes → Option Bytes → Pc
  applied : Bytes → Option Bytes → Pc
  refused : Error → Pc
  crashed : Pc

-- The other paths of the API.
pub data Endpoint : Type 0 where
  signature quote recover : Endpoint

-- What is left of a request: net/http recovers its panic; a fatal error ends the process.
abbrev pub survivor : {D A : Type 0} → Outcome D A → Option (World D)
survivor (ok a w) = some w
survivor (err e w) = some w
survivor (halt (panicked e) w) = some w
survivor (halt (fatal e) w) = none
survivor (halt deadlocked w) = none

module _ (root_ca_var : String) (h : Host) (error_text : Error → Bytes)
    (json_marshal : Reply → Result Bytes) {D : Type 0} (db : Database D) where
  -- `Initialize` up to its lock, and from there on.
  unfoldable pub prepare : Bytes → M D (Option Bytes)
  prepare manifest = do
    pem ← from_result (h.json_recovery manifest)
    w ← get
    encrypt_recovery_key h w.core.master_key pem

  unfoldable pub commit : Bytes → Option Bytes → M D (Option Bytes)
  commit manifest recovery_key = do
    lock
    defer_unlock (initialize_locked root_ca_var h db manifest recovery_key)

  abbrev pub prepared : Bytes → Outcome D (Option Bytes) → Option (Pc × World D)
  prepared manifest (ok c w) = some (ready manifest c, w)
  prepared manifest (err e w) = some (refused e, w)
  prepared manifest (halt (panicked e) w) = some (crashed, w)
  prepared manifest (halt (fatal e) w) = none
  prepared manifest (halt deadlocked w) = none

  abbrev pub committed : Bytes → Outcome D (Option Bytes) → Option (Pc × World D)
  committed manifest (ok c w) = some (applied manifest c, w)
  committed manifest (err e w) = some (refused e, w)
  committed manifest (halt (panicked e) w) = some (crashed, w)
  committed manifest (halt (fatal e) w) = none
  committed manifest (halt deadlocked w) = none

  -- The next part of a request; `none` where it is done, or where the process ends or waits.
  abbrev pub move : Pc → World D → Option (Pc × World D)
  move (arrived manifest) w = prepared manifest (prepare manifest w)
  move (ready manifest c) w = committed manifest (commit manifest c w)
  move (applied manifest c) w = none
  move (refused e) w = none
  move crashed w = none

  -- A request on another path, in one step. The handler of /quote takes no mutex and changes nothing:
  -- here it is served between the parts that the mutex keeps whole, and not in the middle of one.
  abbrev pub serve : Endpoint → Request → M D Response
  serve signature r = signature_handler root_ca_var h error_text json_marshal db r
  serve quote r = quote_handler root_ca_var h error_text json_marshal db r
  serve recover r = recover_handler root_ca_var h error_text json_marshal db r

  -- A request arrives, one of those that apply a manifest moves on, or another one is served.
  pub data Step : World D → List Pc → World D → List Pc → Type 0 where
    arrives : {w : World D} {ps : List Pc} (manifest : Bytes) → Step w ps w (arrived manifest ∷ ps)
    moves :
        {w v : World D} (p q : Pc) (before behind : List Pc)
        → move p w ≡ some (q, v)
        → Step w (before ++ p ∷ behind) v (before ++ q ∷ behind)
    serves :
        {w v : World D} {ps : List Pc} (path : Endpoint) (r : Request)
        → survivor (serve path r w) ≡ some v
        → Step w ps v ps

  pub data Reach : World D → List Pc → World D → List Pc → Type 0 where
    here : {w : World D} {ps : List Pc} → Reach w ps w ps
    then :
        {w u v : World D} {ps rs qs : List Pc} → Reach w ps u rs → Step u rs v qs → Reach w ps v qs
