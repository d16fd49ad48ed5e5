-- ===== src/Core/States.antt =====
-- The mutex of `Core` and its state machine (edb/core/core.go).
use edgelessdb.Prelude.{ℕ, Bool, true, false, not, ◌&&◌, ◌||◌, List, [], ◌∷◌, ltb, ◌==◌}
use edgelessdb.World.{
  World, Core, Config, State, uninitialized, recovery, initialized, state_max, M, ok, err, halt,
  Halt, panicked, fatal, deadlocked, ◌>>=◌, ◌>>◌, pure, throw, panic, get, modify, branch,
  unexpected_state, cannot_advance_state,
}

abbrev pub set_core : {D : Type 0} → Core → World D → World D
set_core c w = record w { core = c }

-- The number behind a state: `iota`.
abbrev pub rank : State → ℕ
rank uninitialized = 0
rank recovery = 1
rank initialized = 2
rank state_max = 3

abbrev state_eq : State → State → Bool
state_eq s t = rank s == rank t

abbrev any_state : State → List State → Bool
any_state s [] = false
any_state s (t ∷ ts) = state_eq t s || any_state s ts

module _ {D : Type 0} where
  abbrev pub cfg : M D Config
  cfg w = ok w.core.cfg w

  abbrev pub is_marble : M D Bool
  is_marble w = ok w.core.is_marble w

  -- The mutex, held or free.
  abbrev pub locked : World D → World D
  locked w = record w { core = record (w.core) { locked = true } }

  abbrev pub unlocked : World D → World D
  unlocked w = record w { core = record (w.core) { locked = false } }

  -- `c.mutex.Lock()`: Go's mutex is not reentrant, so a caller that holds it waits forever.
  unfoldable pub lock : M D (Unit {0})
  lock = do w ← get; branch w.core.locked (halt deadlocked) (modify locked)

  -- What a call that does not return leaves of the mutex: a panic runs the deferred calls.
  abbrev pub unwound : Halt → World D → World D
  unwound (panicked e) w = unlocked w
  unwound (fatal e) w = w
  unwound deadlocked w = w

  -- `defer c.mutex.Unlock()`
  unfoldable pub defer_unlock : {A : Type 0} → M D A → M D A
  defer_unlock m w = elim (m w) [
    | ok a w' ↦ ok a (unlocked w')
    | err e w' ↦ err e (unlocked w')
    | halt h w' ↦ halt h (unwound h w')
  ]

  -- `requireState`: the lock is taken also where the state is another one.
  unfoldable pub require_state : List State → M D (Unit {0})
  unfolding lock
  require_state states = do
    lock
    w ← get
    branch (any_state w.core.state states) (pure tt) (throw unexpected_state)

  -- `advanceState`
  unfoldable pub advance_state : State → M D (Unit {0})
  advance_state new = do
    w ← get
    branch (not (ltb (rank w.core.state) (rank new) && ltb (rank new) (rank state_max)))
        (panic cannot_advance_state)
        (modify (λ v. record v { core = record (v.core) { state = new } }))
