-- ===== src/World/Monad.antt =====
-- How a call ends: it returns a value or an error, or it does not return.
use edgelessdb.Prelude.{Bool, true, false, Option, none, some, ◌≡◌, refl, arith}
use edgelessdb.World.Errors.{Error}
use edgelessdb.World.Memory.{World}

-- A value or an error, from code that touches no state of the program.
pub data Result {ℓ} (A : Type ℓ) : Type ℓ where
  val : A → Result A
  exc : Error → Result A

-- A panic, which runs what was deferred, `log.Fatalln`, which does not, and a goroutine that waits for
-- its own lock.
pub data Halt : Type 0 where
  panicked : Error → Halt
  fatal : Error → Halt
  -- a wait without end: for a mutex, or for mariadbd
  deadlocked : Halt

pub data Outcome (D A : Type 0) : Type 0 where
  ok : A → World D → Outcome D A
  err : Error → World D → Outcome D A
  halt : Halt → World D → Outcome D A

abbrev pub M : Type 0 → Type 0 → Type 0
M D A = World D → Outcome D A

-- The state that is left, however the call ended.
abbrev pub after : {D A : Type 0} → Outcome D A → World D
after (ok _ w) = w
after (err _ w) = w
after (halt _ w) = w

-- The call returned, with a value or an error.
abbrev pub Returns : {D A : Type 0} → Outcome D A → Type 0
Returns (ok _ _) = Unit
Returns (err _ _) = Unit
Returns (halt _ _) = ⊥

from_outcome :
    {D A B : Type 0} (f : A → World D → Outcome D B) (r : Outcome D A) {b : B} {w' : World D}
    → Path
        (Outcome D B)
        (elim r [ ok a v ↦ f a v | err e v ↦ err e v | halt h v ↦ halt h v ])
        (ok b w')
    → (a : A) × (v : World D) × (r ≡ ok a v) × (f a v ≡ ok b w')
from_outcome f (ok a v) e = (a, v, refl, e)
from_outcome f (err x v) e = cc
from_outcome f (halt x v) e = cc

after_outcome :
    {D A B : Type 0} (P : World D → Type 0) (f : A → World D → Outcome D B) (r : Outcome D A)
    → P (after r)
    → ((a : A) (v : World D) → r ≡ ok a v → P (after (f a v)))
    → P (
        after {D = D} {A = B} (elim r [ ok a v ↦ f a v | err e v ↦ err e v | halt h v ↦ halt h v ]))
after_outcome P f (ok a v) p go = go a v refl
after_outcome P f (err e v) p go = p
after_outcome P f (halt h v) p go = p

outcome_cases :
    {D A B : Type 0} (Q : Outcome D B → Type 0) (f : A → World D → Outcome D B) (r : Outcome D A)
    → ((e : Error) (v : World D) → r ≡ err e v → Q (err e v))
    → ((x : Halt) (v : World D) → r ≡ halt x v → Q (halt x v))
    → ((a : A) (v : World D) → r ≡ ok a v → Q (f a v))
    → Q (elim r [ ok a v ↦ f a v | err e v ↦ err e v | halt h v ↦ halt h v ])
outcome_cases Q f (ok a v) on_err on_halt go = go a v refl
outcome_cases Q f (err e v) on_err on_halt go = on_err e v refl
outcome_cases Q f (halt h v) on_err on_halt go = on_halt h v refl

module _ {D : Type 0} where
  infixl 5 ◌>>=◌ ◌>>◌
  abbrev pub ◌>>=◌ : {A B : Type 0} → M D A → (A → M D B) → M D B
  ◌>>=◌ m f w = elim (m w) [ ok a w' ↦ f a w' | err e w' ↦ err e w' | halt h w' ↦ halt h w' ]

  abbrev pub ◌>>◌ : {B : Type 0} → M D (Unit {0}) → M D B → M D B
  m >> k = m >>= λ _. k

  abbrev pub pure : {A : Type 0} → A → M D A
  pure a w = ok a w

  abbrev pub throw : {A : Type 0} → Error → M D A
  throw e w = err e w

  abbrev pub panic : {A : Type 0} → Error → M D A
  panic e w = halt (panicked e) w

  -- The error is handed to the code that follows.
  abbrev pub attempt : {A : Type 0} → M D A → M D (Result A)
  attempt m w = elim (m w) [
    | ok a w' ↦ ok (val a) w'
    | err e w' ↦ ok (exc e) w'
    | halt h w' ↦ halt h w'
  ]

  -- A call whose error nobody looks at.
  abbrev pub ignore : {A : Type 0} → M D A → M D (Unit {0})
  ignore m w = elim (m w) [ ok _ w' ↦ ok tt w' | err _ w' ↦ ok tt w' | halt h w' ↦ halt h w' ]

  -- An error that cannot be returned: `panic(err)`.
  abbrev pub must : {A : Type 0} → M D A → M D A
  must m w = elim (m w) [
    | ok a w' ↦ ok a w'
    | err e w' ↦ halt (panicked e) w'
    | halt h w' ↦ halt h w'
  ]

  abbrev pub from_result : {A : Type 0} → Result A → M D A
  from_result (val a) w = ok a w
  from_result (exc e) w = err e w

  abbrev pub from_option : {A : Type 0} → Error → Option A → M D A
  from_option e none w = err e w
  from_option e (some a) w = ok a w

  abbrev pub fail_if : Bool → Error → M D (Unit {0})
  fail_if true e w = err e w
  fail_if false e w = ok tt w

  -- `if`, in code that has effects.
  abbrev pub branch : {A : Type 0} → Bool → M D A → M D A → M D A
  branch true m n w = m w
  branch false m n w = n w

  -- The two ways in which an attempt ends.
  abbrev pub on_result : {A B : Type 0} → Result A → (A → M D B) → (Error → M D B) → M D B
  on_result (val a) f g w = f a w
  on_result (exc e) f g w = g e w

  abbrev pub when : Bool → M D (Unit {0}) → M D (Unit {0})
  when true m w = m w
  when false m w = ok tt w

  abbrev pub get : M D (World D)
  get w = ok w w

  abbrev pub modify : (World D → World D) → M D (Unit {0})
  modify f w = ok tt (f w)

  -- Inversion of a call that returned a value: its parts did.
  pub >>=-eq-ok :
      {A B : Type 0} (m : M D A) (f : A → M D B) (w : World D) {b : B} {w' : World D}
      → (m >>= f) w ≡ ok b w'
      → (a : A) × (v : World D) × (m w ≡ ok a v) × (f a v ≡ ok b w')
  >>=-eq-ok m f w e = from_outcome f (m w) e

  -- The same for a proof that goes on from the parts.
  pub on_ok :
      {A B G : Type 0} (m : M D A) (f : A → M D B) (w : World D) {b : B} {w' : World D}
      → (m >>= f) w ≡ ok b w'
      → ((a : A) (v : World D) → m w ≡ ok a v → f a v ≡ ok b w' → G)
      → G
  on_ok m f w e go = let (a, v, first, rest) = >>=-eq-ok m f w e in go a v first rest

  -- A property of the state that is left by two calls in a row: it holds behind the first one, and
  -- behind the second one where the first returned a value.
  pub after-bind :
      {A B : Type 0} (P : World D → Type 0) (m : M D A) (f : A → M D B) (w : World D)
      → P (after (m w))
      → ((a : A) (v : World D) → m w ≡ ok a v → P (after (f a v)))
      → P (after ((m >>= f) w))
  after-bind P m f w p go = after_outcome P f (m w) p go

  pub after-attempt : {A : Type 0} (m : M D A) (w : World D) → after (attempt m w) ≡ after (m w)
  after-attempt m w = ground arith

  pub after-must : {A : Type 0} (m : M D A) (w : World D) → after (must m w) ≡ after (m w)
  after-must m w = ground arith

  -- A call whose first part is known goes on with the second, or ends with the first one's error.
  pub >>=_of_ok :
      {A B : Type 0} (m : M D A) (f : A → M D B) (w : World D) {a : A} {v : World D}
      → m w ≡ ok a v
      → (m >>= f) w ≡ f a v
  >>=_of_ok m f w e = rw (e, ◌>>=◌)

  pub >>=_of_err :
      {A B : Type 0} (m : M D A) (f : A → M D B) (w : World D) {x : Error} {v : World D}
      → m w ≡ err x v
      → (m >>= f) w ≡ err x v
  >>=_of_err m f w e = rw (e, ◌>>=◌)

  pub >>=_of_halt :
      {A B : Type 0} (m : M D A) (f : A → M D B) (w : World D) {x : Halt} {v : World D}
      → m w ≡ halt x v
      → (m >>= f) w ≡ halt x v
  >>=_of_halt m f w e = rw (e, ◌>>=◌)

  -- The three ways in which two calls in a row go on from the first one.
  pub bind-cases :
      {A B : Type 0} (Q : Outcome D B → Type 0) (m : M D A) (f : A → M D B) (w : World D)
      → ((e : Error) (v : World D) → m w ≡ err e v → Q (err e v))
      → ((x : Halt) (v : World D) → m w ≡ halt x v → Q (halt x v))
      → ((a : A) (v : World D) → m w ≡ ok a v → Q (f a v))
      → Q ((m >>= f) w)
  bind-cases Q m f w on_err on_halt go = outcome_cases Q f (m w) on_err on_halt go
