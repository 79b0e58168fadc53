-- ===== src/Prelude/Outcome.antt =====
-- What a request handler ends with: a value, or the exception that it throws. The five HTTP
-- exceptions carry their message; `thrown` is a plain `Error`, and `constraint` is the error that
-- the database client raises when a write breaks a constraint of the schema.
use Prim.Native.String.{String}
use mathlib.Core.Path.{◌≡◌, refl}
use mathlib.Core.Bool.{Bool, true, false}
use mathlib.Core.Option.{Option, none, some}
use native.Mathlib.Omega.{arith}

pub data Failure : Type 0 where
  not_found conflict unauthorized forbidden bad_request thrown : String → Failure
  constraint : Failure

-- `error instanceof HttpException`
abbrev pub is_http_exception : Failure → Bool
is_http_exception (thrown m) = false
is_http_exception constraint = false
is_http_exception _ = true

pub data Result {ℓ} (A : Type ℓ) : Type ℓ where
  ok : A → Result A
  err : Failure → Result A

infixl 5 ◌>>=◌ ◌>>◌
-- The first failure ends a run.
abbrev pub ◌>>=◌ {ℓ κ} : {A : Type ℓ} {B : Type κ} (run : Result A) (rest : A → Result B) → Result B
err failure >>= rest = err failure
ok value >>= rest = rest value

abbrev pub ◌>>◌ {ℓ κ} : {A : Type ℓ} {B : Type κ} (run : Result A) (next : Result B) → Result B
run >> next = run >>= λ _. next

-- `if (!test) throw failure`
abbrev pub require : Bool → Failure → Result (Unit {0})
require true e = ok tt
require false e = err e

-- `if (!value) throw failure` on a value that may be null
abbrev pub or_throw {ℓ} : {A : Type ℓ} → Option A → Failure → Result A
or_throw none e = err e
or_throw (some a) e = ok a

-- `try { … } catch (error) { if (error instanceof HttpException) throw error; throw failure }`
abbrev pub rethrow_as {ℓ} : {A : Type ℓ} → Failure → Result A → Result A
rethrow_as e (ok a) = ok a
rethrow_as e (err f) = elim (is_http_exception f) [ true ↦ err f | false ↦ err e ]

-- Inversion of the steps of a run that succeeds.
pub require-eq-ok : (b : Bool) (e : Failure) {u : Unit {0}} → require b e ≡ ok u → b ≡ true
require-eq-ok true e h = refl
require-eq-ok false e h = cc

pub or_throw-eq-ok {ℓ} :
    {A : Type ℓ} (o : Option A) (e : Failure) {a : A} → or_throw o e ≡ ok a → o ≡ some a
or_throw-eq-ok none e h = cc
or_throw-eq-ok (some a) e h = cc

pub rethrow_as-eq-ok {ℓ} :
    {A : Type ℓ} (e : Failure) (m : Result A) {a : A} → rethrow_as e m ≡ ok a → m ≡ ok a
rethrow_as-eq-ok e (ok a) h = h
rethrow_as-eq-ok e (err f) h = ground arith

pub ok-injective {ℓ} : {A : Type ℓ} {a b : A} → ok a ≡ ok b → a ≡ b
ok-injective h = cc

-- The inversion of a bind as an elimination, which keeps the run's parts as variables.
pub bind_elim {ℓ κ μ} :
    {A : Type ℓ} {B : Type κ} {C : Type μ} (m : Result A) (f : A → Result B) {b : B}
    → (m >>= f) ≡ ok b
    → ((a : A) → m ≡ ok a → f a ≡ ok b → C)
    → C
bind_elim (ok a) f h k = k a refl h
bind_elim (err e) f h k = absurd (cc h)
