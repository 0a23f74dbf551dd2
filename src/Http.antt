-- ===== src/Http.antt =====
-- What a request handler of server/app/api answers: a value, or an HTTPException with its status and
-- detail. What a handler has not committed when it raises is rolled back, so an error has no state.
use Prim.Native.String.{String}
use mathlib.Core.Path.{subst}
use corella.Prelude.{ℕ, ◌≡◌, refl, Bool, true, false, Option, none, some}

pub data Result {ℓ} (A : Type ℓ) : Type ℓ where
  ok : A → Result A
  http_exception : ℕ → String → Result A

infixl 5 ◌>>=◌ ◌>>◌
unfoldable pub ◌>>=◌ {ℓ κ} : {A : Type ℓ} {B : Type κ} → Result A → (A → Result B) → Result B
ok a >>= f = f a
http_exception status detail >>= f = http_exception status detail

abbrev pub ◌>>◌ {ℓ} : {B : Type ℓ} → Result (Unit {0}) → Result B → Result B
m >> k = m >>= λ _. k

-- `if test: raise HTTPException(status, detail)`
unfoldable pub raise_if : Bool → ℕ → String → Result (Unit {0})
raise_if true status detail = http_exception status detail
raise_if false status detail = ok tt

-- `if x is None: raise HTTPException(status, detail)`
unfoldable pub or_raise {ℓ} : {A : Type ℓ} → Option A → ℕ → String → Result A
or_raise none status detail = http_exception status detail
or_raise (some a) status detail = ok a

-- `if x is not None: raise HTTPException(status, detail)`
unfoldable pub raise_if_some {ℓ} : {A : Type ℓ} → Option A → ℕ → String → Result (Unit {0})
raise_if_some none status detail = ok tt
raise_if_some (some a) status detail = http_exception status detail

-- The state after a request: the handler's, or the one before it.
abbrev pub after {ℓ κ} : {S : Type ℓ} {A : Type κ} → S → Result (A × S) → S
after s (ok (a, s')) = s'
after s (http_exception status detail) = s

-- A property of what a successful handler returns.
unfoldable pub Succeeds {ℓ κ} : {A : Type ℓ} → (A → Type κ) → Result A → Type κ
Succeeds P (ok a) = P a
Succeeds P (http_exception status detail) = Unit

pub Succeeds-ok {ℓ κ} : {A : Type ℓ} (P : A → Type κ) (a : A) → P a → Succeeds P (ok a)
unfolding Succeeds
Succeeds-ok P a h = h

pub Succeeds-after {ℓ κ μ} :
    {S : Type ℓ} {A : Type κ} (P : S → Type μ) (s : S) (r : Result (A × S))
    → P s
    → Succeeds (λ x. P x.1) r
    → P (after s r)
unfolding Succeeds
Succeeds-after P s (ok x) h k = k
Succeeds-after P s (http_exception status detail) h k = h

pub Succeeds-bind {ℓ κ μ} :
    {A : Type ℓ} {B : Type κ} (P : A → Type μ) (Q : B → Type μ) (m : Result A) (f : A → Result B)
    → Succeeds P m
    → ((a : A) → P a → Succeeds Q (f a))
    → Succeeds Q (m >>= f)
unfolding Succeeds ◌>>=◌
Succeeds-bind P Q (ok a) f h k = k a h
Succeeds-bind P Q (http_exception status detail) f h k = tt

pub Succeeds-of {ℓ κ} :
    {A : Type ℓ} (P : A → Type κ) (r : Result A) (a : A) → r ≡ ok a → Succeeds P r → P a
unfolding Succeeds
Succeeds-of P r a e h = subst (Succeeds P) e h

pub Succeeds-map {ℓ κ μ} :
    {A : Type ℓ} (P : A → Type κ) (Q : A → Type μ) (r : Result A)
    → ((a : A) → P a → Q a)
    → Succeeds P r
    → Succeeds Q r
unfolding Succeeds
Succeeds-map P Q (ok a) f h = f a h
Succeeds-map P Q (http_exception status detail) f h = tt

-- Whatever the first part answers.
pub Succeeds-then {ℓ κ μ} :
    {A : Type ℓ} {B : Type κ} (Q : B → Type μ) (m : Result A) (f : A → Result B)
    → ((a : A) → Succeeds Q (f a))
    → Succeeds Q (m >>= f)
unfolding Succeeds ◌>>=◌
Succeeds-then Q (ok a) f h = h a
Succeeds-then Q (http_exception status detail) f h = tt

pub Succeeds-raise_if {ℓ κ} :
    {B : Type ℓ} (Q : B → Type κ) (test : Bool) (status : ℕ) (detail : String) (k : Result B)
    → (test ≡ false → Succeeds Q k)
    → Succeeds Q (raise_if test status detail >> k)
unfolding Succeeds ◌>>=◌ raise_if
Succeeds-raise_if Q true status detail k h = tt
Succeeds-raise_if Q false status detail k h = h refl

pub Succeeds-or_raise {ℓ κ μ} :
    {A : Type ℓ} {B : Type κ} (Q : B → Type μ) (o : Option A) (status : ℕ) (detail : String)
    (k : A → Result B)
    → ((a : A) → o ≡ some a → Succeeds Q (k a))
    → Succeeds Q (or_raise o status detail >>= k)
unfolding Succeeds ◌>>=◌ or_raise
Succeeds-or_raise Q none status detail k h = tt
Succeeds-or_raise Q (some a) status detail k h = h a refl

pub Succeeds-raise_if_some {ℓ κ μ} :
    {A : Type ℓ} {B : Type κ} (Q : B → Type μ) (o : Option A) (status : ℕ) (detail : String)
    (k : Result B)
    → (o ≡ none → Succeeds Q k)
    → Succeeds Q (raise_if_some o status detail >> k)
unfolding Succeeds ◌>>=◌ raise_if_some
Succeeds-raise_if_some Q none status detail k h = h refl
Succeeds-raise_if_some Q (some a) status detail k h = tt
