-- ===== src/Common/Settled.antt =====
-- The settled value of a promise: a result, or what was thrown.
use mathlib.Core.Path.{◌≡◌, refl, subst}
use mathlib.Core.Logic.{◌⊎◌, inl, inr}
use mathlib.Core.Bool.{Bool, true, false}
use mathlib.Core.Option.{Option, none, some}

pub data Reply (E A : Type 0) : Type 0 where
  ok : A → Reply E A
  thrown : E → Reply E A

pub Reply-cases :
    {E A : Type 0} (r : Reply E A) → ((a : A) × (r ≡ ok a)) ⊎ ((e : E) × (r ≡ thrown e))
Reply-cases (ok a) = inl (a, refl)
Reply-cases (thrown e) = inr (e, refl)

infixl 5 ◌>>=◌ ◌>>◌
unfoldable pub ◌>>=◌ : {E A B : Type 0} → Reply E A → (A → Reply E B) → Reply E B
ok a >>= f = f a
thrown e >>= f = thrown e

abbrev pub ◌>>◌ : {E B : Type 0} → Reply E (Unit {0}) → Reply E B → Reply E B
m >> k = m >>= λ _. k

-- `if (!test) throw e`.
unfoldable pub check : {E : Type 0} → Bool → E → Reply E (Unit {0})
check true e = ok tt
check false e = thrown e

abbrev pub or_throw : {E A : Type 0} → Option A → E → Reply E A
or_throw none e = thrown e
or_throw (some a) e = ok a

-- What holds of the result, if there is one.
pub record Returns {E A : Type 0} (P : A → Type 0) (reply : Reply E A) : Type 0 where
  pub result : (a : A) → reply ≡ ok a → P a

pub Returns-ok : {E A : Type 0} {P : A → Type 0} (a : A) → P a → Returns {E = E} P (ok a)
Returns-ok {P} a p = record { result = λ b e. subst P (cc) p }

pub Returns-thrown : {E A : Type 0} {P : A → Type 0} (e : E) → Returns {A = A} P (thrown e)
Returns-thrown e = record { result = λ b h. absurd (cc h) }

pub Returns-bind :
    {E A B : Type 0} {P : B → Type 0} (m : Reply E A) (f : A → Reply E B)
    → ((a : A) → m ≡ ok a → Returns P (f a))
    → Returns P (m >>= f)
unfolding ◌>>=◌
Returns-bind (ok a) f h = h a refl
Returns-bind (thrown e) f h = Returns-thrown e

-- The same where more is known of the first result.
pub Returns-chain :
    {E A B : Type 0} {P : B → Type 0} {Q : A → Type 0} (m : Reply E A) (f : A → Reply E B)
    → Returns Q m
    → ((a : A) → Q a → Returns P (f a))
    → Returns P (m >>= f)
Returns-chain m f q h = Returns-bind m f λ a e. h a (q.result a e)

pub Returns-check :
    {E B : Type 0} {P : B → Type 0} (test : Bool) (e : E) (k : Reply E B)
    → (test ≡ true → Returns P k)
    → Returns P (check test e >> k)
unfolding ◌>>=◌ check
Returns-check true e k h = h refl
Returns-check false e k h = Returns-thrown e

pub Returns-map :
    {E A : Type 0} {P Q : A → Type 0} {m : Reply E A}
    → Returns Q m
    → ((a : A) → Q a → P a)
    → Returns P m
Returns-map q h = record { result = λ a e. h a (q.result a e) }

pub bind-ok :
    {E A B : Type 0} (m : Reply E A) (f : A → Reply E B) (a : A) (r : Reply E B)
    → m ≡ ok a
    → f a ≡ r
    → (m >>= f) ≡ r
unfolding ◌>>=◌
bind-ok m f a r e h = rw e h

pub check-ok :
    {E B : Type 0} (test : Bool) (e : E) (k r : Reply E B)
    → test ≡ true
    → k ≡ r
    → (check test e >> k) ≡ r
unfolding ◌>>=◌ check
check-ok test e k r p h = rw p h

pub or_throw-ok : {E A : Type 0} (o : Option A) (e : E) (a : A) → o ≡ some a → or_throw o e ≡ ok a
or_throw-ok o e a p = rw p refl
