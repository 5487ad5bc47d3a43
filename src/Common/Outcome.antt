-- ===== src/Common/Outcome.antt =====
-- How a call ends. `ok` and `err` are the two cases of `Result`; `panic` is an unwinding, such as an
-- index out of bounds or a slice whose start lies behind its end.
use mathlib.Core.Path.{◌≡◌, refl, ap}
use mathlib.Core.Logic.{◌⊎◌, inl, inr}

pub data Outcome {ℓ κ} (E : Type ℓ) (A : Type κ) : Type (ℓ ⊔ κ) where
  ok : A → Outcome E A
  err : E → Outcome E A
  panic : Outcome E A

-- A method on `&mut self`: what it wrote before it failed stays written.
abbrev pub Method {ℓ κ μ} : Type ℓ → Type κ → Type μ → Type (ℓ ⊔ κ ⊔ μ)
Method S E A = S → Outcome E A × S

module _ {ℓ κ μ ν} {S : Type ℓ} {E : Type κ} {A : Type μ} {B : Type ν} where
  abbrev pub resume : Outcome E A → (A → Method S E B) → Method S E B
  resume (ok a) f s = f a s
  resume (err e) f s = (err e, s)
  resume panic f s = (panic, s)

  -- `?` after a method call
  infixl 5 ◌>>=◌ ◌>>◌
  abbrev pub ◌>>=◌ : Method S E A → (A → Method S E B) → Method S E B
  ◌>>=◌ m f s = let (r, s') = m s in resume r f s'

  abbrev pub ◌>>◌ : Method S E A → Method S E B → Method S E B
  m >> n = m >>= λ _. n

module _ {ℓ κ μ} {S : Type ℓ} {E : Type κ} {A : Type μ} where
  abbrev pub return : A → Method S E A
  return a s = (ok a, s)

  abbrev pub fail : E → Method S E A
  fail e s = (err e, s)

-- `?` in code that keeps no state
module _ {ℓ κ μ} {E : Type ℓ} {A : Type κ} {B : Type μ} where
  abbrev pub and_then : Outcome E A → (A → Outcome E B) → Outcome E B
  and_then (ok a) f = f a
  and_then (err e) f = err e
  and_then panic f = panic

-- A step that succeeds is followed by the next one.
module _ {ℓ κ μ ν} {S : Type ℓ} {E : Type κ} {A : Type μ} {B : Type ν} where
  pub bind-ok :
      (m : Method S E A) (f : A → Method S E B) (s : S) {a : A} {s' : S}
      → m s ≡ (ok a, s')
      → (m >>= f) s ≡ f a s'
  bind-ok m f s h = ap (λ r. resume r.0 f r.1) h

  -- A step that fails or panics ends the method.
  pub bind-err :
      (m : Method S E A) (f : A → Method S E B) (s : S) {e : E} {s' : S}
      → m s ≡ (err e, s')
      → (m >>= f) s ≡ (err e, s')
  bind-err m f s h = ap (λ r. resume r.0 f r.1) h

  pub bind-panic :
      (m : Method S E A) (f : A → Method S E B) (s : S) {s' : S}
      → m s ≡ (panic, s')
      → (m >>= f) s ≡ (panic, s')
  bind-panic m f s h = ap (λ r. resume r.0 f r.1) h

-- Steps in brackets are the steps one after the other.
pub bind_assoc {ℓ κ μ ν ρ} :
    {S : Type ℓ} {E : Type κ} {A : Type μ} {B : Type ν} {C : Type ρ} (m : Method S E A)
    (f : A → Method S E B) (g : B → Method S E C) (s : S)
    → ((m >>= f) >>= g) s ≡ (m >>= λ a. f a >>= g) s
bind_assoc {S} {E} {A} {B} {C} m f g s = go (m s)
  where
    go :
        (x : Outcome E A × S)
        → ◌≡◌ {A = Outcome E C × S}
            (resume (resume x.0 f x.1).0 g (resume x.0 f x.1).1)
            (resume x.0 (λ a. f a >>= g) x.1)
    go (ok a, s') = refl
    go (err e, s') = refl
    go (panic, s') = refl

-- The steps of a method that succeeds.
pub bind-eq_ok {ℓ κ μ ν} :
    {S : Type ℓ} {E : Type κ} {A : Type μ} {B : Type ν} (m : Method S E A) (f : A → Method S E B)
    (s : S) {b : B} {s'' : S}
    → (m >>= f) s ≡ (ok b, s'')
    → (a : A) × (s' : S) × (m s ≡ (ok a, s')) × (f a s' ≡ (ok b, s''))
bind-eq_ok {S} {E} {A} {B} m f s {b} {s''} h = go (m s) refl h
  where
    go :
        (x : Outcome E A × S)
        → m s ≡ x
        → resume x.0 f x.1 ≡ (ok b, s'')
        → (a : A) × (s' : S) × (m s ≡ (ok a, s')) × (f a s' ≡ (ok b, s''))
    go (ok a, s') e r = (a, s', e, r)
    go (err x, s') e r = cc
    go (panic, s') e r = cc

-- The parts of code that succeeds.
pub and_then-eq_ok {ℓ κ μ} :
    {E : Type ℓ} {A : Type κ} {B : Type μ} (r : Outcome E A) (f : A → Outcome E B) {b : B}
    → and_then r f ≡ ok b
    → (a : A) × (r ≡ ok a) × (f a ≡ ok b)
and_then-eq_ok (ok a) f h = (a, refl, h)
and_then-eq_ok (err e) f h = cc
and_then-eq_ok panic f h = cc

pub and_then-and_then {ℓ κ μ ν} :
    {E : Type ℓ} {A : Type κ} {B : Type μ} {C : Type ν} (r : Outcome E A) (f : A → Outcome E B)
    (g : B → Outcome E C)
    → and_then (and_then r f) g ≡ and_then r λ a. and_then (f a) g
and_then-and_then (ok a) f g = refl
and_then-and_then (err e) f g = refl
and_then-and_then panic f g = refl

pub ok-injective {ℓ κ} :
    {E : Type ℓ} {A : Type κ} (a b : A) → ◌≡◌ {A = Outcome E A} (ok a) (ok b) → a ≡ b
ok-injective {E} {A} a b h = ap go h
  where
    go : Outcome E A → A
    go (ok x) = x
    go (err e) = a
    go panic = a

pub Outcome-cases {ℓ κ} :
    {E : Type ℓ} {A : Type κ} (r : Outcome E A)
    → ((a : A) × (r ≡ ok a)) ⊎ (((e : E) × (r ≡ err e)) ⊎ (r ≡ panic))
Outcome-cases (ok a) = inl (a, refl)
Outcome-cases (err e) = inr (inl (e, refl))
Outcome-cases panic = inr (inr refl)
