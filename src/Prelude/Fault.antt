-- ===== src/Prelude/Fault.antt =====
-- Results of C code. `fault` stands for behaviour that C leaves undefined: an access out of
-- bounds, through a null pointer or to freed memory, a signed overflow.
use mathlib.Core.Path.{◌≡◌, refl, subst}
use mathlib.Core.Logic.{◌⊎◌, inl, inr}
use mathlib.Core.Bool.{Bool, true, false}
use mathlib.Core.Option.{Option, none, some}
use ftpserv_u.Prelude.Tests.{if◌then◌else◌}

pub data Out {ℓ} (A : Type ℓ) : Type ℓ where
  done : A → Out A
  fault : Out A

infixl 5 ◌>>=◌
abbrev pub ◌>>=◌ {ℓ κ} : {A : Type ℓ} {B : Type κ} → Out A → (A → Out B) → Out B
done a >>= f = f a
fault >>= f = fault

-- Inversion of a chain that did not fault.
pub >>=-eq-done {ℓ κ} :
    {A : Type ℓ} {B : Type κ} (m : Out A) (f : A → Out B) {b : B}
    → (m >>= f) ≡ done b
    → (a : A) × (m ≡ done a) × (f a ≡ done b)
>>=-eq-done (done a) f h = (a, refl, h)
>>=-eq-done fault f h = cc

pub Out-cases {ℓ} : {A : Type ℓ} (m : Out A) → (m ≡ fault) ⊎ ((a : A) × (m ≡ done a))
Out-cases fault = inl refl
Out-cases (done a) = inr (a, refl)

-- A result that is not a fault has the property.
abbrev pub Ensures {ℓ κ} : {A : Type ℓ} → (A → Type κ) → Out A → Type κ
Ensures P (done a) = P a
Ensures P fault = Unit

pub Ensures-of {ℓ κ} :
    {A : Type ℓ} (P : A → Type κ) (m : Out A) → ((a : A) → m ≡ done a → P a) → Ensures P m
Ensures-of P (done a) h = h a refl
Ensures-of P fault h = tt

pub Ensures-at {ℓ κ} :
    {A : Type ℓ} (P : A → Type κ) {m : Out A} {a : A} → Ensures P m → m ≡ done a → P a
Ensures-at P e h = subst (Ensures P) h e

pub Ensures-bind {ℓ κ μ ν} :
    {A : Type ℓ} {B : Type κ} (Q : A → Type μ) (P : B → Type ν) (m : Out A) (f : A → Out B)
    → Ensures Q m
    → ((a : A) → Q a → Ensures P (f a))
    → Ensures P (m >>= f)
Ensures-bind Q P (done a) f q k = k a q
Ensures-bind Q P fault f q k = tt

-- Where nothing is known of the first result.
pub Ensures-then {ℓ κ ν} :
    {A : Type ℓ} {B : Type κ} (P : B → Type ν) (m : Out A) (f : A → Out B)
    → ((a : A) → Ensures P (f a))
    → Ensures P (m >>= f)
Ensures-then P (done a) f k = k a
Ensures-then P fault f k = tt

pub Ensures-if {ℓ κ} :
    {A : Type ℓ} (P : A → Type κ) (b : Bool) (m n : Out A)
    → Ensures P m
    → Ensures P n
    → Ensures P (if b then m else n)
Ensures-if P true m n h k = h
Ensures-if P false m n h k = k

-- A pointer that is null faults.
pub Ensures-some {ℓ κ ν} :
    {A : Type ℓ} {B : Type κ} (P : B → Type ν) (o : Option A) (f : A → Out B)
    → ((a : A) → Ensures P (f a))
    → Ensures P (elim o [ none ↦ fault | some a ↦ f a ])
Ensures-some P none f k = tt
Ensures-some P (some a) f k = k a

pub Ensures-mono {ℓ κ ν} :
    {A : Type ℓ} (P : A → Type κ) (Q : A → Type ν) (m : Out A)
    → ((a : A) → P a → Q a)
    → Ensures P m
    → Ensures Q m
Ensures-mono P Q (done a) k h = k a h
Ensures-mono P Q fault k h = tt

pub Ensures-and {ℓ κ ν} :
    {A : Type ℓ} (P : A → Type κ) (Q : A → Type ν) (m : Out A)
    → Ensures P m
    → Ensures Q m
    → Ensures (λ (a : A). P a × Q a) m
Ensures-and P Q (done a) p q = (p, q)
Ensures-and P Q fault p q = tt
