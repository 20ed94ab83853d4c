-- ===== src/Prelude/Lists.antt =====
-- Lists measured and indexed by native numbers, under the library's names, and the laws of
-- `take` and `drop` that a block copy in memory needs.
use Prim.Native.Nat.{ℕ, zero, suc, ◌+◌, ◌-◌, ◌≤◌}
use mathlib.Core.Path.{◌≡◌, refl, ap, sym, ◌∙◌}
use mathlib.Core.List.{List, [], ◌∷◌, ◌++◌}
use mathlib.Core.Option.{Option, none, some}
use native.Mathlib.Omega.{arith}

-- Every element of the list has the property.
abbrev pub All {ℓ κ} : {A : Type ℓ} → (A → Type κ) → List A → Type κ
All P [] = Unit
All P (x ∷ xs) = P x × All P xs

pub All-append {ℓ κ} :
    {A : Type ℓ} (P : A → Type κ) (xs ys : List A) → All P xs → All P ys → All P (xs ++ ys)
All-append P [] ys hx hy = hy
All-append P (x ∷ xs) ys hx hy = (hx.0, All-append P xs ys hx.1 hy)

pub All-left {ℓ κ} : {A : Type ℓ} (P : A → Type κ) (xs ys : List A) → All P (xs ++ ys) → All P xs
All-left P [] ys h = tt
All-left P (x ∷ xs) ys h = (h.0, All-left P xs ys h.1)

module _ {ℓ} {A : Type ℓ} where
  abbrev pub length : List A → ℕ
  length [] = 0
  length (x ∷ xs) = suc (length xs)

  abbrev pub get_elem? : List A → ℕ → Option A
  get_elem? [] i = none
  get_elem? (x ∷ xs) zero = some x
  get_elem? (x ∷ xs) (suc i) = get_elem? xs i

  -- A write out of bounds changes nothing.
  abbrev pub set : List A → ℕ → A → List A
  set [] i v = []
  set (x ∷ xs) zero v = v ∷ xs
  set (x ∷ xs) (suc i) v = x ∷ set xs i v

  abbrev pub take : ℕ → List A → List A
  take zero xs = []
  take (suc n) [] = []
  take (suc n) (x ∷ xs) = x ∷ take n xs

  abbrev pub drop : ℕ → List A → List A
  drop zero xs = xs
  drop (suc n) [] = []
  drop (suc n) (x ∷ xs) = drop n xs

  abbrev pub replicate : ℕ → A → List A
  replicate zero a = []
  replicate (suc n) a = a ∷ replicate n a

  pub length-append : (xs ys : List A) → length (xs ++ ys) ≡ length xs + length ys
  length-append [] ys = omega arith
  length-append (x ∷ xs) ys = omega (arith, length-append xs ys)

  pub length-replicate : (n : ℕ) (a : A) → length (replicate n a) ≡ n
  length-replicate zero a = refl
  length-replicate (suc n) a = ap suc (length-replicate n a)

  pub length-drop : (n : ℕ) (xs : List A) → length (drop n xs) ≡ length xs - n
  length-drop zero xs = omega arith
  length-drop (suc n) [] = omega arith
  length-drop (suc n) (x ∷ xs) = omega (arith, length-drop n xs)

  pub length-take_le : (n : ℕ) (xs : List A) → n ≤ length xs → length (take n xs) ≡ n
  length-take_le zero xs h = refl
  length-take_le (suc n) [] h = absurd (omega arith)
  length-take_le (suc n) (x ∷ xs) h = ap suc (length-take_le n xs (omega arith))

  pub take-append-drop : (n : ℕ) (xs : List A) → take n xs ++ drop n xs ≡ xs
  take-append-drop zero xs = refl
  take-append-drop (suc n) [] = refl
  take-append-drop (suc n) (x ∷ xs) = ap (◌∷◌ x) (take-append-drop n xs)

module _ {ℓ} {A : Type ℓ} where
  -- The length is a variable with an equation, so that any way of writing it fits.
  pub take-append : (n : ℕ) (xs ys : List A) → n ≡ length xs → take n (xs ++ ys) ≡ xs
  take-append zero [] ys h = refl
  take-append (suc n) [] ys h = absurd (omega arith)
  take-append zero (x ∷ xs) ys h = absurd (omega arith)
  take-append (suc n) (x ∷ xs) ys h = ap (◌∷◌ x) (take-append n xs ys (omega arith))

  pub drop-append : (n : ℕ) (xs ys : List A) → n ≡ length xs → drop n (xs ++ ys) ≡ ys
  drop-append zero [] ys h = refl
  drop-append (suc n) [] ys h = absurd (omega arith)
  drop-append zero (x ∷ xs) ys h = absurd (omega arith)
  drop-append (suc n) (x ∷ xs) ys h = drop-append n xs ys (omega arith)

  pub take_all : (n : ℕ) (xs : List A) → length xs ≤ n → take n xs ≡ xs
  take_all zero [] h = refl
  take_all zero (x ∷ xs) h = absurd (omega arith)
  take_all (suc n) [] h = refl
  take_all (suc n) (x ∷ xs) h = ap (◌∷◌ x) (take_all n xs (omega arith))

  pub drop_all : (n : ℕ) (xs : List A) → length xs ≤ n → drop n xs ≡ []
  drop_all zero [] h = refl
  drop_all zero (x ∷ xs) h = absurd (omega arith)
  drop_all (suc n) [] h = refl
  drop_all (suc n) (x ∷ xs) h = drop_all n xs (omega arith)

  pub drop-drop : (m n : ℕ) (xs : List A) → drop n (drop m xs) ≡ drop (m + n) xs
  drop-drop zero n xs = ap (λ (k : ℕ). drop k xs) (omega arith)
  drop-drop (suc m) n [] = drop_all n [] (omega arith) ∙ sym (drop_all (suc m + n) [] (omega arith))
  drop-drop (suc m) n (x ∷ xs) =
      drop-drop m n xs ∙ ap (λ (k : ℕ). drop k (x ∷ xs)) {x = suc (m + n)} (omega arith)

  pub drop-replicate : (m n : ℕ) (a : A) → drop m (replicate (m + n) a) ≡ replicate n a
  drop-replicate zero n a = ap (λ (k : ℕ). replicate k a) (omega arith)
  drop-replicate (suc m) n a =
      ap (λ (k : ℕ). drop (suc m) (replicate k a)) {y = suc (m + n)} (omega arith)
      ∙ drop-replicate m n a
