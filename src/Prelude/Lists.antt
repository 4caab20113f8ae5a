-- ===== src/Prelude/Lists.antt =====
-- Lists: the Boolean tests of the program's comprehensions, and predicates by recursion.
use ai_native_hedge_fund_ch.Prelude.Tests.{if◌then◌else◌, Bool-cases}
use Prim.Native.Nat.{ℕ, suc, ◌+◌}
use mathlib.Core.Path.{◌≡◌, refl, ap}
use mathlib.Core.Logic.{◌⊎◌, inl, inr}
use mathlib.Core.Bool.{Bool, true, false, ◌&&◌, ◌||◌}
use mathlib.Core.Option.{Option, none, some}
use mathlib.Core.List.{List, [], ◌∷◌, ◌++◌, map}
use native.Mathlib.Omega.{arith}

module _ {ℓ} {A : Type ℓ} where
  abbrev pub length : List A → ℕ
  length [] = 0
  length (x ∷ xs) = suc (length xs)

  -- `any(p(x) for x in xs)`
  abbrev pub any : (A → Bool) → List A → Bool
  any p [] = false
  any p (x ∷ xs) = p x || any p xs

  -- `all(p(x) for x in xs)`
  abbrev pub all : (A → Bool) → List A → Bool
  all p [] = true
  all p (x ∷ xs) = p x && all p xs

  -- `[x for x in xs if p(x)]`
  abbrev pub filter : (A → Bool) → List A → List A
  filter p [] = []
  filter p (x ∷ xs) = let rest = filter p xs in if p x then x ∷ rest else rest

  abbrev pub is_empty : List A → Bool
  is_empty [] = true
  is_empty (x ∷ xs) = false

  -- `next(filter(p, xs), None)`
  abbrev pub find : (A → Bool) → List A → Option A
  find p [] = none
  find p (x ∷ xs) = if p x then some x else find p xs

  pub length-append : (xs ys : List A) → length (xs ++ ys) ≡ length xs + length ys
  length-append [] ys = omega arith
  length-append (x ∷ xs) ys = omega (arith, length-append xs ys)

-- Every element satisfies `P`.
abbrev pub All {ℓ κ} : {A : Type ℓ} → (A → Type κ) → List A → Type κ
All good [] = Unit
All good (first ∷ rest) = good first × All good rest

-- Occurrence in a list, as a predicate that computes.
abbrev pub Elem : {A : Type 0} → A → List A → Type 0
Elem a [] = ⊥
Elem a (x ∷ xs) = (a ≡ x) ⊎ Elem a xs

module _ {ℓ κ} {A : Type ℓ} where
  pub All-append : (P : A → Type κ) (xs ys : List A) → All P xs → All P ys → All P (xs ++ ys)
  All-append P [] ys hx hy = hy
  All-append P (x ∷ xs) ys hx hy = (hx.0, All-append P xs ys hx.1 hy)

  pub All-left : (P : A → Type κ) (xs ys : List A) → All P (xs ++ ys) → All P xs
  All-left P [] ys h = tt
  All-left P (x ∷ xs) ys h = (h.0, All-left P xs ys h.1)

  pub All-right : (P : A → Type κ) (xs ys : List A) → All P (xs ++ ys) → All P ys
  All-right P [] ys h = h
  All-right P (x ∷ xs) ys h = All-right P xs ys h.1

  pub All-filter : (P : A → Type κ) (p : A → Bool) (xs : List A) → All P xs → All P (filter p xs)
  All-filter P p [] h = tt
  All-filter P p (x ∷ xs) h = elim (Bool-cases (p x)) [
    | inl e ↦ rw e (h.0, All-filter P p xs h.1)
    | inr e ↦ rw e (All-filter P p xs h.1)
  ]

pub All-elem : {A : Type 0} (P : A → Type 0) (x : A) (xs : List A) → All P xs → Elem x xs → P x
All-elem P x [] h e = elim e [ ]
All-elem P x (y ∷ ys) h (inl e) = rw e h.0
All-elem P x (y ∷ ys) h (inr e) = All-elem P x ys h.1 e

module _ {A : Type 0} where
  pub Elem-append_left : (x : A) (xs ys : List A) → Elem x xs → Elem x (xs ++ ys)
  Elem-append_left x [] ys e = elim e [ ]
  Elem-append_left x (y ∷ xs) ys (inl e) = inl e
  Elem-append_left x (y ∷ xs) ys (inr e) = inr (Elem-append_left x xs ys e)

  pub Elem-append_right : (x : A) (xs ys : List A) → Elem x ys → Elem x (xs ++ ys)
  Elem-append_right x [] ys e = e
  Elem-append_right x (y ∷ xs) ys e = inr (Elem-append_right x xs ys e)

  pub Elem-map : {B : Type 0} (f : A → B) (x : A) (xs : List A) → Elem x xs → Elem (f x) (map f xs)
  Elem-map f x [] e = elim e [ ]
  Elem-map f x (y ∷ xs) (inl e) = inl (ap f e)
  Elem-map f x (y ∷ xs) (inr e) = inr (Elem-map f x xs e)

  pub Elem-filter :
      (p : A → Bool) (x : A) (xs : List A) → p x ≡ true → Elem x xs → Elem x (filter p xs)
  Elem-filter p x [] h e = elim e [ ]
  Elem-filter p x (y ∷ xs) h (inl e) = rw (← e) (rw h (inl refl))
  Elem-filter p x (y ∷ xs) h (inr e) = elim (Bool-cases (p y)) [
    | inl t ↦ rw t (inr (Elem-filter p x xs h e))
    | inr f ↦ rw f (Elem-filter p x xs h e)
  ]

  -- A filter that keeps nothing found nothing.
  pub filter-nil :
      (p : A → Bool) (xs : List A) → is_empty (filter p xs) ≡ true → All (λ x. p x ≡ false) xs
  filter-nil p [] h = tt
  filter-nil p (x ∷ xs) h = elim (Bool-cases (p x)) [
    | inl t ↦ (absurd (cc (rw t at h)))
    | inr f ↦ (f, filter-nil p xs (rw f at h))
  ]

  pub any-false : (p : A → Bool) (xs : List A) → any p xs ≡ false → All (λ x. p x ≡ false) xs
  any-false p [] h = tt
  any-false p (x ∷ xs) h = (ground arith, any-false p xs (ground arith))

  pub any_of_Elem : (p : A → Bool) (x : A) (xs : List A) → p x ≡ true → Elem x xs → any p xs ≡ true
  any_of_Elem p x [] h e = elim e [ ]
  any_of_Elem p x (y ∷ xs) h (inl e) = rw (← e) (rw h refl)
  any_of_Elem p x (y ∷ xs) h (inr e) = ground (arith, any_of_Elem p x xs h e)

-- What holds of all elements holds of the one that is found, and the test holds of it.
pub All-find :
    {A : Type 0} (P : A → Type 0) (p : A → Bool) (x : A) (xs : List A)
    → All P xs
    → find p xs ≡ some x
    → P x × (p x ≡ true)
All-find P p x [] h e = cc
All-find P p x (y ∷ ys) h e = elim (Bool-cases (p y)) [
  | inl t ↦ let same : y ≡ x = cc (rw t at e) in rw (← same) (h.0, t)
  | inr f ↦ All-find P p x ys h.1 (rw f at e)
]
