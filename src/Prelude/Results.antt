-- ===== src/Prelude/Results.antt =====
-- Exceptions as values, and sorted sets of texts.
use ai_native_hedge_fund_ch.Prelude.Tests.{str_eq, if◌then◌else◌, Bool-cases}
use ai_native_hedge_fund_ch.Prelude.Lists.{Elem}
use mathlib.Core.Logic.{◌⊎◌, inl, inr}
use text.Mathlib.TextEquality.{eq_iff}
use Prim.Native.Nat.{Ordering}
use Prim.Native.String.{String, compare}
use mathlib.Core.Path.{◌≡◌, refl}
use mathlib.Core.Bool.{Bool, true, false}
use mathlib.Core.List.{List, [], ◌∷◌, foldr}

-- A value, or a raised `ValueError` with its message.
pub data Result {ℓ} (A : Type ℓ) : Type ℓ where
  ok : A → Result A
  err : String → Result A

-- `if c: raise ValueError(message)`
abbrev pub raise_if : Bool → String → Result (Unit {0})
raise_if condition message = if condition then err message else ok tt

-- The steps of a function one after the other; the first exception ends it.
infixl 5 ◌>>=◌
abbrev pub ◌>>=◌ {ℓ κ} : {V : Type ℓ} {W : Type κ} → Result V → (V → Result W) → Result W
ok value >>= next = next value
err message >>= next = err message

infixl 5 ◌>>◌
abbrev pub ◌>>◌ {ℓ} : {W : Type ℓ} → Result (Unit {0}) → Result W → Result W
check >> next = check >>= λ done. next

module _ {ℓ} {V : Type ℓ} where
  pub ok_injective : {v w : V} → ok v ≡ ok w → v ≡ w
  ok_injective same = cc

  -- A function that returns has run its first step, and the rest of it on that step's value.
  pub >>=-eq-ok {κ} :
      {W : Type κ} (first : Result V) (rest : V → Result W) {final : W}
      → (first >>= rest) ≡ ok final
      → (value : V) × (first ≡ ok value) × (rest value ≡ ok final)
  >>=-eq-ok (ok value) rest same = (value, refl, same)
  >>=-eq-ok (err message) rest same = cc

-- `s < t` on texts.
abbrev pub str_lt : String → String → Bool
str_lt s t = elim (compare s t) [ Ordering.lt ↦ true | _ ↦ false ]

insert_text : String → List String → List String
insert_text s [] = s ∷ []
insert_text s (t ∷ ts) =
    if str_eq s t then t ∷ ts else if str_lt s t then s ∷ t ∷ ts else t ∷ insert_text s ts

-- `sorted({*texts})`
unfoldable pub sorted_set : List String → List String
unfolding insert_text
sorted_set texts = foldr insert_text [] texts

insert_text_has : (s : String) (ts : List String) → Elem s (insert_text s ts)
unfolding insert_text
insert_text_has s [] = inl refl
insert_text_has s (t ∷ ts) = elim (Bool-cases (str_eq s t)) [
  | inl e ↦ rw e (inl ((eq_iff s t).0 e))
  | inr e ↦ rw e (elim (Bool-cases (str_lt s t)) [
    | inl l ↦ rw l (inl refl)
    | inr g ↦ rw g (inr (insert_text_has s ts))
  ])
]

insert_text_keeps : (x s : String) (ts : List String) → Elem x ts → Elem x (insert_text s ts)
unfolding insert_text
insert_text_keeps x s [] h = elim h [ ]
insert_text_keeps x s (t ∷ ts) h = elim (Bool-cases (str_eq s t)) [
  | inl e ↦ rw e h
  | inr e ↦ rw e (elim (Bool-cases (str_lt s t)) [
    | inl l ↦ rw l (inr h)
    | inr g ↦ rw g (further (insert_text_keeps x s ts) h)
  ])
]
  where
    further :
        (Elem x ts → Elem x (insert_text s ts)) → Elem x (t ∷ ts) → Elem x (t ∷ insert_text s ts)
    further rec (inl p) = inl p
    further rec (inr p) = inr (rec p)

-- A sorted set has every text it is made of.
pub Elem-sorted_set : (x : String) (texts : List String) → Elem x texts → Elem x (sorted_set texts)
unfolding sorted_set
Elem-sorted_set x [] h = elim h [ ]
Elem-sorted_set x (t ∷ ts) (inl e) = rw e (insert_text_has t (foldr insert_text [] ts))
Elem-sorted_set x (t ∷ ts) (inr h) =
    insert_text_keeps x t (foldr insert_text [] ts) (Elem-sorted_set x ts h)

pub Result-cases {ℓ} :
    {A : Type ℓ} (m : Result A) → ((a : A) × (m ≡ ok a)) ⊎ ((message : String) × (m ≡ err message))
Result-cases (ok a) = inl (a, refl)
Result-cases (err message) = inr (message, refl)
