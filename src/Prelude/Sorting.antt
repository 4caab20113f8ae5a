-- ===== src/Prelude/Sorting.antt =====
-- Python's `sorted`: a stable insertion sort by a Boolean test, and what it keeps.
use ai_native_hedge_fund_ch.Prelude.Tests.{if◌then◌else◌, Bool-cases, str_eq}
use ai_native_hedge_fund_ch.Prelude.Lists.{All, Elem}
use ai_native_hedge_fund_ch.Prelude.Dicts.{HasDistinctKeys, str_eq_sym_false}
use Prim.Native.Nat.{ℕ, ◌≤◌}
use Prim.Native.String.{String}
use mathlib.Core.Path.{◌≡◌}
use mathlib.Core.Logic.{◌⊎◌, inl, inr}
use mathlib.Core.Bool.{Bool, true, false}
use mathlib.Core.List.{List, [], ◌∷◌, foldr}
use native.Mathlib.Omega.{arith}

module _ {A : Type 0} (before : A → A → Bool) where
  -- `x` goes in front of the first element that is not before it.
  unfoldable pub insert_by : A → List A → List A
  insert_by x [] = x ∷ []
  insert_by x (y ∷ ys) = let rest = insert_by x ys in if before y x then y ∷ rest else x ∷ y ∷ ys

  unfoldable pub sort_by : List A → List A
  unfolding insert_by
  sort_by xs = foldr insert_by [] xs

  pub All-insert_by :
      (P : A → Type 0) (x : A) (ys : List A) → P x → All P ys → All P (insert_by x ys)
  unfolding insert_by
  All-insert_by P x [] p h = (p, tt)
  All-insert_by P x (y ∷ ys) p h = elim (Bool-cases (before y x)) [
    | inl t ↦ rw t (h.0, All-insert_by P x ys p h.1)
    | inr f ↦ rw f (p, h)
  ]

  All-insert_by_back :
      (P : A → Type 0) (x : A) (ys : List A) → All P (insert_by x ys) → P x × All P ys
  unfolding insert_by
  All-insert_by_back P x [] h = h
  All-insert_by_back P x (y ∷ ys) h = elim (Bool-cases (before y x)) [
    | inl t ↦
        let (first, rest) : P y × All P (insert_by x ys) = rw t at h in
        let (p, later) = All-insert_by_back P x ys rest in (p, (first, later))
    | inr f ↦ rw f at h
  ]

  -- What holds of all elements holds of the sorted ones, and the other way round.
  pub All-sort_by : (P : A → Type 0) (xs : List A) → All P xs → All P (sort_by xs)
  unfolding sort_by
  All-sort_by P [] h = tt
  All-sort_by P (x ∷ xs) h = All-insert_by P x _ h.0 (All-sort_by P xs h.1)

  pub All-sort_by_back : (P : A → Type 0) (xs : List A) → All P (sort_by xs) → All P xs
  unfolding sort_by
  All-sort_by_back P [] h = tt
  All-sort_by_back P (x ∷ xs) h =
      let (p, rest) = All-insert_by_back P x _ h in (p, All-sort_by_back P xs rest)

  Elem-insert_by : (x y : A) (ys : List A) → (x ≡ y) ⊎ Elem x ys → Elem x (insert_by y ys)
  unfolding insert_by
  Elem-insert_by x y [] h = h
  Elem-insert_by x y (z ∷ zs) h = elim (Bool-cases (before z y)) [
    | inl t ↦ rw t (further (Elem-insert_by x y zs) h)
    | inr f ↦ rw f h
  ]
    where
      further :
          ((x ≡ y) ⊎ Elem x zs → Elem x (insert_by y zs))
          → (x ≡ y) ⊎ Elem x (z ∷ zs)
          → Elem x (z ∷ insert_by y zs)
      further rec (inl e) = inr (rec (inl e))
      further rec (inr (inl e)) = inl e
      further rec (inr (inr e)) = inr (rec (inr e))

  pub Elem-sort_by : (x : A) (xs : List A) → Elem x xs → Elem x (sort_by xs)
  unfolding sort_by
  Elem-sort_by x [] h = elim h [ ]
  Elem-sort_by x (y ∷ ys) (inl e) = Elem-insert_by x y (foldr insert_by [] ys) (inl e)
  Elem-sort_by x (y ∷ ys) (inr h) =
      Elem-insert_by x y (foldr insert_by [] ys) (inr (Elem-sort_by x ys h))

  module _ (key : A → String) where
    insert_by-HasDistinctKeys :
        (x : A) (ys : List A)
        → All (λ y. str_eq (key x) (key y) ≡ false) ys
        → HasDistinctKeys key ys
        → HasDistinctKeys key (insert_by x ys)
    unfolding insert_by
    insert_by-HasDistinctKeys x [] fresh h = (tt, tt)
    insert_by-HasDistinctKeys x (y ∷ ys) fresh h = elim (Bool-cases (before y x)) [
      | inl t ↦ rw t (
        All-insert_by (λ z. str_eq (key y) (key z) ≡ false) x ys
            (str_eq_sym_false (key x) (key y) fresh.0) h.0,
        insert_by-HasDistinctKeys x ys fresh.1 h.1,
      )
      | inr f ↦ rw f (fresh, h)
    ]

    pub sort_by-HasDistinctKeys :
        (xs : List A) → HasDistinctKeys key xs → HasDistinctKeys key (sort_by xs)
    unfolding sort_by
    sort_by-HasDistinctKeys [] h = tt
    sort_by-HasDistinctKeys (x ∷ xs) h =
        insert_by-HasDistinctKeys x _ (All-sort_by _ xs h.0) (sort_by-HasDistinctKeys xs h.1)

-- Every element's number is at most those of the elements after it.
abbrev pub IsAscending : {A : Type 0} → (A → ℕ) → List A → Type 0
IsAscending number [] = Unit
IsAscending number (x ∷ xs) = All (λ y. number x ≤ number y) xs × IsAscending number xs

-- A test that refines the order of a number.
abbrev pub Refines : {A : Type 0} → (A → A → Bool) → (A → ℕ) → Type 0
Refines before number =
    ((x y : _) → before x y ≡ true → number x ≤ number y)
    × ((x y : _) → before x y ≡ false → number y ≤ number x)

module _ {A : Type 0} (before : A → A → Bool) (number : A → ℕ)
    (refines : Refines before number) where
  above : (n m : ℕ) (ys : List A) → n ≤ m → All (λ y. m ≤ number y) ys → All (λ y. n ≤ number y) ys
  above n m [] le h = tt
  above n m (y ∷ ys) le h = (omega (arith, le, h.0), above n m ys le h.1)

  insert_by-IsAscending :
      (x : A) (ys : List A) → IsAscending number ys → IsAscending number (insert_by before x ys)
  unfolding insert_by
  insert_by-IsAscending x [] h = (tt, tt)
  insert_by-IsAscending x (y ∷ ys) h = elim (Bool-cases (before y x)) [
    | inl t ↦ rw t (
      All-insert_by before (λ z. number y ≤ number z) x ys (refines.0 y x t) h.0,
      insert_by-IsAscending x ys h.1,
    )
    | inr f ↦ let le = refines.1 y x f in rw f ((le, above (number x) (number y) ys le h.0), h)
  ]

  pub sort_by-IsAscending : (xs : List A) → IsAscending number (sort_by before xs)
  unfolding sort_by
  sort_by-IsAscending [] = tt
  sort_by-IsAscending (x ∷ xs) = insert_by-IsAscending x _ (sort_by-IsAscending xs)
