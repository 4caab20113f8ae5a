-- ===== src/Prelude/Dicts.antt =====
-- Insertion-ordered dictionaries with text keys, as comprehensions build and `.values()` reads them.
use ai_native_hedge_fund_ch.Prelude.Tests.{str_eq, if◌then◌else◌, Bool-cases}
use ai_native_hedge_fund_ch.Prelude.Lists.{All, Elem, All-append}
use Prim.Native.String.{String}
use mathlib.Core.Path.{◌≡◌, refl, sym, ap, ◌∙◌}
use mathlib.Core.Logic.{◌⊎◌, inl, inr}
use mathlib.Core.Bool.{true, false}
use mathlib.Core.List.{List, [], ◌∷◌, ◌++◌, map, append_assoc, append-nil}
use native.Mathlib.Omega.{arith}
use text.Mathlib.TextEquality.{eq_iff}

-- A Python `dict` that is built by a comprehension and read by `.values()`: an entry keeps the
-- place of the first value of its key, and holds the last one.
module _ {A : Type 0} (key : A → String) where
  pub upsert : A → List A → List A
  upsert x [] = x ∷ []
  upsert x (y ∷ ys) = if str_eq (key y) (key x) then x ∷ ys else y ∷ upsert x ys

  dict_from : List A → List A → List A
  dict_from acc [] = acc
  dict_from acc (x ∷ xs) = dict_from (upsert x acc) xs

  unfoldable pub dict_values : List A → List A
  unfolding dict_from upsert
  dict_values xs = dict_from [] xs

  -- No element of the list has the key `k`.
  abbrev pub IsFresh : String → List A → Type 0
  IsFresh k xs = All (λ y. str_eq (key y) k ≡ false) xs

  -- The keys are pairwise distinct.
  abbrev pub HasDistinctKeys : List A → Type 0
  HasDistinctKeys [] = Unit
  HasDistinctKeys (x ∷ xs) = All (λ y. str_eq (key x) (key y) ≡ false) xs × HasDistinctKeys xs

  upsert_fresh : (x : A) (acc : List A) → IsFresh (key x) acc → upsert x acc ≡ acc ++ x ∷ []
  unfolding upsert
  upsert_fresh x [] h = refl
  upsert_fresh x (y ∷ ys) h = rw h.0 (ap (λ l. y ∷ l) (upsert_fresh x ys h.1))

  -- Every later element is fresh for the entries that are there.
  abbrev AllFresh : List A → List A → Type 0
  AllFresh acc xs = All (λ x. IsFresh (key x) acc) xs

  AllFresh-snoc :
      (acc : List A) (x : A) (xs : List A)
      → All (λ y. str_eq (key x) (key y) ≡ false) xs
      → AllFresh acc xs
      → AllFresh (acc ++ x ∷ []) xs
  AllFresh-snoc acc x [] d h = tt
  AllFresh-snoc acc x (y ∷ ys) d h = (
    All-append (λ z. str_eq (key z) (key y) ≡ false) acc (x ∷ []) h.0 (d.0, tt),
    AllFresh-snoc acc x ys d.1 h.1,
  )

  dict_from_distinct :
      (acc xs : List A) → AllFresh acc xs → HasDistinctKeys xs → dict_from acc xs ≡ acc ++ xs
  unfolding dict_from
  dict_from_distinct acc [] f d = sym (append-nil acc)
  dict_from_distinct acc (x ∷ xs) f d = rw (upsert_fresh x acc f.0) (
      dict_from_distinct (acc ++ x ∷ []) xs (AllFresh-snoc acc x xs d.0 f.1) d.1
      ∙ append_assoc acc (x ∷ []) xs)

  AllFresh-nil : (xs : List A) → AllFresh [] xs
  AllFresh-nil [] = tt
  AllFresh-nil (x ∷ xs) = (tt, AllFresh-nil xs)

  -- With distinct keys the dictionary forgets nothing.
  pub dict_values_distinct : (xs : List A) → HasDistinctKeys xs → dict_values xs ≡ xs
  unfolding dict_values
  dict_values_distinct xs d = dict_from_distinct [] xs (AllFresh-nil xs) d

  upsert_has_key : (x : A) (acc : List A) → Elem (key x) (map key (upsert x acc))
  unfolding upsert
  upsert_has_key x [] = inl refl
  upsert_has_key x (y ∷ ys) = elim (Bool-cases (str_eq (key y) (key x))) [
    | inl e ↦ rw e (inl refl)
    | inr e ↦ rw e (inr (upsert_has_key x ys))
  ]

  upsert_keeps_keys :
      (k : String) (x : A) (acc : List A) → Elem k (map key acc) → Elem k (map key (upsert x acc))
  unfolding upsert
  upsert_keeps_keys k x [] h = elim h [ ]
  upsert_keeps_keys k x (y ∷ ys) h = elim (Bool-cases (str_eq (key y) (key x))) [
    | inl e ↦ rw e (same_key e h)
    | inr e ↦ rw e (further (upsert_keeps_keys k x ys) h)
  ]
    where
      same_key :
          str_eq (key y) (key x) ≡ true → Elem k (map key (y ∷ ys)) → Elem k (map key (x ∷ ys))
      same_key e (inl p) = inl (p ∙ (eq_iff (key y) (key x)).0 e)
      same_key e (inr p) = inr p

      further :
          (Elem k (map key ys) → Elem k (map key (upsert x ys)))
          → Elem k (map key (y ∷ ys))
          → Elem k (map key (y ∷ upsert x ys))
      further rec (inl p) = inl p
      further rec (inr p) = inr (rec p)

  dict_from_keeps_keys :
      (k : String) (acc xs : List A)
      → Elem k (map key acc) ⊎ Elem k (map key xs)
      → Elem k (map key (dict_from acc xs))
  unfolding dict_from
  dict_from_keeps_keys k acc [] (inl h) = h
  dict_from_keeps_keys k acc [] (inr h) = elim h [ ]
  dict_from_keeps_keys k acc (x ∷ xs) (inl h) =
      dict_from_keeps_keys k (upsert x acc) xs (inl (upsert_keeps_keys k x acc h))
  dict_from_keeps_keys k acc (x ∷ xs) (inr (inl e)) =
      dict_from_keeps_keys k (upsert x acc) xs (inl (rw e (upsert_has_key x acc)))
  dict_from_keeps_keys k acc (x ∷ xs) (inr (inr h)) =
      dict_from_keeps_keys k (upsert x acc) xs (inr h)

  -- No key is lost.
  pub dict_values_keeps_keys :
      (k : String) (xs : List A) → Elem k (map key xs) → Elem k (map key (dict_values xs))
  unfolding dict_values
  dict_values_keeps_keys k xs h = dict_from_keeps_keys k [] xs (inr h)

pub str_eq_refl : (s : String) → str_eq s s ≡ true
str_eq_refl s = (eq_iff s s).1 refl

pub str_eq_sym_false : (s t : String) → str_eq s t ≡ false → str_eq t s ≡ false
str_eq_sym_false s t h = ground (arith, eq_iff s t, eq_iff t s)
