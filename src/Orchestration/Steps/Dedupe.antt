-- ===== src/Orchestration/Steps/Dedupe.antt =====
-- `_dedupe` keeps every identifier once.
use ai_native_hedge_fund_ch.Prelude.{
  String, ◌≡◌, sym, true, false, not, ◌&&◌, List, [], ◌∷◌, any, truthy, str_eq, eq_iff, All, Elem,
  ◌⊎◌, HasDistinctKeys, Bool-cases, inl, inr, arith,
}
use ai_native_hedge_fund_ch.Orchestration.Steps.{dedupe_from, dedupe}

abbrev IsSeen : List String → String → Type 0
IsSeen seen value = any (λ other. str_eq other value) seen ≡ false

split-IsSeen :
    (v : String) (seen ys : List String)
    → All (IsSeen (v ∷ seen)) ys
    → All (λ y. str_eq v y ≡ false) ys × All (IsSeen seen) ys
split-IsSeen v seen [] h = (tt, tt)
split-IsSeen v seen (y ∷ ys) h =
    let (a, b) = split-IsSeen v seen ys h.1 in ((ground (arith, h.0), a), (ground (arith, h.0), b))

dedupe_from_distinct :
    (seen values : List String)
    → All (IsSeen seen) (dedupe_from seen values)
      × HasDistinctKeys (λ s. s) (dedupe_from seen values)
unfolding dedupe_from
dedupe_from_distinct seen [] = (tt, tt)
dedupe_from_distinct seen (v ∷ values) =
    elim (Bool-cases (truthy v && not (any (λ other. str_eq other v) seen))) [
      | inl e ↦
          let (later, distinct) = dedupe_from_distinct (v ∷ seen) values in
          let (other, unseen) = split-IsSeen v seen (dedupe_from (v ∷ seen) values) later in
          rw e ((ground arith, unseen), (other, distinct))
      | inr e ↦ rw e (dedupe_from_distinct seen values)
    ]

duplicate :
    (v : String) (seen : List String)
    → (truthy v && not (any (λ other. str_eq other v) seen)) ≡ false
    → truthy v ≡ true
    → any (λ other. str_eq other v) seen ≡ true
duplicate v seen e present = ground arith

dedupe_from_keeps :
    (x : String) (seen values : List String)
    → truthy x ≡ true
    → Elem x values
    → (any (λ other. str_eq other x) seen ≡ true) ⊎ Elem x (dedupe_from seen values)
unfolding dedupe_from
dedupe_from_keeps x seen [] t h = elim h [ ]
dedupe_from_keeps x seen (v ∷ values) t h =
    elim (Bool-cases (truthy v && not (any (λ other. str_eq other v) seen))) [
      | inl e ↦ rw e (kept (dedupe_from_keeps x (v ∷ seen) values t) h)
      | inr e ↦ rw e (dropped e (dedupe_from_keeps x seen values t) h)
    ]
  where
    kept :
        (Elem x values
          → (any (λ other. str_eq other x) (v ∷ seen) ≡ true)
            ⊎ Elem x (dedupe_from (v ∷ seen) values))
        → Elem x (v ∷ values)
        → (any (λ other. str_eq other x) seen ≡ true) ⊎ Elem x (v ∷ dedupe_from (v ∷ seen) values)
    kept rec (inl same) = inr (inl same)
    kept rec (inr later) = elim (rec later) [
      | inr found ↦ inr (inr found)
      | inl seen_now ↦ elim (Bool-cases (str_eq v x)) [
        | inl equal ↦ inr (inl (sym ((eq_iff v x).0 equal)))
        | inr other ↦ inl (ground arith)
      ]
    ]

    dropped :
        (truthy v && not (any (λ other. str_eq other v) seen)) ≡ false
        → (Elem x values
            → (any (λ other. str_eq other x) seen ≡ true) ⊎ Elem x (dedupe_from seen values))
        → Elem x (v ∷ values)
        → (any (λ other. str_eq other x) seen ≡ true) ⊎ Elem x (dedupe_from seen values)
    dropped e rec (inl same) = inl (rw same (duplicate v seen e (rw (← same) t)))
    dropped e rec (inr later) = rec later

-- Deduplication keeps each identifier of the list that is not empty, and what it answers has no
-- identifier twice.
pub dedupe_lem :
    (values : List String) (x : String)
    → truthy x ≡ true
    → Elem x values
    → Elem x (dedupe values) × HasDistinctKeys (λ s. s) (dedupe values)
unfolding dedupe
dedupe_lem values x t h = (
  elim (dedupe_from_keeps x [] values t h) [
    | inl impossible ↦ absurd (cc (impossible))
    | inr found ↦ found
  ],
  (dedupe_from_distinct [] values).1,
)
