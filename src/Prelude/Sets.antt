-- ===== src/Prelude/Sets.antt =====
-- Python's sets and the membership test `in`, over values with a decidable equality.
use Prim.Native.Nat.{ℕ}
use mathlib.Core.Path.{◌≡◌, refl, sym}
use mathlib.Core.Logic.{◌↔◌, ◌⊎◌, inl, inr}
use mathlib.Core.Bool.{Bool, true, false, ◌||◌}
use mathlib.Core.List.{List, [], ◌∷◌, ◌++◌}
use native.Mathlib.Omega.{arith}
use fed_campaign_emhi.Prelude.Tests.{◌==◌, ==_iff, if◌then◌else◌, Bool-cases}
use fed_campaign_emhi.Prelude.Lists.{keep}
use fed_campaign_emhi.Prelude.Int.{ℤ, eqb_ℤ, eqb_ℤ_iff}
use fed_campaign_emhi.Prelude.Str.{Str, str_eq, str_eq_iff}
use fed_campaign_emhi.Prelude.Membership.{In, Distinct, In-append, In-keep}

pub record Eq (A : Type 0) : Type 0 where
  pub beq : A → A → Bool
  pub beq_iff : (a b : A) → (beq a b ≡ true) ↔ (a ≡ b)

instance abbrev pub nat_eq : Eq ℕ
nat_eq = record { beq = ◌==◌; beq_iff = ==_iff }

instance abbrev pub int_eq : Eq ℤ
int_eq = record { beq = eqb_ℤ; beq_iff = eqb_ℤ_iff }

instance abbrev pub str_eq_instance : Eq Str
str_eq_instance = record { beq = str_eq; beq_iff = str_eq_iff }

module _ {A : Type 0} ⦃e : Eq A⦄ where
  -- `a in xs`.
  unfoldable pub contains : List A → A → Bool
  contains [] a = false
  contains (x ∷ xs) a = e.beq a x || contains xs a

  contains-to_In : (xs : List A) (a : A) → contains xs a ≡ true → In a xs
  unfolding contains
  contains-to_In [] a h = ground arith
  contains-to_In (x ∷ xs) a h = elim (Bool-cases (e.beq a x)) [
    | inl q ↦ inl ((e.beq_iff a x).0 q)
    | inr q ↦ inr (contains-to_In xs a (rw q at h))
  ]

  In-to_contains : (xs : List A) (a : A) → In a xs → contains xs a ≡ true
  unfolding contains
  In-to_contains [] a i = absurd i
  In-to_contains (x ∷ xs) a (inl q) = rw ((e.beq_iff a x).1 q)
  In-to_contains (x ∷ xs) a (inr i) = elim (Bool-cases (e.beq a x)) [
    | inl q ↦ rw q
    | inr q ↦ rw q (In-to_contains xs a i)
  ]

  pub contains_iff : (xs : List A) (a : A) → (contains xs a ≡ true) ↔ In a xs
  contains_iff xs a = (contains-to_In xs a, In-to_contains xs a)

  pub contains_not : (xs : List A) (a : A) → contains xs a ≡ false → ¬ In a xs
  contains_not xs a h i = ground (arith, In-to_contains xs a i)

  -- `set(xs)`, as a list in which nothing occurs twice.
  unfoldable pub set_of : List A → List A
  unfolding contains
  set_of [] = []
  set_of (x ∷ xs) = let rest = set_of xs in if contains rest x then rest else x ∷ rest

  pub In-set_of : (xs : List A) (a : A) → In a (set_of xs) ↔ In a xs
  unfolding set_of
  In-set_of xs a = (to xs, from xs)
    where
      to : (xs : List A) → In a (set_of xs) → In a xs
      to [] i = i
      to (x ∷ xs) i =
          let rest = to xs in
          elim (Bool-cases (contains (set_of xs) x)) [
            | inl q ↦ inr (rest (rw q at i))
            | inr q ↦ elim (let j : (a ≡ x) ⊎ In a (set_of xs) = rw q at i in j) [
              | inl p ↦ inl p
              | inr j ↦ inr (rest j)
            ]
          ]

      from : (xs : List A) → In a xs → In a (set_of xs)
      from [] i = i
      from (x ∷ xs) s =
          let rest = from xs in
          elim (Bool-cases (contains (set_of xs) x)) [
            | inl q ↦
                rw q (elim s [ inl p ↦ rw p (contains-to_In (set_of xs) x q) | inr i ↦ rest i ])
            | inr q ↦ rw q (elim s [ inl p ↦ inl p | inr i ↦ inr (rest i) ])
          ]

  pub set_of-Distinct : (xs : List A) → Distinct (set_of xs)
  unfolding set_of
  set_of-Distinct [] = tt
  set_of-Distinct (x ∷ xs) =
      let rest = set_of-Distinct xs in
      elim (Bool-cases (contains (set_of xs) x)) [
        | inl q ↦ rw q rest
        | inr q ↦ rw q (contains_not (set_of xs) x q, rest)
      ]

  -- A list without repetitions is its own set.
  pub set_of-Distinct' : (xs : List A) → Distinct xs → set_of xs ≡ xs
  unfolding set_of
  set_of-Distinct' [] d = refl
  set_of-Distinct' (x ∷ xs) (n, d) =
      let ih = set_of-Distinct' xs d in
      elim (Bool-cases (contains xs x)) [
        | inl q ↦ absurd (n (contains-to_In xs x q))
        | inr q ↦ rw (ih, q)
      ]

-- A value that is absent may be added at the end.
pub Distinct-snoc :
    {A : Type 0} (xs : List A) (a : A) → Distinct xs → ¬ In a xs → Distinct (xs ++ a ∷ [])
Distinct-snoc [] a d n = (λ i. i, tt)
Distinct-snoc (x ∷ xs) a (m, d) n = (
  λ i. elim ((In-append x xs (a ∷ [])).0 i) [
    | inl j ↦ m j
    | inr j ↦ elim j [ inl q ↦ n (inl (sym q)) | inr k ↦ k ]
  ],
  Distinct-snoc xs a d (λ i. n (inr i)),
)

-- Filtering keeps a list free of repetitions.
pub Distinct-keep : {A : Type 0} (p : A → Bool) (xs : List A) → Distinct xs → Distinct (keep p xs)
Distinct-keep p [] d = tt
Distinct-keep p (x ∷ xs) (n, d) =
    let rest = Distinct-keep p xs d in
    elim (Bool-cases (p x)) [
      | inl q ↦ rw q (λ i. n ((In-keep p xs x).0 i).0, rest)
      | inr q ↦ rw q rest
    ]
