-- ===== src/Prelude/Membership.antt =====
-- Membership and quantification over a list, as predicates by recursion.
use fed_campaign_emhi.Prelude.Lists.{keep, any, all, flat_map, reversed}
use fed_campaign_emhi.Prelude.Tests.{Bool-cases, true_and}
use mathlib.Core.Path.{◌≡◌, refl, subst, sym, ap, ◌∙◌}
use mathlib.Core.Logic.{◌⊎◌, inl, inr, ◌↔◌}
use mathlib.Core.Bool.{Bool, true}
use mathlib.Core.List.{List, [], ◌∷◌, ◌++◌, map}
use native.Mathlib.Omega.{arith}

abbrev pub All {ℓ κ} : {A : Type ℓ} → (A → Type κ) → List A → Type κ
All P [] = Unit
All P (x ∷ xs) = P x × All P xs

-- (`⊥` stands in `Type 0`, so this is of the types there.)
abbrev pub In : {A : Type 0} → A → List A → Type 0
In a [] = ⊥
In a (x ∷ xs) = (a ≡ x) ⊎ In a xs

-- No value occurs twice.
abbrev pub Distinct : {A : Type 0} → List A → Type 0
Distinct [] = Unit
Distinct (x ∷ xs) = ¬ In x xs × Distinct xs

module _ {ℓ} {A : Type ℓ} where
  pub All-mono {κ μ} :
      (P : A → Type κ) (Q : A → Type μ) (xs : List A) → ((a : A) → P a → Q a) → All P xs → All Q xs
  All-mono P Q [] f h = tt
  All-mono P Q (x ∷ xs) f (p, ps) = (f x p, All-mono P Q xs f ps)

  pub All-append {κ} : (P : A → Type κ) (xs ys : List A) → All P xs → All P ys → All P (xs ++ ys)
  All-append P [] ys h k = k
  All-append P (x ∷ xs) ys (p, ps) k = (p, All-append P xs ys ps k)

module _ {A : Type 0} where
  pub All-In {κ} : (P : A → Type κ) (xs : List A) {a : A} → All P xs → In a xs → P a
  All-In P [] h i = absurd i
  All-In P (x ∷ xs) (p, ps) (inl e) = subst P (sym e) p
  All-In P (x ∷ xs) (p, ps) (inr i) = All-In P xs ps i

  pub All-of_In {κ} : (P : A → Type κ) (xs : List A) → ((a : A) → In a xs → P a) → All P xs
  All-of_In P [] h = tt
  All-of_In P (x ∷ xs) h = (h x (inl refl), All-of_In P xs (λ a i. h a (inr i)))

  pub In-append : (a : A) (xs ys : List A) → In a (xs ++ ys) ↔ (In a xs ⊎ In a ys)
  In-append a xs ys = (split xs, join xs)
    where
      split : (xs : List A) → In a (xs ++ ys) → In a xs ⊎ In a ys
      split [] i = inr i
      split (x ∷ xs) (inl e) = inl (inl e)
      split (x ∷ xs) (inr i) = elim (split xs i) [ inl j ↦ inl (inr j) | inr j ↦ inr j ]

      join : (xs : List A) → In a xs ⊎ In a ys → In a (xs ++ ys)
      join [] (inl i) = absurd i
      join [] (inr i) = i
      join (x ∷ xs) (inl (inl e)) = inl e
      join (x ∷ xs) (inl (inr i)) = inr (join xs (inl i))
      join (x ∷ xs) (inr j) = inr (join xs (inr j))

  pub In-reversed : (a : A) (xs : List A) → In a (reversed xs) ↔ In a xs
  In-reversed a xs = (to xs, from xs)
    where
      to : (xs : List A) → In a (reversed xs) → In a xs
      to [] i = i
      to (x ∷ xs) i = elim ((In-append a (reversed xs) (x ∷ [])).0 i) [
        | inl j ↦ inr (to xs j)
        | inr (inl e) ↦ inl e
        | inr (inr j) ↦ absurd j
      ]

      from : (xs : List A) → In a xs → In a (reversed xs)
      from [] i = i
      from (x ∷ xs) (inl e) = (In-append a (reversed xs) (x ∷ [])).1 (inr (inl e))
      from (x ∷ xs) (inr i) = (In-append a (reversed xs) (x ∷ [])).1 (inl (from xs i))

  pub In-keep : (p : A → Bool) (xs : List A) (a : A) → In a (keep p xs) ↔ (In a xs × (p a ≡ true))
  In-keep p xs a = (to xs, from xs)
    where
      to : (xs : List A) → In a (keep p xs) → In a xs × (p a ≡ true)
      to [] i = absurd i
      to (x ∷ xs) i =
          let rest = to xs in
          elim (Bool-cases (p x)) [
            | inl e ↦ elim (let j : (a ≡ x) ⊎ In a (keep p xs) = rw e at i in j) [
              | inl q ↦ (inl q, ap p q ∙ e)
              | inr j ↦ let (k, q) = rest j in (inr k, q)
            ]
            | inr e ↦ let (k, q) = rest (rw e at i) in (inr k, q)
          ]

      from : (xs : List A) → In a xs × (p a ≡ true) → In a (keep p xs)
      from [] (i, q) = absurd i
      from (x ∷ xs) (inl e, q) = rw (ap p (sym e) ∙ q) (inl e)
      from (x ∷ xs) (inr i, q) =
          let rest = from xs (i, q) in
          elim (Bool-cases (p x)) [ inl e ↦ rw e (inr rest) | inr e ↦ rw e rest ]

  pub any_iff :
      (p : A → Bool) (xs : List A) → (any p xs ≡ true) ↔ ((a : A) × In a xs × (p a ≡ true))
  any_iff p xs = (to xs, from xs)
    where
      to : (xs : List A) → any p xs ≡ true → (a : A) × In a xs × (p a ≡ true)
      to [] h = ground arith
      to (x ∷ xs) h =
          let rest = to xs in
          elim (Bool-cases (p x)) [
            | inl e ↦ (x, inl refl, e)
            | inr e ↦ let (a, i, q) = rest (rw e at h) in (a, inr i, q)
          ]

      from : (xs : List A) → (a : A) × In a xs × (p a ≡ true) → any p xs ≡ true
      from [] (a, i, q) = absurd i
      from (x ∷ xs) (a, inl e, q) = rw (ap p (sym e) ∙ q)
      from (x ∷ xs) (a, inr i, q) =
          let rest = from xs (a, i, q) in
          elim (Bool-cases (p x)) [ inl e ↦ rw e | inr e ↦ rw e rest ]

  pub all_iff : (p : A → Bool) (xs : List A) → (all p xs ≡ true) ↔ ((a : A) → In a xs → p a ≡ true)
  all_iff p xs = (to xs, from xs)
    where
      to : (xs : List A) → all p xs ≡ true → (a : A) → In a xs → p a ≡ true
      to [] h a i = absurd i
      to (x ∷ xs) h a (inl e) = ap p e ∙ (true_and (p x) (all p xs) h).0
      to (x ∷ xs) h a (inr i) = to xs (true_and (p x) (all p xs) h).1 a i

      from : (xs : List A) → ((a : A) → In a xs → p a ≡ true) → all p xs ≡ true
      from [] h = refl
      from (x ∷ xs) h = rw (h x (inl refl)) (from xs (λ a i. h a (inr i)))

module _ {A B : Type 0} where
  pub In-map : (g : A → B) (xs : List A) (b : B) → In b (map g xs) ↔ ((a : A) × In a xs × (b ≡ g a))
  In-map g xs b = (to xs, from xs)
    where
      to : (xs : List A) → In b (map g xs) → (a : A) × In a xs × (b ≡ g a)
      to [] i = absurd i
      to (x ∷ xs) (inl e) = (x, inl refl, e)
      to (x ∷ xs) (inr i) = let (a, j, e) = to xs i in (a, inr j, e)

      from : (xs : List A) → (a : A) × In a xs × (b ≡ g a) → In b (map g xs)
      from [] (a, i, e) = absurd i
      from (x ∷ xs) (a, inl q, e) = inl (e ∙ ap g q)
      from (x ∷ xs) (a, inr i, e) = inr (from xs (a, i, e))

  pub In-flat_map :
      (g : A → List B) (xs : List A) (b : B)
      → In b (flat_map g xs) ↔ ((a : A) × In a xs × In b (g a))
  In-flat_map g xs b = (to xs, from xs)
    where
      to : (xs : List A) → In b (flat_map g xs) → (a : A) × In a xs × In b (g a)
      to [] i = absurd i
      to (x ∷ xs) i =
          let rest = to xs in
          elim ((In-append b (g x) (flat_map g xs)).0 i) [
            | inl j ↦ (x, inl refl, j)
            | inr j ↦ let (a, k, l) = rest j in (a, inr k, l)
          ]

      from : (xs : List A) → (a : A) × In a xs × In b (g a) → In b (flat_map g xs)
      from [] (a, i, j) = absurd i
      from (x ∷ xs) (a, inl q, j) =
          (In-append b (g x) (flat_map g xs)).1 (inl (subst (λ y. In b (g y)) q j))
      from (x ∷ xs) (a, inr i, j) = (In-append b (g x) (flat_map g xs)).1 (inr (from xs (a, i, j)))
