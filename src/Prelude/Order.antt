-- ===== src/Prelude/Order.antt =====
-- Orders given by a Boolean test, and Python's `sorted`, which is stable.
use fed_campaign_emhi.Prelude.Lists.{length, count_if}
use fed_campaign_emhi.Prelude.Tests.{Bool-cases, if◌then◌else◌}
use fed_campaign_emhi.Prelude.Membership.{All, In, Distinct, All-mono}
use Prim.Native.Nat.{suc}
use mathlib.Core.Path.{◌≡◌, refl, sym}
use mathlib.Core.Logic.{◌⊎◌, inl, inr, ◌↔◌}
use mathlib.Core.Bool.{Bool, true}
use mathlib.Core.List.{List, [], ◌∷◌, Perm}
use mathlib.Core.List.Perm
use native.Mathlib.Omega.{arith}

-- A total preorder; two values that precede each other need not be one.
pub record IsOrder {ℓ} {A : Type ℓ} (le : A → A → Bool) : Type ℓ where
  pub total : (a b : A) → (le a b ≡ true) ⊎ (le b a ≡ true)
  pub trans : (a b c : A) → le a b ≡ true → le b c ≡ true → le a c ≡ true

module _ {ℓ} {A : Type ℓ} (le : A → A → Bool) where
  pub insert_sorted : A → List A → List A
  insert_sorted x [] = x ∷ []
  insert_sorted x (y ∷ ys) = if le x y then x ∷ y ∷ ys else y ∷ insert_sorted x ys

  -- `sorted(xs)`: an element goes in front of the later elements that it precedes or equals.
  unfoldable pub sorted : List A → List A
  unfolding insert_sorted
  sorted [] = []
  sorted (x ∷ xs) = insert_sorted x (sorted xs)

  abbrev pub IsSorted : List A → Type ℓ
  IsSorted [] = Unit
  IsSorted (x ∷ xs) = All (λ y. le x y ≡ true) xs × IsSorted xs

  length-insert_sorted : (x : A) (ys : List A) → length (insert_sorted x ys) ≡ suc (length ys)
  unfolding insert_sorted
  length-insert_sorted x [] = refl
  length-insert_sorted x (y ∷ ys) = ground (arith, length-insert_sorted x ys)

  pub length-sorted : (xs : List A) → length (sorted xs) ≡ length xs
  unfolding sorted
  length-sorted [] = refl
  length-sorted (x ∷ xs) = omega (arith, length-insert_sorted x (sorted xs), length-sorted xs)

  All-insert_sorted {κ} :
      (P : A → Type κ) (x : A) (ys : List A) → P x → All P ys → All P (insert_sorted x ys)
  unfolding insert_sorted
  All-insert_sorted P x [] p ps = (p, tt)
  All-insert_sorted P x (y ∷ ys) p (q, qs) =
      let rest = All-insert_sorted P x ys p qs in
      elim (Bool-cases (le x y)) [ inl e ↦ rw e (p, (q, qs)) | inr e ↦ rw e (q, rest) ]

  pub All-sorted {κ} : (P : A → Type κ) (xs : List A) → All P xs → All P (sorted xs)
  unfolding sorted
  All-sorted P [] h = tt
  All-sorted P (x ∷ xs) (p, ps) = All-insert_sorted P x (sorted xs) p (All-sorted P xs ps)

  count_if-insert_sorted :
      (p : A → Bool) (x : A) (ys : List A) → count_if p (insert_sorted x ys) ≡ count_if p (x ∷ ys)
  unfolding insert_sorted
  count_if-insert_sorted p x [] = refl
  count_if-insert_sorted p x (y ∷ ys) = ground (arith, count_if-insert_sorted p x ys)

  -- `sorted` keeps how many elements pass a test.
  pub count_if-sorted : (p : A → Bool) (xs : List A) → count_if p (sorted xs) ≡ count_if p xs
  unfolding sorted
  count_if-sorted p [] = refl
  count_if-sorted p (x ∷ xs) =
      omega (arith, count_if-insert_sorted p x (sorted xs), count_if-sorted p xs)

  module _ (o : IsOrder le) where
    insert_sorted-IsSorted : (x : A) (ys : List A) → IsSorted ys → IsSorted (insert_sorted x ys)
    unfolding insert_sorted
    insert_sorted-IsSorted x [] s = (tt, tt)
    insert_sorted-IsSorted x (y ∷ ys) (low, s) =
        let rest = insert_sorted-IsSorted x ys s in
        elim (Bool-cases (le x y)) [
          | inl e ↦ rw e ((e, All-mono _ _ ys (λ z h. o.trans x y z e h) low), (low, s))
          | inr e ↦
              let yx : le y x ≡ true = elim (o.total x y) [ inl h ↦ ground arith | inr h ↦ h ] in
              rw e (All-insert_sorted (λ z. le y z ≡ true) x ys yx low, rest)
        ]

    -- `sorted` sorts.
    pub sorted-IsSorted : (xs : List A) → IsSorted (sorted xs)
    unfolding sorted
    sorted-IsSorted [] = tt
    sorted-IsSorted (x ∷ xs) = insert_sorted-IsSorted x (sorted xs) (sorted-IsSorted xs)

pub IsSorted-implied {ℓ} :
    {A : Type ℓ} (le le' : A → A → Bool)
    → ((a b : A) → le a b ≡ true → le' a b ≡ true)
    → (xs : List A) → IsSorted le xs
    → IsSorted le' xs
IsSorted-implied le le' h [] s = tt
IsSorted-implied le le' h (x ∷ xs) (low, s) =
    (All-mono _ _ xs (λ y. h x y) low, IsSorted-implied le le' h xs s)

-- `sorted` keeps the members.
module _ {A : Type 0} (le : A → A → Bool) where
  In-insert_sorted :
      (x : A) (ys : List A) (a : A) → In a (insert_sorted le x ys) ↔ ((a ≡ x) ⊎ In a ys)
  unfolding insert_sorted
  In-insert_sorted x ys a = (to ys, from ys)
    where
      to : (ys : List A) → In a (insert_sorted le x ys) → (a ≡ x) ⊎ In a ys
      to [] i = i
      to (y ∷ ys) i =
          let rest = to ys in
          elim (Bool-cases (le x y)) [
            | inl e ↦ rw e at i
            | inr e ↦ elim (let j : (a ≡ y) ⊎ In a (insert_sorted le x ys) = rw e at i in j) [
              | inl q ↦ inr (inl q)
              | inr j ↦ elim (rest j) [ inl q ↦ inl q | inr k ↦ inr (inr k) ]
            ]
          ]

      from : (ys : List A) → (a ≡ x) ⊎ In a ys → In a (insert_sorted le x ys)
      from [] s = s
      from (y ∷ ys) s =
          let rest = from ys in
          elim (Bool-cases (le x y)) [
            | inl e ↦ rw e s
            | inr e ↦ rw e (elim s [
              | inl q ↦ inr (rest (inl q))
              | inr t ↦ elim t [ inl q ↦ inl q | inr k ↦ inr (rest (inr k)) ]
            ])
          ]

  insert_sorted-Perm : (x : A) (ys : List A) → Perm (insert_sorted le x ys) (x ∷ ys)
  unfolding insert_sorted
  insert_sorted-Perm x [] = Perm.rfl
  insert_sorted-Perm x (y ∷ ys) =
      let rest = insert_sorted-Perm x ys in
      elim (Bool-cases (le x y)) [
        | inl e ↦ rw e Perm.rfl
        | inr e ↦ rw e (Perm.trans (Perm.cons y rest) (Perm.swap x y ys))
      ]

  -- `sorted` rearranges.
  pub sorted-Perm : (xs : List A) → Perm (sorted le xs) xs
  unfolding sorted
  sorted-Perm [] = Perm.rfl
  sorted-Perm (x ∷ xs) =
      Perm.trans (insert_sorted-Perm x (sorted le xs)) (Perm.cons x (sorted-Perm xs))

  pub In-sorted : (xs : List A) (a : A) → In a (sorted le xs) ↔ In a xs
  unfolding sorted
  In-sorted xs a = (to xs, from xs)
    where
      to : (xs : List A) → In a (sorted le xs) → In a xs
      to [] i = i
      to (x ∷ xs) i = elim ((In-insert_sorted x (sorted le xs) a).0 i) [
        | inl q ↦ inl q
        | inr j ↦ inr (to xs j)
      ]

      from : (xs : List A) → In a xs → In a (sorted le xs)
      from [] i = i
      from (x ∷ xs) (inl q) = (In-insert_sorted x (sorted le xs) a).1 (inl q)
      from (x ∷ xs) (inr j) = (In-insert_sorted x (sorted le xs) a).1 (inr (from xs j))

  Distinct-insert_sorted :
      (x : A) (ys : List A) → ¬ In x ys → Distinct ys → Distinct (insert_sorted le x ys)
  unfolding insert_sorted
  Distinct-insert_sorted x [] n d = (n, tt)
  Distinct-insert_sorted x (y ∷ ys) n (m, d) =
      let rest = Distinct-insert_sorted x ys (λ i. n (inr i)) d in
      elim (Bool-cases (le x y)) [
        | inl e ↦ rw e (n, (m, d))
        | inr e ↦ rw e (
          λ i. elim ((In-insert_sorted x ys y).0 i) [ inl q ↦ n (inl (sym q)) | inr j ↦ m j ],
          rest,
        )
      ]

  pub Distinct-sorted : (xs : List A) → Distinct xs → Distinct (sorted le xs)
  unfolding sorted
  Distinct-sorted [] d = tt
  Distinct-sorted (x ∷ xs) (n, d) =
      Distinct-insert_sorted x (sorted le xs) (λ i. n ((In-sorted xs x).0 i)) (Distinct-sorted xs d)
