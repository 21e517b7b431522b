-- ===== src/Prelude/Selection.antt =====
-- A loop that returns the first candidate of a sorted list that passes a test.
use mathlib.Core.Path.{◌≡◌, refl, ap, sym, ◌∙◌}
use mathlib.Core.Logic.{inl, inr}
use mathlib.Core.Bool.{Bool, true, false}
use mathlib.Core.Option.{Option, none, some}
use mathlib.Core.List.{List, [], ◌∷◌}
use fed_campaign_emhi.Prelude.Tests.{if◌then◌else◌, Bool-cases}
use fed_campaign_emhi.Prelude.Raising.{Result, ok, ◌>>=◌}
use fed_campaign_emhi.Prelude.Membership.{In, All-In}
use fed_campaign_emhi.Prelude.Order.{IsOrder, sorted, sorted-IsSorted, IsSorted, In-sorted}

-- `for x in xs: if test(x): return x`, and `None` at the end, where the test may raise.
unfoldable pub select_first {ℓ} : {A : Type ℓ} → (A → Result Bool) → List A → Result (Option A)
select_first test [] = ok none
select_first test (x ∷ xs) =
    let rest = select_first test xs in test x >>= λ passed. if passed then ok (some x) else rest

-- `r` is a least member that passes `p`, and `none` if no member does.
abbrev pub IsBest : {A : Type 0} → (A → A → Bool) → (A → Bool) → List A → Option A → Type 0
IsBest {A} le p xs none = (x : A) → In x xs → p x ≡ false
IsBest {A} le p xs (some x) =
    In x xs × (p x ≡ true) × ((y : A) → In y xs → p y ≡ true → le x y ≡ true)

pub IsBest-implied :
    {A : Type 0} (le le' : A → A → Bool) (p : A → Bool) (xs : List A) (r : Option A)
    → ((a b : A) → le a b ≡ true → le' a b ≡ true)
    → IsBest le p xs r
    → IsBest le' p xs r
IsBest-implied le le' p xs none h b = b
IsBest-implied le le' p xs (some x) h (i, q, least) = (i, q, λ y j k. h x y (least y j k))

module _ {A : Type 0} (le : A → A → Bool) (o : IsOrder le) (test : A → Result Bool)
    (p : A → Bool) where
  le_refl : (x : A) → le x x ≡ true
  le_refl x = elim (o.total x x) [ inl h ↦ h | inr h ↦ h ]

  on_sorted :
      (xs : List A)
      → IsSorted le xs
      → ((x : A) → In x xs → test x ≡ ok (p x))
      → (r : Option A) × (select_first test xs ≡ ok r) × IsBest le p xs r
  unfolding select_first
  on_sorted [] s total = (none, refl, λ x i. absurd i)
  on_sorted (x ∷ xs) (low, s) total = elim (Bool-cases (p x)) [
    | inl q ↦ (
      some x,
      rw (total x (inl refl), q),
      (
        inl refl,
        q,
        λ y i h. elim i [ inl e ↦ rw e (le_refl x) | inr j ↦ All-In (λ z. le x z ≡ true) xs low j ],
      ),
    )
    | inr q ↦
        let (r, e, best) = on_sorted xs s (λ y i. total y (inr i)) in
        (r, rw (total x (inl refl), q) e, skip q r best)
  ]
    where
      skip : p x ≡ false → (r : Option A) → IsBest le p xs r → IsBest le p (x ∷ xs) r
      skip q none best = λ y i. elim i [ inl e ↦ ap p e ∙ q | inr j ↦ best y j ]
      skip q (some z) (i, h, least) = (inr i, h, after)
        where
          after : (y : A) → In y (x ∷ xs) → p y ≡ true → le z y ≡ true
          after y (inl e) k = absurd (let w : true ≡ false = sym k ∙ ap p e ∙ q in cc)
          after y (inr j) k = least y j k

  -- Over `sorted(xs)` the loop returns a least candidate that passes.
  pub select_first-IsBest :
      (xs : List A)
      → ((x : A) → In x xs → test x ≡ ok (p x))
      → (r : Option A) × (select_first test (sorted le xs) ≡ ok r) × IsBest le p xs r
  select_first-IsBest xs total =
      let (r, e, best) =
        on_sorted (sorted le xs) (sorted-IsSorted le o xs)
          (λ x i. total x ((In-sorted le xs x).0 i)) in
      (r, e, of_sorted r best)
    where
      of_sorted : (r : Option A) → IsBest le p (sorted le xs) r → IsBest le p xs r
      of_sorted none best = λ x i. best x ((In-sorted le xs x).1 i)
      of_sorted (some z) (i, h, least) =
          ((In-sorted le xs z).0 i, h, λ y j k. least y ((In-sorted le xs y).1 j) k)
