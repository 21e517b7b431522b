-- ===== src/Prelude/Comprehension.antt =====
-- Comprehensions over a call that may raise.
use mathlib.Core.Path.{◌≡◌, refl, ap}
use mathlib.Core.Logic.{inl, inr}
use mathlib.Core.List.{List, [], ◌∷◌}
use Prim.Native.Nat.{suc}
use fed_campaign_emhi.Prelude.Lists.{length}
use fed_campaign_emhi.Prelude.Raising.{Result, ok, traverse}
use fed_campaign_emhi.Prelude.Membership.{In}

-- Results of a comprehension that does not raise: each is of some argument, and each argument has one.
pub record Maps {A B : Type 0} (R : A → B → Type 0) (xs : List A) (ys : List B) : Type 0 where
  pub same_length : length ys ≡ length xs
  pub each : (y : B) → In y ys → (x : A) × In x xs × R x y
  pub every : (x : A) → In x xs → (y : B) × In y ys × R x y

pub traverse-ok :
    {A B : Type 0} (R : A → B → Type 0) (f : A → Result B) (xs : List A)
    → ((x : A) → In x xs → (y : B) × (f x ≡ ok y) × R x y)
    → (ys : List B) × (traverse f xs ≡ ok ys) × Maps R xs ys
traverse-ok R f [] h =
    ([], refl, record { same_length = refl; each = λ y i. absurd i; every = λ x i. absurd i })
traverse-ok R f (x ∷ xs) h =
    let (y, e, r) = h x (inl refl) in
    let (ys, e', maps) = traverse-ok R f xs (λ z i. h z (inr i)) in
    (
      y ∷ ys,
      rw (e, e') refl,
      record {
        same_length = ap suc maps.same_length;
        each = λ z i. elim i [
          | inl q ↦ (x, inl refl, rw q r)
          | inr j ↦ let (w, k, s) = maps.each z j in (w, inr k, s)
        ];
        every = λ w i. elim i [
          | inl q ↦ (y, inl refl, rw q r)
          | inr j ↦ let (z, k, s) = maps.every w j in (z, inr k, s)
        ];
      },
    )
