-- ===== src/Prelude/Extrema.antt =====
-- `min` and `max` of integers.
use mathlib.Core.Path.{◌≡◌, refl, ◌∙◌}
use mathlib.Core.Logic.{◌⊎◌, inl, inr}
use mathlib.Core.List.{List, [], ◌∷◌}
use native.Mathlib.Omega.{arith}
use fed_campaign_emhi.Prelude.Tests.{if◌then◌else◌, Bool-cases}
use fed_campaign_emhi.Prelude.Int.{ℤ, ltb_ℤ, ltb_ℤ_iff, ◌≤ℤ◌}
use fed_campaign_emhi.Prelude.Membership.{In}

-- From the first: a later epoch replaces the value only if it is strictly better.
abbrev pub min_ℤ : ℤ → List ℤ → ℤ
min_ℤ least [] = least
min_ℤ least (x ∷ xs) = min_ℤ (if ltb_ℤ x least then x else least) xs

abbrev pub max_ℤ : ℤ → List ℤ → ℤ
max_ℤ greatest [] = greatest
max_ℤ greatest (x ∷ xs) = max_ℤ (if ltb_ℤ greatest x then x else greatest) xs

abbrev pub IsMin : List ℤ → ℤ → Type 0
IsMin xs least = In least xs × ((x : ℤ) → In x xs → least ≤ℤ x)

abbrev pub IsMax : List ℤ → ℤ → Type 0
IsMax xs greatest = In greatest xs × ((x : ℤ) → In x xs → x ≤ℤ greatest)

lesser : ℤ → ℤ → ℤ
lesser x least = if ltb_ℤ x least then x else least

greater : ℤ → ℤ → ℤ
greater x greatest = if ltb_ℤ greatest x then x else greatest

lesser-le :
    (x least : ℤ)
    → ((lesser x least ≡ least) ⊎ (lesser x least ≡ x))
      × (lesser x least ≤ℤ least)
      × (lesser x least ≤ℤ x)
unfolding lesser
lesser-le x least = elim (Bool-cases (ltb_ℤ x least)) [
  | inl q ↦ rw q (inr refl, omega (arith, (ltb_ℤ_iff x least).0 q), omega arith)
  | inr q ↦ rw q (inl refl, omega arith, ground arith)
]

greater-le :
    (x greatest : ℤ)
    → ((greater x greatest ≡ greatest) ⊎ (greater x greatest ≡ x))
      × (greatest ≤ℤ greater x greatest)
      × (x ≤ℤ greater x greatest)
unfolding greater
greater-le x greatest = elim (Bool-cases (ltb_ℤ greatest x)) [
  | inl q ↦ rw q (inr refl, omega (arith, (ltb_ℤ_iff greatest x).0 q), omega arith)
  | inr q ↦ rw q (inl refl, omega arith, ground arith)
]

pub min_ℤ-IsMin : (least : ℤ) (xs : List ℤ) → IsMin (least ∷ xs) (min_ℤ least xs)
unfolding lesser
min_ℤ-IsMin least [] = (inl refl, λ y i. elim i [ inl e ↦ rw e (omega arith) | inr n ↦ absurd n ])
min_ℤ-IsMin least (x ∷ xs) =
    let m = lesser x least in
    let (which, under, under') = lesser-le x least in
    let (member, below) = min_ℤ-IsMin m xs in
    let best = below m (inl refl) in
    (
      elim member [
        | inl e ↦ elim which [ inl w ↦ inl (e ∙ w) | inr w ↦ inr (inl (e ∙ w)) ]
        | inr i ↦ inr (inr i)
      ],
      λ y i. elim i [
        | inl e ↦ rw e (omega arith)
        | inr j ↦ elim j [ inl e ↦ rw e (omega arith) | inr k ↦ below y (inr k) ]
      ],
    )

pub max_ℤ-IsMax : (greatest : ℤ) (xs : List ℤ) → IsMax (greatest ∷ xs) (max_ℤ greatest xs)
unfolding greater
max_ℤ-IsMax greatest [] =
    (inl refl, λ y i. elim i [ inl e ↦ rw e (omega arith) | inr n ↦ absurd n ])
max_ℤ-IsMax greatest (x ∷ xs) =
    let m = greater x greatest in
    let (which, over, over') = greater-le x greatest in
    let (member, above) = max_ℤ-IsMax m xs in
    let best = above m (inl refl) in
    (
      elim member [
        | inl e ↦ elim which [ inl w ↦ inl (e ∙ w) | inr w ↦ inr (inl (e ∙ w)) ]
        | inr i ↦ inr (inr i)
      ],
      λ y i. elim i [
        | inl e ↦ rw e (omega arith)
        | inr j ↦ elim j [ inl e ↦ rw e (omega arith) | inr k ↦ above y (inr k) ]
      ],
    )
