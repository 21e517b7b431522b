-- ===== src/Inference/Patterns.antt =====
-- The sign patterns of the exact sign-flip family.
use native.Mathlib.Nat.{pow-suc, pow-zero}
use fed_campaign_emhi.Prelude.{
  ℕ, zero, suc, ◌+◌, ◌*◌, ◌/◌, ◌%◌, ◌^◌, ◌≤◌, ◌<◌, ◌≡◌, refl, sym, ap, ◌∙◌, List, [], ◌∷◌, arith,
  true, false, ◌==◌, leb, length, ok, err, value_error, ==_iff, Bool-cases, inl, inr, ltb, subst,
}
use fed_campaign_emhi.Inference.{
  SignFlipDirection, positive, negative, pattern_loop, exact_sign_pattern,
}

-- The number whose binary digits, the lowest first, are the negative signs.
abbrev index_of : List SignFlipDirection → ℕ
index_of [] = 0
index_of (positive ∷ rest) = 2 * index_of rest
index_of (negative ∷ rest) = 2 * index_of rest + 1

length-pattern_loop : (rounds remaining : ℕ) → length (pattern_loop rounds remaining) ≡ rounds
unfolding pattern_loop
length-pattern_loop zero remaining = refl
length-pattern_loop (suc rounds) remaining = ap suc (length-pattern_loop rounds (remaining / 2))

index_of-pattern_loop :
    (rounds remaining : ℕ)
    → remaining < 2 ^ rounds
    → index_of (pattern_loop rounds remaining) ≡ remaining
unfolding pattern_loop
index_of-pattern_loop zero remaining h = let one = pow-zero 2 in omega arith
index_of-pattern_loop (suc rounds) remaining h =
    let powers = pow-suc 2 rounds in
    let rest = index_of-pattern_loop rounds (remaining / 2) (omega arith) in
    elim (Bool-cases (remaining % 2 == 0)) [
      | inl q ↦ let even = (==_iff (remaining % 2) 0).0 q in rw q (omega arith)
      | inr q ↦ let odd : remaining % 2 ≡ 1 = ground arith in rw q (omega arith)
    ]

index_of-lt : (pattern : List SignFlipDirection) → index_of pattern < 2 ^ length pattern
index_of-lt [] = let one = pow-zero 2 in omega arith
index_of-lt (positive ∷ rest) =
    let powers = pow-suc 2 (length rest) in let below = index_of-lt rest in omega arith
index_of-lt (negative ∷ rest) =
    let powers = pow-suc 2 (length rest) in let below = index_of-lt rest in omega arith

pattern_loop-index_of :
    (pattern : List SignFlipDirection) → pattern_loop (length pattern) (index_of pattern) ≡ pattern
unfolding pattern_loop
pattern_loop-index_of [] = refl
pattern_loop-index_of (positive ∷ rest) =
    let even : (2 * index_of rest) % 2 ≡ 0 = omega arith in
    let half : (2 * index_of rest) / 2 ≡ index_of rest = omega arith in
    rw (even, half) (ap (◌∷◌ positive) (pattern_loop-index_of rest))
pattern_loop-index_of (negative ∷ rest) =
    let odd : (2 * index_of rest + 1) % 2 ≡ 1 = omega arith in
    let half : (2 * index_of rest + 1) / 2 ≡ index_of rest = omega arith in
    rw (odd, half) (ap (◌∷◌ negative) (pattern_loop-index_of rest))

exact_sign_pattern-ok :
    (index unit_count : ℕ)
    → index < 2 ^ unit_count
    → exact_sign_pattern index unit_count ≡ ok (pattern_loop unit_count index)
unfolding exact_sign_pattern
exact_sign_pattern-ok index unit_count h =
    let inside : leb (2 ^ unit_count) index ≡ false = ground arith in rw inside refl

exact_sign_pattern-raises :
    (index unit_count : ℕ)
    → 2 ^ unit_count ≤ index
    → exact_sign_pattern index unit_count ≡ err value_error
unfolding exact_sign_pattern
exact_sign_pattern-raises index unit_count h =
    let outside : leb (2 ^ unit_count) index ≡ true = ground arith in rw outside refl

ok_injective : (p q : List SignFlipDirection) → ok p ≡ ok q → p ≡ q
ok_injective p q e = cc

only_index :
    (unit_count other : ℕ) (pattern : List SignFlipDirection)
    → exact_sign_pattern other unit_count ≡ ok pattern
    → other ≡ index_of pattern
only_index unit_count other pattern e = elim (Bool-cases (ltb other (2 ^ unit_count))) [
  | inl q ↦
      let inside : other < 2 ^ unit_count = ground arith in
      let same : pattern_loop unit_count other ≡ pattern =
        ok_injective (pattern_loop unit_count other) pattern
          (sym (exact_sign_pattern-ok other unit_count inside) ∙ e) in
      sym (index_of-pattern_loop unit_count other inside) ∙ ap index_of same
  | inr q ↦
      let outside : 2 ^ unit_count ≤ other = ground arith in
      let bad : err value_error ≡ ok pattern =
        sym (exact_sign_pattern-raises other unit_count outside) ∙ e in
      absurd (cc)
]

-- Every pattern of as many signs as there are units is the pattern of exactly one index of the family.
-- An index of the family has a pattern of that length, and any other index raises `ValueError`.
pub exact_sign_pattern-family :
    (unit_count : ℕ)
    → ((pattern : List SignFlipDirection)
        → length pattern ≡ unit_count
        → (index : ℕ) × (index < 2 ^ unit_count)
          × (exact_sign_pattern index unit_count ≡ ok pattern)
          × ((other : ℕ) → exact_sign_pattern other unit_count ≡ ok pattern → other ≡ index))
      × ((index : ℕ)
          → index < 2 ^ unit_count
          → (pattern : List SignFlipDirection) × (exact_sign_pattern index unit_count ≡ ok pattern)
            × (length pattern ≡ unit_count))
      × ((index : ℕ)
          → 2 ^ unit_count ≤ index
          → exact_sign_pattern index unit_count ≡ err value_error)
exact_sign_pattern-family unit_count = (
  (λ pattern e.
      let inside : index_of pattern < 2 ^ unit_count =
        subst (λ n. index_of pattern < 2 ^ n) e (index_of-lt pattern) in
      (
        index_of pattern,
        inside,
        exact_sign_pattern-ok (index_of pattern) unit_count inside
            ∙ ap ok (
                subst (λ n. pattern_loop n (index_of pattern) ≡ pattern) e
                  (pattern_loop-index_of pattern)),
        λ other q. only_index unit_count other pattern q,
      )),
  (λ index h. (
    pattern_loop unit_count index,
    exact_sign_pattern-ok index unit_count h,
    length-pattern_loop unit_count index,
  )),
  λ index h. exact_sign_pattern-raises index unit_count h,
)
