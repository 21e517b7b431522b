-- ===== src/Comparators/Strongest.antt =====
-- Which comparator is selected.
use fed_campaign_emhi.Prelude.{
  ◌≡◌, ◌≢◌, refl, sym, ap, subst, suc, ◌⊎◌, inl, inr, true, false, List, [], ◌∷◌, arith, length,
  zip, ok, err, value_error, ◌==◌, Bool-cases,
}
use fed_campaign_emhi.Prelude.Str.{Str, str_eq, str_le, str_eq_iff}
use fed_campaign_emhi.Prelude.Membership.{In}
use fed_campaign_emhi.Prelude.Float.{Float, IsOrdered, magnitude, negated, ◌⊖◌}
use fed_campaign_emhi.Comparators.{
  prefer_candidate, select_loop, select_from, select_strongest_comparator,
}

-- A name, an error and a runtime.
abbrev pub Triple : Type 0 → Type 0
Triple F = Str × (F × F)

-- What is passed, and what is to come.
passed :
    {A : Type 0} (a new : A) (past rest : List A)
    → In a past ⊎ In a (new ∷ rest)
    → In a (new ∷ past) ⊎ In a rest
passed a new past rest (inl i) = inl (inr i)
passed a new past rest (inr (inl e)) = inl (inl e)
passed a new past rest (inr (inr i)) = inr i

module _ {F : Type 0} ⦃f : Float F⦄ (error_tie runtime_tie : F) where
  -- The first triple is preferred: its error is lower by more than the tolerance; or the errors tie, and
  -- its runtime is lower by more than the tolerance, or the runtimes tie too and its name comes first.
  abbrev pub Beats : Triple F → Triple F → Type 0
  Beats (c, (e, r)) (c', (e', r')) =
      (f.lt (e ⊖ e') (negated error_tie) ≡ true)
      ⊎ ((f.le (magnitude (e ⊖ e')) error_tie ≡ true)
          × ((f.lt (r ⊖ r') (negated runtime_tie) ≡ true)
              ⊎ ((f.le (magnitude (r ⊖ r')) runtime_tie ≡ true) × (str_le c c' ≡ true) × (c ≢ c'))))

  -- `best` is one of the triples, and none of them is preferred to it.
  abbrev pub IsUnbeaten : List (Triple F) → Triple F → Type 0
  IsUnbeaten triples best =
      In best triples × ((other : Triple F) → In other triples → ¬ Beats other best)

  -- On these triples the preference is irreflexive and transitive; the tolerances may keep it from that.
  pub record IsPreference (triples : List (Triple F)) : Type 0 where
    pub irreflexive : (a : Triple F) → In a triples → ¬ Beats a a
    pub transitive :
        (a b c : Triple F)
        → In a triples
        → In b triples
        → In c triples
        → Beats a b
        → Beats b c
        → Beats a c

  module _ (o : IsOrdered F) where
    prefer_candidate-true :
        (e r : F) (c : Str) (e' r' : F) (c' : Str)
        → prefer_candidate e r c e' r' c' error_tie runtime_tie ≡ true
        → Beats (c, (e, r)) (c', (e', r'))
    unfolding prefer_candidate
    prefer_candidate-true e r c e' r' c' h = elim (Bool-cases (f.lt (e ⊖ e') (negated error_tie))) [
      | inl q ↦ inl q
      | inr q ↦
          let strict = o.lt-eq-not-le error_tie (magnitude (e ⊖ e')) in
          let tie : f.le (magnitude (e ⊖ e')) error_tie ≡ true = ground arith in
          elim (Bool-cases (f.lt (r ⊖ r') (negated runtime_tie))) [
            | inl q' ↦ inr (tie, inl q')
            | inr q' ↦ inr (
              tie,
              inr (
                ground arith,
                ground arith,
                λ same. let equal = (str_eq_iff c c').1 same in ground arith,
              ),
            )
          ]
    ]

    prefer_candidate-false :
        (e r : F) (c : Str) (e' r' : F) (c' : Str)
        → prefer_candidate e r c e' r' c' error_tie runtime_tie ≡ false
        → ¬ Beats (c, (e, r)) (c', (e', r'))
    unfolding prefer_candidate
    prefer_candidate-false e r c e' r' c' h (inl q) = ground arith
    prefer_candidate-false e r c e' r' c' h (inr (tie, inl q)) =
        let strict = o.lt-eq-not-le error_tie (magnitude (e ⊖ e')) in ground arith
    prefer_candidate-false e r c e' r' c' h (inr (tie, inr (tie', before, other))) =
        let strict = o.lt-eq-not-le error_tie (magnitude (e ⊖ e')) in
        elim (Bool-cases (str_eq c c')) [
          | inl q ↦ other ((str_eq_iff c c').0 q)
          | inr q ↦ ground arith
        ]

    -- `current` is preferred by none of those passed.
    select_loop-IsUnbeaten :
        (triples : List (Triple F))
        → IsPreference triples
        → (past : List (Triple F)) (c : Str) (e r : F) (candidates : List Str)
          (errors runtimes : List F)
        → length candidates ≡ length errors
        → length candidates ≡ length runtimes
        → In (c, (e, r)) triples
        → ((a : Triple F) → In a past → In a triples × ¬ Beats a (c, (e, r)))
        → ((a : Triple F) → In a (zip candidates (zip errors runtimes)) → In a triples)
        → (best : Triple F) × (select_loop error_tie runtime_tie c e r candidates errors runtimes
            ≡ best.0)
          × In best triples
          × ((a : Triple F)
              → In a past ⊎ In a (zip candidates (zip errors runtimes))
              → ¬ Beats a best)
    unfolding select_loop
    select_loop-IsUnbeaten triples p past c e r [] [] [] h k i low all =
        ((c, (e, r)), refl, i, λ a j. elim j [ inl m ↦ (low a m).1 | inr m ↦ absurd m ])
    select_loop-IsUnbeaten triples p past c e r [] (x ∷ errors) runtimes h k i low all =
        absurd (omega arith)
    select_loop-IsUnbeaten triples p past c e r [] [] (x ∷ runtimes) h k i low all =
        absurd (omega arith)
    select_loop-IsUnbeaten triples p past c e r (x ∷ candidates) [] runtimes h k i low all =
        absurd (omega arith)
    select_loop-IsUnbeaten triples p past c e r (x ∷ candidates) (y ∷ errors) [] h k i low all =
        absurd (omega arith)
    select_loop-IsUnbeaten triples p past c e r (c' ∷ candidates) (e' ∷ errors) (r' ∷ runtimes) h k
          i low all =
        let current : Triple F = (c, (e, r)) in
        let new : Triple F = (c', (e', r')) in
        let inside = all new (inl refl) in
        elim (Bool-cases (prefer_candidate e' r' c' e r c error_tie runtime_tie)) [
          | inl q ↦
              let beats = prefer_candidate-true e' r' c' e r c q in
              let (best, same, m, unbeaten) =
                select_loop-IsUnbeaten triples p (new ∷ past) c' e' r' candidates errors runtimes
                  (omega arith) (omega arith) inside
                  (λ a j. elim j [
                    | inl w ↦
                        subst (λ b. In b triples × ¬ Beats b new) (sym w)
                          (inside, p.irreflexive new inside)
                    | inr w ↦
                        let (n, weaker) = low a w in
                        (n, λ b. weaker (p.transitive a new current n inside i b beats))
                  ])
                  (λ a j. all a (inr j)) in
              (
                best,
                rw q same,
                m,
                λ a j. unbeaten a (passed a new past (zip candidates (zip errors runtimes)) j),
              )
          | inr q ↦
              let (best, same, m, unbeaten) =
                select_loop-IsUnbeaten triples p (new ∷ past) c e r candidates errors runtimes
                  (omega arith) (omega arith) i
                  (λ a j. elim j [
                    | inl w ↦
                        subst (λ b. In b triples × ¬ Beats b current) (sym w)
                          (inside, prefer_candidate-false e' r' c' e r c q)
                    | inr w ↦ low a w
                  ])
                  (λ a j. all a (inr j)) in
              (
                best,
                rw q same,
                m,
                λ a j. unbeaten a (passed a new past (zip candidates (zip errors runtimes)) j),
              )
        ]

    -- For ordered errors and runtimes, on which the preference of these candidates by error, runtime and
    -- name is irreflexive and transitive, the selection returns a candidate to which no candidate is
    -- preferred, if there is a candidate and there are as many errors and as many runtimes; if not, it
    -- raises `ValueError`.
    pub select_strongest_comparator-IsUnbeaten :
        (candidates : List Str) (errors runtimes : List F)
        → IsPreference (zip candidates (zip errors runtimes))
        → ((length candidates ≢ 0)
            × (length candidates ≡ length errors)
            × (length candidates ≡ length runtimes)
            × ((best : Triple F) × (select_strongest_comparator candidates errors runtimes error_tie
                    runtime_tie
                  ≡ ok best.0)
                × IsUnbeaten (zip candidates (zip errors runtimes)) best))
          ⊎ (((length candidates ≡ 0)
                ⊎ (length candidates ≢ length errors)
                ⊎ (length candidates ≢ length runtimes))
              × (select_strongest_comparator candidates errors runtimes error_tie runtime_tie
                  ≡ err value_error))
    unfolding select_strongest_comparator select_from
    select_strongest_comparator-IsUnbeaten [] errors runtimes p = inr (inl refl, refl)
    select_strongest_comparator-IsUnbeaten (c ∷ candidates) [] runtimes p =
        inr (inr (inl (λ z. omega arith)), ground arith)
    select_strongest_comparator-IsUnbeaten (c ∷ candidates) (e ∷ errors) [] p =
        inr (inr (inr (λ z. omega arith)), ground arith)
    select_strongest_comparator-IsUnbeaten (c ∷ candidates) (e ∷ errors) (r ∷ runtimes) p =
        let present : (suc (length candidates) == 0) ≡ false = ground arith in
        elim (Bool-cases (suc (length candidates) == suc (length errors))) [
          | inr q ↦ inr (inr (inl (ground arith)), rw (present, q) refl)
          | inl q ↦ elim (Bool-cases (suc (length candidates) == suc (length runtimes))) [
            | inr q' ↦ inr (inr (inr (ground arith)), rw (present, q, q') refl)
            | inl q' ↦
                let triples = zip (c ∷ candidates) (zip (e ∷ errors) (r ∷ runtimes)) in
                let first : Triple F = (c, (e, r)) in
                let (best, same, m, unbeaten) =
                  select_loop-IsUnbeaten triples p (first ∷ []) c e r candidates errors runtimes
                    (ground arith) (ground arith) (inl refl)
                    (λ a j. elim j [
                      | inl w ↦
                          subst (λ b. In b triples × ¬ Beats b first) (sym w)
                            (inl refl, p.irreflexive first (inl refl))
                      | inr w ↦ absurd w
                    ])
                    (λ a j. inr j) in
                inl (
                  (λ z. omega arith),
                  ground arith,
                  ground arith,
                  (
                    best,
                    rw (present, q, q') (ap ok same),
                    (m, λ a j. unbeaten a (elim j [ inl w ↦ inl (inl w) | inr w ↦ inr w ])),
                  ),
                )
          ]
        ]
