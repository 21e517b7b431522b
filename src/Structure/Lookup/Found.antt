-- ===== src/Structure/Lookup/Found.antt =====
-- What `rank_at_epoch` finds in a stream.
use mathlib.Core.Bool.{false≢true}
use fed_campaign_emhi.Prelude.{
  ℕ, zero, suc, ◌≡◌, refl, sym, ap, ◌∙◌, Bool, true, false, not, ◌&&◌, ◌||◌, Option, none, some,
  List, [], ◌∷◌, arith, ◌==◌, if◌then◌else◌, length, count_if, ok, Bool-cases, inl, inr, ==_iff,
}
use fed_campaign_emhi.Prelude.Int.{ℤ, pos, pos_part, ◌-ℤ◌, ◌<ℤ◌, leb_ℤ, ltb_ℤ, eqb_ℤ}
use fed_campaign_emhi.Prelude.Membership.{All, All-mono}
use fed_campaign_emhi.Prelude.Order.{IsSorted}
use fed_campaign_emhi.Structure.Ranks.{bisect}
use fed_campaign_emhi.Structure.Ranks.Bisect.{bisect-eq-count_if}
use fed_campaign_emhi.Structure.Ranks.Batch.{IsSorted-IsMonotone}
use fed_campaign_emhi.Structure.Lookup.{hits, rank_at, rank_by_offset, rank_in_stream}

-- Epochs in strictly increasing order.
abbrev pub Increasing : List ℤ → Type 0
Increasing [] = Unit
Increasing (e ∷ es) = All (λ later. e <ℤ later) es × Increasing es

hits_late :
    (e : ℤ) (es : List ℤ) (i : ℕ) (epoch : ℤ)
    → All (λ later. e <ℤ later) es
    → hits es i epoch ≡ true
    → eqb_ℤ e epoch ≡ false
hits_late e [] i epoch h k = ground arith
hits_late e (d ∷ es) zero epoch h k = ground arith
hits_late e (d ∷ es) (suc i) epoch h k = hits_late e es i epoch h.1 k

none_below :
    (es : List ℤ) (epoch : ℤ)
    → All (λ later. epoch <ℤ later) es
    → count_if (λ a. ltb_ℤ a epoch) es ≡ 0
none_below [] epoch h = refl
none_below (e ∷ es) epoch h =
    let q : ltb_ℤ e epoch ≡ false = ground arith in rw q (omega (arith, none_below es epoch h.1))

count_below :
    (e : ℤ) (es : List ℤ) (epoch : ℤ)
    → All (λ later. e <ℤ later) es
    → ltb_ℤ e epoch ≡ false
    → count_if (λ a. ltb_ℤ a epoch) es ≡ 0
count_below e es epoch h ge = none_below es epoch (All-mono _ _ es (λ later k. ground arith) h)

-- `Increasing`, as the search by halves asks for it.
Increasing-IsSorted : (es : List ℤ) → Increasing es → IsSorted leb_ℤ es
Increasing-IsSorted [] inc = tt
Increasing-IsSorted (e ∷ es) (low, inc) =
    (All-mono _ _ es (λ later k. ground arith) low, Increasing-IsSorted es inc)

ltb-closed : (epoch a b : ℤ) → leb_ℤ a b ≡ true → ltb_ℤ b epoch ≡ true → ltb_ℤ a epoch ≡ true
ltb-closed epoch a b h k = ground arith

bisected-eq-count_if :
    (es : List ℤ) (epoch : ℤ)
    → Increasing es
    → bisect (λ e. ltb_ℤ e epoch) es ≡ count_if (λ e. ltb_ℤ e epoch) es
bisected-eq-count_if es epoch inc =
    bisect-eq-count_if (λ e. ltb_ℤ e epoch) es
      (IsSorted-IsMonotone leb_ℤ (λ e. ltb_ℤ e epoch) (ltb-closed epoch) es
        (Increasing-IsSorted es inc))

hits-length : (es : List ℤ) (epoch : ℤ) → hits es (length es) epoch ≡ false
hits-length [] epoch = refl
hits-length (e ∷ es) epoch = hits-length es epoch

and_last : (a b c : Bool) → a && b && c ≡ true → c ≡ true
and_last a b c h = ground arith

later_hit :
    (e : ℤ) (es : List ℤ) (epoch : ℤ)
    → ltb_ℤ e epoch ≡ true
    → hits (e ∷ es) (count_if (λ a. ltb_ℤ a epoch) (e ∷ es)) epoch ≡ false
    → hits es (count_if (λ a. ltb_ℤ a epoch) es) epoch ≡ false
later_hit e es epoch lt h =
    let c : count_if (λ a. ltb_ℤ a epoch) (e ∷ es) ≡ suc (count_if (λ a. ltb_ℤ a epoch) es) =
      rw lt (omega arith) in
    sym (ap (λ i. hits (e ∷ es) i epoch) c) ∙ h

here_hit :
    (e : ℤ) (es : List ℤ) (epoch : ℤ)
    → count_if (λ a. ltb_ℤ a epoch) es ≡ 0
    → ltb_ℤ e epoch ≡ false
    → eqb_ℤ e epoch ≡ true
    → hits (e ∷ es) (count_if (λ a. ltb_ℤ a epoch) (e ∷ es)) epoch ≡ true
here_hit e es epoch c ge q =
    let k : count_if (λ a. ltb_ℤ a epoch) (e ∷ es) ≡ 0 = rw ge (omega (arith, c)) in
    ap (λ i. hits (e ∷ es) i epoch) k ∙ q

out_of_range : (es : List ℤ) (i : ℕ) (epoch : ℤ) → hits es i epoch ≡ true → (i == length es) ≡ false
out_of_range es i epoch h = elim (Bool-cases (i == length es)) [
  | inl q ↦
      let at_end : i ≡ length es = (==_iff i (length es)).0 q in
      absurd (false≢true (sym (hits-length es epoch) ∙ sym (ap (λ j. hits es j epoch) at_end) ∙ h))
  | inr q ↦ q
]

module _ {F : Type 0} where
  -- The rank that stands beside an epoch.
  unfoldable pub rank_beside : List ℤ → List F → ℤ → Option F
  rank_beside [] ranks epoch = none
  rank_beside (e ∷ es) [] epoch = none
  rank_beside (e ∷ es) (r ∷ ranks) epoch =
      if eqb_ℤ e epoch then some r else rank_beside es ranks epoch

  beside_later :
      (es : List ℤ) (ranks : List F) (epoch : ℤ)
      → All (λ later. epoch <ℤ later) es
      → rank_beside es ranks epoch ≡ none
  unfolding rank_beside
  beside_later [] ranks epoch h = refl
  beside_later (e ∷ es) [] epoch h = refl
  beside_later (e ∷ es) (r ∷ ranks) epoch h =
      let q : eqb_ℤ e epoch ≡ false = ground arith in rw q (beside_later es ranks epoch h.1)

  -- A position that holds the epoch is the only one.
  hits-beside :
      (es : List ℤ) (ranks : List F) (i : ℕ) (epoch : ℤ)
      → Increasing es
      → length es ≡ length ranks
      → hits es i epoch ≡ true
      → rank_at ranks i ≡ ok (rank_beside es ranks epoch)
  unfolding rank_beside
  hits-beside [] ranks i epoch inc n h = ground arith
  hits-beside (e ∷ es) [] i epoch inc n h = absurd (omega arith)
  hits-beside (e ∷ es) (r ∷ ranks) zero epoch inc n h = rw h
  hits-beside (e ∷ es) (r ∷ ranks) (suc i) epoch inc n h =
      rw (hits_late e es i epoch inc.0 h) (hits-beside es ranks i epoch inc.1 (omega arith) h)

  -- If the epoch does not stand where the earlier epochs end, it stands nowhere.
  misses-beside :
      (es : List ℤ) (ranks : List F) (epoch : ℤ)
      → Increasing es
      → hits es (count_if (λ a. ltb_ℤ a epoch) es) epoch ≡ false
      → rank_beside es ranks epoch ≡ none
  unfolding rank_beside
  misses-beside [] ranks epoch inc h = refl
  misses-beside (e ∷ es) [] epoch inc h = refl
  misses-beside (e ∷ es) (r ∷ ranks) epoch inc h = elim (Bool-cases (ltb_ℤ e epoch)) [
    | inl lt ↦
        let q : eqb_ℤ e epoch ≡ false = ground arith in
        rw q (misses-beside es ranks epoch inc.1 (later_hit e es epoch lt h))
    | inr ge ↦
        let none_earlier = count_below e es epoch inc.0 ge in
        elim (Bool-cases (eqb_ℤ e epoch)) [
          | inl q ↦ absurd (false≢true (sym h ∙ here_hit e es epoch none_earlier ge q))
          | inr q ↦
              rw q (beside_later es ranks epoch (All-mono _ _ es (λ later k. ground arith) inc.0))
        ]
  ]

  -- What stands at a position that is searched for.
  rank_at_position :
      (es : List ℤ) (ranks : List F) (i : ℕ) (epoch : ℤ)
      → Increasing es
      → length es ≡ length ranks
      → (hits es i epoch ≡ false → rank_beside es ranks epoch ≡ none)
      → (if i == length es || not (hits es i epoch) then ok none else rank_at ranks i)
        ≡ ok (rank_beside es ranks epoch)
  rank_at_position es ranks i epoch inc n missing = elim (Bool-cases (hits es i epoch)) [
    | inl h ↦
        let within = out_of_range es i epoch h in
        rw (within, h) (hits-beside es ranks i epoch inc n h)
    | inr h ↦
        let nowhere = missing h in
        elim (Bool-cases (i == length es)) [
          | inl q ↦ rw (q, nowhere) refl
          | inr q ↦ rw (q, h, nowhere) refl
        ]
  ]

  bisected_rank_beside :
      (es : List ℤ) (ranks : List F) (epoch : ℤ)
      → Increasing es
      → length es ≡ length ranks
      → (if (bisect (λ e. ltb_ℤ e epoch) es == length es)
            || not (hits es (bisect (λ e. ltb_ℤ e epoch) es) epoch)
          then ok none
          else rank_at ranks (bisect (λ e. ltb_ℤ e epoch) es))
        ≡ ok (rank_beside es ranks epoch)
  bisected_rank_beside es ranks epoch inc n =
      rank_at_position es ranks (bisect (λ e. ltb_ℤ e epoch) es) epoch inc n (λ h.
        misses-beside es ranks epoch inc
          (sym (ap (λ i. hits es i epoch) (bisected-eq-count_if es epoch inc)) ∙ h))

  rank_by_offset_lem :
      (es : List ℤ) (ranks : List F) (offset epoch : ℤ)
      → Increasing es
      → length es ≡ length ranks
      → rank_by_offset es ranks offset epoch ≡ ok (rank_beside es ranks epoch)
  unfolding rank_by_offset
  rank_by_offset_lem es ranks offset epoch inc n =
      elim (Bool-cases (
        leb_ℤ (pos 0) offset
        && ltb_ℤ offset (pos (length es))
        && hits es (pos_part offset) epoch)) [
          | inl t ↦ rw t (
              hits-beside es ranks (pos_part offset) epoch inc n
                (and_last (leb_ℤ (pos 0) offset) (ltb_ℤ offset (pos (length es))) _ t))
          | inr t ↦ rw t (bisected_rank_beside es ranks epoch inc n)
        ]

  -- In a stream of strictly increasing epochs with as many ranks, `rank_at_epoch` returns the rank
  -- that stands beside the epoch, and `None` where the epoch is not in the stream, whether the
  -- position is guessed from the offset or found by halves.
  pub rank_in_stream_lem :
      (es : List ℤ) (ranks : List F) (epoch : ℤ)
      → Increasing es
      → length es ≡ length ranks
      → rank_in_stream es ranks epoch ≡ ok (rank_beside es ranks epoch)
  unfolding rank_in_stream rank_beside
  rank_in_stream_lem [] ranks epoch inc n = refl
  rank_in_stream_lem (e ∷ es) ranks epoch inc n =
      rank_by_offset_lem (e ∷ es) ranks (epoch -ℤ e) epoch inc n
