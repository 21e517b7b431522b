-- ===== src/Sequential/Support.antt =====
-- Which clients count towards the distributed support.
use mathlib.Core.List.{foldl}
use fed_campaign_emhi.Prelude.{
  ℕ, ◌≡◌, ◌≢◌, ◌↔◌, ap, List, [], ◌∷◌, arith, ◌==◌, leb, length, take_last, ok, err, value_error,
  Bool-cases, inl, inr, ◌⊎◌,
}
use fed_campaign_emhi.Prelude.Str.{Str}
use fed_campaign_emhi.Prelude.Sets.{
  str_eq_instance, contains, contains_iff, contains_not, set_of-Distinct', Distinct-snoc,
}
use fed_campaign_emhi.Prelude.Membership.{In, Distinct, In-append}
use fed_campaign_emhi.Sequential.{
  Window, see_client, see_epoch, trailing_support_window_client_ids,
  trailing_window_support_predicate, distributed_support_predicate,
}

-- The two loop variables agree, and `union` repeats nothing.
record IsValid (w : Window) : Type 0 where
  same : (c : Str) → In c w.seen ↔ In c w.union
  distinct : Distinct w.union

see_client-members :
    (w : Window) (c a : Str) → IsValid w → In a (see_client w c).union ↔ (In a w.union ⊎ (a ≡ c))
unfolding see_client
see_client-members w c a v = elim (Bool-cases (contains w.seen c)) [
  | inl q ↦ rw q (
    λ i. inl i,
    λ s. elim s [ inl i ↦ i | inr e ↦ rw e ((v.same c).0 ((contains_iff w.seen c).0 q)) ],
  )
  | inr q ↦ rw q (
    λ i. elim ((In-append a w.union (c ∷ [])).0 i) [
      | inl j ↦ inl j
      | inr j ↦ elim j [ inl e ↦ inr e | inr k ↦ absurd k ]
    ],
    λ s. (In-append a w.union (c ∷ [])).1 (elim s [ inl i ↦ inl i | inr e ↦ inr (inl e) ]),
  )
]

see_client-IsValid : (w : Window) (c : Str) → IsValid w → IsValid (see_client w c)
unfolding see_client
see_client-IsValid w c v = elim (Bool-cases (contains w.seen c)) [
  | inl q ↦ rw q v
  | inr q ↦ rw q (record {
    same = λ a. (
      λ i.
          (In-append a w.union (c ∷ [])).1
            (elim i [ inl e ↦ inr (inl e) | inr j ↦ inl ((v.same a).0 j) ]),
      λ i. elim ((In-append a w.union (c ∷ [])).0 i) [
        | inl j ↦ inr ((v.same a).1 j)
        | inr j ↦ elim j [ inl e ↦ inl e | inr k ↦ absurd k ]
      ],
    );
    distinct = Distinct-snoc w.union c v.distinct (λ i. contains_not w.seen c q ((v.same c).1 i));
  })
]

see_epoch-IsValid : (w : Window) (cs : List Str) → IsValid w → IsValid (see_epoch w cs)
unfolding see_epoch
see_epoch-IsValid w [] v = v
see_epoch-IsValid w (c ∷ cs) v = see_epoch-IsValid (see_client w c) cs (see_client-IsValid w c v)

see_epoch-members :
    (w : Window) (cs : List Str) (a : Str)
    → IsValid w
    → In a (see_epoch w cs).union ↔ (In a w.union ⊎ In a cs)
unfolding see_epoch
see_epoch-members w [] a v = (λ i. inl i, λ s. elim s [ inl i ↦ i | inr n ↦ absurd n ])
see_epoch-members w (c ∷ cs) a v =
    let ih = see_epoch-members (see_client w c) cs a (see_client-IsValid w c v) in
    let one = see_client-members w c a v in
    (
      λ i. elim (ih.0 i) [
        | inl j ↦ elim (one.0 j) [ inl k ↦ inl k | inr e ↦ inr (inl e) ]
        | inr j ↦ inr (inr j)
      ],
      λ s. ih.1 (elim s [
        | inl k ↦ inl (one.1 (inl k))
        | inr t ↦ elim t [ inl e ↦ inl (one.1 (inr e)) | inr j ↦ inr j ]
      ]),
    )

-- `a` is active in one of the epochs.
abbrev pub ActiveIn : Str → List (List Str) → Type 0
ActiveIn a [] = ⊥
ActiveIn a (cs ∷ rest) = In a cs ⊎ ActiveIn a rest

see_epochs :
    (w : Window) (epochs : List (List Str))
    → IsValid w
    → IsValid (foldl see_epoch w epochs)
      × ((a : Str) → In a (foldl see_epoch w epochs).union ↔ (In a w.union ⊎ ActiveIn a epochs))
see_epochs w [] v = (v, λ a. (λ i. inl i, λ s. elim s [ inl i ↦ i | inr n ↦ absurd n ]))
see_epochs w (cs ∷ rest) v =
    let (valid, members) = see_epochs (see_epoch w cs) rest (see_epoch-IsValid w cs v) in
    (
      valid,
      λ a. (
        λ i. elim ((members a).0 i) [
          | inl j ↦ elim ((see_epoch-members w cs a v).0 j) [ inl k ↦ inl k | inr k ↦ inr (inl k) ]
          | inr j ↦ inr (inr j)
        ],
        λ s. (members a).1 (elim s [
          | inl k ↦ inl ((see_epoch-members w cs a v).1 (inl k))
          | inr t ↦ elim t [ inl k ↦ inl ((see_epoch-members w cs a v).1 (inr k)) | inr k ↦ inr k ]
        ]),
      ),
    )

-- With a positive window the trailing clients are, each once, exactly those that are active in one
-- of the last `window_epochs` epochs. A window of no epochs raises `ValueError`.
pub trailing_support_window_client_ids-members :
    (history : List (List Str)) (window_epochs : ℕ)
    → ((window_epochs ≢ 0)
        × ((union : List Str) × (trailing_support_window_client_ids history window_epochs
              ≡ ok union)
            × Distinct union
            × ((a : Str) → In a union ↔ ActiveIn a (take_last window_epochs history))))
      ⊎ ((window_epochs ≡ 0)
          × (trailing_support_window_client_ids history window_epochs ≡ err value_error))
unfolding trailing_support_window_client_ids
trailing_support_window_client_ids-members history window_epochs =
    let empty : Window = record { seen = []; union = [] } in
    let start : IsValid empty = record { same = λ a. (λ i. i, λ i. i); distinct = tt } in
    let (valid, members) = see_epochs empty (take_last window_epochs history) start in
    elim (Bool-cases (window_epochs == 0)) [
      | inl q ↦ inr (ground arith, rw q)
      | inr q ↦ inl (
        ground arith,
        (
          _,
          rw q,
          valid.distinct,
          λ a. (
            λ i. elim ((members a).0 i) [ inl n ↦ absurd n | inr k ↦ k ],
            λ k. (members a).1 (inr k),
          ),
        ),
      )
    ]

-- The predicate compares the number of those clients with the minimum: `set` removes none of them.
trailing_window_support_predicate_lem :
    (history : List (List Str)) (window_epochs minimum_clients : ℕ)
    → window_epochs ≢ 0
    → (union : List Str) × Distinct union
      × ((a : Str) → In a union ↔ ActiveIn a (take_last window_epochs history))
      × (trailing_window_support_predicate history window_epochs minimum_clients
          ≡ ok (leb minimum_clients (length union)))
unfolding trailing_window_support_predicate distributed_support_predicate
trailing_window_support_predicate_lem history window_epochs minimum_clients h =
    elim (trailing_support_window_client_ids-members history window_epochs) [
      | inl (_, (union, e, d, m)) ↦ (
        union,
        d,
        m,
        rw e (ap (λ l. ok (leb minimum_clients (length l))) (set_of-Distinct' union d)),
      )
      | inr (z, _) ↦ absurd (h z)
    ]
