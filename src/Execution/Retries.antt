-- ===== src/Execution/Retries.antt =====
-- How often an operation is tried.
use fed_campaign_emhi.Prelude.{
  ℕ, zero, suc, ◌≤◌, ◌<◌, ◌≡◌, refl, sym, ap, ◌∙◌, ◌⊎◌, inl, inr, Option, none, some, arith, Result,
  ok, err, Error, Bool, true, false, Bool-cases, if◌then◌else◌,
}
use fed_campaign_emhi.Execution.{is_technical, retry_loop, with_technical_retry}

-- A call failed with an error that is worth another attempt.
abbrev pub failed : {Value World : Type 0} → Result Value × World → Bool
failed (ok value, world) = false
failed (err error, world) = is_technical error

module _ {Value World : Type 0} (operation : World → Result Value × World) where
  -- What `n` attempts make of the world.
  abbrev pub world_after : ℕ → World → World
  world_after zero world = world
  world_after (suc n) world = world_after n (operation world).1

  -- The attempt `n` decides: all before it failed, and it did not, or it is the last.
  abbrev pub Decides : ℕ → ℕ → World → Type 0
  Decides last n world =
      (n ≤ last)
      × ((m : ℕ) → m < n → failed (operation (world_after m world)) ≡ true)
      × ((failed (operation (world_after n world)) ≡ false) ⊎ (n ≡ last))

  abbrev Decided : ℕ → Option Error → World → Type 0
  Decided last error world =
      (n : ℕ) × Decides last n world
      × (retry_loop operation (suc last) error world ≡ operation (world_after n world))

  retry_loop-ok :
      (attempts : ℕ) (error : Option Error) (world : World) (value : Value) (next : World)
      → operation world ≡ (ok value, next)
      → retry_loop operation (suc attempts) error world ≡ (ok value, next)
  unfolding retry_loop
  retry_loop-ok attempts error world value next e =
      rw (e, retry_loop) (ap (λ (r : Result Value × World). (ok value, r.1)) e)

  retry_loop-err :
      (attempts : ℕ) (error : Option Error) (world : World) (raised : Error) (next : World)
      → operation world ≡ (err raised, next)
      → retry_loop operation (suc attempts) error world ≡ (
          if is_technical raised
          then retry_loop operation attempts (some raised) next
          else (err raised, next))
  unfolding retry_loop
  retry_loop-err attempts error world raised next e =
      rw (e, retry_loop)
        (ap
          (λ (r : Result Value × World).
            if is_technical raised
            then retry_loop operation attempts (some raised) r.1
            else (err raised, r.1))
          e)

  exhausted :
      (raised : Error) (next : World)
      → (if is_technical raised
          then retry_loop operation 0 (some raised) next
          else (err raised, next))
        ≡ (err raised, next)
  unfolding retry_loop
  exhausted raised next = elim (Bool-cases (is_technical raised)) [
    | inl q ↦ rw q refl
    | inr q ↦ rw q refl
  ]

  -- The first attempt decides if it does not fail, or if it is the only one.
  settle_now :
      (last : ℕ) (error : Option Error) (world : World)
      → (failed (operation world) ≡ false) ⊎ (last ≡ 0)
      → retry_loop operation (suc last) error world ≡ operation world
      → Decided last error world
  settle_now last error world stop same = (
    0,
    (omega arith, (λ m h. absurd (omega arith)), elim stop [ inl q ↦ inl q | inr q ↦ inr (sym q) ]),
    same,
  )

  settle_later :
      (last : ℕ) (error : Option Error) (world : World) (raised : Error) (next : World)
      → operation world ≡ (err raised, next)
      → is_technical raised ≡ true
      → Decided last (some raised) next
      → Decided (suc last) error world
  settle_later last error world raised next e again (n, (le, before, decides), same) =
      let moved : (operation world).1 ≡ next = ap (λ (r : Result Value × World). r.1) e in
      (
        suc n,
        (
          omega arith,
          (λ m h. earlier m h),
          elim decides [ inl q ↦ inl (rw moved q) | inr q ↦ inr (ap suc q) ],
        ),
        retry_loop-err (suc last) error world raised next e ∙ rw (again, moved) same,
      )
    where
      earlier : (m : ℕ) → m < suc n → failed (operation (world_after m world)) ≡ true
      earlier zero h = ap failed e ∙ again
      earlier (suc m) h =
          ap (λ w. failed (operation (world_after m w))) (ap (λ (r : Result Value × World). r.1) e)
          ∙ before m (omega arith)

  settle :
      (last : ℕ) (error : Option Error) (world : World) (r : Result Value × World)
      → operation world ≡ r
      → Decided last error world
  settle last error world (ok value, next) e =
      settle_now last error world (inl (ap failed e))
        (retry_loop-ok last error world value next e ∙ sym e)
  settle zero error world (err raised, next) e =
      settle_now zero error world (inr refl)
        (retry_loop-err 0 error world raised next e ∙ exhausted raised next ∙ sym e)
  settle (suc last) error world (err raised, next) e = elim (Bool-cases (is_technical raised)) [
    | inl q ↦
        settle_later last error world raised next e q
          (settle last (some raised) next (operation next) refl)
    | inr q ↦
        settle_now (suc last) error world (inl (ap failed e ∙ q))
          (retry_loop-err (suc last) error world raised next e ∙ (rw q (sym e)))
  ]

  -- With retries after the first attempt, one attempt decides, and what it returns or raises is the
  -- result: the attempts before it failed with `OSError` or `MemoryError`, and it did not, or it is the
  -- last. The loop never ends without an attempt.
  pub with_technical_retry-Decides :
      (retries : ℕ) (world : World)
      → (n : ℕ) × Decides retries n world
        × (with_technical_retry operation retries world ≡ operation (world_after n world))
  unfolding with_technical_retry
  with_technical_retry-Decides retries world = settle retries none world (operation world) refl
