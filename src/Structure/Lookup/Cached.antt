-- ===== src/Structure/Lookup/Cached.antt =====
-- The cache of rank streams of src/fedcampaign_emhi/emhi/structure.py.
use mathlib.Core.Bool.{false≢true}
use mathlib.Core.Option.{some-injective}
use fed_campaign_emhi.Prelude.Membership.{All}
use fed_campaign_emhi.Prelude.Sets.{str_eq_instance}
use fed_campaign_emhi.Prelude.{
  ◌≡◌, refl, sym, ◌∙◌, true, Option, none, some, List, [], ◌∷◌, Result, ok, Bool-cases,
  Option-cases, inl, inr,
}
use fed_campaign_emhi.Prelude.Int.{ℤ}
use fed_campaign_emhi.Prelude.Str.{Str, str_eq}
use fed_campaign_emhi.Prelude.Dict.{dict_get}
use fed_campaign_emhi.Domain.Records.{MarginalRankArtifactRecord}
use fed_campaign_emhi.Structure.Lookup.{
  Streams, built_streams, RankCache, same_fingerprint, clear_rank_lookup_cache, client_rank_streams,
  rank_at_epoch, rank_in_stream,
}

cons_≡ : {A : Type 0} {a b : A} {xs bs : List A} → a ≡ b → xs ≡ bs → a ∷ xs ≡ b ∷ bs
cons_≡ p q = rw (p, q) refl

module _ {F : Type 0} where
  -- What a cache may hold for an artifact: its streams, under its fingerprint, or nothing.
  abbrev pub HoldsFor : MarginalRankArtifactRecord F → RankCache F → Type 0
  HoldsFor ranks cache =
      (streams : Streams F)
      → same_fingerprint cache.fingerprint ranks.dependency_fingerprint ≡ true
      → cache.streams ≡ some streams
      → streams ≡ built_streams ranks

  -- Two artifacts that the cache cannot confuse.
  unfoldable pub Agree : (r s : MarginalRankArtifactRecord F) → Type 0
  Agree r s =
      str_eq r.dependency_fingerprint s.dependency_fingerprint ≡ true
      → built_streams r ≡ built_streams s

  HoldsFor-cleared : (ranks : MarginalRankArtifactRecord F) → HoldsFor ranks clear_rank_lookup_cache
  unfolding clear_rank_lookup_cache
  HoldsFor-cleared ranks streams h k = absurd (false≢true h)

  HoldsFor-streams :
      (ranks : MarginalRankArtifactRecord F) (cache : RankCache F)
      → HoldsFor ranks cache
      → (client_rank_streams ranks cache).0 ≡ built_streams ranks
  unfolding client_rank_streams
  HoldsFor-streams ranks cache h =
      elim (Bool-cases (same_fingerprint cache.fingerprint ranks.dependency_fingerprint)) [
        | inl t ↦ elim (Option-cases cache.streams) [
          | inl none_there ↦ rw (client_rank_streams, t, none_there) refl
          | inr (streams, there) ↦ rw (client_rank_streams, t, there) (h streams t there)
        ]
        | inr t ↦ rw (client_rank_streams, t) refl
      ]

  stored :
      (ranks other : MarginalRankArtifactRecord F)
      → Agree ranks other
      → (streams : Streams F)
      → str_eq ranks.dependency_fingerprint other.dependency_fingerprint ≡ true
      → some (built_streams ranks) ≡ some streams
      → streams ≡ built_streams other
  unfolding Agree
  stored ranks other agree streams t k = let same = agree t in sym (some-injective _ _ k) ∙ same

  HoldsFor-next :
      (ranks other : MarginalRankArtifactRecord F) (cache : RankCache F)
      → HoldsFor other cache
      → Agree ranks other
      → HoldsFor other (client_rank_streams ranks cache).1
  unfolding client_rank_streams Agree
  HoldsFor-next ranks other cache h agree =
      elim (Bool-cases (same_fingerprint cache.fingerprint ranks.dependency_fingerprint)) [
        | inl t ↦ elim (Option-cases cache.streams) [
          | inl none_there ↦ rw (client_rank_streams, t, none_there) (stored ranks other agree)
          | inr (streams, there) ↦ rw (client_rank_streams, t, there) h
        ]
        | inr t ↦ rw (client_rank_streams, t) (stored ranks other agree)
      ]

  -- The rank that a lookup returns from the artifact alone, without a cache.
  unfoldable pub uncached_rank : MarginalRankArtifactRecord F → Str → ℤ → Result (Option F)
  uncached_rank ranks client_id epoch_index = elim (dict_get (built_streams ranks) client_id) [
    | none ↦ ok none
    | some stream ↦ rank_in_stream stream.epoch_indexes stream.ranks epoch_index
  ]

  rank_at_epoch-uncached :
      (ranks : MarginalRankArtifactRecord F) (client_id : Str) (epoch_index : ℤ)
      (cache : RankCache F)
      → HoldsFor ranks cache
      → (rank_at_epoch ranks client_id epoch_index cache).0
        ≡ uncached_rank ranks client_id epoch_index
  unfolding rank_at_epoch uncached_rank
  rank_at_epoch-uncached ranks client_id epoch_index cache h =
      rw (rank_at_epoch, HoldsFor-streams ranks cache h) refl

  -- A run of lookups, each with the cache that the one before left.
  unfoldable pub lookups :
      List (MarginalRankArtifactRecord F × Str × ℤ) → RankCache F → List (Result (Option F))
  lookups [] cache = []
  lookups ((ranks, client_id, epoch_index) ∷ rest) cache =
      let (rank, cache') = rank_at_epoch ranks client_id epoch_index cache in
      rank ∷ lookups rest cache'

  unfoldable pub uncached_lookups :
      List (MarginalRankArtifactRecord F × Str × ℤ) → List (Result (Option F))
  uncached_lookups [] = []
  uncached_lookups ((ranks, client_id, epoch_index) ∷ rest) =
      uncached_rank ranks client_id epoch_index ∷ uncached_lookups rest

  -- Artifacts that have the same fingerprint have the same streams.
  unfoldable pub FingerprintsIdentify : List (MarginalRankArtifactRecord F × Str × ℤ) → Type 0
  FingerprintsIdentify [] = Unit
  FingerprintsIdentify (request ∷ rest) =
      All (λ (later : MarginalRankArtifactRecord F × Str × ℤ). Agree request.0 later.0) rest
      × FingerprintsIdentify rest

  HoldsForAll : List (MarginalRankArtifactRecord F × Str × ℤ) → RankCache F → Type 0
  HoldsForAll requests cache =
      All (λ (request : MarginalRankArtifactRecord F × Str × ℤ). HoldsFor request.0 cache) requests

  HoldsForAll-next :
      (ranks : MarginalRankArtifactRecord F) (rest : List (MarginalRankArtifactRecord F × Str × ℤ))
      (cache : RankCache F)
      → All (λ (later : MarginalRankArtifactRecord F × Str × ℤ). Agree ranks later.0) rest
      → HoldsForAll rest cache
      → HoldsForAll rest (client_rank_streams ranks cache).1
  unfolding HoldsForAll
  HoldsForAll-next ranks [] cache agree h = tt
  HoldsForAll-next ranks ((other, client_id, epoch_index) ∷ rest) cache agree h =
      (HoldsFor-next ranks other cache h.0 agree.0, HoldsForAll-next ranks rest cache agree.1 h.1)

  HoldsForAll-cleared :
      (requests : List (MarginalRankArtifactRecord F × Str × ℤ))
      → HoldsForAll requests clear_rank_lookup_cache
  unfolding HoldsForAll
  HoldsForAll-cleared [] = tt
  HoldsForAll-cleared (request ∷ rest) = (HoldsFor-cleared request.0, HoldsForAll-cleared rest)

  lookups-from :
      (requests : List (MarginalRankArtifactRecord F × Str × ℤ)) (cache : RankCache F)
      → FingerprintsIdentify requests
      → HoldsForAll requests cache
      → lookups requests cache ≡ uncached_lookups requests
  unfolding lookups uncached_lookups FingerprintsIdentify HoldsForAll rank_at_epoch
  lookups-from [] cache agree h = refl
  lookups-from ((ranks, client_id, epoch_index) ∷ rest) cache agree h =
      cons_≡ (rank_at_epoch-uncached ranks client_id epoch_index cache h.0) (
        lookups-from rest (client_rank_streams ranks cache).1 agree.1
          (HoldsForAll-next ranks rest cache agree.0 h.1))

  -- In any run of rank lookups that starts with a cleared cache, every lookup returns what its own
  -- artifact holds, if artifacts of the run that have the same fingerprint have the same streams.
  pub lookups-eq-uncached :
      (requests : List (MarginalRankArtifactRecord F × Str × ℤ))
      → FingerprintsIdentify requests
      → lookups requests clear_rank_lookup_cache ≡ uncached_lookups requests
  lookups-eq-uncached requests agree =
      lookups-from requests clear_rank_lookup_cache agree (HoldsForAll-cleared requests)
