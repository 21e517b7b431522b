-- ===== src/Structure/Lookup.antt =====
-- src/fedcampaign_emhi/emhi/structure.py: the rank of a client at an epoch, and the module's cache of the
-- last artifact's streams, which is passed as a state.
pub mod Found
pub mod Cached
use fed_campaign_emhi.Prelude.{
  ℕ, Bool, true, false, not, ◌&&◌, ◌||◌, Option, none, some, List, [], ◌∷◌, map, ◌==◌,
  if◌then◌else◌, is_some, length, get_elem?, keep, zip, Result, ok, err, index_error, value_error,
  raise_if, traverse, ◌>>=◌, ◌>>◌,
}
use fed_campaign_emhi.Prelude.Int.{ℤ, pos, pos_part, ◌-ℤ◌, leb_ℤ, ltb_ℤ, eqb_ℤ}
use fed_campaign_emhi.Prelude.Str.{Str, str_eq}
use fed_campaign_emhi.Prelude.Sets.{str_eq_instance, int_eq, contains}
use fed_campaign_emhi.Prelude.Dict.{dict_get}
use fed_campaign_emhi.Prelude.Float.{Float}
use fed_campaign_emhi.Domain.Records.{
  ClientMarginalRankStream, MarginalRankArtifactRecord, DetectorScoreArtifactRecord,
  ClientDetectorScoreStream,
}
use fed_campaign_emhi.Structure.Ranks.{bisect, batch_clipped_midrank}

-- `{stream.client_id: stream for stream in ranks.client_streams}`.
abbrev pub Streams : Type 0 → Type 0
Streams F = List (Str × ClientMarginalRankStream F)

abbrev pub built_streams : {F : Type 0} → MarginalRankArtifactRecord F → Streams F
built_streams ranks = map (λ stream. (stream.client_id, stream)) ranks.client_streams

-- `_cached_rank_stream_fingerprint` and `_cached_rank_streams`.
pub record RankCache (F : Type 0) : Type 0 where
  pub fingerprint : Option Str
  pub streams : Option (Streams F)

abbrev same_fingerprint : Option Str → Str → Bool
same_fingerprint none fingerprint = false
same_fingerprint (some cached) fingerprint = str_eq cached fingerprint

-- `epochs[position] == epoch`, at a position in range.
abbrev pub hits : List ℤ → ℕ → ℤ → Bool
hits epochs position epoch = elim (get_elem? epochs position) [
  | none ↦ false
  | some e ↦ eqb_ℤ e epoch
]

module _ {F : Type 0} where
  unfoldable pub clear_rank_lookup_cache : RankCache F
  clear_rank_lookup_cache = record { fingerprint = none; streams = none }

  -- The cached streams, if the test of `_client_rank_streams` passes.
  abbrev cached_streams : RankCache F → MarginalRankArtifactRecord F → Option (Streams F)
  cached_streams cache ranks =
      if same_fingerprint cache.fingerprint ranks.dependency_fingerprint
      then cache.streams
      else none

  unfoldable pub client_rank_streams :
      MarginalRankArtifactRecord F → RankCache F → Streams F × RankCache F
  client_rank_streams ranks cache = elim (cached_streams cache ranks) [
    | some streams ↦ (streams, cache)
    | none ↦ (
      built_streams ranks,
      record {
        fingerprint = some ranks.dependency_fingerprint;
        streams = some (built_streams ranks);
      },
    )
  ]

  -- `ranks[position]`.
  abbrev pub rank_at : List F → ℕ → Result (Option F)
  rank_at ranks position = elim (get_elem? ranks position) [
    | none ↦ err index_error
    | some rank ↦ ok (some rank)
  ]

  rank_by_offset : List ℤ → List F → ℤ → ℤ → Result (Option F)
  rank_by_offset epochs ranks offset epoch_index =
      if leb_ℤ (pos 0) offset
        && ltb_ℤ offset (pos (length epochs))
        && hits epochs (pos_part offset) epoch_index
      then rank_at ranks (pos_part offset)
      else let position = bisect (λ e. ltb_ℤ e epoch_index) epochs in
        if position == length epochs || not (hits epochs position epoch_index)
        then ok none
        else rank_at ranks position

  -- The part of `rank_at_epoch` that reads one stream.
  unfoldable pub rank_in_stream : List ℤ → List F → ℤ → Result (Option F)
  unfolding rank_by_offset
  rank_in_stream [] ranks epoch_index = ok none
  rank_in_stream (first ∷ epochs) ranks epoch_index =
      rank_by_offset (first ∷ epochs) ranks (epoch_index -ℤ first) epoch_index

  unfoldable pub rank_at_epoch :
      MarginalRankArtifactRecord F → Str → ℤ → RankCache F → Result (Option F) × RankCache F
  unfolding client_rank_streams
  rank_at_epoch ranks client_id epoch_index cache =
      let (streams, cache') = client_rank_streams ranks cache in
      (
        elim (dict_get streams client_id) [
          | none ↦ ok none
          | some stream ↦ rank_in_stream stream.epoch_indexes stream.ranks epoch_index
        ],
        cache',
      )

module _ {F : Type 0} ⦃f : Float F⦄ where
  rank_stream : List ℤ → F → ClientDetectorScoreStream F → Result (ClientMarginalRankStream F)
  rank_stream reference_epochs rank_clip_epsilon score_stream = do
    raise_if (not (length score_stream.epoch_indexes == length score_stream.scores)) value_error
    let reference_scores =
        map (λ (pair : ℤ × F). pair.1)
          (keep (λ (pair : ℤ × F). contains reference_epochs pair.0)
            (zip score_stream.epoch_indexes score_stream.scores))
    raise_if (length reference_scores == 0) value_error
    ranks ←
        batch_clipped_midrank score_stream.scores (record { scores = reference_scores })
          rank_clip_epsilon
    ok (record {
      client_id = score_stream.client_id;
      nuisance_reference_scores = reference_scores;
      epoch_indexes = score_stream.epoch_indexes;
      ranks = ranks;
    })

  unfoldable pub build_marginal_rank_artifact :
      DetectorScoreArtifactRecord F → List ℤ → F → Str → Result (MarginalRankArtifactRecord F)
  unfolding rank_stream
  build_marginal_rank_artifact scores reference_epochs rank_clip_epsilon dependency_fingerprint = do
    streams ← traverse (rank_stream reference_epochs rank_clip_epsilon) scores.client_streams
    ok (record {
      dataset_name = scores.dataset_name;
      root_seed = scores.root_seed;
      selected_client_ids = scores.selected_client_ids;
      client_streams = streams;
      dependency_fingerprint = dependency_fingerprint;
    })
