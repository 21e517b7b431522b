-- ===== src/Examples/Data.antt =====
-- Clients, ranks and evidence for the examples.
use fed_campaign_emhi.Prelude.{ℕ, Bool, true, false, List, [], ◌∷◌}
use fed_campaign_emhi.Prelude.Int.{ℤ, pos}
use fed_campaign_emhi.Prelude.Str.{Str}
use fed_campaign_emhi.Domain.Types.{LocalPolicyArtifact, RankReference}

abbrev pub ann : Str
ann = 97 ∷ []

abbrev pub bob : Str
bob = 98 ∷ []

abbrev pub cy : Str
cy = 99 ∷ []

abbrev pub everyone : List Str
everyone = cy ∷ ann ∷ bob ∷ []

-- Who was active in each of three epochs.
abbrev pub history : List (List Str)
history = (cy ∷ []) ∷ (ann ∷ bob ∷ []) ∷ (ann ∷ []) ∷ []

abbrev pub factors : List ℕ
factors = 1000 ∷ 2000 ∷ 1000 ∷ []

abbrev pub supports : List Bool
supports = false ∷ true ∷ true ∷ []

-- `beta.ppf`, replaced by a coarse count.
abbrev pub coarse_ppf : ℕ → ℕ → ℕ → ℕ
coarse_ppf confidence a b = confidence

abbrev pub exceedances : List Bool
exceedances = true ∷ false ∷ true ∷ true ∷ []

abbrev pub strict_policy : LocalPolicyArtifact ℕ
strict_policy = record { threshold = 900; required_exceedances = 2; window_epochs = 3 }

abbrev pub loose_policy : LocalPolicyArtifact ℕ
loose_policy = record { threshold = 700; required_exceedances = 1; window_epochs = 3 }

abbrev pub reference : RankReference ℕ
reference = record { scores = 300 ∷ 100 ∷ 200 ∷ [] }

abbrev pub epochs : List ℤ
epochs = pos 4 ∷ pos 6 ∷ pos 7 ∷ []

abbrev pub support_window : ℕ
support_window = 2

abbrev pub persistence_window : ℕ
persistence_window = 3
