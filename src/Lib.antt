-- ===== src/Lib.antt =====
-- A model of the core of FedCampaign-EMHI, a detector of attack campaigns that several clients of a
-- federation meet at one time. The program prepares event records of the clients, scores the epochs of
-- each client, calibrates a local detector for each, turns the ranks of the scores of a coalition of
-- clients into innovations and evidence factors, and stops when a recursion over the factors of all
-- coalitions reaches a threshold while enough clients are active. Paths are from the repository's root;
-- P/ stands for src/fedcampaign_emhi/.
--
-- The parts, and the files that model them:
--   Prelude      Python's lists, sets, dictionaries, integers, `sorted`, `float` and exceptions, and the
--                lemmas and tests that the parts share.
--   Domain       P/domain/enums.py, P/domain/types.py, P/artifacts/records.py and
--                P/evaluation/records.py: the enumerations and records that the other parts pass on.
--   Datasets     P/datasets/preprocessing.py, P/datasets/partitions.py, P/datasets/campaigns.py and
--                P/datasets/eligibility.py: duplicates (Deduplication), benign partitions and horizons
--                (Partitions), the runs of malicious epochs and the registry of campaigns (Campaigns),
--                and the clients that are eligible (Eligibility).
--   Detection    P/detection.py: the detector families, the persistence policies and local stops.
--   Thresholds   P/emhi/thresholds.py: the Clopper-Pearson bound and the calibrated threshold, which
--                Detection uses for the policies.
--   Contexts     P/emhi/contexts.py: the clients outside a coalition, the histogram of their ranks, and
--                the cell that a histogram belongs to.
--   Structure    P/emhi/structure.py: coalitions, midranks, the lookup of a rank with its cache, and the
--                tensor of the ranks of a coalition (Tensor).
--   Projection   P/emhi/projection.py: the design of the proper subsets, which takes its columns from
--                Structure.Tensor, the folds of a blocked cross-validation, and the ridge penalty.
--   Evidence     P/emhi/innovations.py and P/emhi/evidence.py: innovations, and the factors and
--                cumulative states made from them.
--   Sequential   P/emhi/sequential.py: the global recursion, its threshold, the support of the active
--                clients, and the first stop.
--   Evaluation   P/evaluation/metrics.py: strict ODI, rates, the decisive order and the metrics of
--                errors, drifts and costs (Numerics).
--   Comparators  P/comparators/sequential.py and P/comparators/fusion.py: the CUSUM of ranks, and the
--                choice of the strongest comparator, which takes its bound from Thresholds.
--   Inference    P/analysis/statistics.py: exact intervals, sign-flip tests, and the step-down correction
--                of Holm (Holm).
--   Artifacts    P/artifacts/provenance.py: the artifacts that depend on changed ones.
--   Execution    P/experiments/technical_retry.py and P/execution/status.py: the retry of an operation,
--                and the counts of the states of cells, over the reading of a record as a parameter.
--   Examples     each theorem at concrete numbers.
--
-- How the code is read. A function that raises returns a `Result` whose error names the exception. A
-- tuple, list or generator is a list; a set is a list in which nothing occurs twice; a dictionary is an
-- association list, of which the last entry of a key counts. A frozen dataclass is a record, a
-- `StrEnum` a data type. A record of a loop's variables, where there is one, stands in front of the
-- loop. A loop over a list is recursion on the list, with the loop's variables as arguments. The counts
-- of a domain type are natural numbers; epochs, which may be negative, are integers.
--
-- A double is a value of any type `F` with the interface `Prelude.Float.Float`. Its operations are those
-- that the code calls: arithmetic, `abs`, `**`, `sum` (which CPython compensates for rounding, so that
-- it is not a fold of `+`), `sqrt`, `log`, `exp`, `floor`, `ceil` and the comparisons. A theorem that
-- needs more says so: `IsOrdered` are the laws of comparison of doubles that are not NaN, which the
-- domain types exclude, and `IsExact` the laws of the integers up to 2 ** 53, which are doubles: `floor`
-- and `ceil` agree with the comparisons to them, and adding 0.0 or 1.0 to them does not round. No other
-- law of rounding or of real arithmetic is taken. The instance `milli`, the numbers of thousandths,
-- meets both and makes the definitions run.
--
-- Parameters stand for the calls of other packages: the quantile of numpy, the mean and the deviation of
-- `statistics` and the beta quantile of scipy. A restart of k-means, `_lloyd_kmeans_restart` of
-- P/emhi/contexts.py, and the ranking of its training rows are this repository's code, which is not
-- modelled: the restart is a parameter too, and the theorem about the fit holds for any. Fuel occurs in
-- two places: a search by halves has the length of the list as fuel, which the halves use up only in the
-- end, and `descendant_ids` has one round for each changed artifact and each edge, since a round takes
-- an artifact off that an edge had put there once.
--
-- Not modelled: the reading and writing of files and of YAML, pydantic's validation, the training of the
-- detectors of P/models/, the other comparators, the generators of P/synthetic/, the bootstrap of
-- P/analysis/, the rest of P/experiments/ and P/execution/, reporting, the command
-- line, the digests of P/artifacts/, the restart of k-means, and the fits of matrices, which are numpy's.
pub mod Prelude
pub mod Sequential
pub mod Thresholds
pub mod Domain
pub mod Evaluation
pub mod Evidence
pub mod Projection
pub mod Detection
pub mod Structure
pub mod Datasets
pub mod Contexts
mod Examples
pub mod Artifacts
pub mod Inference
pub mod Comparators
pub mod Execution
