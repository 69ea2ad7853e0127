-- ===== src/Hybrid.antt =====
-- ai4/constrain/_v07_3b/snapshot.py and ai4/constrain/_v07_3c/observe.py: the identities that a hybrid
-- run may not drift from. A connection is what the code reads of a provider or an examiner: four
-- attributes as texts, "" for one that is missing or empty.
pub mod Feedback
pub mod Examine
pub mod Loop
pub mod Continuity
pub mod Ready
use ai4_constrain.Prelude.{
  ℕ, ◌≡◌, refl, Bool, true, false, not, ◌&&◌, ◌||◌, Option, none, some, List, [], ◌∷◌, String,
  str_eq, eq_iff, ◌==◌, ==_iff, arith, if◌then◌else◌, sym, ap, ◌∙◌,
}
use ai4_constrain.Prelude.Result.{
  Result, ok, err, ◌>>=◌, ◌>>◌, guard, Returns, returned, Returns-bind, Returns-guard, Returns-then,
}
use ai4_constrain.Abort.{
  Abort, schema_invalid, provenance_mismatch, identity_drift, served_model_mismatch,
  account_session_mismatch, origin_allowlist_failure, observation_prompt_hash_mismatch,
  registry_hash_mismatch, policy_map_hash_mismatch, reject_authority_kwargs,
}

pub record Snapshot : Type 0 where
  pub observation_prompt_sha256 : String
  pub registry_sha256 : String
  pub policy_map_sha256 : String
  pub fuse_id : String
  pub examiner_config_identity : String
  pub examiner_provenance_identity : String
  pub proposer_identity : String
  pub evaluator_identity : String
  pub evaluator_fingerprint : String
  pub semantic_schema_version : String
  pub examiner_call_cap : ℕ
  pub semantic_config_version : String

-- Each field of `SNAPSHOT_FIELDS` is the same.
unfoldable pub same_snapshot : Snapshot → Snapshot → Bool
same_snapshot a b =
    str_eq a.observation_prompt_sha256 b.observation_prompt_sha256
    && str_eq a.registry_sha256 b.registry_sha256
    && str_eq a.policy_map_sha256 b.policy_map_sha256
    && str_eq a.fuse_id b.fuse_id
    && str_eq a.examiner_config_identity b.examiner_config_identity
    && str_eq a.examiner_provenance_identity b.examiner_provenance_identity
    && str_eq a.proposer_identity b.proposer_identity
    && str_eq a.evaluator_identity b.evaluator_identity
    && str_eq a.evaluator_fingerprint b.evaluator_fingerprint
    && str_eq a.semantic_schema_version b.semantic_schema_version
    && a.examiner_call_cap == b.examiner_call_cap
    && str_eq a.semantic_config_version b.semantic_config_version

-- The argument is `none` for an object that is no snapshot.
unfoldable pub detect_identity_drift :
    List String → Option Snapshot → Option Snapshot → Result Abort (Unit {0})
detect_identity_drift kwargs none observed = do reject_authority_kwargs kwargs; err schema_invalid
detect_identity_drift kwargs (some expected) none = do
  reject_authority_kwargs kwargs
  err schema_invalid
detect_identity_drift kwargs (some expected) (some observed) = do
  reject_authority_kwargs kwargs
  guard (same_snapshot expected observed) identity_drift

-- The hashes that are locked into the program.
pub record Locked : Type 0 where
  pub observation_prompt_sha256 : String
  pub registry_sha256 : String
  pub policy_map_sha256 : String
  pub fuse_id : String

unfoldable pub assert_locked_artifact_hashes :
    Locked → List String → Snapshot → Result Abort (Unit {0})
assert_locked_artifact_hashes locked kwargs snapshot = do
  reject_authority_kwargs kwargs
  guard (str_eq snapshot.observation_prompt_sha256 locked.observation_prompt_sha256)
      observation_prompt_hash_mismatch
  guard (str_eq snapshot.registry_sha256 locked.registry_sha256) registry_hash_mismatch
  guard (str_eq snapshot.policy_map_sha256 locked.policy_map_sha256) policy_map_hash_mismatch
  guard (str_eq snapshot.fuse_id locked.fuse_id) identity_drift

pub record Connection : Type 0 where
  pub observed_peer_origin : String
  pub observed_account_id : String
  pub observed_session_token : String
  pub observed_served_model : String

pub record Observation : Type 0 where
  pub peer_origin : String
  pub account_id : String
  pub session_token : String
  pub served_model : String

abbrev is_empty : String → Bool
is_empty s = str_eq s ""

unfoldable pub read_connection_observation :
    List String → Option Connection → Result Abort Observation
read_connection_observation kwargs none = do reject_authority_kwargs kwargs; err provenance_mismatch
read_connection_observation kwargs (some c) = do
  reject_authority_kwargs kwargs
  guard
      (not (
        is_empty c.observed_peer_origin
        || is_empty c.observed_account_id
        || is_empty c.observed_session_token
        || is_empty c.observed_served_model))
      provenance_mismatch
  ok (record {
    peer_origin = c.observed_peer_origin;
    account_id = c.observed_account_id;
    session_token = c.observed_session_token;
    served_model = c.observed_served_model;
  })

unfoldable pub assert_origin_matches : List String → String → String → Result Abort (Unit {0})
assert_origin_matches kwargs expected observed = do
  reject_authority_kwargs kwargs
  guard (str_eq expected observed) origin_allowlist_failure

unfoldable pub assert_account_session_match :
    List String → Observation → Observation → Result Abort (Unit {0})
assert_account_session_match kwargs expected observed = do
  reject_authority_kwargs kwargs
  guard
      (str_eq expected.account_id observed.account_id
        && str_eq expected.session_token observed.session_token)
      account_session_mismatch

unfoldable pub assert_served_model_matches : List String → String → String → Result Abort (Unit {0})
assert_served_model_matches kwargs expected observed = do
  reject_authority_kwargs kwargs
  guard (str_eq expected observed) served_model_mismatch

-- `_assert_role_continuity` of ai4/constrain/_v07_3c/loop.py
unfoldable pub assert_role_continuity : Observation → Observation → Result Abort (Unit {0})
assert_role_continuity expected observed = do
  assert_origin_matches [] expected.peer_origin observed.peer_origin
  assert_account_session_match [] expected observed
  assert_served_model_matches [] expected.served_model observed.served_model

pub record InstalledHybrid : Type 0 where
  pub identity_snapshot : Snapshot
  pub proposer_observation : Observation
  pub examiner_observation : Observation

-- `_recheck_runtime_provenance`
unfoldable pub recheck_runtime_provenance :
    Option InstalledHybrid → Option Connection → Option Connection → Result Abort (Unit {0})
recheck_runtime_provenance none provider examiner = err schema_invalid
recheck_runtime_provenance (some installed) provider examiner = do
  proposer_obs ← read_connection_observation [] provider
  examiner_obs ← read_connection_observation [] examiner
  assert_role_continuity installed.proposer_observation proposer_obs
  assert_role_continuity installed.examiner_observation examiner_obs
