-- ===== src/Hybrid/Loop/Examples.antt =====
-- A governing loop that revises its draft once, and the theorems at it.
use ai4_constrain.Prelude.{ℕ, true, some, List, [], ◌∷◌, String, str_eq, map, if◌then◌else◌}
use ai4_constrain.Prelude.Int.{pos}
use ai4_constrain.Prelude.Result.{ok, err}
use ai4_constrain.Abort.{finite}
use ai4_constrain.Budget.{Authority}
use ai4_constrain.Budget.Adapter.{Reply}
use ai4_constrain.Shards.{Rubric, ShardScore, Evaluation}
use ai4_constrain.Fuse.{Policy}
use ai4_constrain.Semantic.Findings.{BoundFinding, BoundSemanticFindings}
use ai4_constrain.Hybrid.{Snapshot, Connection, InstalledHybrid}
use ai4_constrain.Hybrid.Examine.{Examination}
use ai4_constrain.Hybrid.Examine.Settled
use ai4_constrain.Hybrid.Loop.{Outside, Setup}
use ai4_constrain.Hybrid.Loop.Step.{run_governing_loop}
use ai4_constrain.Hybrid.Loop.Accounts.{Accounted}
use ai4_constrain.Hybrid.Loop.Ledger.{run_governing_loop-Accounted}
use ai4_constrain.Hybrid.Loop.Safety.{Safe, run_governing_loop-Governed}

abbrev digest : String
digest = "0123456789abcdef0123456789abcdef0123456789abcdef0123456789abcdef"

abbrev snapshot : Snapshot
snapshot = record {
  observation_prompt_sha256 = digest;
  registry_sha256 = digest;
  policy_map_sha256 = digest;
  fuse_id = "fuse";
  examiner_config_identity = "examiner";
  examiner_provenance_identity = "provenance";
  proposer_identity = "proposer";
  evaluator_identity = "evaluator";
  evaluator_fingerprint = digest;
  semantic_schema_version = "v";
  examiner_call_cap = 3;
  semantic_config_version = "v";
}

abbrev connection : String → Connection
connection model = record {
  observed_peer_origin = "https://models";
  observed_account_id = "account";
  observed_session_token = "session";
  observed_served_model = model;
}

abbrev installed : InstalledHybrid
installed = record {
  identity_snapshot = snapshot;
  proposer_observation = record {
    peer_origin = "https://models";
    account_id = "account";
    session_token = "session";
    served_model = "m";
  };
  examiner_observation = record {
    peer_origin = "https://models";
    account_id = "account";
    session_token = "session";
    served_model = "e";
  };
}

abbrev shards : List (String × String)
shards =
    ("truth", "soft")
    ∷ ("compassion", "soft")
    ∷ ("autonomy", "soft")
    ∷ ("privacy", "hard")
    ∷ ("harm_aversion", "hard")
    ∷ []

abbrev rubric : String × String → Rubric
rubric shard = record {
  id = shard.0;
  version = "0.1.0";
  title = shard.0;
  kind = shard.1;
  priority = 1;
  pass_threshold = 8000;
  description = "";
  criteria = [];
}

abbrev packaged : List Rubric
packaged = map rubric shards

abbrev score : String × String → ShardScore
score shard = record {
  shard_id = shard.0;
  version = "0.1.0";
  kind = shard.1;
  priority = 1;
  score = 10000;
  passed = true;
  threshold = 8000;
  results = [];
  notes = [];
}

-- The deterministic evaluation finds nothing.
abbrev evaluate : String → Evaluation
evaluate text = record {
  text = text;
  shard_scores = map score shards;
  rubric_set_version = "0.1.0";
}

abbrev policy : Policy
policy = record {
  route = ("unsupported_certainty", "truth" ∷ []) ∷ [];
  overlays = ("unsupported_certainty", ("high", ("truth", 2500) ∷ []) ∷ []) ∷ [];
  caps =
      ("truth", 3000)
      ∷ ("compassion", 3000)
      ∷ ("autonomy", 3000)
      ∷ ("privacy", 2000)
      ∷ ("harm_aversion", 3000)
      ∷ [];
}

abbrev setup : Setup
setup = record {
  installed = some installed;
  context_snapshot = some snapshot;
  served_model = "m";
  locked_prompt = digest;
  proposal = some "It is certain.";
  supplied_model = "m";
  reserve_usd_proposal = 5;
  reserve_usd_examiner = finite (pos 3);
  max_revision_rounds = 1;
  evaluate = evaluate;
  middleware = record { rubrics = packaged; max_revision_rounds = 1 };
  packaged = packaged;
  policy = policy;
  closed = record {
    class_ids = "unsupported_certainty" ∷ [];
    observation_codes = "ungrounded_certainty_cue" ∷ [];
  };
  sha256 = λ _. digest;
  lower = λ s. s;
}

abbrev finding : BoundFinding
finding = record {
  finding = record {
    finding_id = "f1";
    class_id = "unsupported_certainty";
    confidence_bin = "high";
    span = record { start = pos 6; end = pos 13 };
    quote_sha256 = digest;
    observation_code = "ungrounded_certainty_cue";
    injection_signal_codes = [];
  };
  claim_fingerprint = digest;
}

abbrev bound_with : String → List BoundFinding → BoundSemanticFindings
bound_with text found = record {
  payload = record {
    schema_version = "ai4.semantic_findings.v0.7-c2";
    examiner_id = "e";
    examiner_version = "1";
    model_id = "e";
    provider_id = "p";
    observation_prompt_sha256 = digest;
    temperature = pos 0;
    status = "ok";
    findings = map {A = BoundFinding} (λ f. f.finding) found;
  };
  candidate = text;
  findings = found;
}

-- The examiner has a finding in the draft alone.
abbrev examination : ℕ → String → Examination
examination used text = record {
  answer = ok (bound_with text (if str_eq text "It is certain." then finding ∷ [] else []));
  prompt_sha256 = digest;
  last_estimated_usd = some (finite (pos 2));
}

abbrev revised_reply : Reply
revised_reply = record { text = "It may be."; model = "m"; estimated_usd = some (finite (pos 4)) }

abbrev outside : Outside (Unit {0})
outside = record {
  proposer = λ _. some (connection "m");
  examiner = λ _. some (connection "e");
  clock = λ _. pos 1;
  first_reply = err tt;
  reply = λ _ _ _. ok revised_reply;
  examination = examination;
}

abbrev start : Authority
start = record {
  deadline = pos 100;
  max_proposal = 3;
  max_examiner = 3;
  max_usd = 100;
  next_id = 1;
  usd_committed = 0;
  usd_reserved = 0;
  proposal_reserved = 0;
  proposal_committed = 0;
  examiner_reserved = 0;
  examiner_committed = 0;
  reservations = [];
}

run_governing_loop-Accounted_example : Accounted 1 start (run_governing_loop setup outside start)
run_governing_loop-Accounted_example = run_governing_loop-Accounted setup outside start

run_governing_loop-Governed_example : Safe setup outside (run_governing_loop setup outside start).0
run_governing_loop-Governed_example = run_governing_loop-Governed setup outside start
