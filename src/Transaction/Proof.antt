-- ===== src/Transaction/Proof.antt =====
-- ai4/transaction/receipt.py: the proof receipt of a transfer, and how it follows from an observation.
-- The summary of the decision report, the timestamp and the fixed attribution are left out.
pub mod Sound
use ai4_constrain.Prelude.{
  ◌≡◌, refl, Bool, true, false, not, ◌&&◌, ◌||◌, Option, none, some, List, [], ◌∷◌, ◌++◌, String,
  str_eq, if◌then◌else◌, arith, Bool-cases, inl, inr,
}
use ai4_constrain.Prelude.Int.{ℤ}
use ai4_constrain.Prelude.Result.{Result, ok, err, Returns}
use ai4_constrain.Prelude.Text.{join}
use ai4_constrain.Transaction.{
  Network, mainnet_beta, devnet, localnet, RawText, text, not_text, Texts, Reasons,
  NormalizedIntent, Decision,
}
use ai4_constrain.Transaction.Validate.{validate_solana_signature, starts_with}
use ai4_constrain.Transaction.Firewall.{network_value}
use ai4_constrain.Transaction.Prepare.{PrepareResult, ApprovedBinding, present, truthy}
use ai4_constrain.Transaction.Status.{Receipt, explorer_url_for}

-- The `ValueError` of a constructor that checks its fields.
pub data ValueError : Type 0 where
  value_error : ValueError

pub data Lifecycle : Type 0 where
  prepared awaiting_broadcast processed confirmed finalized : Lifecycle
  failed fail_closed timeout : Lifecycle

abbrev pub is_success : Lifecycle → Bool
is_success processed = true
is_success confirmed = true
is_success finalized = true
is_success _ = false

abbrev pub is_finalized : Lifecycle → Bool
is_finalized finalized = true
is_finalized _ = false

abbrev pub is_failed : Lifecycle → Bool
is_failed failed = true
is_failed _ = false

abbrev pub is_closed : Lifecycle → Bool
is_closed fail_closed = true
is_closed timeout = true
is_closed _ = false

-- `s in t`
pub contains : String → String → Bool
unfolding starts_with
contains part String.[] = starts_with part String.[]
contains part (String.◌∷◌ c rest) =
    let later = contains part rest in starts_with part (String.◌∷◌ c rest) || later

pub confirmed_lifecycle : Option String → Lifecycle
confirmed_lifecycle none = fail_closed
confirmed_lifecycle (some confirmation) =
    if str_eq confirmation "finalized"
    then finalized
    else if str_eq confirmation "confirmed"
    then confirmed
    else if str_eq confirmation "processed"
    then processed
    else fail_closed

pub lifecycle_from_status : Texts → Receipt → Lifecycle
lifecycle_from_status texts r =
    let reasons = texts.lower (join " " r.reasons) in
    if r.fail_closed
    then if contains "timed out" reasons || contains "timeout" reasons then timeout else fail_closed
    else if present r.err
    then failed
    else confirmed_lifecycle r.confirmation_status

pub record Ai4Receipt : Type 0 where
  pub network : String
  pub asset : String
  pub action : String
  pub amount : String
  pub destination : String
  pub approved_binding_hash : Option String
  pub binding_sha256 : Option String
  pub decision : Decision
  pub signature : Option String
  pub lifecycle_state : Lifecycle
  pub confirmation_status : Option String
  pub slot : Option ℤ
  pub error : Option String
  pub explorer_url : Option String
  pub fail_closed : Bool
  pub reasons : Reasons
  pub observed_success : Bool

abbrev is_text : String → Option String → Bool
is_text s none = false
is_text s (some t) = str_eq s t

abbrev same_hash : Option String → Option String → Bool
same_hash (some hash) (some sha256) = str_eq hash "" || str_eq sha256 hash
same_hash _ _ = true

abbrev is_devnet_link : Option String → Bool
is_devnet_link none = true
is_devnet_link (some url) = str_eq url "" || contains "cluster=devnet" url

-- The tests of `__post_init__`.
pub is_valid : Ai4Receipt → Bool
is_valid r =
    str_eq r.network "devnet"
    && not (is_success r.lifecycle_state && present r.error)
    && not (is_finalized r.lifecycle_state && not (is_text "finalized" r.confirmation_status))
    && not (is_failed r.lifecycle_state && not (present r.error))
    && not (is_closed r.lifecycle_state && not r.fail_closed)
    && same_hash r.approved_binding_hash r.binding_sha256
    && is_devnet_link r.explorer_url
    && not (truthy r.explorer_url && not (truthy r.signature))

pub success_of : Ai4Receipt → Bool
success_of r = is_success r.lifecycle_state && not (present r.error) && not r.fail_closed

pub post_init : Ai4Receipt → Result ValueError Ai4Receipt
post_init r =
    if is_valid r then ok (record r { observed_success = success_of r }) else err value_error

abbrev pub is_devnet : Network → Bool
is_devnet devnet = true
is_devnet _ = false

-- The prepare result is for another cluster.
unfoldable pub off_devnet : PrepareResult → Bool
off_devnet prepare =
    elim prepare.intent [ none ↦ false | some intent ↦ not (is_devnet intent.network) ]
    || elim prepare.approved_binding [
      | none ↦ false
      | some binding ↦ not (str_eq binding.network "devnet")
    ]

-- The signature, validated again; an empty one is left as it is.
pub signed : Texts → Option String → Option String
signed texts none = none
signed texts (some signature) =
    if str_eq signature ""
    then some signature
    else elim (validate_solana_signature texts (text signature)) [
      | err reasons ↦ none
      | ok sig ↦ some sig
    ]

pub link_of : String → Option String → Option String
link_of sig none = explorer_url_for sig devnet
link_of sig (some url) = some url

-- The explorer link of a signature, or none without one.
pub linked : Option String → Option String → Option String
linked none explorer = none
linked (some sig) explorer = if str_eq sig "" then none else link_of sig explorer

pub reported_signature : Receipt → Option String → Option String
reported_signature s signature = if str_eq s.signature "" then signature else some s.signature

abbrev placeholder : Option String
placeholder = some "{'ai4': 'on-chain error required for failed lifecycle'}"

-- `sha256` is the digest of a binding, `format` writes an amount.
pub record Building : Type 0 where
  pub texts : Texts
  pub sha256 : ApprovedBinding → String
  pub format : NormalizedIntent → String

-- What the observation contributes, if there is one.
pub record Seen : Type 0 where
  pub lifecycle : Lifecycle
  pub signature : Option String
  pub confirmation : Option String
  pub slot : Option ℤ
  pub error : Option String
  pub explorer : Option String
  pub fail_closed : Bool
  pub reasons : Reasons

pub seen : PrepareResult → Lifecycle → Option Receipt → Option String → Reasons → Seen
seen prepare lifecycle none signature extra = record {
  lifecycle = lifecycle;
  signature = signature;
  confirmation = none;
  slot = none;
  error = none;
  explorer = none;
  fail_closed = is_closed lifecycle;
  reasons = prepare.reasons ++ extra;
}
seen prepare lifecycle (some s) signature extra = record {
  lifecycle = if is_success lifecycle && present s.err then failed else lifecycle;
  signature = reported_signature s signature;
  confirmation = s.confirmation_status;
  slot = s.slot;
  error = s.err;
  explorer = s.explorer_url;
  fail_closed = s.fail_closed || is_closed lifecycle;
  reasons = prepare.reasons ++ extra ++ s.reasons;
}

abbrev or_blank : Option NormalizedIntent → (NormalizedIntent → String) → String → String
or_blank none f default = default
or_blank (some intent) f default = f intent

abbrev digest : (ApprovedBinding → String) → Option ApprovedBinding → Option String
digest sha256 none = none
digest sha256 (some binding) = some (sha256 binding)

pub draft : Building → PrepareResult → Seen → Ai4Receipt
draft build prepare s =
    let sig = signed build.texts s.signature in
    record {
      network = or_blank prepare.intent (λ intent. network_value intent.network) "devnet";
      asset = "SOL";
      action = or_blank prepare.intent (λ intent. intent.action) "transfer";
      amount = or_blank prepare.intent build.format "";
      destination = or_blank prepare.intent (λ intent. intent.destination) "";
      approved_binding_hash = digest build.sha256 prepare.approved_binding;
      binding_sha256 = digest build.sha256 prepare.approved_binding;
      decision = prepare.decision;
      signature = sig;
      lifecycle_state = s.lifecycle;
      confirmation_status = s.confirmation;
      slot = s.slot;
      error = if is_failed s.lifecycle && not (present s.error) then placeholder else s.error;
      explorer_url = linked sig s.explorer;
      fail_closed = s.fail_closed;
      reasons = s.reasons;
      observed_success = false;
    }

pub build_ai4_receipt :
    Building
    → PrepareResult
    → Lifecycle
    → Option Receipt
    → Option String
    → Reasons
    → Result ValueError Ai4Receipt
build_ai4_receipt build prepare lifecycle status signature extra =
    if off_devnet prepare
    then err value_error
    else post_init (draft build prepare (seen prepare lifecycle status signature extra))
