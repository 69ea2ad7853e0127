-- ===== src/Transaction/Examples.antt =====
-- The transfer firewall: runs of the pipeline on one transfer, and the theorems at it. The library
-- calls are given for the few texts that occur.
use native.Mathlib.Decide.{dec_lt}
use ai4_constrain.Prelude.{arith, ◌≡◌, ◌↔◌, refl, true, false, none, some, [], ◌∷◌, String, str_eq}
use ai4_constrain.Prelude.Int.{pos, negsuc, ◌+ℤ◌}
use ai4_constrain.Prelude.Result.{ok, err, ◌>>=◌, Returns}
use ai4_constrain.Transaction.{
  devnet, sol, text, enum, raw, RawAmount, decimal, SolAmount, TransferIntent, NormalizedIntent,
  Texts, decimal_overflow, allow,
}
use ai4_constrain.Transaction.Amount.{
  digits_from, digits, half_even, digits_lost, in_context, overflows, in_lamports, is_integral,
  int_of_decimal, lamports_of, exceeds, same_amount,
}
use ai4_constrain.Transaction.Base58.{
  alphabet, index_of, index_from, number_of, ones_in_front, acc_below, lt_wf, bits, bit_length,
  to_bytes, raw_bytes, b58decode,
}
use ai4_constrain.Transaction.Validate.{
  validate_transfer_intent, required, parse_network, known_network, network_aliases, parse_asset,
  parse_action, parse_sol_amount, parse_max_amount, parse_positive_sol, not_positive,
  checked_amount, max_lamports, validate_solana_address, decoded, has_forbidden, text_length,
  starts_with, custody_reasons, raise_reasons, reject_custody_flags, validate_solana_signature,
}
use ai4_constrain.Transaction.Validate.Checked.{validate_transfer_intent-Checked, Checked}
use ai4_constrain.Transaction.Validate.Exact.{validate_transfer_intent-Exact, Exact}
use ai4_constrain.Transaction.Firewall.{
  Firewall, scored, to_validate, normalize, run_firewall, run_firewall_lem, require_allow,
  build_firewall_proposal, Accepts, firewall_result, judge, map_constrain_decision, map_decision,
  network_value,
}
use ai4_constrain.Transaction.Binding.{
  Uris, Url, verify_approved_handoff, verify_solana_pay_binding, verify_phantom_browse_binding,
  verify_solana_pay_binding-BindsTo, Binds, first, value_of, parsed_query, bound_fields, parse_url,
  parse_solana_pay_uri, reraise, unwrap,
}
use ai4_constrain.Transaction.Prepare.{
  unsigned_payload_of, approved_binding_from_intent, Prepare, PrepareResult, prepare_transfer,
  well_formed, prepare_result, with_summary, allowed_result, hand_off_verified, hand_off,
  follow_verdict, after_firewall, ask_firewall, ask_fee, uncaught, after_checks, fee,
}
use ai4_constrain.Transaction.Prepare.Contract.{prepare_transfer-Ends, Ends}
use ai4_constrain.Transaction.Status.{
  Rpc, Receipt, value, object, int_slot, status, status-Observed, Observed, int_of, observed,
  with_slot, with_confirmation, read_entry, read_answer, with_url, optional_network, with_network,
  with_signature,
}
use ai4_constrain.Transaction.Proof.{
  Building, Ai4Receipt, build_ai4_receipt, lifecycle_from_status, off_devnet,
}
use ai4_constrain.Transaction.Proof.Sound.{build_ai4_receipt_sound, shows_success}

abbrev texts : Texts
texts = record { strip = λ s. s; lower = λ s. s; upper = λ s. s; repr = λ s. s }

abbrev address : String
address = "11111111111111111111111111111111"

abbrev signature_text : String
signature_text = "1111111111111111111111111111111111111111111111111111111111111111"

-- A quarter of a SOL on devnet, under a cap of one.
abbrev intent : TransferIntent
intent = record {
  network = raw (text "devnet");
  asset = enum sol;
  amount = decimal (pos 25) (negsuc 1);
  destination = text address;
  action = none;
  request_custody = false;
  server_sign = false;
  server_broadcast = false;
}

abbrev cap : RawAmount
cap = decimal (pos 1) (pos 0)

abbrev show : SolAmount → String
show n = "0.25"

abbrev approved : NormalizedIntent
approved = record {
  network = devnet;
  asset = sol;
  amount = record { coefficient = 25; exponent = negsuc 1 };
  destination = address;
  lamports = 250000000;
  action = "transfer";
}

abbrev firewall : Firewall
firewall = record {
  texts = texts;
  number = λ _. "250000000";
  format_sol_amount = show;
  max_amount_sol = cap;
  evaluate_fn = λ _. scored (record { decision = some "accept"; mode = "evaluate" });
}

abbrev pay_url : Url
pay_url = record {
  scheme = "solana";
  netloc = "";
  path = address;
  fragment = "";
  query = some (
      ("amount", "0.25" ∷ [])
      ∷ ("label", "devnet" ∷ [])
      ∷ ("message", "devnet" ∷ [])
      ∷ ("ai4-network", "devnet" ∷ [])
      ∷ []);
}

abbrev uris : Uris
uris = record {
  texts = texts;
  urlparse = λ _. pay_url;
  to_decimal = λ _. decimal (pos 25) (negsuc 1);
  contains = λ s t. str_eq s t;
  format_sol_amount = show;
  wrapped = λ _. some "solana:1";
}

abbrev prepare : Prepare
prepare = record {
  firewall = firewall;
  uris = uris;
  resolved_rpc = none;
  fee_from_rpc = λ _. fee "rpc_hint" "";
  handoff_uris_for_intent = λ _. ok ("solana:1", "https://phantom.app/ul/browse/1?ref=1");
  format_prepare_summary = λ _. "summary";
}

abbrev prepared : PrepareResult
prepared = record {
  decision = allow;
  reasons = "constrain decision is accept" ∷ [];
  summary = "summary";
  intent = some approved;
  report = some (record { decision = some "accept"; mode = "evaluate" });
  unsigned_payload = some (record {
    kind = "solana_system_transfer_stub";
    network = "devnet";
    asset = "SOL";
    amount_sol = "0.25";
    lamports = 250000000;
    destination = address;
  });
  handoff_uri = some "solana:1";
  phantom_browse_uri = some "https://phantom.app/ul/browse/1?ref=1";
  fee_status = "unverified_no_rpc";
  fee_note = "not verified (no RPC URL); your wallet will show the fee before you sign";
  approved_binding = some (record {
    network = "devnet";
    asset = "SOL";
    action = "transfer";
    amount_sol = "0.25";
    lamports = 250000000;
    destination = address;
  });
}

abbrev rpc : Rpc
rpc = record {
  texts = texts;
  shown = λ _. "";
  resolve_rpc_url = λ url. url;
  rpc_post = λ _ _. value (
      object (record { confirmation = text "finalized"; slot = int_slot (pos 7); err = none })
      ∷ []);
}

-- The transfer passes the checks, the firewall and the binding, and is handed out.
pipeline : Unit {0}
unfolding required network_aliases known_network parse_network parse_asset parse_action max_lamports
    digits_from digits half_even digits_lost in_context overflows in_lamports is_integral
    int_of_decimal lamports_of exceeds same_amount ◌+ℤ◌ dec_lt checked_amount not_positive
    parse_positive_sol parse_sol_amount parse_max_amount has_forbidden text_length starts_with
    decoded validate_solana_address validate_solana_signature alphabet index_of index_from number_of
    ones_in_front acc_below lt_wf bits bit_length to_bytes raw_bytes b58decode custody_reasons
    raise_reasons reject_custody_flags validate_transfer_intent network_value map_decision
    map_constrain_decision judge normalize firewall_result run_firewall first value_of parsed_query
    bound_fields parse_url parse_solana_pay_uri reraise verify_solana_pay_binding unwrap
    verify_phantom_browse_binding verify_approved_handoff well_formed prepare_result with_summary
    allowed_result hand_off_verified hand_off follow_verdict after_firewall ask_firewall ask_fee
    after_checks prepare_transfer unsigned_payload_of approved_binding_from_intent
pipeline =
    let checked : normalize firewall (to_validate intent) ≡ ok approved = refl in
    let result : prepare_transfer prepare intent ≡ ok prepared = refl in tt

abbrev intent_of : RawAmount → TransferIntent
intent_of amount = record intent { amount = amount }

-- 0.1000000000000000000000000000001 SOL passes: its product is rounded to 28 digits.
passes_beyond_precision :
    parse_sol_amount (decimal (pos 1000000000000000000000000000001) (negsuc 30))
    ≡ ok (record { coefficient = 1000000000000000000000000000001; exponent = negsuc 30 })
unfolding pipeline
passes_beyond_precision = refl

beyond_precision_lamports :
    lamports_of (record { coefficient = 1000000000000000000000000000001; exponent = negsuc 30 })
    ≡ 100000000
unfolding pipeline
beyond_precision_lamports = refl

-- 1e999999 SOL raises an exception that nothing catches.
overflow_uncaught :
    prepare_transfer prepare (intent_of (decimal (pos 1) (pos 999999)))
    ≡ err (uncaught decimal_overflow)
unfolding pipeline
overflow_uncaught = refl

validate_transfer_intent_example :
    Returns (Checked cap intent) (validate_transfer_intent texts show cap intent)
validate_transfer_intent_example = validate_transfer_intent-Checked texts show cap intent

validate_transfer_intent-Exact_example :
    Returns (λ n. Exact 25 (negsuc 1) n.lamports) (validate_transfer_intent texts show cap intent)
validate_transfer_intent-Exact_example =
    validate_transfer_intent-Exact texts show cap intent 25 (negsuc 1) refl (omega arith)
      (omega arith)

run_firewall_example : ((run_firewall firewall (to_validate intent) >>= require_allow) ≡ ok tt) ↔ (
    (n : NormalizedIntent) × (normalize firewall (to_validate intent) ≡ ok n)
    × Accepts (firewall.evaluate_fn (build_firewall_proposal firewall n)))
run_firewall_example = run_firewall_lem firewall (to_validate intent)

verify_solana_pay_binding_example :
    Returns (Binds uris "solana:1" approved) (verify_solana_pay_binding uris "solana:1" approved)
verify_solana_pay_binding_example = verify_solana_pay_binding-BindsTo uris "solana:1" approved

prepare_transfer_example : Ends prepare intent (prepare_transfer prepare intent)
prepare_transfer_example = prepare_transfer-Ends prepare intent refl

status_open : (status rpc (text signature_text) (some "http://rpc") none).fail_closed ≡ false
unfolding int_of observed with_slot with_confirmation read_entry read_answer with_url
    optional_network with_network with_signature status required validate_solana_signature alphabet
    index_of index_from number_of ones_in_front acc_below lt_wf bits bit_length to_bytes raw_bytes
    b58decode decoded
status_open = refl

status_example :
    Observed rpc
      (text signature_text)
      (some "http://rpc")
      (status rpc (text signature_text) (some "http://rpc") none)
status_example = status-Observed rpc (text signature_text) (some "http://rpc") none status_open

abbrev building : Building
building = record { texts = texts; sha256 = λ _. "digest"; format = λ _. "0.25" }

-- A finalized observation with no error.
abbrev seen_final : Receipt
seen_final = record {
  signature = signature_text;
  fail_closed = false;
  reasons = [];
  confirmation_status = some "finalized";
  slot = some (pos 7);
  err = none;
  explorer_url = none;
  network = none;
  rpc_used = true;
}

prepared_on_devnet : off_devnet prepared ≡ false
unfolding off_devnet
prepared_on_devnet = refl

build_ai4_receipt_example :
    (r : Ai4Receipt) × (build_ai4_receipt building prepared
        (lifecycle_from_status texts seen_final)
        (some seen_final)
        none
        []
      ≡ ok r)
    × (r.observed_success ≡ shows_success seen_final)
    × (r.lifecycle_state ≡ lifecycle_from_status texts seen_final)
build_ai4_receipt_example =
    build_ai4_receipt_sound building prepared seen_final none [] prepared_on_devnet refl
