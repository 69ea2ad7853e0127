-- ===== src/Transaction/Binding.antt =====
-- ai4/transaction/binding.py: the wallet's URI must parse back to the transfer that was approved.
use ai4_constrain.Prelude.{
  ◌≡◌, refl, Bool, true, false, not, ◌&&◌, Option, none, some, List, [], ◌∷◌, String, str_eq,
  eq_iff, ◌==◌, if◌then◌else◌, arith, ap, subst, Bool-cases, ◌⊎◌, inl, inr, ◌∙◌, every, any, length,
}
use ai4_constrain.Prelude.Result.{
  Result, ok, err, ◌>>=◌, ◌>>◌, guard, Returns, returned, Returns-bind, Returns-guard,
}
use ai4_constrain.Prelude.Text.{member}
use ai4_constrain.Transaction.{text, RawAmount, SolAmount, NormalizedIntent, Texts, Reasons}
use ai4_constrain.Transaction.Amount.{lamports_of, same_amount}
use ai4_constrain.Transaction.Validate.{parse_sol_amount, validate_solana_address, starts_with}
use ai4_constrain.Transaction.Firewall.{network_value}

-- What `urlparse` returns, with the query after `parse_qs`, which may be malformed.
pub record Url : Type 0 where
  pub scheme : String
  pub netloc : String
  pub path : String
  pub fragment : String
  pub query : Option (List (String × List String))

-- The library calls on URIs. `contains s t` is `s in t`; `wrapped` is the part of a browse URI
-- between the prefix and `?`, unquoted, if there is a `?`.
pub record Uris : Type 0 where
  pub texts : Texts
  pub urlparse : String → Url
  pub to_decimal : String → RawAmount
  pub contains : String → String → Bool
  pub format_sol_amount : SolAmount → String
  pub wrapped : String → Option String

pub record Parsed : Type 0 where
  pub recipient : String
  pub amount : String
  pub network : String
  pub label : String
  pub message : String

abbrev pub has_key : String → List (String × List String) → Bool
has_key key = any λ entry. str_eq entry.0 key

unfoldable pub first : List String → String
first [] = ""
first (value ∷ _) = value

unfoldable pub value_of : String → List (String × List String) → String
unfolding first
value_of key [] = ""
value_of key ((k, values) ∷ rest) =
    let later = value_of key rest in if str_eq k key then first values else later

unfoldable pub parsed_query :
    Option (List (String × List String)) → Result Reasons (List (String × List String))
parsed_query none = err ("handoff URI query is malformed" ∷ [])
parsed_query (some query) = ok query

abbrev allowed_query_keys : List String
allowed_query_keys = "amount" ∷ "label" ∷ "message" ∷ "ai4-network" ∷ []

unfoldable pub bound_fields : String → List (String × List String) → Result Reasons Parsed
bound_fields path query = do
  guard (every (λ entry. length entry.1 == 1) query) ("handoff URI query key is repeated" ∷ [])
  guard (not (has_key "spl-token" query))
      ("handoff URI includes spl-token; v1 is native SOL only" ∷ [])
  guard (every (λ entry. member entry.0 allowed_query_keys) query)
      ("handoff URI unexpected query keys" ∷ [])
  guard (has_key "amount" query && has_key "ai4-network" query)
      ("handoff URI missing query keys" ∷ [])
  ok (record {
    recipient = path;
    amount = value_of "amount" query;
    network = value_of "ai4-network" query;
    label = value_of "label" query;
    message = value_of "message" query;
  })

unfoldable pub parse_url : Url → Result Reasons Parsed
parse_url url = do
  guard (str_eq url.scheme "solana") ("handoff URI scheme is not solana" ∷ [])
  guard (str_eq url.netloc "") ("handoff URI uses an unexpected netloc" ∷ [])
  guard (str_eq url.fragment "") ("handoff URI contains a fragment" ∷ [])
  guard (not (str_eq url.path "")) ("handoff URI is missing a recipient" ∷ [])
  query ← parsed_query url.query
  bound_fields url.path query

unfoldable pub parse_solana_pay_uri : Uris → String → Result Reasons Parsed
parse_solana_pay_uri uris uri = do
  guard (not (str_eq (uris.texts.strip uri) "")) ("handoff URI is missing" ∷ [])
  parse_url (uris.urlparse (uris.texts.strip uri))

-- Any exception is raised again as an error of the binding, with another reason.
unfoldable pub reraise : {E A : Type 0} → Result E A → String → Result Reasons A
reraise (ok value) reason = ok value
reraise (err raised) reason = err (reason ∷ [])

unfoldable pub verify_solana_pay_binding :
    Uris → String → NormalizedIntent → Result Reasons (Unit {0})
verify_solana_pay_binding uris uri intent = do
  parsed ← parse_solana_pay_uri uris uri
  recipient ←
      reraise (validate_solana_address uris.texts (text parsed.recipient))
        "handoff recipient failed address validation"
  guard (str_eq recipient intent.destination)
      ("handoff recipient does not match approved destination" ∷ [])
  amount ←
      reraise (parse_sol_amount (uris.to_decimal parsed.amount)) "handoff amount failed validation"
  guard (lamports_of amount == intent.lamports && same_amount amount intent.amount)
      ("handoff amount does not match approved amount" ∷ [])
  guard (str_eq parsed.network (network_value intent.network))
      ("handoff ai4-network does not match approved cluster" ∷ [])
  guard
      (uris.contains (network_value intent.network) parsed.label
        && uris.contains (network_value intent.network) parsed.message)
      ("handoff label/message missing approved cluster" ∷ [])
  guard (str_eq intent.action "transfer") ("approved action is not transfer" ∷ [])
  guard (str_eq (uris.format_sol_amount amount) (uris.format_sol_amount intent.amount))
      ("handoff amount text does not match approved amount" ∷ [])
  ok tt

abbrev pub phantom_ul_browse_prefix : String
phantom_ul_browse_prefix = "https://phantom.app/ul/browse/"

unfoldable pub unwrap : Option String → Result Reasons String
unwrap none = err ("Phantom browse URI is missing ref query" ∷ [])
unwrap (some inner) = ok inner

unfoldable pub verify_phantom_browse_binding : Uris → String → String → Result Reasons (Unit {0})
verify_phantom_browse_binding uris browse_uri pay_uri = do
  guard (starts_with phantom_ul_browse_prefix browse_uri)
      ("Phantom browse URI is not the expected Universal Link" ∷ [])
  inner ← unwrap (uris.wrapped browse_uri)
  guard (str_eq inner pay_uri) ("Phantom browse URI does not wrap the approved Solana Pay URI" ∷ [])
  ok tt

unfoldable pub verify_approved_handoff :
    Uris → String → String → NormalizedIntent → Result Reasons (Unit {0})
verify_approved_handoff uris pay_uri browse_uri intent = do
  verify_solana_pay_binding uris pay_uri intent
  verify_phantom_browse_binding uris browse_uri pay_uri

-- What the fields of a URI say is the transfer.
abbrev pub Says : Uris → Parsed → NormalizedIntent → Type 0
Says uris parsed intent =
    (validate_solana_address uris.texts (text parsed.recipient) ≡ ok intent.destination)
    × ((amount : SolAmount) × (parse_sol_amount (uris.to_decimal parsed.amount) ≡ ok amount)
        × (lamports_of amount ≡ intent.lamports)
        × (same_amount amount intent.amount ≡ true))
    × (parsed.network ≡ network_value intent.network)
    × (intent.action ≡ "transfer")

abbrev pub BindsTo : Uris → String → NormalizedIntent → Type 0
BindsTo uris uri intent =
    (parsed : Parsed) × (parse_solana_pay_uri uris uri ≡ ok parsed) × Says uris parsed intent

abbrev pub Binds : Uris → String → NormalizedIntent → Unit {0} → Type 0
Binds uris uri intent _ = BindsTo uris uri intent

reraise_ok :
    {E A : Type 0} (r : Result E A) (reason : String) (value : A)
    → reraise r reason ≡ ok value
    → r ≡ ok value
unfolding reraise
reraise_ok (ok found) reason value h = let same : found ≡ value = cc in ap ok same
reraise_ok (err raised) reason value h = cc

-- The tests of the parsed fields leave nothing open.
tests-Says :
    (uris : Uris) (parsed : Parsed) (intent : NormalizedIntent) (recipient : String)
    (amount : SolAmount)
    → validate_solana_address uris.texts (text parsed.recipient) ≡ ok recipient
    → str_eq recipient intent.destination ≡ true
    → parse_sol_amount (uris.to_decimal parsed.amount) ≡ ok amount
    → (lamports_of amount == intent.lamports && same_amount amount intent.amount) ≡ true
    → str_eq parsed.network (network_value intent.network) ≡ true
    → str_eq intent.action "transfer" ≡ true
    → Says uris parsed intent
tests-Says uris parsed intent recipient amount to same_to sum same network action =
    let destination = (eq_iff recipient intent.destination).0 same_to in
    (
      to ∙ ap ok destination,
      (amount, sum, ground arith, ground arith),
      (eq_iff parsed.network (network_value intent.network)).0 network,
      (eq_iff intent.action "transfer").0 action,
    )

-- A URI that passes the check parses, and its fields, parsed and validated again, are the approved
-- destination, an amount equal to the approved one with the approved lamports, and the approved
-- cluster of a `transfer`.
pub verify_solana_pay_binding-BindsTo :
    (uris : Uris) (uri : String) (intent : NormalizedIntent)
    → Returns (Binds uris uri intent) (verify_solana_pay_binding uris uri intent)
unfolding verify_solana_pay_binding
verify_solana_pay_binding-BindsTo uris uri intent =
    let P = Binds uris uri intent in
    let cluster = network_value intent.network in
    Returns-bind P (parse_solana_pay_uri uris uri) _ λ parsed from.
      Returns-bind P (reraise (validate_solana_address uris.texts (text parsed.recipient)) _) _
        λ recipient to. Returns-guard P (str_eq recipient intent.destination) _ _ λ same_to.
          Returns-bind P (reraise (parse_sol_amount (uris.to_decimal parsed.amount)) _) _
            λ amount sum.
              Returns-guard P
                (lamports_of amount == intent.lamports && same_amount amount intent.amount) _ _
                λ same. Returns-guard P (str_eq parsed.network cluster) _ _ λ network.
                  Returns-guard P
                    (uris.contains cluster parsed.label && uris.contains cluster parsed.message) _ _
                    λ _. Returns-guard P (str_eq intent.action "transfer") _ _ λ action.
                      Returns-guard P
                        (str_eq (uris.format_sol_amount amount)
                          (uris.format_sol_amount intent.amount))
                        _ (ok tt)
                        λ _. (
                          parsed,
                          from,
                          tests-Says uris parsed intent recipient amount
                              (reraise_ok _ _ recipient to) same_to (reraise_ok _ _ amount sum) same
                              network action,
                        )

parse_solana_pay_uri-blank :
    (uris : Uris) (parsed : Parsed)
    → uris.texts.strip "" ≡ ""
    → ¬ (parse_solana_pay_uri uris "" ≡ ok parsed)
unfolding parse_solana_pay_uri
parse_solana_pay_uri-blank uris parsed blank h = ground (arith, eq_iff (uris.texts.strip "") "")

-- The browse URI wraps the other one.
abbrev pub Wraps : Uris → String → String → Type 0
Wraps uris browse_uri pay_uri =
    (starts_with phantom_ul_browse_prefix browse_uri ≡ true)
    × (uris.wrapped browse_uri ≡ some pay_uri)

unwrap-some : (o : Option String) → Returns (λ inner. o ≡ some inner) (unwrap o)
unfolding unwrap
unwrap-some none = tt
unwrap-some (some inner) = refl

verify_phantom_browse_binding-Wraps :
    (uris : Uris) (browse_uri pay_uri : String)
    → Returns
        (λ _. Wraps uris browse_uri pay_uri)
        (verify_phantom_browse_binding uris browse_uri pay_uri)
unfolding verify_phantom_browse_binding
verify_phantom_browse_binding-Wraps uris browse_uri pay_uri =
    let P : Unit {0} → Type 0 = λ _. Wraps uris browse_uri pay_uri in
    Returns-guard P (starts_with phantom_ul_browse_prefix browse_uri) _ _ λ prefixed.
      Returns-bind P (unwrap (uris.wrapped browse_uri)) _ λ inner wrapped.
        Returns-guard P (str_eq inner pay_uri) _ (ok tt) λ same. (
          prefixed,
          returned _ _ (unwrap-some (uris.wrapped browse_uri)) wrapped
              ∙ ap some ((eq_iff inner pay_uri).0 same),
        )

browse-prefix :
    (uris : Uris) (pay_uri browse_uri : String)
    → verify_phantom_browse_binding uris browse_uri pay_uri ≡ ok tt
    → starts_with phantom_ul_browse_prefix browse_uri ≡ true
unfolding verify_phantom_browse_binding
browse-prefix uris pay_uri browse_uri h = ground arith

prefix-nonempty :
    (value : String) → starts_with phantom_ul_browse_prefix value ≡ true → str_eq value "" ≡ false
unfolding starts_with
prefix-nonempty value h = elim (Bool-cases (str_eq value "")) [
  | inr is_not ↦ is_not
  | inl is_blank ↦
      let none_starts : starts_with phantom_ul_browse_prefix value ≡ false =
        ap (starts_with phantom_ul_browse_prefix) ((eq_iff value "").0 is_blank) in
      cc
]

then_ok : (r s : Result Reasons (Unit {0})) → (r >> s) ≡ ok tt → (r ≡ ok tt) × (s ≡ ok tt)
then_ok (ok tt) s h = (refl, h)
then_ok (err reasons) s h = (h, cc)

-- A URI that passes is not empty, if stripping the empty text leaves it.
pub verify_approved_handoff-nonempty :
    (uris : Uris) (pay_uri browse_uri : String) (intent : NormalizedIntent)
    → uris.texts.strip "" ≡ ""
    → verify_approved_handoff uris pay_uri browse_uri intent ≡ ok tt
    → (str_eq pay_uri "" ≡ false)
      × (str_eq browse_uri "" ≡ false)
      × BindsTo uris pay_uri intent
      × Wraps uris browse_uri pay_uri
unfolding verify_approved_handoff
verify_approved_handoff-nonempty uris pay_uri browse_uri intent blank h =
    (pay_nonempty (Bool-cases (str_eq pay_uri "")), prefix-nonempty browse_uri prefix, binds, wraps)
  where
    both :
        (verify_solana_pay_binding uris pay_uri intent ≡ ok tt)
        × (verify_phantom_browse_binding uris browse_uri pay_uri ≡ ok tt)
    both = then_ok _ _ h

    prefix : starts_with phantom_ul_browse_prefix browse_uri ≡ true
    prefix = browse-prefix uris pay_uri browse_uri both.1

    wraps : Wraps uris browse_uri pay_uri
    wraps =
        returned (λ _. Wraps uris browse_uri pay_uri)
          (verify_phantom_browse_binding uris browse_uri pay_uri)
          (verify_phantom_browse_binding-Wraps uris browse_uri pay_uri) both.1

    binds : BindsTo uris pay_uri intent
    binds =
        returned (Binds uris pay_uri intent) (verify_solana_pay_binding uris pay_uri intent)
          (verify_solana_pay_binding-BindsTo uris pay_uri intent) both.0

    pay_nonempty :
        (str_eq pay_uri "" ≡ true) ⊎ (str_eq pay_uri "" ≡ false) → str_eq pay_uri "" ≡ false
    pay_nonempty (inr is_not) = is_not
    pay_nonempty (inl is_blank) =
        elim (parse_solana_pay_uri-blank uris binds.0 blank (
          subst (λ uri. parse_solana_pay_uri uris uri ≡ ok binds.0) ((eq_iff pay_uri "").0 is_blank)
            binds.1)) [ ]
