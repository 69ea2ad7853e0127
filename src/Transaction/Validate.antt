-- ===== src/Transaction/Validate.antt =====
-- ai4/transaction/validate.py: the deterministic checks of a transfer.
pub mod Checked
pub mod Exact
use Prim.Native.Char.{Char, code}
use native.Mathlib.Nat.{div-add-mod}
use ai4_constrain.Prelude.{
  ℕ, ◌+◌, ◌-◌, ◌*◌, ◌/◌, ◌%◌, ◌^◌, ◌≤◌, ◌≡◌, Bool, true, false, not, ◌||◌, ◌&&◌, Option, none, some,
  List, [], ◌∷◌, ◌++◌, String, str_eq, ◌==◌, ltb, leb, if◌then◌else◌, length, arith, refl,
}
use ai4_constrain.Prelude.Int.{pos, negsuc}
use ai4_constrain.Prelude.Result.{
  Result, ok, err, ◌>>=◌, ◌>>◌, guard, Returns, returned, Returns-bind, Returns-then, Returns-guard,
}
use ai4_constrain.Prelude.Text.{join}
use ai4_constrain.Transaction.Base58.{Base58Error, value_error, b58decode}
use ai4_constrain.Transaction.{
  Network, mainnet_beta, devnet, localnet, Asset, sol, RawText, text, not_text, Raw, enum, raw,
  RawAmount, boolean, no_decimal, not_finite, decimal, SolAmount, TransferIntent, NormalizedIntent,
  Texts, Reasons, Raised, invalid, decimal_overflow,
}
use ai4_constrain.Transaction.Amount.{in_lamports, overflows, is_integral, lamports_of, exceeds}

-- `value.strip()` of a `str` that is not blank, or the first error of the parsers.
unfoldable pub required : Texts → String → RawText → Result Reasons String
required texts field not_text = err (join "" (field ∷ " is required" ∷ []) ∷ [])
required texts field (text value) =
    if str_eq (texts.strip value) ""
    then err (join "" (field ∷ " is required" ∷ []) ∷ [])
    else ok (texts.strip value)

unfoldable pub network_aliases : String → Option Network
network_aliases key =
    if str_eq key "mainnet-beta"
    then some mainnet_beta
    else if str_eq key "devnet"
    then some devnet
    else if str_eq key "localnet" || str_eq key "local" || str_eq key "localhost"
    then some localnet
    else none

unfoldable pub known_network : Texts → String → Option Network → Result Reasons Network
known_network texts value (some network) = ok network
known_network texts value none = err (
    join "" (
      "unsupported network: " ∷ texts.repr value ∷ "; allowed: mainnet-beta, devnet, localnet" ∷ [])
    ∷ [])

unfoldable pub parse_network : Texts → Raw Network → Result Reasons Network
parse_network texts (enum network) = ok network
parse_network texts (raw value) = do
  key ← required texts "network" value
  known_network texts key (network_aliases (texts.lower key))

unfoldable pub parse_asset : Texts → Raw Asset → Result Reasons Asset
parse_asset texts (enum asset) = ok asset
parse_asset texts (raw value) = do
  token ← required texts "asset" value
  guard (str_eq (texts.upper token) "SOL")
      (join "" ("unsupported asset: " ∷ texts.repr token ∷ "; v1 allows native SOL only" ∷ []) ∷ [])
  ok sol

unfoldable pub parse_action : Texts → Option RawText → Result Reasons String
parse_action texts none = ok "transfer"
parse_action texts (some value) = do
  action ← required texts "action" value
  guard (str_eq (texts.lower action) "transfer")
      (join "" ("unsupported action: " ∷ texts.repr action ∷ "; v1 allows transfer only" ∷ []) ∷ [])
  ok "transfer"

unfoldable pub max_lamports : ℕ
max_lamports = 2 ^ 64 - 1

unfoldable pub not_positive : String → Result Raised SolAmount
not_positive field = err (invalid (join "" (field ∷ " must be greater than 0" ∷ []) ∷ []))

-- The tests of a positive amount, by its product with the lamports of a SOL.
unfoldable pub checked_amount : String → SolAmount → Result Raised SolAmount
checked_amount field amount = do
  guard (not (overflows (in_lamports amount))) decimal_overflow
  guard (is_integral (in_lamports amount))
      (invalid (join "" (field ∷ " exceeds SOL lamport precision" ∷ []) ∷ []))
  guard (leb (lamports_of amount) max_lamports)
      (invalid (join "" (field ∷ " exceeds the u64 lamport range" ∷ []) ∷ []))
  ok amount

-- `_parse_positive_sol`; a `Decimal` that is made of a raw value is exact.
unfoldable pub parse_positive_sol : String → RawAmount → Result Raised SolAmount
parse_positive_sol field boolean =
    err (invalid (join "" (field ∷ " must not be a boolean" ∷ []) ∷ []))
parse_positive_sol field no_decimal =
    err (invalid (join "" (field ∷ " is not a decimal SOL amount" ∷ []) ∷ []))
parse_positive_sol field not_finite = not_positive field
parse_positive_sol field (decimal (negsuc n) exponent) = not_positive field
parse_positive_sol field (decimal (pos n) exponent) =
    if n == 0
    then not_positive field
    else checked_amount field (record { coefficient = n; exponent = exponent })

unfoldable pub parse_sol_amount : RawAmount → Result Raised SolAmount
parse_sol_amount = parse_positive_sol "amount"

unfoldable pub parse_max_amount : RawAmount → Result Raised SolAmount
parse_max_amount = parse_positive_sol "max_amount"

abbrev same_char : Char → Char → Bool
same_char a b = code a == code b

abbrev is_forbidden : Char → Bool
is_forbidden c = same_char c "?" || same_char c "&" || same_char c "#" || same_char c "/"

unfoldable pub has_forbidden : String → Bool
has_forbidden String.[] = false
has_forbidden (String.◌∷◌ c rest) = is_forbidden c || has_forbidden rest

unfoldable pub text_length : String → ℕ
text_length String.[] = 0
text_length (String.◌∷◌ c rest) = 1 + text_length rest

unfoldable pub starts_with : String → String → Bool
starts_with String.[] value = true
starts_with (String.◌∷◌ c prefix) String.[] = false
starts_with (String.◌∷◌ c prefix) (String.◌∷◌ d value) = same_char c d && starts_with prefix value

unfoldable pub decoded : String → Result Base58Error (List ℕ) → Result Reasons (List ℕ)
decoded field (err value_error) = err (join "" (field ∷ " is not valid base58" ∷ []) ∷ [])
decoded field (ok bytes) = ok bytes

unfoldable pub validate_solana_address : Texts → RawText → Result Reasons String
validate_solana_address texts value = do
  address ← required texts "destination" value
  guard (not (has_forbidden address))
      ("destination contains ?, &, #, or /; refusing query injection" ∷ [])
  guard (not (starts_with "0x" address))
      ("destination looks like an EVM address; v1 is Solana only" ∷ [])
  guard (leb 32 (text_length address) && leb (text_length address) 44)
      ("destination length is outside the Solana base58 public-key range" ∷ [])
  bytes ← decoded "destination" (b58decode address)
  guard (length bytes == 32) ("destination does not decode to a 32-byte public key" ∷ [])
  ok address

unfoldable pub validate_solana_signature : Texts → RawText → Result Reasons String
validate_solana_signature texts value = do
  signature ← required texts "signature" value
  bytes ← decoded "signature" (b58decode signature)
  guard (length bytes == 64) ("signature does not decode to 64 bytes" ∷ [])
  ok signature

abbrev reason_if : Bool → String → Reasons
reason_if flag reason = if flag then reason ∷ [] else []

unfoldable pub custody_reasons : TransferIntent → Reasons
custody_reasons intent =
    reason_if intent.request_custody "custody was requested; v1 is user self-custodial only"
    ++ (reason_if intent.server_sign "server signing was requested; signing is user off-box only"
        ++ reason_if intent.server_broadcast
            "server broadcast from a server key was requested; refused")

unfoldable pub raise_reasons : Reasons → Result Reasons (Unit {0})
raise_reasons [] = ok tt
raise_reasons (reason ∷ reasons) = err (reason ∷ reasons)

unfoldable pub reject_custody_flags : TransferIntent → Result Reasons (Unit {0})
reject_custody_flags intent = raise_reasons (custody_reasons intent)

-- A step that raises no other exception.
abbrev pub invalid_or {ℓ} : {A : Type ℓ} → Result Reasons A → Result Raised A
invalid_or (err reasons) = err (invalid reasons)
invalid_or (ok value) = ok value

-- `format` writes an amount for the message.
unfoldable pub validate_transfer_intent :
    Texts
    → (format : SolAmount → String) (max_amount_sol : RawAmount) → TransferIntent
    → Result Raised NormalizedIntent
validate_transfer_intent texts format max_amount_sol intent = do
  invalid_or (reject_custody_flags intent)
  action ← invalid_or (parse_action texts intent.action)
  network ← invalid_or (parse_network texts intent.network)
  asset ← invalid_or (parse_asset texts intent.asset)
  amount ← parse_sol_amount intent.amount
  max_amount ← parse_max_amount max_amount_sol
  guard (not (exceeds amount max_amount)) (
      invalid (
        join "" ("amount " ∷ format amount ∷ " SOL exceeds cap " ∷ format max_amount ∷ " SOL" ∷ [])
        ∷ []))
  destination ← invalid_or (validate_solana_address texts intent.destination)
  ok (record {
    network = network;
    asset = asset;
    amount = amount;
    destination = destination;
    lamports = lamports_of amount;
    action = action;
  })

abbrev pub AddressShape : String → Type 0
AddressShape address =
    (has_forbidden address ≡ false) × (32 ≤ text_length address) × (text_length address ≤ 44)
