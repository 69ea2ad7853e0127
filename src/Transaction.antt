-- ===== src/Transaction.antt =====
-- ai4/transaction/types.py: the data of the transfer firewall. An amount of SOL is a `Decimal`, a
-- coefficient times a power of ten.
pub mod Amount
pub mod Validate
pub mod Firewall
pub mod Base58
pub mod Binding
pub mod Prepare
pub mod Status
pub mod Proof
mod Examples
use ai4_constrain.Prelude.{ℕ, Bool, Option, String, List}
use ai4_constrain.Prelude.Int.{ℤ}

pub data Network : Type 0 where
  mainnet_beta devnet localnet : Network

pub data Asset : Type 0 where
  sol : Asset

-- A `str`, or an object of another type.
pub data RawText : Type 0 where
  text : String → RawText
  not_text : RawText

-- A member of an enumeration, or something to parse.
pub data Raw (A : Type 0) : Type 0 where
  enum : A → Raw A
  raw : RawText → Raw A

pub data RawAmount : Type 0 where
  boolean no_decimal not_finite : RawAmount
  decimal : (coefficient exponent : ℤ) → RawAmount

-- A `Decimal` that is finite and not negative.
pub record SolAmount : Type 0 where
  pub coefficient : ℕ
  pub exponent : ℤ

pub record TransferIntent : Type 0 where
  pub network : Raw Network
  pub asset : Raw Asset
  pub amount : RawAmount
  pub destination : RawText
  pub action : Option RawText
  pub request_custody : Bool
  pub server_sign : Bool
  pub server_broadcast : Bool

pub record NormalizedIntent : Type 0 where
  pub network : Network
  pub asset : Asset
  pub amount : SolAmount
  pub destination : String
  pub lamports : ℕ
  pub action : String

-- The library calls on texts.
pub record Texts : Type 0 where
  pub strip : String → String
  pub lower : String → String
  pub upper : String → String
  pub repr : String → String

pub data Decision : Type 0 where
  allow deny : Decision

-- What the firewall reads of a `DecisionReport`.
pub record DecisionReport : Type 0 where
  pub decision : Option String
  pub mode : String

-- `TransactionControlError` and `TransactionValidationError` carry reasons.
abbrev pub Reasons : Type 0
Reasons = List String

-- What leaves the validation: its error with reasons, or `decimal.Overflow`, which it does not catch.
pub data Raised : Type 0 where
  invalid : Reasons → Raised
  decimal_overflow : Raised
