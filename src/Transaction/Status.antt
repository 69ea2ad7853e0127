-- ===== src/Transaction/Status.antt =====
-- ai4/transaction/status.py: what an RPC node says about a signature, closed on every doubt. The
-- transport of ai4/transaction/rpc.py is an argument. JSON values are what the tests tell apart; an
-- `err` that is present is kept as its text.
use ai4_constrain.Prelude.{
  ◌≡◌, refl, Bool, true, false, Option, none, some, List, [], ◌∷◌, String, str_eq, if◌then◌else◌,
  if-intro, subst, sym, ap, ◌∙◌,
}
use ai4_constrain.Prelude.Int.{ℤ}
use ai4_constrain.Prelude.Result.{Result, ok, err}
use ai4_constrain.Prelude.Text.{join, member}
use ai4_constrain.Transaction.{
  Network, mainnet_beta, devnet, localnet, RawText, text, not_text, Raw, enum, raw, Texts, Reasons,
}
use ai4_constrain.Transaction.Validate.{parse_network, validate_solana_signature}
use ai4_constrain.Transaction.Firewall.{network_value}

pub record Receipt : Type 0 where
  pub signature : String
  pub fail_closed : Bool
  pub reasons : Reasons
  pub confirmation_status : Option String
  pub slot : Option ℤ
  pub err : Option String
  pub explorer_url : Option String
  pub network : Option String
  pub rpc_used : Bool

-- `True` and `False` are integers to Python.
pub data RawSlot : Type 0 where
  no_slot other_slot : RawSlot
  int_slot : ℤ → RawSlot

pub record Entry : Type 0 where
  pub confirmation : RawText
  pub slot : RawSlot
  pub err : Option String

pub data RawEntry : Type 0 where
  null_entry no_object : RawEntry
  object : Entry → RawEntry

-- The transport raises, or answers with no result object, no list under `value`, or a list.
pub data Answer : Type 0 where
  refused : Reasons → Answer
  failed : String → Answer
  no_result no_value : Answer
  value : List RawEntry → Answer

-- `shown` is `str(signature or "")`.
pub record Rpc : Type 0 where
  pub texts : Texts
  pub shown : RawText → String
  pub resolve_rpc_url : Option String → Option String
  pub rpc_post : (url signature : String) → Answer

unfoldable pub explorer_url_for : String → Network → Option String
explorer_url_for signature mainnet_beta =
    some (join "" ("https://explorer.solana.com/tx/" ∷ signature ∷ []))
explorer_url_for signature devnet =
    some (join "" ("https://explorer.solana.com/tx/" ∷ signature ∷ "?cluster=devnet" ∷ []))
explorer_url_for signature localnet = none

-- `_explorer_url`
pub explorer_url : String → Option Network → Option String
explorer_url signature none = none
explorer_url signature (some network) = explorer_url_for signature network

pub value_of_network : Option Network → Option String
value_of_network none = none
value_of_network (some network) = some (network_value network)

-- A receipt that is closed, before or after the node was asked.
pub unasked : String → Reasons → Receipt
unasked signature reasons = record {
  signature = signature;
  fail_closed = true;
  reasons = reasons;
  confirmation_status = none;
  slot = none;
  err = none;
  explorer_url = none;
  network = none;
  rpc_used = false;
}

pub asked : String → Option Network → Reasons → Receipt
asked signature network reasons = record {
  signature = signature;
  fail_closed = true;
  reasons = reasons;
  confirmation_status = none;
  slot = none;
  err = none;
  explorer_url = explorer_url signature network;
  network = value_of_network network;
  rpc_used = true;
}

abbrev pub known_confirmation : List String
known_confirmation = "processed" ∷ "confirmed" ∷ "finalized" ∷ []

unfoldable pub int_of : RawSlot → Option ℤ
int_of (int_slot n) = some n
int_of _ = none

pub unknown_confirmation : String → Option Network → Entry → Receipt
unknown_confirmation signature network entry =
    record (asked signature network
      ("confirmationStatus is missing or unknown; fail closed" ∷ [])) {
        err = entry.err;
        slot = int_of entry.slot;
      }

unfoldable pub observed : String → Option Network → Entry → String → Receipt
observed signature network entry confirmation = record {
  signature = signature;
  fail_closed = false;
  reasons = [];
  confirmation_status = some confirmation;
  slot = int_of entry.slot;
  err = entry.err;
  explorer_url = explorer_url signature network;
  network = value_of_network network;
  rpc_used = true;
}

unfoldable pub with_slot : String → Option Network → Entry → String → RawSlot → Receipt
with_slot signature network entry confirmation other_slot =
    record (asked signature network ("slot is not an integer; fail closed" ∷ [])) {
      confirmation_status = some confirmation;
    }
with_slot signature network entry confirmation no_slot =
    observed signature network entry confirmation
with_slot signature network entry confirmation (int_slot n) =
    observed signature network entry confirmation

unfoldable pub with_confirmation : String → Option Network → Entry → RawText → Receipt
with_confirmation signature network entry not_text = unknown_confirmation signature network entry
with_confirmation signature network entry (text confirmation) =
    if member confirmation known_confirmation
    then with_slot signature network entry confirmation entry.slot
    else unknown_confirmation signature network entry

unfoldable pub read_entry : String → Option Network → RawEntry → Receipt
read_entry signature network null_entry =
    asked signature network ("signature not found or status is null; fail closed" ∷ [])
read_entry signature network no_object =
    asked signature network ("signature status entry is not an object; fail closed" ∷ [])
read_entry signature network (object entry) =
    with_confirmation signature network entry entry.confirmation

unfoldable pub read_answer : String → Option Network → Answer → Receipt
read_answer signature network (refused reasons) = asked signature network reasons
read_answer signature network (failed e) =
    asked signature network (join "" ("RPC call failed closed: " ∷ e ∷ []) ∷ [])
read_answer signature network no_result =
    asked signature network ("getSignatureStatuses result is not an object; fail closed" ∷ [])
read_answer signature network no_value =
    asked signature network ("getSignatureStatuses value is missing; fail closed" ∷ [])
read_answer signature network (value []) =
    asked signature network ("getSignatureStatuses value is missing; fail closed" ∷ [])
read_answer signature network (value (entry ∷ _)) = read_entry signature network entry

abbrev no_url : Reasons
no_url =
    "no Solana RPC URL; pass --rpc-url or set AI4_SOLANA_RPC_URL (documented empty optional in .env.example)"
    ∷ []

pub no_url_receipt : String → Option Network → Receipt
no_url_receipt signature network = record (asked signature network no_url) { rpc_used = false }

unfoldable pub with_url : Rpc → String → Option Network → Option String → Receipt
with_url rpc signature network none = no_url_receipt signature network
with_url rpc signature network (some url) =
    if str_eq url ""
    then no_url_receipt signature network
    else read_answer signature network (rpc.rpc_post url signature)

-- `None` and a blank text are no network; an object of another type is shown as a text that is not
-- blank.
unfoldable pub optional_network : Texts → Option (Raw Network) → Result Reasons (Option Network)
optional_network texts none = ok none
optional_network texts (some (enum network)) = ok (some network)
optional_network texts (some (raw not_text)) = err ("network is required" ∷ [])
optional_network texts (some (raw (text name))) =
    if str_eq (texts.strip name) "" then ok none else elim (parse_network texts (raw (text name))) [
      | err reasons ↦ err reasons
      | ok network ↦ ok (some network)
    ]

unfoldable pub with_network :
    Rpc → String → Option String → Result Reasons (Option Network) → Receipt
with_network rpc signature rpc_url (err reasons) = unasked signature reasons
with_network rpc signature rpc_url (ok network) =
    with_url rpc signature network (rpc.resolve_rpc_url rpc_url)

unfoldable pub with_signature :
    Rpc → RawText → Option String → Option (Raw Network) → Result Reasons String → Receipt
with_signature rpc signature rpc_url network (err reasons) = unasked (rpc.shown signature) reasons
with_signature rpc signature rpc_url network (ok sig) =
    with_network rpc sig rpc_url (optional_network rpc.texts network)

unfoldable pub status :
    Rpc → RawText → (rpc_url : Option String) → (network : Option (Raw Network)) → Receipt
status rpc signature rpc_url network =
    with_signature rpc signature rpc_url network (validate_solana_signature rpc.texts signature)

-- What the node's answer says, and that the receipt repeats it.
abbrev pub Reported : Answer → Receipt → Type 0
Reported answer r =
    (entry : Entry) × (later : List RawEntry) × (confirmation : String) × (answer
      ≡ value (object entry ∷ later))
    × (entry.confirmation ≡ text confirmation)
    × (member confirmation known_confirmation ≡ true)
    × (r.confirmation_status ≡ some confirmation)
    × (r.err ≡ entry.err)
    × (r.slot ≡ int_of entry.slot)

-- The signature is a valid one, and a node was asked about it.
abbrev pub Observed : Rpc → RawText → Option String → Receipt → Type 0
Observed rpc signature rpc_url r =
    (validate_solana_signature rpc.texts signature ≡ ok r.signature)
    × ((url : String) × (rpc.resolve_rpc_url rpc_url ≡ some url)
        × Reported (rpc.rpc_post url r.signature) r)

-- A claim about the receipts that are not closed.
abbrev Open : (Receipt → Type 0) → Receipt → Type 0
Open P r = r.fail_closed ≡ false → P r

abbrev Repeats : String → Answer → Receipt → Type 0
Repeats signature answer r = (r.signature ≡ signature) × Reported answer r

with_slot-Repeats :
    (signature : String) (network : Option Network) (entry : Entry) (later : List RawEntry)
    (confirmation : String) (slot : RawSlot)
    → entry.confirmation ≡ text confirmation
    → member confirmation known_confirmation ≡ true
    → Open
        (Repeats signature (value (object entry ∷ later)))
        (with_slot signature network entry confirmation slot)
unfolding with_slot observed asked
with_slot-Repeats signature network entry later confirmation other_slot e known = λ is_open. cc
with_slot-Repeats signature network entry later confirmation no_slot e known =
    λ is_open. (refl, (entry, later, confirmation, refl, e, known, refl, refl, refl))
with_slot-Repeats signature network entry later confirmation (int_slot n) e known =
    λ is_open. (refl, (entry, later, confirmation, refl, e, known, refl, refl, refl))

with_confirmation-Repeats :
    (signature : String) (network : Option Network) (entry : Entry) (later : List RawEntry)
    (confirmation : RawText)
    → entry.confirmation ≡ confirmation
    → Open
        (Repeats signature (value (object entry ∷ later)))
        (with_confirmation signature network entry confirmation)
unfolding with_confirmation unknown_confirmation asked
with_confirmation-Repeats signature network entry later not_text e = λ is_open. cc
with_confirmation-Repeats signature network entry later (text confirmation) e =
    if-intro (Open (Repeats signature (value (object entry ∷ later))))
      (member confirmation known_confirmation) _ _
      (λ known. with_slot-Repeats signature network entry later confirmation entry.slot e known)
      λ _ is_open. cc

read_answer-Repeats :
    (signature : String) (network : Option Network) (answer : Answer)
    → Open (Repeats signature answer) (read_answer signature network answer)
unfolding read_answer read_entry asked
read_answer-Repeats signature network (refused reasons) = λ is_open. cc
read_answer-Repeats signature network (failed e) = λ is_open. cc
read_answer-Repeats signature network no_result = λ is_open. cc
read_answer-Repeats signature network no_value = λ is_open. cc
read_answer-Repeats signature network (value []) = λ is_open. cc
read_answer-Repeats signature network (value (null_entry ∷ later)) = λ is_open. cc
read_answer-Repeats signature network (value (no_object ∷ later)) = λ is_open. cc
read_answer-Repeats signature network (value (object entry ∷ later)) =
    with_confirmation-Repeats signature network entry later entry.confirmation refl

abbrev Asked : Rpc → String → Option String → Receipt → Type 0
Asked rpc signature rpc_url r =
    (r.signature ≡ signature)
    × ((url : String) × (rpc.resolve_rpc_url rpc_url ≡ some url)
        × Reported (rpc.rpc_post url signature) r)

with_url-Asked :
    (rpc : Rpc) (signature : String) (network : Option Network) (rpc_url url : Option String)
    → rpc.resolve_rpc_url rpc_url ≡ url
    → Open (Asked rpc signature rpc_url) (with_url rpc signature network url)
unfolding with_url no_url_receipt asked
with_url-Asked rpc signature network rpc_url none e = λ is_open. cc
with_url-Asked rpc signature network rpc_url (some url) e =
    if-intro (Open (Asked rpc signature rpc_url)) (str_eq url "") _ _ (λ _ is_open. cc)
      λ _ is_open.
        let found = read_answer-Repeats signature network (rpc.rpc_post url signature) is_open in
        (found.0, (url, e, found.1))

with_network-Asked :
    (rpc : Rpc) (signature : String) (rpc_url : Option String)
    (network : Result Reasons (Option Network))
    → Open (Asked rpc signature rpc_url) (with_network rpc signature rpc_url network)
unfolding with_network unasked
with_network-Asked rpc signature rpc_url (err reasons) = λ is_open. cc
with_network-Asked rpc signature rpc_url (ok network) =
    with_url-Asked rpc signature network rpc_url _ refl

with_signature-Observed :
    (rpc : Rpc) (signature : RawText) (rpc_url : Option String) (network : Option (Raw Network))
    (checked : Result Reasons String)
    → validate_solana_signature rpc.texts signature ≡ checked
    → Open (Observed rpc signature rpc_url) (with_signature rpc signature rpc_url network checked)
unfolding with_signature unasked
with_signature-Observed rpc signature rpc_url network (err reasons) e = λ is_open. cc
with_signature-Observed rpc signature rpc_url network (ok sig) e = λ is_open.
    let r = with_network rpc sig rpc_url (optional_network rpc.texts network) in
    let found = with_network-Asked rpc sig rpc_url (optional_network rpc.texts network) is_open in
    (
      e ∙ ap ok (sym found.0),
      (
        found.1.0,
        found.1.1,
        subst (λ s. Reported (rpc.rpc_post found.1.0 s) r) (sym found.0) found.1.2,
      ),
    )

-- A receipt that is not closed is about a valid signature, and repeats the confirmation, the error
-- and the slot of the first entry that the RPC node answered about it, where the confirmation is one
-- of the three known ones.
pub status-Observed :
    (rpc : Rpc) (signature : RawText) (rpc_url : Option String) (network : Option (Raw Network))
    → (status rpc signature rpc_url network).fail_closed ≡ false
    → Observed rpc signature rpc_url (status rpc signature rpc_url network)
unfolding status
status-Observed rpc signature rpc_url network =
    with_signature-Observed rpc signature rpc_url network _ refl
