-- ===== src/Semantic.antt =====
-- JSON values as Python holds them, and the checks of ai4/constrain/semantic_findings.py and
-- ai4/constrain/semantic_taxonomy.py on them. The keys of an object are texts. A number that is no
-- `int` is known by whether it is zero, another finite number, or not finite.
pub mod Findings
use ai4_constrain.Prelude.{
  ℕ, Bool, true, false, not, ◌&&◌, ◌||◌, Option, none, some, List, [], ◌∷◌, ◌++◌, String, str_eq,
  any, every, if◌then◌else◌,
}
use ai4_constrain.Prelude.Int.{ℤ}
use ai4_constrain.Prelude.Result.{Result, ok, err, ◌>>=◌, ◌>>◌, guard}
use ai4_constrain.Prelude.Text.{member}

pub data Float : Type 0 where
  zero_float finite_float not_finite_float : Float

mutual
  pub data Json : Type 0 where
    null : Json
    boolean : Bool → Json
    integer : ℤ → Json
    float : Float → Json
    string : String → Json
    array : Items → Json
    object : Members → Json

  pub data Items : Type 0 where
    no_items : Items
    item : Json → Items → Items

  pub data Members : Type 0 where
    no_members : Members
    pair : String → Json → Members → Members

-- `SemanticFindingsError`, and the `KeyError` of a dictionary.
pub data FindingsError : Type 0 where
  semantic_findings_error findings_key_error : FindingsError

unfoldable pub keys : Members → List String
keys no_members = []
keys (pair key value rest) = key ∷ keys rest

unfoldable pub value_of : String → Members → Option Json
value_of key no_members = none
value_of key (pair k value rest) =
    let later = value_of key rest in if str_eq key k then some value else later

unfoldable pub is_no_items : Items → Bool
is_no_items no_items = true
is_no_items (item _ _) = false

abbrev pub given : Option Json → Result FindingsError Json
given none = err findings_key_error
given (some value) = ok value

-- `document[key]`
abbrev pub at_key : Members → String → Result FindingsError Json
at_key document key = given (value_of key document)

unfoldable pub require_object : Json → Result FindingsError Members
require_object (object members) = ok members
require_object _ = err semantic_findings_error

unfoldable pub require_array : Json → Result FindingsError Items
require_array (array items) = ok items
require_array _ = err semantic_findings_error

-- `_reject_extra`
unfoldable pub reject_extra : Members → List String → Result FindingsError (Unit {0})
reject_extra raw allowed = do
  guard (not (any (λ key. not (member key allowed)) (keys raw))) semantic_findings_error
  guard (every (λ key. member key (keys raw)) allowed) semantic_findings_error
  ok tt

unfoldable pub require_str : Json → Result FindingsError String
require_str (string text) = if str_eq text "" then err semantic_findings_error else ok text
require_str _ = err semantic_findings_error

unfoldable pub require_int : Json → Result FindingsError ℤ
require_int (integer n) = ok n
require_int _ = err semantic_findings_error

-- `_walk_keys`
unfoldable mutual
  pub walk_keys : Json → Result FindingsError (List String)
  walk_keys (object members) = walk_members members
  walk_keys (array items) = walk_items items
  walk_keys (float not_finite_float) = err semantic_findings_error
  walk_keys _ = ok []

  pub walk_items : Items → Result FindingsError (List String)
  walk_items no_items = ok []
  walk_items (item value rest) = do
    first ← walk_keys value
    later ← walk_items rest
    ok (first ++ later)

  pub walk_members : Members → Result FindingsError (List String)
  walk_members no_members = ok []
  walk_members (pair key value rest) = do
    nested ← walk_keys value
    later ← walk_members rest
    ok (key ∷ (nested ++ later))
