-- ===== src/Server/Forms.antt =====
-- internal/server: the fields of a form that a handler collects: metadata and payment method types of
-- paymentintent.go. A form is the map of its fields to their values; a loop that counts up to an index
-- of the form runs on fuel.
pub mod Greatest
pub mod Indices
pub mod Examples
use Prim.Native.String
use payrouter.Prelude.{
  ℕ, zero, suc, ◌+◌, String, code, Bool, true, false, not, ◌&&◌, ◌||◌, Option, none, some, List, [],
  ◌∷◌, Dict, lookup, insert, is_empty, has_prefix, eqb, if◌then◌else◌,
}
use payrouter.GoLib.Strings.{drop_chars}
use payrouter.GoLib.Int64.{ℤ, pos, negsuc, ltb_ℤ, wrap}
use payrouter.GoLib.Strconv.{parse_int, NumError}

-- The text before a `]` at its end.
unfoldable pub before_bracket : String → Option String
before_bracket String.[] = none
before_bracket (String.◌∷◌ c s) =
    let rest = before_bracket s in
    if is_empty s
    then (if eqb (code c) b']' then some "" else none)
    else elim rest [ none ↦ none | some inner ↦ some (String.◌∷◌ c inner) ]

-- What stands between a prefix that ends in `[` and the last `]`.
unfoldable pub inner_key : ℕ → String → String → Option String
unfolding drop_chars before_bracket
inner_key size prefix k =
    let inner = before_bracket (drop_chars size k) in if has_prefix k prefix then inner else none

-- collectMetadata; a nil map is the empty one
unfoldable pub collect_metadata : Dict (List String) → Dict String
unfolding inner_key
collect_metadata [] = []
collect_metadata ((k, vs) ∷ form) =
    let rest = collect_metadata form in
    elim (inner_key 9 "metadata[" k) [
      | none ↦ rest
      | some key ↦ elim vs [ [] ↦ rest | v ∷ more ↦ insert key v rest ]
    ]

unfoldable pub eq_ℤ : ℤ → ℤ → Bool
eq_ℤ a b = not (ltb_ℤ a b) && not (ltb_ℤ b a)

unfoldable pub at_index : ℤ → List (ℤ × String) → Option String
unfolding eq_ℤ
at_index i [] = none
at_index i ((n, v) ∷ indexed) = let later = at_index i indexed in if eq_ℤ n i then some v else later

-- `i++` on int64
unfoldable pub increment : ℤ → ℤ
unfolding wrap
increment (pos n) = wrap (pos (n + 1))
increment (negsuc zero) = pos 0
increment (negsuc (suc n)) = negsuc n

cons_value : Option String → Option (List String) → Option (List String)
cons_value none rest = rest
cons_value (some v) none = none
cons_value (some v) (some vs) = some (v ∷ vs)

-- `for i := 0; i <= maxIdx; i++`; `none` means that the fuel ran out.
unfoldable pub in_order : ℕ → ℤ → ℤ → List (ℤ × String) → Option (List String)
unfolding at_index increment cons_value
in_order zero i max_idx indexed = none
in_order (suc fuel) i max_idx indexed =
    let rest = in_order fuel (increment i) max_idx indexed in
    if ltb_ℤ max_idx i then some [] else cons_value (at_index i indexed) rest

index_of : ℤ × Option NumError → Option ℤ
index_of (n, some e) = none
index_of (n, none) = some n

-- The index of a field `payment_method_types[n]`.
unfoldable pub read_index : String → Option ℤ
unfolding index_of
read_index inner = let n = index_of (parse_int inner) in if is_empty inner then none else n

-- The indexed fields and the greatest of the indices, which starts at -1; of two fields with one index
-- the one walked last counts.
unfoldable pub collect_indexed : Dict (List String) → List (ℤ × String) × ℤ
unfolding inner_key read_index
collect_indexed [] = ([], negsuc 0)
collect_indexed ((k, vs) ∷ form) =
    let (indexed, max_idx) = collect_indexed form in
    elim (inner_key 21 "payment_method_types[" k) [
      | none ↦ (indexed, max_idx)
      | some inner ↦ elim (read_index inner) [
        | none ↦ (indexed, max_idx)
        | some n ↦ elim vs [
          | [] ↦ (indexed, max_idx)
          | v ∷ more ↦ ((n, v) ∷ indexed, (if ltb_ℤ max_idx n then n else max_idx))
        ]
      ]
    ]

unfoldable pub from_indexed : ℕ → List (ℤ × String) × ℤ → Option (List String)
unfolding in_order
from_indexed fuel ([], max_idx) = some []
from_indexed fuel (field ∷ indexed, max_idx) = in_order fuel (pos 0) max_idx (field ∷ indexed)

-- collectPaymentMethodTypes
unfoldable pub collect_payment_method_types : ℕ → Dict (List String) → Option (List String)
unfolding collect_indexed from_indexed
collect_payment_method_types fuel form =
    let by_index = from_indexed fuel (collect_indexed form) in
    elim (lookup "payment_method_types[]" form) [
      | none ↦ by_index
      | some [] ↦ by_index
      | some (v ∷ vs) ↦ some (v ∷ vs)
    ]
