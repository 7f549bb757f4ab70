-- ===== src/Tests/Filter.antt =====
-- The filter language on concrete values, layers and trees.
use Prim.Native.Nat.{compare}
use Prim.Native.String.{String}
use genet.Base.{
  ℕ, ◌≡◌, ◌↔◌, ◌⊎◌, ◌++◌, refl, inr, Bool, true, false, List, [], ◌∷◌, Option, none, some, ltb,
  if◌then◌else◌, take, drop, arith, ◌-◌,
}
use genet.Base.Int.{ℤ, pos, negsuc}
use genet.Base.Bytes.{of_bytes_be}
use genet.Kernel.Frame.{Frame, indices}
use genet.Kernel.Store.{FilterContext, Loop, filtered_frames, process_push_filter, store_frames}
use genet.Kernel.Store.EventLoop.{Command, keep_frames, set_filter, start, run, round, handle}
use genet.Kernel.Store.Filtering.{
  process_filters, run_filters, run_filter, matches, advance, add_indices,
}
use genet.Base.Map.{lookup, insert, remove}
use genet.Abi.Variant.{int64, uint64, buffer, slice, bool, nil}
use genet.Abi.Layer.{Layer, find_attr}
use genet.Filter.Value.{Numbers, compare_int, ord, op_eq, is_truthy, shrink}
use genet.Filter.Value.Order.{ord-compare_int, op_eq-bytes}
use genet.Filter.Expr.{
  Expr, token, literal, cmp_eq, cmp_lt, logical_negation, eval, test, layer_value, search_layers,
}
use genet.Filter.Expr.Topmost.{AreSilent, Says, eval-token}
use genet.Filter.Stored.{with_layer, run-token}
use genet.Filter.Unparser.{Writers, unparse}
use genet.Filter.Unparser.Plain.{plain, print, unparse-eval}
use genet.Filter.Parser.{
  Rule, pair, Pairs, end, next, precedence, IsChain, Infix, Readers, digits_value, is_integer_text,
  infix_expr, integer_literal, consume_items, consume_item, consume_expr, compile,
}
use genet.Filter.Parser.Grammar.{Compiles, compile-Compiles}
use genet.Filter.Parser.Grouping.{three, consume_expr-strength, consume_expr-test}

-- One byte for a number, and one more before it for a negative one.
abbrev to_signed : ℤ → List ℕ
to_signed (pos n) = n ∷ []
to_signed (negsuc n) = 255 ∷ n ∷ []

abbrev from_signed : List ℕ → ℤ
from_signed (n ∷ []) = pos n
from_signed (_ ∷ n ∷ _) = negsuc n
from_signed [] = pos 0

signed_round_trip : (z : ℤ) → from_signed (to_signed z) ≡ z
signed_round_trip (pos n) = refl
signed_round_trip (negsuc n) = refl

abbrev numbers : Numbers
numbers = record {
  from_signed = from_signed;
  to_signed = to_signed;
  signed_round_trip = signed_round_trip;
  float_compare = λ a b. some (compare a b);
  float_neg = λ a. a;
  float_to_i64 = pos;
  float_to_u64 = λ a. a;
  float_of_i64 = λ z. elim z [ pos n ↦ n | negsuc n ↦ n ];
  float_of_u64 = λ a. a;
}

abbrev from_left : Infix → Expr → List (Rule × Expr) → Option Expr
from_left f a [] = some a
from_left f a (_ ∷ []) = none
from_left f a ((op, _) ∷ (_, b) ∷ rest) = from_left f (f a op b) rest

abbrev climb : List (List Rule) → Infix → List (Rule × Expr) → Option Expr
climb table f ((_, a) ∷ (op, _) ∷ (_, b) ∷ (op2, _) ∷ (_, c) ∷ []) =
    if ltb (precedence op table) (precedence op2 table)
    then some (f a op (f b op2 c))
    else some (f (f a op b) op2 c)
climb table f ((_, a) ∷ rest) = from_left f a rest
climb table f [] = none

another_head :
    (table : List (List Rule)) (i j : Rule × Expr) (rest : List (Rule × Expr))
    → IsChain table (i ∷ rest)
    → IsChain table (j ∷ rest)
another_head table i j [] h = tt
another_head table i j (_ ∷ []) h = absurd h.1
another_head table i j ((op, x) ∷ k ∷ rest) h = h

from_left_chain :
    (table : List (List Rule)) (f : Infix) (r : Rule) (a : Expr) (items : List (Rule × Expr))
    → IsChain table ((r, a) ∷ items)
    → (e : Expr) × (from_left f a items ≡ some e)
from_left_chain table f r a [] h = (a, refl)
from_left_chain table f r a ((op, x) ∷ []) h = absurd h.1
from_left_chain table f r a ((op, x) ∷ (q, b) ∷ rest) h =
    from_left_chain table f q (f a op b) rest (another_head table (q, b) (q, f a op b) rest h.1)

if_some : (b : Bool) (d e : Expr) → (r : Expr) × ((if b then some d else some e) ≡ some r)
if_some true d e = (d, refl)
if_some false d e = (e, refl)

climb_IsChain :
    (table : List (List Rule)) (f : Infix) (items : List (Rule × Expr))
    → IsChain table items
    → (e : Expr) × (climb table f items ≡ some e)
climb_IsChain table f [] h = absurd h
climb_IsChain table f ((r, a) ∷ []) h = (a, refl)
climb_IsChain table f ((r, a) ∷ _ ∷ []) h = absurd h.1
climb_IsChain table f ((r, a) ∷ (op, x) ∷ (q, b) ∷ []) h = (f a op b, refl)
climb_IsChain table f ((r, a) ∷ (op, x) ∷ (q, b) ∷ (op2, y) ∷ []) h = absurd h.1.1
climb_IsChain table f ((r, a) ∷ (op, x) ∷ (q, b) ∷ (op2, y) ∷ (t, c) ∷ []) h =
    if_some (ltb (precedence op table) (precedence op2 table)) (f a op (f b op2 c))
      (f (f a op b) op2 c)
climb_IsChain table f ((r, a) ∷ (op, x) ∷ (q, b) ∷ (op2, y) ∷ (t, c) ∷ i ∷ rest) h =
    from_left_chain table f r a ((op, x) ∷ (q, b) ∷ (op2, y) ∷ (t, c) ∷ i ∷ rest) h

-- The parser gives one tree for every text.
abbrev readers : Pairs → Readers
readers tree = record {
  parse_filter = λ text. inr tree;
  from_str_radix =
      λ radix s. if is_integer_text radix s then some (pos (digits_value radix 0 s)) else none;
  json_string = λ s. some [];
  parse_float = λ s. some 0;
  parse_ipv4 = λ s. none;
  parse_ipv6 = λ s. none;
  parse_hwaddr = λ s. none;
  climb = climb;
  from_str_radix_digits = λ radix s low high h. rw h refl;
  climb_IsChain = climb_IsChain;
  climb_three = λ table f r op q op2 t a x b y c distinct first second. refl;
}

abbrev operand : Rule → String → Pairs
operand r s = next (pair r s end) end

-- `tcp && !udp`
abbrev tree : Pairs
tree =
    next
      (pair Rule.filter "" (
        next
          (pair Rule.expression "" (
            next (pair Rule.primary "tcp" (operand Rule.member "tcp")) (
              next (pair Rule.op_logical_and "&&" end) (
                next
                  (pair Rule.primary "!udp"
                    (next (pair Rule.op_logical_negation "!" end) (operand Rule.member "udp")))
                  end))))
          end))
      end

ord-compare_int_example :
    ord numbers (int64 (negsuc 3)) (uint64 5) ≡ some (compare_int (negsuc 3) (pos 5))
ord-compare_int_example =
    ord-compare_int numbers (int64 (negsuc 3)) (uint64 5) (negsuc 3) (pos 5) refl refl (omega arith)

op_eq-bytes_example :
    (op_eq numbers (buffer (0 ∷ 7 ∷ [])) (slice (7 ∷ [])) ≡ true)
    ↔ (of_bytes_be (0 ∷ 7 ∷ []) ≡ of_bytes_be (7 ∷ []))
op_eq-bytes_example =
    op_eq-bytes numbers (buffer (0 ∷ 7 ∷ [])) (slice (7 ∷ [])) (0 ∷ 7 ∷ []) (7 ∷ []) refl refl

abbrev layer : String → Layer
layer id = record {
  class = record { id = id; aliases = []; headers = [] };
  bytes = [];
  attrs = [];
  payloads = [];
}

abbrev two_layers : List Layer
two_layers = layer "eth" ∷ layer "tcp" ∷ []

eval-token_example :
    ((below : List Layer) × (l : Layer) × (above : List Layer) × (two_layers ≡ below ++ l ∷ above)
      × AreSilent "eth" above
      × Says "eth" l (eval numbers two_layers (token "eth")))
    ⊎ (AreSilent "eth" two_layers × (eval numbers two_layers (token "eth") ≡ nil))
eval-token_example = eval-token numbers "eth" two_layers

abbrev frame : ℕ → String → Frame Layer
frame index id = record { index = index; layers = layer "eth" ∷ layer id ∷ []; tree_indices = [] }

abbrev history : List (Command Layer Expr ℕ)
history = set_filter 1 (some (token "tcp")) ∷ keep_frames (frame 0 "udp" ∷ frame 1 "tcp" ∷ []) ∷ []

abbrev reached : Loop Layer Expr ℕ
reached = run (test numbers) start history

abbrev in_use : FilterContext Expr
in_use = record { filter = token "tcp"; offset = 2 }

run-token_example :
    filtered_frames reached.shared 1 0 9
    ≡ take (9 - 0) (drop 0 (indices (with_layer "tcp" reached.shared.frames)))
unfolding run start round handle process_push_filter store_frames process_filters run_filters
    run_filter matches advance add_indices lookup insert remove test is_truthy eval search_layers
    layer_value find_attr
run-token_example =
    run-token numbers history reached in_use 1 0 9 "tcp" refl refl refl
      ((refl, (refl, tt)), ((refl, (refl, tt)), tt))

abbrev writers : Writers
writers = record {
  write_i64 = λ z. "0";
  write_u64 = λ n. "5";
  write_f64 = λ n. "0.0";
  write_json = λ s. "";
  write_hex = λ n. "0";
  write_ipv4 = λ b. "";
  write_ipv6 = λ b. "";
  write_hwaddr = λ b. "";
}

-- `!tcp == false`
abbrev negated : Expr
negated = cmp_eq (logical_negation (token "tcp")) (literal (bool false))

unparse-eval_example :
    (unparse writers negated ≡ print writers (plain negated))
    × (eval numbers [] (plain negated) ≡ eval numbers [] negated)
unfolding eval is_truthy search_layers
unparse-eval_example = unparse-eval writers numbers [] negated ((true, refl), tt, tt)

text_of_negated : unparse writers negated ≡ "!!tcp"
unfolding unparse
text_of_negated = refl

compile-Compiles_example :
    Compiles numbers (readers tree) (inr tree) (compile numbers (readers tree) "tcp && !udp")
compile-Compiles_example =
    compile-Compiles numbers (readers tree) "tcp && !udp" (tt, refl, (refl, tt))

consume_expr-strength_example :
    consume_expr numbers (readers end) (
      three
        (operand Rule.member "tcp")
        Rule.op_lt
        (operand Rule.nil "nil")
        Rule.op_eq
        (operand Rule.member "udp"))
    ≡ some (cmp_lt (token "tcp") (cmp_eq (literal nil) (token "udp")))
unfolding infix_expr consume_items consume_item
consume_expr-strength_example =
    consume_expr-strength numbers (readers end) (operand Rule.member "tcp") (operand Rule.nil "nil")
      (operand Rule.member "udp") Rule.op_lt Rule.op_eq (token "tcp") (literal nil) (token "udp")
      refl refl refl refl refl

consume_expr-test_example :
    (e : Expr) × (consume_expr numbers (readers end) (
        three
          (operand Rule.member "tcp")
          Rule.op_logical_and
          (operand Rule.member "ip")
          Rule.op_eq
          (operand Rule.dec_integer "64"))
      ≡ some e)
    × ((frame : Frame Layer) → test numbers e frame ≡ false)
unfolding consume_items consume_item integer_literal shrink
consume_expr-test_example =
    consume_expr-test numbers (readers end) (operand Rule.member "tcp") (operand Rule.member "ip")
      (operand Rule.dec_integer "64") (token "tcp") (token "ip") 64 refl refl refl
