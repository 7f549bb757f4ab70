-- ===== src/Filter/Parser/Grouping.antt =====
-- genet-filter/src/parser.rs: how the operator table of `consume_expr` groups three operands.
use genet.Base.{ℕ, suc, ◌≡◌, refl, true, false, some, ltb, if◌then◌else◌, arith}
use genet.Abi.Variant.{Variant}
use genet.Abi.Layer.{Layer}
use genet.Kernel.Frame.{Frame}
use genet.Filter.Value.{Numbers, op_eq, equals, ord, as_number, is_truthy}
use genet.Filter.Expr.{Expr, eval, test}
use genet.Filter.Parser.{
  Rule, Pair, pair, Pairs, end, next, precedence, operators, Readers, infix_expr, consume_operands,
  consume_items, consume_expr,
}
use genet.Filter.Parser.Grammar.{
  is_infix_operator, infix_operator-precedence, consume_operands-operator,
}

-- How tightly an operator holds its operands.
abbrev pub strength : Rule → ℕ
strength Rule.op_eq = 1
strength Rule.op_ne = 1
strength Rule.op_logical_and = 2
strength Rule.op_logical_or = 3
strength _ = 0

precedence-strength :
    (op : Rule) → is_infix_operator op ≡ true → precedence op operators ≡ suc (strength op)
precedence-strength Rule.op_lt h = refl
precedence-strength Rule.op_lte h = refl
precedence-strength Rule.op_gt h = refl
precedence-strength Rule.op_gte h = refl
precedence-strength Rule.op_eq h = refl
precedence-strength Rule.op_ne h = refl
precedence-strength Rule.op_logical_and h = refl
precedence-strength Rule.op_logical_or h = refl
precedence-strength _ h = absurd (cc)

ltb-suc : (m n : ℕ) → ltb (suc m) (suc n) ≡ ltb m n
ltb-suc m n = ground arith

abbrev pub operand : Pairs → Pair
operand items = pair Rule.primary "" items

abbrev pub operator : Rule → Pair
operator op = pair op "" end

-- The tree of `a op b op2 c`.
abbrev pub three : Pairs → Rule → Pairs → Rule → Pairs → Pair
three a op b op2 c = pair Rule.expression "" (
    next (operand a)
      (next (operator op) (next (operand b) (next (operator op2) (next (operand c) end)))))

module _ (nums : Numbers) (readers : Readers) where
  open readers use {climb_three}

  -- Where three operands read as expressions, of two infix operators between them the second takes
  -- the middle operand exactly when it is the stronger one: the comparisons are the weakest, then
  -- equality, `&&` and `||`.
  pub consume_expr-strength :
      (a b c : Pairs) (op op2 : Rule) (l m r : Expr)
      → is_infix_operator op ≡ true
      → is_infix_operator op2 ≡ true
      → consume_items nums readers a ≡ some (some l)
      → consume_items nums readers b ≡ some (some m)
      → consume_items nums readers c ≡ some (some r)
      → consume_expr nums readers (three a op b op2 c) ≡ (
          if ltb (strength op) (strength op2)
          then some (infix_expr l op (infix_expr m op2 r))
          else some (infix_expr (infix_expr l op m) op2 r))
  unfolding consume_expr consume_operands
  consume_expr-strength a b c op op2 l m r h k p q s =
      rw
        (
          p,
          consume_operands-operator nums readers op "" end
              (next (operand b) (next (operator op2) (next (operand c) end))) h,
          q,
          consume_operands-operator nums readers op2 "" end (next (operand c) end) k,
          s,
          climb_three operators infix_expr Rule.primary op Rule.primary op2 Rule.primary l
              (Expr.literal Variant.nil) m (Expr.literal Variant.nil) r refl
              (infix_operator-precedence op h) (infix_operator-precedence op2 k),
          precedence-strength op h,
          precedence-strength op2 k,
          ltb-suc,
        )
        refl

  -- Where a and b read as expressions and c as a literal of type `u64`, the filter `a && b == c` is
  -- read, and passes no frame.
  pub consume_expr-test :
      (a b c : Pairs) (l m : Expr) (n : ℕ)
      → consume_items nums readers a ≡ some (some l)
      → consume_items nums readers b ≡ some (some m)
      → consume_items nums readers c ≡ some (some (Expr.literal (Variant.uint64 n)))
      → (e : Expr) × (consume_expr nums readers (three a Rule.op_logical_and b Rule.op_eq c)
          ≡ some e)
        × ((frame : Frame Layer) → test nums e frame ≡ false)
  unfolding infix_expr
  consume_expr-test a b c l m n p q s =
      let r : Expr = Expr.literal (Variant.uint64 n) in
      (
        Expr.cmp_eq (Expr.logical_and l m) r,
        consume_expr-strength a b c Rule.op_logical_and Rule.op_eq l m r refl refl p q s,
        λ frame. unfold test eval op_eq equals ord as_number is_truthy in refl,
      )
