-- ===== src/Filter/Parser/Grammar.antt =====
-- genet-filter/src/syntax.pest: the trees that the grammar builds, and what `consume_expr` of
-- genet-filter/src/parser.rs makes of them and of integer literals.
use Prim.Native.String.{String}
use mathlib.Core.Option
use genet.Base.{
  ℕ, ◌≡◌, ◌≢◌, ◌⊎◌, inl, inr, refl, ◌∙◌, ap, Bool, true, false, List, [], ◌∷◌, Option, none, some,
  ltb, ◌≤◌, arith,
}
use genet.Base.Int.{ℤ, pos}
use genet.Abi.Variant.{Variant}
use genet.Filter.Value.{Numbers, shrink}
use genet.Filter.Value.Order.{integer_of, shrink-integer_of}
use genet.Filter.Expr.{Expr}
use genet.Filter.Parser.{
  Rule, Pair, pair, Pairs, end, next, number, operators, IsIn, IsChain, Readers, skip, digits_value,
  is_integer_text, infix_expr, integer_literal, consume_operands, consume_items, consume_item,
  consume_expr, Compiled, compiled, rejected, compile,
}

-- `infix_operator` and `unary`
abbrev pub is_infix_operator : Rule → Bool
is_infix_operator op = ltb (number op) 8

abbrev pub is_unary : Rule → Bool
is_unary Rule.op_unary_plus = true
is_unary Rule.op_unary_negation = true
is_unary Rule.op_logical_negation = true
is_unary _ = false

pub infix_operator-precedence : (op : Rule) → is_infix_operator op ≡ true → IsIn op operators
infix_operator-precedence op h = ground arith

module _ (nums : Numbers) (readers : Readers) where
  open nums use {to_signed, from_signed, signed_round_trip}
  open readers use {
    parse_filter, from_str_radix, json_string, parse_float, climb, from_str_radix_digits,
    climb_IsChain,
  }

  -- The trees of `expression`, `primary` and `unary_operand`, with string and float literals that
  -- the readers take.
  abbrev mutual
    pub IsExpression : Pairs → Type 0
    IsExpression (next (pair Rule.primary _ items) end) = IsPrimary items
    IsExpression (next (pair Rule.primary _ items) (next (pair op _ _) rest)) =
        IsPrimary items × (is_infix_operator op ≡ true) × IsExpression rest
    IsExpression _ = ⊥

    pub IsPrimary : Pairs → Type 0
    IsPrimary (next item end) = IsOperand item
    IsPrimary (next (pair r _ _) (next i rest)) = (is_unary r ≡ true) × IsPrimary (next i rest)
    IsPrimary _ = ⊥

    pub IsOperand : Pair → Type 0
    IsOperand (pair Rule.expression _ inner) = IsExpression inner
    IsOperand (pair Rule.bin_integer s _) = is_integer_text 2 (skip 2 s) ≡ true
    IsOperand (pair Rule.oct_integer s _) = is_integer_text 8 (skip 2 s) ≡ true
    IsOperand (pair Rule.hex_integer s _) = is_integer_text 16 (skip 2 s) ≡ true
    IsOperand (pair Rule.dec_integer s _) = is_integer_text 10 s ≡ true
    IsOperand (pair Rule.string s _) = json_string s ≢ none
    IsOperand (pair Rule.float s _) = parse_float s ≢ none
    IsOperand (pair Rule.macro_exp _ _) = Unit {0}
    IsOperand (pair Rule.nil _ _) = Unit {0}
    IsOperand (pair Rule.boolean _ _) = Unit {0}
    IsOperand (pair Rule.member _ _) = Unit {0}
    IsOperand _ = ⊥

  -- One digit or more of a radix is read as a literal that stands for the integer they write.
  pub integer_literal-integer_of :
      (radix : ℕ) (s : String)
      → 2 ≤ radix
      → radix ≤ 36
      → is_integer_text radix s ≡ true
      → (v : Variant) × (integer_literal nums readers radix s ≡ some (Expr.literal v))
        × (integer_of nums v ≡ some (pos (digits_value radix 0 s)))
  unfolding integer_literal
  integer_literal-integer_of radix s low high h =
      let n : ℤ = pos (digits_value radix 0 s) in
      let read : integer_of nums (Variant.big_int (to_signed n)) ≡ some n =
        ap some (signed_round_trip n) in
      (
        shrink nums (Variant.big_int (to_signed n)),
        rw (from_str_radix_digits radix s low high h) refl,
        (shrink-integer_of nums (Variant.big_int (to_signed n))).0 ∙ read,
      )

  abbrev pub Returns {ℓ} : {A : Type ℓ} → Option A → Type ℓ
  Returns {A = A} x = (a : A) × (x ≡ some a)

  abbrev pub Reads : Pairs → Type 0
  Reads items = (e : Expr) × (consume_items nums readers items ≡ some (some e))

  some_of {ℓ} : {A : Type ℓ} (x : Option A) → x ≢ none → Returns x
  some_of none h = absurd (h refl)
  some_of (some a) h = (a, refl)

  map-Returns {ℓ κ} :
      {A : Type ℓ} {B : Type κ} (f : A → B) (x : Option A) → Returns x → Returns (Option.map f x)
  map-Returns f x (a, q) = (f a, ap (Option.map f) q)

  integer_literal-Returns :
      (radix : ℕ) (s : String)
      → 2 ≤ radix
      → radix ≤ 36
      → is_integer_text radix s ≡ true
      → Returns (integer_literal nums readers radix s)
  integer_literal-Returns radix s low high h =
      let (v, q, _) = integer_literal-integer_of radix s low high h in (Expr.literal v, q)

  pub consume_operands-operator :
      (op : Rule) (s : String) (inner rest : Pairs)
      → is_infix_operator op ≡ true
      → consume_operands nums readers (next (pair op s inner) rest)
        ≡ Option.map
            (λ es. (op, Expr.literal Variant.nil) ∷ es)
            (consume_operands nums readers rest)
  unfolding consume_operands
  consume_operands-operator Rule.primary s inner rest h = absurd (cc)
  consume_operands-operator _ s inner rest h = refl

  consume_item-unary :
      (r : Rule) (s : String) (inner : Pairs) (e : Expr)
      → is_unary r ≡ true
      → Returns (consume_item nums readers (pair r s inner) (some e))
  unfolding consume_item
  consume_item-unary Rule.op_unary_plus s inner e h = (Expr.unary_plus e, refl)
  consume_item-unary Rule.op_unary_negation s inner e h = (Expr.unary_negation e, refl)
  consume_item-unary Rule.op_logical_negation s inner e h = (Expr.logical_negation e, refl)
  consume_item-unary _ s inner e h = absurd (cc)

  mutual
    unfolding consume_operands consume_items consume_item consume_expr

    consume_operands-Returns :
        (ps : Pairs)
        → IsExpression ps
        → (items : List (Rule × Expr)) × (consume_operands nums readers ps ≡ some items)
          × IsChain operators items
    consume_operands-Returns (next (pair Rule.primary _ items) end) h =
        let (e, q) = consume_items-Reads items h in ((Rule.primary, e) ∷ [], rw q refl, tt)
    consume_operands-Returns (next (pair Rule.primary _ items) (next (pair op s inner) rest)) h =
        let (e, q) = consume_items-Reads items h.0 in
        let (es, r, c) = consume_operands-Returns rest h.2 in
        (
          (Rule.primary, e) ∷ (op, Expr.literal Variant.nil) ∷ es,
          rw (q, consume_operands-operator op s inner rest h.1, r) refl,
          (infix_operator-precedence op h.1, c),
        )
    consume_operands-Returns _ h = absurd h

    consume_items-Reads : (items : Pairs) → IsPrimary items → Reads items
    consume_items-Reads (next item end) h =
        let (e, q) = consume_item-Returns item h in (e, rw q refl)
    consume_items-Reads (next (pair r s inner) (next i rest)) h =
        let (e, q) = consume_items-Reads (next i rest) h.1 in
        let (e2, r) = consume_item-unary r s inner e h.0 in (e2, rw (q, r) refl)
    consume_items-Reads end h = absurd h

    consume_item-Returns :
        (item : Pair) → IsOperand item → Returns (consume_item nums readers item none)
    consume_item-Returns (pair Rule.expression _ inner) h =
        let (items, q, c) = consume_operands-Returns inner h in
        let (e, r) = climb_IsChain operators infix_expr items c in (e, rw q r)
    consume_item-Returns (pair Rule.bin_integer s _) h =
        integer_literal-Returns 2 (skip 2 s) (omega arith) (omega arith) h
    consume_item-Returns (pair Rule.oct_integer s _) h =
        integer_literal-Returns 8 (skip 2 s) (omega arith) (omega arith) h
    consume_item-Returns (pair Rule.hex_integer s _) h =
        integer_literal-Returns 16 (skip 2 s) (omega arith) (omega arith) h
    consume_item-Returns (pair Rule.dec_integer s _) h =
        integer_literal-Returns 10 s (omega arith) (omega arith) h
    consume_item-Returns (pair Rule.string s _) h =
        map-Returns _ (json_string s) (some_of (json_string s) h)
    consume_item-Returns (pair Rule.float s _) h =
        map-Returns _ (parse_float s) (some_of (parse_float s) h)
    consume_item-Returns (pair Rule.macro_exp _ _) h = (_, refl)
    consume_item-Returns (pair Rule.nil _ _) h = (_, refl)
    consume_item-Returns (pair Rule.boolean _ _) h = (_, refl)
    consume_item-Returns (pair Rule.member _ _) h = (_, refl)
    consume_item-Returns _ h = absurd h

  -- What the parser gives for a text: a message or the tree of `filter`.
  abbrev pub IsParsed : String ⊎ Pairs → Type 0
  IsParsed (inl message) = Unit {0}
  IsParsed (inr (next (pair Rule.filter _ (next (pair Rule.expression _ inner) _)) _)) =
      IsExpression inner
  IsParsed (inr _) = ⊥

  abbrev pub Compiles : String ⊎ Pairs → Compiled → Type 0
  Compiles (inl message) c = c ≡ rejected message
  Compiles (inr _) c = (e : Expr) × (c ≡ compiled e)

  consume_expr-Returns :
      (text : String) (inner : Pairs)
      → IsExpression inner
      → Returns (consume_expr nums readers (pair Rule.expression text inner))
  unfolding consume_expr
  consume_expr-Returns text inner h =
      let (items, q, c) = consume_operands-Returns inner h in
      let (e, r) = climb_IsChain operators infix_expr items c in (e, rw q r)

  compile-Parsed :
      (text : String) (parsed : String ⊎ Pairs)
      → parse_filter text ≡ parsed
      → IsParsed parsed
      → Compiles parsed (compile nums readers text)
  unfolding compile
  compile-Parsed text (inl message) p h = rw (p, compile) refl
  compile-Parsed text (inr (next (pair Rule.filter _ (next (pair Rule.expression s inner) _)) _)) p
        h =
      let (e, r) = consume_expr-Returns s inner h in (e, rw (p, r, compile) refl)
  compile-Parsed text (inr _) p h = absurd h

  -- Where the parser gives a message or a tree of the grammar whose string and float literals the
  -- readers take, `Filter::compile` does not panic: it passes the message on, or makes a filter of
  -- the tree.
  pub compile-Compiles :
      (text : String)
      → IsParsed (parse_filter text)
      → Compiles (parse_filter text) (compile nums readers text)
  compile-Compiles text h = compile-Parsed text (parse_filter text) refl h
