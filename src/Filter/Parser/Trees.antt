-- ===== src/Filter/Parser/Trees.antt =====
-- What genet-filter/src/parser.rs takes from other crates: the rules and trees of the pest crate, its
-- operator climber, and the readers of numbers, texts and addresses.
use Prim.Native.Char.{code}
use Prim.Native.String.{String}
use genet.Base.{
  ℕ, suc, ◌+◌, ◌-◌, ◌*◌, ◌≡◌, ◌⊎◌, Bool, true, false, List, [], ◌∷◌, Option, some, if◌then◌else◌,
  ◌==◌, ltb, leb, ◌&&◌, ◌≤◌, length,
}
use genet.Base.Int.{ℤ, pos}
use genet.Filter.Expr.{Expr}

-- `Rule`, which syntax.pest names.
pub data Rule : Type 0 where
  filter expression primary : Rule
  op_unary_plus op_unary_negation op_logical_negation : Rule
  op_eq op_ne op_lt op_gt op_lte op_gte op_logical_and op_logical_or : Rule
  bin_integer oct_integer hex_integer dec_integer : Rule
  string macro_exp float nil boolean member : Rule

mutual
  pub data Pair : Type 0 where
    pair : Rule → String → Pairs → Pair

  pub data Pairs : Type 0 where
    end : Pairs
    next : Pair → Pairs → Pairs

-- The rules' numbers; the infix operators come first.
abbrev pub number : Rule → ℕ
number Rule.op_lt = 0
number Rule.op_lte = 1
number Rule.op_gt = 2
number Rule.op_gte = 3
number Rule.op_eq = 4
number Rule.op_ne = 5
number Rule.op_logical_and = 6
number Rule.op_logical_or = 7
number Rule.filter = 8
number Rule.expression = 9
number Rule.primary = 10
number Rule.op_unary_plus = 11
number Rule.op_unary_negation = 12
number Rule.op_logical_negation = 13
number Rule.bin_integer = 14
number Rule.oct_integer = 15
number Rule.hex_integer = 16
number Rule.dec_integer = 17
number Rule.string = 18
number Rule.macro_exp = 19
number Rule.float = 20
number Rule.nil = 21
number Rule.boolean = 22
number Rule.member = 23

abbrev pub contains : Rule → List Rule → Bool
contains op [] = false
contains op (r ∷ rs) = if number op == number r then true else contains op rs

-- The precedence of an operator in a table: its entry's index and one.
abbrev pub precedence : Rule → List (List Rule) → ℕ
precedence op [] = 1
precedence op (entry ∷ rest) = if contains op entry then 1 else suc (precedence op rest)

-- An operator of a table.
abbrev pub IsIn : Rule → List (List Rule) → Type 0
IsIn op table = precedence op table ≤ length table

-- Operators that are given once, and in no entry of the table; a table that gives none twice.
abbrev pub are_new : List Rule → List (List Rule) → Bool
are_new [] table = true
are_new (op ∷ ops) table =
    if leb (precedence op table) (length table)
    then false
    else if contains op ops
    then false
    else are_new ops table

abbrev pub are_distinct : List (List Rule) → Bool
are_distinct [] = true
are_distinct (entry ∷ rest) = are_new entry rest && are_distinct rest

-- Operands with an operator of the table between each two.
abbrev pub IsChain : List (List Rule) → List (Rule × Expr) → Type 0
IsChain table [] = ⊥
IsChain table (_ ∷ []) = Unit {0}
IsChain table (_ ∷ (op, _) ∷ rest) = IsIn op table × IsChain table rest

abbrev pub Infix : Type 0
Infix = Expr → Rule → Expr → Expr

-- The value of a text in digits of a radix.
abbrev pub digit : ℕ → ℕ
digit c = if ltb c 58 then c - 48 else if ltb c 91 then c - 55 else c - 87

abbrev pub digits_value : ℕ → ℕ → String → ℕ
digits_value radix acc String.[] = acc
digits_value radix acc (String.◌∷◌ c s) = digits_value radix (acc * radix + digit (code c)) s

abbrev pub is_digit : ℕ → ℕ → Bool
is_digit radix c =
    if ltb c 48
    then false
    else if ltb c 58
    then ltb (c - 48) radix
    else if ltb c 65
    then false
    else if ltb c 71
    then ltb (c - 55) radix
    else if ltb c 97
    then false
    else if ltb c 103
    then ltb (c - 87) radix
    else false

abbrev pub are_digits : ℕ → String → Bool
are_digits radix String.[] = true
are_digits radix (String.◌∷◌ c s) = if is_digit radix (code c) then are_digits radix s else false

-- A text of one digit or more.
abbrev pub is_integer_text : ℕ → String → Bool
is_integer_text radix String.[] = false
is_integer_text radix s = are_digits radix s

pub record Readers : Type 0 where
  -- `FilterParser::parse`, whose error is a message.
  pub parse_filter : String → String ⊎ Pairs
  -- `BigInt::from_str_radix`
  pub from_str_radix : ℕ → String → Option ℤ
  -- `serde_json::from_str` into a text, and `str::parse` into an `f64` and into addresses
  pub json_string : String → Option (List ℕ)
  pub parse_float : String → Option ℕ
  pub parse_ipv4 : String → Option (List ℕ)
  pub parse_ipv6 : String → Option (List ℕ)
  pub parse_hwaddr : String → Option (List ℕ)
  -- `PrecClimber::climb` on a table of left-associative operators
  pub climb : List (List Rule) → Infix → List (Rule × Expr) → Option Expr
  -- It knows the radixes from 2 to 36.
  pub from_str_radix_digits :
      (radix : ℕ) (s : String)
      → 2 ≤ radix
      → radix ≤ 36
      → is_integer_text radix s ≡ true
      → from_str_radix radix s ≡ some (pos (digits_value radix 0 s))
  pub climb_IsChain :
      (table : List (List Rule)) (f : Infix) (items : List (Rule × Expr))
      → IsChain table items
      → (e : Expr) × (climb table f items ≡ some e)
  -- The second operator takes the middle operand where its precedence is the higher one.
  pub climb_three :
      (table : List (List Rule)) (f : Infix) (r op q op2 t : Rule) (a x b y c : Expr)
      → are_distinct table ≡ true
      → IsIn op table
      → IsIn op2 table
      → climb table f ((r, a) ∷ (op, x) ∷ (q, b) ∷ (op2, y) ∷ (t, c) ∷ []) ≡ (
          if ltb (precedence op table) (precedence op2 table)
          then some (f a op (f b op2 c))
          else some (f (f a op b) op2 c))
