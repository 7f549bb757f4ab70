-- ===== src/Filter/Unparser/Plain.antt =====
-- genet-filter/src/unparser.rs: a printer without special cases, and the expression whose text the
-- special cases of `unparse` write.
use Prim.Native.String.{String, ◌++◌}
use genet.Base.{◌≡◌, refl, ◌∙◌, Bool, true, false, not, List, Option, none, some, if◌then◌else◌}
use genet.Abi.Variant.{bool}
use genet.Abi.Layer.{Layer}
use genet.Filter.Value.{Numbers, is_truthy, op_eq, equals, ord, as_number}
use genet.Filter.Expr.{
  Expr, literal, token, macro, cmp_eq, cmp_not_eq, cmp_lt, cmp_gt, cmp_lte, cmp_gte, logical_and,
  logical_or, logical_negation, unary_plus, unary_negation, eval,
}
use genet.Filter.Unparser.{Writers, variant_to_string, unparse}

abbrev pub as_bool : Expr → Option Bool
as_bool (literal (bool b)) = some b
as_bool _ = none

-- The Boolean that the other operand is compared with, the right operand's before the left one's.
abbrev pub beside {ℓ} : {A : Type ℓ} → Option Bool → Option Bool → (Bool → A) → (Bool → A) → A → A
beside x (some b) on_left on_right neither = on_left b
beside (some b) none on_left on_right neither = on_right b
beside none none on_left on_right neither = neither

abbrev pub unless : Bool → Expr → Expr
unless true e = e
unless false e = logical_negation e

-- An expression without its comparisons with Boolean literals.
abbrev pub plain : Expr → Expr
plain (cmp_eq l r) =
    beside (as_bool l) (as_bool r) (λ b. unless b (plain l)) (λ b. unless b (plain r))
      (cmp_eq (plain l) (plain r))
plain (cmp_not_eq l r) =
    beside (as_bool l) (as_bool r) (λ b. unless (not b) (plain l)) (λ b. unless (not b) (plain r))
      (cmp_not_eq (plain l) (plain r))
plain (cmp_lt l r) = cmp_lt (plain l) (plain r)
plain (cmp_gt l r) = cmp_gt (plain l) (plain r)
plain (cmp_lte l r) = cmp_lte (plain l) (plain r)
plain (cmp_gte l r) = cmp_gte (plain l) (plain r)
plain (logical_and l r) = logical_and (plain l) (plain r)
plain (logical_or l r) = logical_or (plain l) (plain r)
plain (logical_negation e) = logical_negation (plain e)
plain (unary_plus e) = unary_plus (plain e)
plain (unary_negation e) = unary_negation (plain e)
plain e = e

abbrev same : Bool → Bool → Bool
same a true = a
same a false = not a

module _ (writers : Writers) where
  -- Each operator between its operands.
  abbrev pub print : Expr → String
  print (literal v) = variant_to_string writers v
  print (token t) = t
  print (macro m) = "@" ++ m
  print (cmp_eq l r) = print l ++ " == " ++ print r
  print (cmp_not_eq l r) = print l ++ " != " ++ print r
  print (cmp_lt l r) = print l ++ " < " ++ print r
  print (cmp_gt l r) = print l ++ " > " ++ print r
  print (cmp_lte l r) = print l ++ " <= " ++ print r
  print (cmp_gte l r) = print l ++ " >= " ++ print r
  print (logical_and l r) = print l ++ " && " ++ print r
  print (logical_or l r) = print l ++ " || " ++ print r
  print (logical_negation e) = "!" ++ print e
  print (unary_plus e) = "+" ++ print e
  print (unary_negation e) = "-" ++ print e

  unparse_eq :
      (l r : Expr)
      → unparse writers (cmp_eq l r)
        ≡ beside
            (as_bool l)
            (as_bool r)
            (λ b. if b then unparse writers l else "!" ++ unparse writers l)
            (λ b. if b then unparse writers r else "!" ++ unparse writers r)
            (unparse writers l ++ " == " ++ unparse writers r)
  unfolding unparse
  unparse_eq l (literal (bool true)) = refl
  unparse_eq l (literal (bool false)) = refl
  unparse_eq (literal (bool true)) _ = refl
  unparse_eq (literal (bool false)) _ = refl
  unparse_eq _ _ = refl

  unparse_not_eq :
      (l r : Expr)
      → unparse writers (cmp_not_eq l r)
        ≡ beside
            (as_bool l)
            (as_bool r)
            (λ b. if b then "!" ++ unparse writers l else unparse writers l)
            (λ b. if b then "!" ++ unparse writers r else unparse writers r)
            (unparse writers l ++ " != " ++ unparse writers r)
  unfolding unparse
  unparse_not_eq l (literal (bool true)) = refl
  unparse_not_eq l (literal (bool false)) = refl
  unparse_not_eq (literal (bool true)) _ = refl
  unparse_not_eq (literal (bool false)) _ = refl
  unparse_not_eq _ _ = refl

  print-unless :
      (b : Bool) (e : Expr) → (if b then print e else "!" ++ print e) ≡ print (unless b e)
  print-unless true e = refl
  print-unless false e = refl

  print-unless-not :
      (b : Bool) (e : Expr) → (if b then "!" ++ print e else print e) ≡ print (unless (not b) e)
  print-unless-not true e = refl
  print-unless-not false e = refl

  print-beside :
      (x y : Option Bool) (f g : Bool → String) (s : String) (on_left on_right : Bool → Expr)
      (neither : Expr)
      → ((b : Bool) → f b ≡ print (on_left b))
      → ((b : Bool) → g b ≡ print (on_right b))
      → s ≡ print neither
      → beside x y f g s ≡ print (beside x y on_left on_right neither)
  print-beside x (some b) f g s on_left on_right neither p q t = p b
  print-beside (some b) none f g s on_left on_right neither p q t = q b
  print-beside none none f g s on_left on_right neither p q t = t

  unparse-print : (e : Expr) → unparse writers e ≡ print (plain e)
  unfolding unparse
  unparse-print (cmp_eq l r) =
      rw (unparse_eq l r, unparse-print l, unparse-print r)
        (print-beside (as_bool l) (as_bool r) _ _ _ (λ b. unless b (plain l))
          (λ b. unless b (plain r)) (cmp_eq (plain l) (plain r)) (λ b. print-unless b (plain l))
          (λ b. print-unless b (plain r)) refl)
  unparse-print (cmp_not_eq l r) =
      rw (unparse_not_eq l r, unparse-print l, unparse-print r)
        (print-beside (as_bool l) (as_bool r) _ _ _ (λ b. unless (not b) (plain l))
          (λ b. unless (not b) (plain r)) (cmp_not_eq (plain l) (plain r))
          (λ b. print-unless-not b (plain l)) (λ b. print-unless-not b (plain r)) refl)
  unparse-print (cmp_lt l r) = rw (unparse-print l, unparse-print r) refl
  unparse-print (cmp_gt l r) = rw (unparse-print l, unparse-print r) refl
  unparse-print (cmp_lte l r) = rw (unparse-print l, unparse-print r) refl
  unparse-print (cmp_gte l r) = rw (unparse-print l, unparse-print r) refl
  unparse-print (logical_and l r) = rw (unparse-print l, unparse-print r) refl
  unparse-print (logical_or l r) = rw (unparse-print l, unparse-print r) refl
  unparse-print (logical_negation e) = rw (unparse-print e) refl
  unparse-print (unary_plus e) = rw (unparse-print e) refl
  unparse-print (unary_negation e) = rw (unparse-print e) refl
  unparse-print (literal v) = refl
  unparse-print (token t) = refl
  unparse-print (macro m) = refl

module _ (nums : Numbers) (ctx : List Layer) where
  abbrev pub IsBool : Expr → Type 0
  IsBool e = (b : Bool) × (eval nums ctx e ≡ bool b)

  -- What is compared with a Boolean literal evaluates to a Boolean.
  abbrev pub ComparesBools : Expr → Type 0
  ComparesBools (cmp_eq l r) =
      beside (as_bool l) (as_bool r) (λ _. IsBool l) (λ _. IsBool r) (Unit {0})
      × ComparesBools l
      × ComparesBools r
  ComparesBools (cmp_not_eq l r) =
      beside (as_bool l) (as_bool r) (λ _. IsBool l) (λ _. IsBool r) (Unit {0})
      × ComparesBools l
      × ComparesBools r
  ComparesBools (cmp_lt l r) = ComparesBools l × ComparesBools r
  ComparesBools (cmp_gt l r) = ComparesBools l × ComparesBools r
  ComparesBools (cmp_lte l r) = ComparesBools l × ComparesBools r
  ComparesBools (cmp_gte l r) = ComparesBools l × ComparesBools r
  ComparesBools (logical_and l r) = ComparesBools l × ComparesBools r
  ComparesBools (logical_or l r) = ComparesBools l × ComparesBools r
  ComparesBools (logical_negation e) = ComparesBools e
  ComparesBools (unary_plus e) = ComparesBools e
  ComparesBools (unary_negation e) = ComparesBools e
  ComparesBools _ = Unit {0}

  eval-as_bool : (e : Expr) (b : Bool) → as_bool e ≡ some b → eval nums ctx e ≡ bool b
  unfolding eval
  eval-as_bool (literal (bool a)) b h = cc
  eval-as_bool (literal _) b h = absurd (cc)
  eval-as_bool _ b h = absurd (cc)

  op_eq_bools :
      (a b : Bool)
      → (op_eq nums (bool a) (bool b) ≡ same a b) × (op_eq nums (bool b) (bool a) ≡ same a b)
  unfolding op_eq equals ord as_number
  op_eq_bools true true = (refl, refl)
  op_eq_bools true false = (refl, refl)
  op_eq_bools false true = (refl, refl)
  op_eq_bools false false = (refl, refl)

  eval-unless :
      (e : Expr) (a b : Bool)
      → eval nums ctx e ≡ bool a
      → eval nums ctx (unless b e) ≡ bool (same a b)
  unfolding eval is_truthy
  eval-unless e true true h = h
  eval-unless e false true h = h
  eval-unless e true false h = rw h refl
  eval-unless e false false h = rw h refl

  eval-beside :
      (f : Bool → Bool) (l r pl pr neither : Expr) (x y : Option Bool)
      → as_bool l ≡ x
      → as_bool r ≡ y
      → beside x y (λ _. IsBool l) (λ _. IsBool r) (Unit {0})
      → eval nums ctx pl ≡ eval nums ctx l
      → eval nums ctx pr ≡ eval nums ctx r
      → ((a b : Bool) → same a (f b) ≡ f (same a b))
      → eval nums ctx neither ≡ bool (f (op_eq nums (eval nums ctx l) (eval nums ctx r)))
      → eval nums ctx (beside x y (λ b. unless (f b) pl) (λ b. unless (f b) pr) neither)
        ≡ bool (f (op_eq nums (eval nums ctx l) (eval nums ctx r)))
  eval-beside f l r pl pr neither x (some b) p q (a, h) el er c n =
      rw (eval-unless pl a (f b) (el ∙ h), h, eval-as_bool r b q, (op_eq_bools a b).0, c a b) refl
  eval-beside f l r pl pr neither (some b) none p q (a, h) el er c n =
      rw (eval-unless pr a (f b) (er ∙ h), h, eval-as_bool l b p, (op_eq_bools a b).1, c a b) refl
  eval-beside f l r pl pr neither none none p q h el er c n = n

  same-not : (a b : Bool) → same a (not b) ≡ not (same a b)
  same-not true true = refl
  same-not true false = refl
  same-not false true = refl
  same-not false false = refl

  eval-plain : (e : Expr) → ComparesBools e → eval nums ctx (plain e) ≡ eval nums ctx e
  unfolding eval
  eval-plain (cmp_eq l r) h =
      let el = eval-plain l h.1 in
      let er = eval-plain r h.2 in
      eval-beside (λ b. b) l r (plain l) (plain r) (cmp_eq (plain l) (plain r)) (as_bool l)
        (as_bool r) refl refl h.0 el er (λ a b. refl) (rw (el, er) refl)
  eval-plain (cmp_not_eq l r) h =
      let el = eval-plain l h.1 in
      let er = eval-plain r h.2 in
      eval-beside not l r (plain l) (plain r) (cmp_not_eq (plain l) (plain r)) (as_bool l)
        (as_bool r) refl refl h.0 el er same-not (rw (el, er) refl)
  eval-plain (cmp_lt l r) h = rw (eval-plain l h.0, eval-plain r h.1) refl
  eval-plain (cmp_gt l r) h = rw (eval-plain l h.0, eval-plain r h.1) refl
  eval-plain (cmp_lte l r) h = rw (eval-plain l h.0, eval-plain r h.1) refl
  eval-plain (cmp_gte l r) h = rw (eval-plain l h.0, eval-plain r h.1) refl
  eval-plain (logical_and l r) h = rw (eval-plain l h.0, eval-plain r h.1) refl
  eval-plain (logical_or l r) h = rw (eval-plain l h.0, eval-plain r h.1) refl
  eval-plain (logical_negation e) h = rw (eval-plain e h) refl
  eval-plain (unary_plus e) h = rw (eval-plain e h) refl
  eval-plain (unary_negation e) h = rw (eval-plain e h) refl
  eval-plain (literal v) h = refl
  eval-plain (token t) h = refl
  eval-plain (macro m) h = refl

-- An expression is printed as its plain form is, without special cases. The plain form has the
-- value of the expression, where every operand that is compared with a Boolean literal evaluates to
-- a Boolean.
pub unparse-eval :
    (writers : Writers) (nums : Numbers) (ctx : List Layer) (e : Expr)
    → ComparesBools nums ctx e
    → (unparse writers e ≡ print writers (plain e)) × (eval nums ctx (plain e) ≡ eval nums ctx e)
unparse-eval writers nums ctx e h = (unparse-print writers e, eval-plain nums ctx e h)
