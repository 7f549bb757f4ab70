-- ===== src/Abi/Token/Interning.antt =====
-- Interning in genet-abi/src/env.rs: the table's invariant, and tokens against their texts.
use Prim.Native.String.{String}
use text.Mathlib.Text.{◌==◌ as str_eq}
use text.Mathlib.TextEquality.{eq_iff}
use text.Mathlib.TextPositions.{eq_refl}
use genet.Base.{
  subst, ◌↔◌, ℕ, ◌+◌, ◌%◌, ◌^◌, ◌<◌, ◌≡◌, ◌≢◌, refl, sym, ap, ◌∙◌, false, List, [], ◌∷◌, ◌++◌,
  length, get_elem?, some, arith, Bool-cases, Option-cases, inl, inr, length-append,
  get_elem?-bound, get_elem?-append_left, get_elem?-append_right,
}
use genet.Abi.Token.{Table, init, lookup, get_token, get_string, token, string}

-- Each entry names a text that is not empty and stands under its number.
abbrev pub Listed : List String → List (String × ℕ) → Type 0
Listed strings [] = Unit {0}
Listed strings ((s, t) ∷ m) = (get_elem? strings t ≡ some s) × (t ≢ 0) × Listed strings m

pub record IsValid (table : Table) : Type 0 where
  pub listed : Listed table.strings table.tokens
  pub same_length : length table.strings ≡ length table.tokens + 1

pub init-IsValid : IsValid init
unfolding init
init-IsValid = record { listed = tt; same_length = refl }

Listed-append :
    (strings : List String) (id : String) (m : List (String × ℕ))
    → Listed strings m
    → Listed (strings ++ id ∷ []) m
Listed-append strings id [] h = tt
Listed-append strings id ((s, t) ∷ m) h = (
  get_elem?-append_left strings (id ∷ []) t (get_elem?-bound strings t s h.0) ∙ h.0,
  h.1,
  Listed-append strings id m h.2,
)

-- What the map finds is in the vector.
lookup-Listed :
    (strings : List String) (m : List (String × ℕ)) (id : String) (t : ℕ)
    → Listed strings m
    → lookup id m ≡ some t
    → (get_elem? strings t ≡ some id) × (t ≢ 0)
unfolding lookup
lookup-Listed strings [] id t h e = cc
lookup-Listed strings ((s, u) ∷ m) id t h e = elim (Bool-cases (str_eq s id)) [
  | inl same ↦
      let eq : s ≡ id = (eq_iff s id).0 same in
      let number : u ≡ t = ground arith in rw (← eq, ← number) (h.0, h.1)
  | inr other ↦ lookup-Listed strings m id t h.2 (ground arith)
]

-- There is room for one more token.
abbrev pub HasRoom : Table → Type 0
HasRoom table = length table.tokens + 1 < 2 ^ 32

abbrev Grows : Table → Table → Type 0
Grows table table' =
    (t : ℕ) → t < length table.strings → get_elem? table'.strings t ≡ get_elem? table.strings t

-- The outcome of interning a text that is not empty.
record Interned (table : Table) (id : String) (r : ℕ × Table) : Type 0 where
  valid : IsValid r.1
  there : get_elem? r.1.strings r.0 ≡ some id
  nonzero : r.0 ≢ 0
  grows : Grows table r.1
  known : lookup id r.1.tokens ≡ some r.0

get_token-Interned :
    (table : Table) (id : String)
    → str_eq id "" ≡ false
    → HasRoom table
    → IsValid table
    → Interned table id (get_token table id)
unfolding get_token lookup
get_token-Interned table id n room v = elim (Option-cases (lookup id table.tokens)) [
  | inl e ↦
      let next : (length table.tokens + 1) % 2 ^ 32 ≡ length table.strings =
        omega (arith, room, v.same_length) in
      let last : get_elem? (table.strings ++ id ∷ []) ((length table.tokens + 1) % 2 ^ 32)
          ≡ some id =
        rw next (get_elem?-append_right table.strings id []) in
      let positive : (length table.tokens + 1) % 2 ^ 32 ≢ 0 = omega (arith, room) in
      rw (n, e, get_token)
        (record {
          valid = record {
            listed = (last, positive, Listed-append table.strings id table.tokens v.listed);
            same_length = omega (arith, length-append table.strings (id ∷ []), v.same_length);
          };
          there = last;
          nonzero = positive;
          grows = λ t h. get_elem?-append_left table.strings (id ∷ []) t h;
          known = rw (eq_refl id);
        })
  | inr (t, e) ↦
      let found = lookup-Listed table.strings table.tokens id t v.listed e in
      rw (n, e, get_token)
        (record { valid = v; there = found.0; nonzero = found.1; grows = λ u h. refl; known = e })
]

-- Interning a text keeps a valid table with room for it valid.
pub token-IsValid :
    (table : Table) (id : String) → HasRoom table → IsValid table → IsValid (token table id).1
unfolding token
token-IsValid table id room v = elim (Bool-cases (str_eq id "")) [
  | inl e ↦ rw (e, token) v
  | inr n ↦ rw (n, token) (get_token-Interned table id n room v).valid
]

-- In a valid table with room for one more token, the text of a token that was just made is the
-- text it was made from, the empty text included, and the texts of all older tokens are what they
-- were.
pub string-token :
    (table : Table) (id : String)
    → HasRoom table
    → IsValid table
    → let (t, table') = token table id in
      (string table' t ≡ id)
      × ((u : ℕ) → u < length table.strings → string table' u ≡ string table u)
unfolding token string get_string
string-token table id room v = elim (Bool-cases (str_eq id "")) [
  | inl e ↦ rw (e, token) (sym ((eq_iff id "").0 e), λ u h. refl)
  | inr n ↦
      let r = get_token-Interned table id n room v in
      rw (n, token) (ground (arith, r.nonzero, r.there), λ u h. ground (arith, r.grows u h))
]

again :
    (table : Table) (id : String) (t : ℕ)
    → str_eq id "" ≡ false
    → lookup id table.tokens ≡ some t
    → (get_token table id).0 ≡ t
unfolding get_token
again table id t n e = rw (n, e, get_token)

both_named :
    (table : Table) (a b : String)
    → IsValid table
    → str_eq a "" ≡ false
    → str_eq b "" ≡ false
    → HasRoom table
    → HasRoom (get_token table a).1
    → let (t, table') = get_token table a in (t ≡ (get_token table' b).0) ↔ (a ≡ b)
both_named table a b v na nb room room' =
    let r = get_token-Interned table a na room v in
    let (t, table') = get_token table a in
    let q = get_token-Interned table' b nb room' r.valid in
    (
      λ e.
          let both : some a ≡ some b =
            sym r.there
            ∙ sym (q.grows t (get_elem?-bound table'.strings t a r.there))
            ∙ ap (get_elem? (get_token table' b).1.strings) e
            ∙ q.there in
          cc,
      λ e. sym (subst (λ c. (get_token table' c).0 ≡ t) e (again table' a t na r.known)),
    )

-- In a valid table with room for both, two texts interned one after the other get the same token
-- exactly when they are the same text.
pub token-injective :
    (table : Table) (a b : String)
    → IsValid table
    → HasRoom table
    → HasRoom (token table a).1
    → let (t, table') = token table a in (t ≡ (token table' b).0) ↔ (a ≡ b)
unfolding token
token-injective table a b v room room' = elim (Bool-cases (str_eq a "")) [
  | inl ea ↦ elim (Bool-cases (str_eq b "")) [
    | inl eb ↦ rw (ea, eb, token) (λ _. (eq_iff a "").0 ea ∙ sym ((eq_iff b "").0 eb), λ _. refl)
    | inr nb ↦
        let r = get_token-Interned table b nb room v in
        rw (ea, nb, token)
          (λ e. absurd (r.nonzero (sym e)), λ e. ground (arith, e, eq_iff a "", eq_iff b ""))
  ]
  | inr na ↦ elim (Bool-cases (str_eq b "")) [
    | inl eb ↦
        let r = get_token-Interned table a na room v in
        rw (na, eb, token)
          (λ e. absurd (r.nonzero e), λ e. ground (arith, e, eq_iff a "", eq_iff b ""))
    | inr nb ↦ rw (na, nb, token) (both_named table a b v na nb room (rw (na, token) at room'))
  ]
]
