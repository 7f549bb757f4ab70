-- ===== src/Packages/PcapFile.antt =====
-- package/pcap-file: the reader and the writer of capture files, and what they share. A file that
-- is read is the bytes that are left of it, one that is written the bytes in it.
use Prim.Native.String.{String}
use genet.Base.{ℕ, List, Option, none, ap, ◌∙◌, ◌≡◌}
use genet.Abi.Result.{Result, Error, ok, err}
use genet.Abi.Attr.{AttrClass}
pub mod Reader
pub mod Writer
pub mod Records
pub mod Written
pub mod Copies
pub mod Feeding

-- A computation on a state that can fail, which leaves its state behind.
abbrev pub Io : Type 0 → Type 0 → Type 0
Io S A = S → Result A × S

infixl 5 ◌>>=◌
unfoldable pub ◌>>=◌ : {S A B : Type 0} → Io S A → (A → Io S B) → Io S B
first >>= next = λ s. let (r, s') = first s in elim r [ ok a ↦ next a s' | err e ↦ (err e, s') ]

abbrev pub return : {S A : Type 0} → A → Io S A
return a s = (ok a, s)

abbrev pub lift : {S A : Type 0} → Result A → Io S A
lift r s = (r, s)

-- `def_attr_class!(.., id)`, a class without a cast
abbrev pub value_class : String → String → AttrClass
value_class id typ = record { id = id; typ = typ; cast = none }

-- `TYPE_CLASS`, `LENGTH_CLASS`, `TS_CLASS`, `TS_SEC_CLASS` and `TS_USEC_CLASS`
abbrev pub type_class : AttrClass
type_class = value_class "link.type" ""

abbrev pub length_class : AttrClass
length_class = value_class "link.length" ""

abbrev pub ts_class : AttrClass
ts_class = value_class "link.timestamp" "@datetime:unix"

abbrev pub ts_sec_class : AttrClass
ts_sec_class = value_class "link.timestamp.sec" ""

abbrev pub ts_usec_class : AttrClass
ts_usec_class = value_class "link.timestamp.usec" ""

-- A computation whose first part succeeds goes on with the second.
pub bind_ok :
    {S A B : Type 0} (first : Io S A) (next : A → Io S B) {s s' : S} {a : A} {r : Result B × S}
    → first s ≡ (ok a, s')
    → next a s' ≡ r
    → (first >>= next) s ≡ r
unfolding ◌>>=◌
bind_ok first next e f =
    ap (λ (r : Result _ × _). elim r.0 [ ok a ↦ next a r.1 | err e ↦ (err e, r.1) ]) e ∙ f

-- One whose first part fails fails with it.
pub bind_err :
    {S A B : Type 0} (first : Io S A) (next : A → Io S B) {s s' : S} {x : Error}
    → first s ≡ (err x, s')
    → (first >>= next) s ≡ (err x, s')
unfolding ◌>>=◌
bind_err first next e =
    ap (λ (r : Result _ × _). elim r.0 [ ok a ↦ next a r.1 | err e ↦ (err e, r.1) ]) e
