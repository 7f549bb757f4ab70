-- ===== src/Abi/Attr/Crossing.antt =====
-- How values go through `abi_get` and `AttrClass::try_get` of genet-abi/src/attr.rs.
use genet.Base.{ℕ, ◌%◌, ◌^◌, ◌<◌, ◌≡◌, refl, ap, true, false, List, length, take, take-all, arith}
use genet.Base.Int.{IsInt64, of_bits-to_bits}
use genet.Abi.Result.{Result, ok, err, describe}
use genet.Abi.Slice.{ByteSlice}
use genet.Abi.Variant.{Variant, nil, bool, int64, uint64, float64, string, big_int, buffer, slice}
use genet.Abi.Attr.{Attr, encode, decode, attr_value, try_get}

-- The values that a `Variant` of the program can hold.
abbrev pub InRange : Result Variant → Type 0
InRange (ok (int64 z)) = IsInt64 z
InRange (ok (string b)) = length b < 2 ^ 64
InRange (ok (buffer b)) = length b < 2 ^ 64
InRange (ok (slice b)) = length b < 2 ^ 64
InRange _ = Unit

-- What arrives: there is no tag for a `BigInt`, which arrives as `Nil`; of an error the description
-- arrives, its kind and its type do not.
abbrev pub received : Result Variant → Result Variant
received (ok (big_int b)) = ok nil
received (err e) = err (describe e)
received r = r

take-length : (b : List ℕ) → length b < 2 ^ 64 → take (length b % 2 ^ 64) b ≡ b
take-length b h = take-all (length b % 2 ^ 64) b (omega arith)

decode-encode : (r : Result Variant) → InRange r → decode (encode r) ≡ received r
unfolding decode encode
decode-encode (ok nil) h = refl
decode-encode (ok (bool true)) h = refl
decode-encode (ok (bool false)) h = refl
decode-encode (ok (int64 z)) h = ap (λ n. ok (int64 n)) (of_bits-to_bits z h)
decode-encode (ok (uint64 n)) h = refl
decode-encode (ok (float64 n)) h = refl
decode-encode (ok (string b)) h = ap (λ n. ok (string n)) (take-length b h)
decode-encode (ok (big_int b)) h = refl
decode-encode (ok (buffer b)) h = ap (λ n. ok (buffer n)) (take-length b h)
decode-encode (ok (slice b)) h = ap (λ n. ok (slice n)) (take-length b h)
decode-encode (err e) h = refl

-- Reading an attribute gives the value in range that its cast or its builder supplies, a `BigInt`
-- as `Nil`; where the cast fails or there is no value, it gives an error that has the description of
-- that error and not its kind and type.
pub try_get-attr_value :
    (attr : Attr) (bytes : ByteSlice)
    → InRange (attr_value attr bytes)
    → try_get attr bytes ≡ received (attr_value attr bytes)
unfolding try_get
try_get-attr_value attr bytes h = decode-encode (attr_value attr bytes) h
