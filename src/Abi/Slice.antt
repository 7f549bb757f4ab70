-- ===== src/Abi/Slice.antt =====
-- genet-abi/src/slice.rs: a byte slice is the list of its bytes, and `try_get` is bounds-checked.
use genet.Base.{ℕ, ◌-◌, ◌&&◌, List, length, take, drop, get_elem?, if◌then◌else◌, leb}
use genet.Abi.Result.{Result, ok, err, ok_or, out_of_bounds}

abbrev pub ByteSlice : Type 0
ByteSlice = List ℕ

-- `try_get` of a `Range`, of a `RangeFrom` and of an index.
unfoldable pub try_get : ByteSlice → ℕ → ℕ → Result ByteSlice
try_get bytes first last =
    if leb first last && leb last (length bytes)
    then ok (take (last - first) (drop first bytes))
    else err out_of_bounds

unfoldable pub try_get_from : ByteSlice → ℕ → Result ByteSlice
try_get_from bytes first =
    if leb first (length bytes) then ok (drop first bytes) else err out_of_bounds

unfoldable pub try_get_at : ByteSlice → ℕ → Result ℕ
try_get_at bytes index = ok_or (get_elem? bytes index) out_of_bounds
