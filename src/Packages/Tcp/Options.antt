-- ===== src/Packages/Tcp/Options.antt =====
-- Termination of the loop over the TCP options, package/tcp/tcp/src/lib.rs.
use genet.Base.{
  ℕ, zero, suc, ◌+◌, ◌-◌, ◌≤◌, ◌<◌, ◌≡◌, ◌⊎◌, inl, inr, refl, ◌∙◌, List, [], ◌∷◌, ◌++◌, none, some,
  true, false, if◌then◌else◌, ltb, leb, ◌==◌, arith, Bool-cases,
}
use genet.Abi.Result.{Result, ok, err, Result-cases}
use genet.Abi.Slice.{ByteSlice, try_get_at}
use genet.Abi.Attr.{Attr}
use genet.Sdk.Cast.{ByteOrder}
use genet.Packages.{attr_at}
use genet.Packages.Tcp.{options_nop_attr, options, option_attrs}

-- At `offset` stands an option of kind 2 or more with the length 0.
abbrev pub Stuck : ByteSlice → ℕ → Type 0
Stuck bytes offset =
    (typ : ℕ) × (try_get_at bytes offset ≡ ok typ)
    × (2 ≤ typ)
    × (try_get_at bytes (offset + 1) ≡ ok 0)

-- From the option that starts at the offset, the loop comes to the option that starts at `at`: it
-- steps over a byte of kind 0 or 1, and over an option of another kind by its length.
pub data Reaches (bytes : ByteSlice) (data_offset at : ℕ) : ℕ → Type 0 where
  here : at < data_offset → Reaches bytes data_offset at at
  single :
      {offset : ℕ} (typ : ℕ)
      → offset < data_offset
      → try_get_at bytes offset ≡ ok typ
      → typ ≤ 1
      → Reaches bytes data_offset at (offset + 1)
      → Reaches bytes data_offset at offset
  longer :
      {offset : ℕ} (typ len : ℕ)
      → offset < data_offset
      → try_get_at bytes offset ≡ ok typ
      → 2 ≤ typ
      → try_get_at bytes (offset + 1) ≡ ok len
      → 1 ≤ len
      → Reaches bytes data_offset at (offset + len)
      → Reaches bytes data_offset at offset

module _ (io : ByteOrder) where
  -- At an option of kind 2 or more with the length 0, inside the options, the loop never ends,
  -- whatever fuel it is given.
  pub options-Stuck :
      (fuel : ℕ) (bytes : ByteSlice) (data_offset offset : ℕ) (attrs : List Attr)
      → offset < data_offset
      → Stuck bytes offset
      → options io fuel bytes data_offset offset attrs ≡ none
  unfolding options
  options-Stuck zero bytes data_offset offset attrs h s = refl
  options-Stuck (suc fuel) bytes data_offset offset attrs h (typ, kind, big, zero_len) =
      let same : offset + 0 ≡ offset = omega arith in
      let ih =
        options-Stuck fuel bytes data_offset offset (attrs ++ option_attrs io typ offset 0) h
          (typ, kind, big, zero_len) in
      ground (arith, same, ih)

  -- The loop that comes to such an option does not end either.
  options-Reaches :
      (fuel : ℕ) (bytes : ByteSlice) (data_offset offset at : ℕ) (attrs : List Attr)
      → Reaches bytes data_offset at offset
      → Stuck bytes at
      → options io fuel bytes data_offset offset attrs ≡ none
  unfolding options
  options-Reaches zero bytes data_offset offset at attrs r s = refl
  options-Reaches (suc fuel) bytes data_offset offset at attrs (here inside) s =
      options-Stuck (suc fuel) bytes data_offset offset attrs inside s
  options-Reaches (suc fuel) bytes data_offset offset at attrs (single typ inside kind small r) s =
      let attrs' =
        if typ == 1 then attrs ++ attr_at options_nop_attr offset (offset + 1) ∷ [] else attrs in
      let go : ltb offset data_offset ≡ true = ground (arith, inside) in
      let one : leb typ 1 ≡ true = ground (arith, small) in
      rw (go, kind, one) (options-Reaches fuel bytes data_offset (offset + 1) at attrs' r s)
  options-Reaches (suc fuel) bytes data_offset offset at attrs
        (longer typ len inside kind big sized some_left r) s =
      let attrs' = attrs ++ option_attrs io typ offset len in
      let go : ltb offset data_offset ≡ true = ground (arith, inside) in
      let more : leb typ 1 ≡ false = ground (arith, big) in
      rw (go, kind, more, sized)
        (options-Reaches fuel bytes data_offset (offset + len) at attrs' r s)

  -- The loop ends with the end of the options or an error; or it comes to an option of kind 2 or
  -- more with the length 0, and ends with no fuel.
  abbrev pub Ends : ℕ → ByteSlice → ℕ → ℕ → List Attr → Type 0
  Ends fuel bytes data_offset offset attrs =
      ((r : Result (ℕ × List Attr)) × (options io fuel bytes data_offset offset attrs ≡ some r))
      ⊎ ((at : ℕ) × Reaches bytes data_offset at offset
          × Stuck bytes at
          × ((more : ℕ) → options io more bytes data_offset offset attrs ≡ none))

  abbrev Finds : ℕ → ByteSlice → ℕ → ℕ → List Attr → Type 0
  Finds fuel bytes data_offset offset attrs =
      ((r : Result (ℕ × List Attr)) × (options io fuel bytes data_offset offset attrs ≡ some r))
      ⊎ ((at : ℕ) × Reaches bytes data_offset at offset × Stuck bytes at)

  widen :
      (fuel : ℕ) (bytes : ByteSlice) (data_offset offset later : ℕ) (attrs attrs' : List Attr)
      → ((at : ℕ) → Reaches bytes data_offset at later → Reaches bytes data_offset at offset)
      → options io (suc fuel) bytes data_offset offset attrs
        ≡ options io fuel bytes data_offset later attrs'
      → Finds fuel bytes data_offset later attrs'
      → Finds (suc fuel) bytes data_offset offset attrs
  widen fuel bytes data_offset offset later attrs attrs' h e (inl (r, q)) = inl (r, e ∙ q)
  widen fuel bytes data_offset offset later attrs attrs' h e (inr (at, b, s)) = inr (at, h at b, s)

  options-Finds :
      (fuel : ℕ) (bytes : ByteSlice) (data_offset offset : ℕ) (attrs : List Attr)
      → data_offset - offset < fuel
      → Finds fuel bytes data_offset offset attrs
  unfolding options
  options-Finds zero bytes data_offset offset attrs h = absurd (omega arith)
  options-Finds (suc fuel) bytes data_offset offset attrs h =
      elim (Bool-cases (ltb offset data_offset)) [
        | inr past ↦ inl (ok (offset, attrs), rw past)
        | inl inside ↦ elim (Result-cases (try_get_at bytes offset)) [
          | inr (e, failed) ↦ inl (err e, ground (arith, failed))
          | inl (typ, kind) ↦ elim (Bool-cases (leb typ 1)) [
            | inl small ↦
                let attrs' =
                  if typ == 1
                  then attrs ++ attr_at options_nop_attr offset (offset + 1) ∷ []
                  else attrs in
                widen fuel bytes data_offset offset (offset + 1) attrs attrs'
                  (λ at r. single typ (ground arith) kind (ground arith) r)
                  (rw (inside, kind, small, options))
                  (options-Finds fuel bytes data_offset (offset + 1) attrs' (ground arith))
            | inr big ↦ elim (Result-cases (try_get_at bytes (offset + 1))) [
              | inr (e, failed) ↦ inl (err e, rw (inside, kind, big, failed, options))
              | inl (len, sized) ↦ elim (Bool-cases (len == 0)) [
                | inl none_left ↦
                    inr (offset, here (ground arith), (typ, kind, ground arith, ground arith))
                | inr some_left ↦
                    let attrs' = attrs ++ option_attrs io typ offset len in
                    widen fuel bytes data_offset offset (offset + len) attrs attrs'
                      (λ at r.
                        longer typ len (ground arith) kind (ground arith) sized (ground arith) r)
                      (rw (inside, kind, big, sized, options))
                      (options-Finds fuel bytes data_offset (offset + len) attrs' (ground arith))
              ]
            ]
          ]
        ]
      ]

  -- With a unit of fuel for each byte left and one more, the loop ends, with the end of the
  -- options or an error, unless stepping from option to option it comes to one of kind 2 or more
  -- with the length 0; then it does not end, whatever fuel it is given.
  pub options-Ends :
      (fuel : ℕ) (bytes : ByteSlice) (data_offset offset : ℕ) (attrs : List Attr)
      → data_offset - offset < fuel
      → Ends fuel bytes data_offset offset attrs
  options-Ends fuel bytes data_offset offset attrs h =
      elim (options-Finds fuel bytes data_offset offset attrs h) [
        | inl ended ↦ inl ended
        | inr (at, r, s) ↦
            inr (at, r, s, λ more. options-Reaches more bytes data_offset offset at attrs r s)
      ]
