-- ===== src/Media.antt =====
-- testbench/media.py: `BytesMedia`. The two checksums are parameters: a running CRC-32C that is seeded
-- with the last one, and an MD5 state that is fed.
use storage_testbench.Base.{
  ++-nil, drop, slice, take-zero, slice-slice, length-take_le, ℕ, zero, suc, ◌+◌, ◌-◌, ◌≤◌, ◌<◌,
  min, Bool, ltb, leb, ◌&&◌, List, [], ◌∷◌, ◌++◌, ◌≡◌, refl, ap, ◌∙◌, sym, arith, length,
  if◌then◌else◌, Bool-cases, inl, inr, true, Option, none, some,
}

-- Bytes.
abbrev pub Bytes : Type 0
Bytes = List ℕ

module _ {S : Type 0} (crc32c : Bytes → ℕ → ℕ) (md5_new : S) (md5_update : S → Bytes → S) where
  pub record BytesMedia : Type 0 where
    pub buf : Bytes
    pub crc : ℕ
    pub md5 : S

  unfoldable pub new_media : Bytes → BytesMedia
  new_media initial = record {
    buf = initial;
    crc = crc32c initial 0;
    md5 = md5_update md5_new initial;
  }

  -- `append`, and `__iadd__`
  unfoldable pub append : Bytes → BytesMedia → BytesMedia
  append data_ m = record {
    buf = m.buf ++ data_;
    crc = crc32c data_ m.crc;
    md5 = md5_update m.md5 data_;
  }

  unfoldable pub append_all : List Bytes → BytesMedia → BytesMedia
  unfolding append
  append_all [] m = m
  append_all (d ∷ ds) m = append_all ds (append d m)

-- `chunks`: one turn of the loop for each unit of fuel.
unfoldable pub chunks : ℕ → Bytes → ℕ → ℕ → ℕ → List Bytes
chunks zero buf pos end size = []
chunks (suc fuel) buf pos end size =
    let stop = min (pos + size) end in
    let rest = chunks fuel buf stop end size in
    if ltb pos end then slice pos stop buf ∷ rest else []

unfoldable pub concat : List Bytes → Bytes
concat [] = []
concat (c ∷ cs) = c ++ concat cs

-- With chunks of a positive size and a unit of fuel for each byte of the range, the chunks together are
-- the bytes of the range.
pub concat-chunks :
    (fuel : ℕ) (buf : Bytes) (begin end size : ℕ)
    → 0 < size
    → end - begin ≤ fuel
    → concat (chunks fuel buf begin end size) ≡ slice begin end buf
unfolding chunks concat
concat-chunks zero buf begin end size positive enough =
    let nothing : end - begin ≡ 0 = omega arith in rw nothing (sym (take-zero (drop begin buf)))
concat-chunks (suc fuel) buf begin end size positive enough = elim (Bool-cases (ltb begin end)) [
  | inl more ↦
      let before : begin < end = ground arith in
      let stop = min (begin + size) end in
      rw more (
        ap (λ r. slice begin stop buf ++ r)
          (concat-chunks fuel buf stop end size positive (ground arith))
        ∙ slice-slice begin stop end buf (ground arith) (ground arith))
  | inr done ↦
      let nothing : end - begin ≡ 0 = ground arith in
      rw (done, nothing) (sym (take-zero (drop begin buf)))
]

-- The loop itself, where each unit of fuel pays for one test of `pos < end`: nothing if the fuel runs out
-- before the test fails.
unfoldable pub run_chunks : ℕ → Bytes → ℕ → ℕ → ℕ → Option (List Bytes)
run_chunks zero buf pos end size = none
run_chunks (suc fuel) buf pos end size =
    let stop = min (pos + size) end in
    let rest = run_chunks fuel buf stop end size in
    if ltb pos end
    then elim rest [ none ↦ none | some cs ↦ some (slice pos stop buf ∷ cs) ]
    else some []

-- With more fuel than there are bytes in the range the loop ends by its test, with the same chunks.
run_chunks-chunks :
    (fuel : ℕ) (buf : Bytes) (begin end size : ℕ)
    → 0 < size
    → end - begin ≤ fuel
    → run_chunks (suc fuel) buf begin end size ≡ some (chunks fuel buf begin end size)
unfolding run_chunks chunks
run_chunks-chunks zero buf begin end size positive enough = ground arith
run_chunks-chunks (suc fuel) buf begin end size positive enough =
    ground (arith, run_chunks-chunks fuel buf (min (begin + size) end) end size positive)

-- No chunk is longer than the size asked for.
unfoldable pub each_at_most : ℕ → List Bytes → Bool
each_at_most size [] = true
each_at_most size (c ∷ cs) = leb (length c) size && each_at_most size cs

-- No chunk is longer than the size that the caller asks for.
pub chunks-each_at_most :
    (fuel : ℕ) (buf : Bytes) (begin end size : ℕ)
    → each_at_most size (chunks fuel buf begin end size) ≡ true
unfolding chunks each_at_most
chunks-each_at_most zero buf begin end size = refl
chunks-each_at_most (suc fuel) buf begin end size =
    let stop = min (begin + size) end in
    ground (
      arith,
      length-take_le (stop - begin) (drop begin buf),
      chunks-each_at_most fuel buf stop end size,
    )

-- With chunks of a positive size, the loop of `chunks` ends by its own test, within as many turns as there
-- are bytes in the range and one more test; the chunks together are the bytes of the range, and none of
-- them is longer than the size asked for.
pub run_chunks-ends :
    (fuel : ℕ) (buf : Bytes) (begin end size : ℕ)
    → 0 < size
    → end - begin < fuel
    → (cs : List Bytes) × (run_chunks fuel buf begin end size ≡ some cs)
      × (concat cs ≡ slice begin end buf)
      × (each_at_most size cs ≡ true)
run_chunks-ends zero buf begin end size positive enough = absurd (omega arith)
run_chunks-ends (suc fuel) buf begin end size positive enough = (
  chunks fuel buf begin end size,
  run_chunks-chunks fuel buf begin end size positive (omega arith),
  concat-chunks fuel buf begin end size positive (omega arith),
  chunks-each_at_most fuel buf begin end size,
)

++-assoc {ℓ} : {A : Type ℓ} (xs ys zs : List A) → (xs ++ ys) ++ zs ≡ xs ++ (ys ++ zs)
++-assoc [] ys zs = refl
++-assoc (x ∷ xs) ys zs = ap (λ r. x ∷ r) (++-assoc xs ys zs)

module _ {S : Type 0} (crc32c : Bytes → ℕ → ℕ) (md5_new : S) (md5_update : S → Bytes → S)
    (crc_chains : (a b : Bytes) (seed : ℕ) → crc32c (a ++ b) seed ≡ crc32c b (crc32c a seed))
    (md5_chains : (s : S) (a b : Bytes)
      → md5_update (md5_update s a) b ≡ md5_update s (a ++ b)) where
  append-new_media :
      (initial data_ : Bytes)
      → append crc32c md5_new md5_update data_ (new_media crc32c md5_new md5_update initial)
        ≡ new_media crc32c md5_new md5_update (initial ++ data_)
  unfolding append new_media
  append-new_media initial data_ = rw (md5_chains, crc_chains) refl

  -- Appending the pieces one by one gives the buffer and the checksums of the whole: if the CRC of a
  -- concatenation is that of its second part seeded with that of the first, and feeding MD5 twice is
  -- feeding it the concatenation.
  pub append_all-new_media :
      (initial : Bytes) (ds : List Bytes)
      → append_all crc32c md5_new md5_update ds (new_media crc32c md5_new md5_update initial)
        ≡ new_media crc32c md5_new md5_update (initial ++ concat ds)
  unfolding append_all concat
  append_all-new_media initial [] = ap (new_media crc32c md5_new md5_update) (sym (++-nil initial))
  append_all-new_media initial (d ∷ ds) =
      ap (append_all crc32c md5_new md5_update ds) (append-new_media initial d)
      ∙ append_all-new_media (initial ++ d) ds
      ∙ ap (new_media crc32c md5_new md5_update) (++-assoc initial d (concat ds))
