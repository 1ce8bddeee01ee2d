-- ===== src/FileTransfer/Chunker/Contents.antt =====
-- The chunks of a file are a partition of its contents.
use Prim.Native.Nat.{min}
use native.Mathlib.Nat.{suc-mul, lt-div-mul-add, le-div_iff_mul-le, mod-eq_of_lt}
use ensemble.Common.{
  ℕ, zero, suc, ◌+◌, ◌-◌, ◌*◌, ◌/◌, ◌≤◌, ◌<◌, ◌≡◌, ◌⊎◌, refl, sym, ◌∙◌, ap, List, [], ◌∷◌, ◌++◌,
  length, get_or, take, drop, length-take, length-drop, take-append-drop, drop-drop, drop_all, ok,
  err, ltb, arith, inl, inr, Bool-cases, subst, ltb→lt,
}
use ensemble.Crypto.{Bytes, Sha256}
use ensemble.FileTransfer.Chunker.{
  regular, Chunk, Chunker, u32, new_chunker_with_size, read_chunk, hashes_from, all_chunk_hashes,
  out_of_range,
}

-- Bytes `i * n` up to `(i + 1) * n` of a file.
abbrev pub slice : Bytes → ℕ → ℕ → Bytes
slice content n i = take n (drop (i * n) content)

-- `k` slices in a row from the `i`th on, joined.
unfoldable pub join_slices : Bytes → ℕ → ℕ → ℕ → Bytes
join_slices content n zero i = []
join_slices content n (suc k) i = slice content n i ++ join_slices content n k (suc i)

-- What a chunker says of the file that it was made for.
pub record Fits (c : Chunker) (content : Bytes) : Type 0 where
  pub positive : 0 < c.chunk_size
  pub size : c.file_size ≡ length content
  pub inside : (i : ℕ) → i < c.total → i * c.chunk_size < length content
  pub covers : length content ≤ c.total * c.chunk_size

ceil_inside : (len n i : ℕ) → 0 < n → 0 < len → i < (len + n - 1) / n → i * n < len
ceil_inside len n i p q h =
    let whole : suc i * n ≤ len + n - 1 = (le-div_iff_mul-le {x = suc i} p).0 h in
    omega (arith, suc-mul i n)

ceil_covers : (len n : ℕ) → 0 < n → 0 < len → len ≤ (len + n - 1) / n * n
ceil_covers len n p q = omega (arith, lt-div-mul-add {a = len + n - 1} p)

-- A chunker for a file of fewer than `2 ^ 32` chunks fits the file.
pub new_chunker-Fits :
    (content : Bytes) (n : ℕ) {c : Chunker}
    → new_chunker_with_size (regular content) n ≡ ok c
    → (length content + n - 1) / n < 4294967296
    → Fits c content
unfolding new_chunker_with_size
new_chunker-Fits content n {c} made small = elim (Bool-cases (ltb 0 n)) [
  | inr no_size ↦ absurd (ground arith)
  | inl sized ↦ elim (Bool-cases (ltb 0 (length content))) [
    | inr nothing ↦ absurd (ground arith)
    | inl something ↦
        let some_size : 0 < n = ground arith in
        let some_bytes : 0 < length content = ground arith in
        let total : u32 ((length content + n - 1) / n) ≡ (length content + n - 1) / n =
          mod-eq_of_lt small in
        let same : record {
          file_size = length content;
          chunk_size = n;
          total = u32 ((length content + n - 1) / n);
        }
            ≡ c =
          ground arith in
        subst (λ (x : Chunker). Fits x content) same
          (record {
            positive = some_size;
            size = refl;
            inside = λ i low.
                ceil_inside (length content) n i some_size some_bytes (omega (arith, total));
            covers =
                subst (λ (t : ℕ). length content ≤ t * n) (sym total)
                  (ceil_covers (length content) n some_size some_bytes);
          })
  ]
]

module _ (h : Sha256) where
  abbrev pub chunk_at : Bytes → ℕ → ℕ → Chunk
  chunk_at content n i = record {
    index = i;
    bytes = slice content n i;
    hash = h.digest (slice content n i);
  }

  -- Every index below the total can be read, and gives that slice of the file.
  pub read_chunk-slice :
      (c : Chunker) (content : Bytes) (i : ℕ)
      → Fits c content
      → i < c.total
      → read_chunk h c (regular content) i ≡ ok (chunk_at content c.chunk_size i)
  unfolding read_chunk
  read_chunk-slice c content i v low = ground (arith, v.inside i low)

  pub length-slice :
      (c : Chunker) (content : Bytes) (i : ℕ)
      → Fits c content
      → i < c.total
      → (0 < length (slice content c.chunk_size i))
        × (length (slice content c.chunk_size i) ≤ c.chunk_size)
        × (suc i < c.total → length (slice content c.chunk_size i) ≡ c.chunk_size)
  length-slice c content i v low =
      let n = c.chunk_size in
      let size : length (slice content n i) ≡ min n (length content - i * n) =
        length-take n (drop (i * n) content)
        ∙ ap (λ (m : ℕ). min n m) (length-drop (i * n) content) in
      (
        omega (arith, size, v.inside i low, v.positive),
        omega (arith, size),
        λ more. omega (arith, size, v.inside (suc i) more, suc-mul i n),
      )

  -- The digests of `k` slices in a row from the `i`th on.
  unfoldable pub slice_hashes : Bytes → ℕ → ℕ → ℕ → List Bytes
  slice_hashes content n zero i = []
  slice_hashes content n (suc k) i = h.digest (slice content n i) ∷ slice_hashes content n k (suc i)

  hashes_from-slices :
      (c : Chunker) (content : Bytes) (k i : ℕ)
      → Fits c content
      → i + k ≤ c.total
      → hashes_from h c (regular content) k i ≡ ok (slice_hashes content c.chunk_size k i)
  unfolding hashes_from slice_hashes
  hashes_from-slices c content zero i v low = refl
  hashes_from-slices c content (suc k) i v low =
      rw (read_chunk-slice c content i v (omega arith))
        (rw (hashes_from-slices c content k (suc i) v (omega arith)))

  pub length-slice_hashes : (content : Bytes) (n k i : ℕ) → length (slice_hashes content n k i) ≡ k
  unfolding slice_hashes
  length-slice_hashes content n zero i = refl
  length-slice_hashes content n (suc k) i = ap suc (length-slice_hashes content n k (suc i))

  pub get_or-slice_hashes :
      (content : Bytes) (n k i j : ℕ)
      → j < k
      → get_or (slice_hashes content n k i) j [] ≡ h.digest (slice content n (i + j))
  unfolding slice_hashes
  get_or-slice_hashes content n zero i j p = elim p [ ]
  get_or-slice_hashes content n (suc k) i zero p =
      ap (λ (m : ℕ). h.digest (slice content n m)) (omega arith)
  get_or-slice_hashes content n (suc k) i (suc j) p =
      get_or-slice_hashes content n k (suc i) j (omega arith)
      ∙ ap (λ (m : ℕ). h.digest (slice content n m)) (omega arith)

  -- `AllChunkHashes` succeeds on the file that the chunker was made for, with the digest of each
  -- slice in order.
  pub all_chunk_hashes-slices :
      (c : Chunker) (content : Bytes)
      → Fits c content
      → all_chunk_hashes h c (regular content) ≡ ok (slice_hashes content c.chunk_size c.total 0)
  unfolding all_chunk_hashes
  all_chunk_hashes-slices c content v = hashes_from-slices c content c.total 0 v (omega arith)

join_slices-drop :
    (content : Bytes) (n k i : ℕ)
    → length content ≤ (i + k) * n
    → join_slices content n k i ≡ drop (i * n) content
unfolding join_slices
join_slices-drop content n zero i covers = sym (
    drop_all (i * n) content
      (omega (arith, ap (λ (m : ℕ). m * n) {x = i + 0} {y = i} (omega arith))))
join_slices-drop content n (suc k) i covers =
    let rest : join_slices content n k (suc i) ≡ drop (suc i * n) content =
      join_slices-drop content n k (suc i)
        (omega (arith, ap (λ (m : ℕ). m * n) {x = i + suc k} {y = suc i + k} (omega arith))) in
    let onward : drop n (drop (i * n) content) ≡ drop (suc i * n) content =
      drop-drop n (i * n) content ∙ ap (λ (m : ℕ). drop m content) (omega (arith, suc-mul i n)) in
    ap (λ (b : Bytes). slice content n i ++ b) (rest ∙ sym onward)
    ∙ take-append-drop n (drop (i * n) content)

-- The slices of a file, in order, make up the file.
pub join_slices-content :
    (c : Chunker) (content : Bytes)
    → Fits c content
    → join_slices content c.chunk_size c.total 0 ≡ content
join_slices-content c content v =
    let start : 0 * c.chunk_size ≡ 0 = omega arith in
    join_slices-drop content c.chunk_size c.total 0 (omega (arith, v.covers))
    ∙ ap (λ (m : ℕ). drop m content) start

-- Index `i` of the file: below the total it can be read, and gives a slice that is not empty and
-- is of full size unless the index is the last; from the total on it is out of range.
abbrev pub ReadsSlice : Sha256 → Bytes → Chunker → ℕ → Type 0
ReadsSlice h content c i =
    ((i < c.total)
      × (read_chunk h c (regular content) i ≡ ok (chunk_at h content c.chunk_size i))
      × (0 < length (slice content c.chunk_size i))
      × (length (slice content c.chunk_size i) ≤ c.chunk_size)
      × ((length (slice content c.chunk_size i) ≡ c.chunk_size) ⊎ (suc i ≡ c.total)))
    ⊎ ((c.total ≤ i) × (read_chunk h c (regular content) i ≡ err out_of_range))

-- A chunker for a file of fewer than `2 ^ 32` chunks can read every index below its total and no
-- other, each chunk but the last is of full size, none is empty, and the chunks in order make up
-- the file.
pub new_chunker_partition :
    (h : Sha256) (content : Bytes) (n : ℕ) (c : Chunker) (i : ℕ)
    → new_chunker_with_size (regular content) n ≡ ok c
    → (length content + n - 1) / n < 4294967296
    → ReadsSlice h content c i × (join_slices content c.chunk_size c.total 0 ≡ content)
unfolding read_chunk
new_chunker_partition h content n c i made small =
    let v = new_chunker-Fits content n made small in
    let reads : ReadsSlice h content c i = elim (Bool-cases (ltb i c.total)) [
      | inl below ↦
          let low : i < c.total = ltb→lt i c.total below in
          let (some_bytes, bounded, full) = length-slice h c content i v low in
          let last : (length (slice content c.chunk_size i) ≡ c.chunk_size) ⊎ (suc i ≡ c.total) =
            elim (Bool-cases (ltb (suc i) c.total)) [
              | inl more ↦ inl (full (ltb→lt (suc i) c.total more))
              | inr last ↦ inr (ground arith)
            ] in
          inl (low, read_chunk-slice h c content i v low, some_bytes, bounded, last)
      | inr high ↦ inr (ground arith, ground arith)
    ] in
    (reads, join_slices-content c content v)
