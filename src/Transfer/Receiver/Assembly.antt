-- ===== src/Transfer/Receiver/Assembly.antt =====
-- The temporary file grows to the file that was sent, in whatever order the chunks come.
use link_chat.Prelude.{
  get_elem?, ℕ, zero, suc, ◌+◌, ◌*◌, ◌≤◌, ◌<◌, ◌≡◌, sym, ap, ◌∙◌, subst, ◌≢◌, ◌⊎◌, inl, inr, true,
  some, List, ◌∷◌, arith, le_split, lt_split, Bool-cases, length,
}
use link_chat.Text.{Bytes}
use link_chat.Transfer.{FileRcvCtx, read_chunk}
use link_chat.Transfer.Receiver.Store.{write_at}
use link_chat.Transfer.Receiver.Data.{has_index, mark_received}
use link_chat.Transfer.Receiver.Chunks.{
  eq_of_get_elem?, get_elem?-ge, get_elem?-lt, get_elem?-read_chunk, length-read_chunk, write_at-in,
  write_at-out, length-write_at,
}
use link_chat.Transfer.Receiver.Progress.{
  mark_received-new, mark_received-old, IsTally, mark_received-IsTally, has_index-of_full,
}

-- The chunks cover the file, and the last one is not past its end.
pub record Covers (total chunk_size size : ℕ) : Type 0 where
  pub some_bytes : 0 < chunk_size
  pub reaches : size ≤ total * chunk_size
  pub tight : total * chunk_size < size + chunk_size

-- The content holds the chunks that have come.
pub record IsAssembly (original : Bytes) (ctx : FileRcvCtx) (content : Bytes) : Type 0 where
  pub covers : Covers ctx.total_chunks ctx.chunk_size (length original)
  pub tally : IsTally ctx
  pub sized : length content ≤ length original
  pub agree :
      (i k : ℕ)
      → has_index i ctx.received ≡ true
      → k < ctx.chunk_size
      → i * ctx.chunk_size + k < length original
      → get_elem? content (i * ctx.chunk_size + k) ≡ get_elem? original (i * ctx.chunk_size + k)

mul_mono : (i j c : ℕ) → i ≤ j → i * c ≤ j * c
mul_mono zero j c h = omega arith
mul_mono (suc i) zero c h = absurd (omega arith)
mul_mono (suc i) (suc j) c h = omega (arith, mul_mono i j c (omega arith))

apart : (i j k c : ℕ) → k < c → i ≢ j → (i * c + k < j * c) ⊎ (j * c + c ≤ i * c + k)
apart i j k c h e = elim (order i j e) [
  | inl less ↦ inl (omega (arith, mul_mono (suc i) j c less))
  | inr more ↦ inr (omega (arith, mul_mono (suc j) i c more))
]
  where
    order : (i j : ℕ) → i ≢ j → (suc i ≤ j) ⊎ (suc j ≤ i)
    order i j e = omega arith

starts_inside : (total c size idx : ℕ) → total * c < size + c → idx < total → idx * c < size
starts_inside total c size idx h l = omega (arith, mul_mono (suc idx) total c l)

split_position : (j c : ℕ) → 0 < c → (i : ℕ) × (k : ℕ) × (j ≡ i * c + k) × (k < c)
split_position zero c h = (0, 0, omega arith, h)
split_position (suc j) c h = next (split_position j c h)
  where
    next :
        ((i : ℕ) × (k : ℕ) × (j ≡ i * c + k) × (k < c))
        → (i : ℕ) × (k : ℕ) × (suc j ≡ i * c + k) × (k < c)
    next (i, k, e, l) = elim (le_split l) [
      | inl same ↦ (suc i, 0, omega arith, h)
      | inr less ↦ (i, suc k, omega arith, omega arith)
    ]

below_total : (total c size i k : ℕ) → size ≤ total * c → i * c + k < size → i < total
below_total total c size i k h l = elim (lt_split i total) [
  | inl less ↦ less
  | inr more ↦ absurd (omega (arith, mul_mono total i c more))
]

-- A full tally means that the content is the file.
pub IsAssembly-full :
    (original content : Bytes) (ctx : FileRcvCtx)
    → IsAssembly original ctx content
    → ctx.total_chunks ≤ length ctx.received
    → content ≡ original
IsAssembly-full original content ctx a full = eq_of_get_elem? content original at_position
  where
    inside : (j : ℕ) → j < length original → get_elem? content j ≡ get_elem? original j
    inside j l = found (split_position j ctx.chunk_size a.covers.some_bytes)
      where
        found :
            ((i : ℕ) × (k : ℕ) × (j ≡ i * ctx.chunk_size + k) × (k < ctx.chunk_size))
            → get_elem? content j ≡ get_elem? original j
        found (i, k, e, lk) =
            ap (get_elem? content) e
            ∙ a.agree i k
                (has_index-of_full ctx.total_chunks ctx.received i a.tally.distinct a.tally.in_range
                  full
                  (below_total ctx.total_chunks ctx.chunk_size (length original) i k
                    a.covers.reaches (omega arith)))
                lk (omega arith)
            ∙ ap (get_elem? original) (sym e)

    at_position : (j : ℕ) → get_elem? content j ≡ get_elem? original j
    at_position j = elim (lt_split j (length original)) [
      | inl less ↦ inside j less
      | inr more ↦
          get_elem?-ge content j (omega (arith, a.sized)) ∙ sym (get_elem?-ge original j more)
    ]

pub has_index-cons_split :
    (i idx : ℕ) (is : List ℕ) → has_index i (idx ∷ is) ≡ true → (i ≡ idx) ⊎ (has_index i is ≡ true)
unfolding has_index
has_index-cons_split i idx is h = ground (arith, h)

module _ (original content : Bytes) (idx : ℕ) (c : ℕ) where
  -- A chunk that is written stands in the content.
  written_chunk :
      (k : ℕ)
      → k < c
      → idx * c + k < length original
      → get_elem? (write_at (idx * c) (read_chunk original c idx) content) (idx * c + k)
        ≡ get_elem? original (idx * c + k)
  written_chunk k l inside =
      write_at-in (idx * c) (read_chunk original c idx) content (idx * c + k) (omega arith)
        (omega (arith, length-read_chunk original c idx))
      ∙ same_place (omega arith)
      ∙ get_elem?-read_chunk original c idx k l
    where
      same_place :
          {m n : ℕ}
          → m ≡ n
          → get_elem? (read_chunk original c idx) m ≡ get_elem? (read_chunk original c idx) n
      same_place e = ap (get_elem? (read_chunk original c idx)) e

  -- The other chunks still stand there.
  kept_chunk :
      (i k : ℕ)
      → k < c
      → i ≢ idx
      → i * c + k < length original
      → get_elem? content (i * c + k) ≡ get_elem? original (i * c + k)
      → get_elem? (write_at (idx * c) (read_chunk original c idx) content) (i * c + k)
        ≡ get_elem? original (i * c + k)
  kept_chunk i k l ne inside e = keep (get_elem?-lt original (i * c + k) inside)
    where
      outside : (i * c + k < idx * c) ⊎ (idx * c + length (read_chunk original c idx) ≤ i * c + k)
      outside = elim (apart i idx k c l ne) [
        | inl before ↦ inl before
        | inr after ↦ inr (omega (arith, length-read_chunk original c idx))
      ]

      keep :
          ((x : ℕ) × (get_elem? original (i * c + k) ≡ some x))
          → get_elem? (write_at (idx * c) (read_chunk original c idx) content) (i * c + k)
            ≡ get_elem? original (i * c + k)
      keep (x, s) =
          write_at-out (idx * c) (read_chunk original c idx) content (i * c + k) (e ∙ s) outside
          ∙ sym s

-- When the temporary file holds, at its place, each chunk that has come, and the context's account
-- of them is right, then both hold again after any chunk of the file in range is marked and its
-- bytes are written, whether it came before or not: no other chunk is touched, and the temporary
-- file does not grow past the length of the file.
pub IsAssembly-chunk :
    (original content : Bytes) (idx : ℕ) (ctx : FileRcvCtx)
    → IsAssembly original ctx content
    → idx < ctx.total_chunks
    → IsAssembly original
        (mark_received idx ctx)
        (write_at (idx * ctx.chunk_size) (read_chunk original ctx.chunk_size idx) content)
IsAssembly-chunk original content idx ctx a l = elim (Bool-cases (has_index idx ctx.received)) [
  | inl old ↦ rw (mark_received-old idx ctx old) (record {
    covers = a.covers;
    tally = a.tally;
    sized = sized;
    agree = λ i k h lk inside. agree i k (inr h) lk inside;
  })
  | inr new ↦ rw (mark_received-new idx ctx new) (record {
    covers = a.covers;
    tally = subst IsTally (mark_received-new idx ctx new) (mark_received-IsTally idx ctx a.tally l);
    sized = sized;
    agree = λ i k h lk inside. agree i k (has_index-cons_split i idx ctx.received h) lk inside;
  })
]
  where
    content' : Bytes
    content' = write_at (idx * ctx.chunk_size) (read_chunk original ctx.chunk_size idx) content

    sized : length content' ≤ length original
    sized =
        length-write_at (idx * ctx.chunk_size) (read_chunk original ctx.chunk_size idx) content
          (length original) a.sized
          (omega (
            arith,
            length-read_chunk original ctx.chunk_size idx,
            starts_inside ctx.total_chunks ctx.chunk_size (length original) idx a.covers.tight l,
          ))

    same :
        (i k : ℕ)
        → i ≡ idx
        → k < ctx.chunk_size
        → i * ctx.chunk_size + k < length original
        → get_elem? content' (i * ctx.chunk_size + k) ≡ get_elem? original (i * ctx.chunk_size + k)
    same i k e lk inside =
        subst
          (λ j.
            get_elem? content' (j * ctx.chunk_size + k)
            ≡ get_elem? original (j * ctx.chunk_size + k))
          (sym e)
          (written_chunk original content idx ctx.chunk_size k lk
            (subst (λ j. j * ctx.chunk_size + k < length original) e inside))

    other :
        (i k : ℕ)
        → has_index i ctx.received ≡ true
        → k < ctx.chunk_size
        → i * ctx.chunk_size + k < length original
        → (i ≡ idx) ⊎ (i ≢ idx)
        → get_elem? content' (i * ctx.chunk_size + k) ≡ get_elem? original (i * ctx.chunk_size + k)
    other i k h lk inside (inl e) = same i k e lk inside
    other i k h lk inside (inr e) =
        kept_chunk original content idx ctx.chunk_size i k lk e inside (a.agree i k h lk inside)

    agree :
        (i k : ℕ)
        → (i ≡ idx) ⊎ (has_index i ctx.received ≡ true)
        → k < ctx.chunk_size
        → i * ctx.chunk_size + k < length original
        → get_elem? content' (i * ctx.chunk_size + k) ≡ get_elem? original (i * ctx.chunk_size + k)
    agree i k (inl e) lk inside = same i k e lk inside
    agree i k (inr h) lk inside = other i k h lk inside (omega arith)
