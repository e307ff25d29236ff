-- ===== src/Transfer/Receiver/Chunks.antt =====
-- Facts on the parts of `_on_data`: bytes at a position of a written file, and sets of indices.
use link_chat.Prelude.{
  get_elem?, ℕ, zero, suc, ◌+◌, ◌-◌, ◌*◌, ◌≤◌, ◌<◌, min, ◌≡◌, refl, ap, ◌∙◌, ◌⊎◌, none, some, [],
  ◌∷◌, arith, length, take, drop, length-take, length-drop,
}
use link_chat.Text.{Bytes}
use link_chat.Transfer.{read_chunk}
use link_chat.Transfer.Receiver.Store.{write_at}

at : (xs : Bytes) (i j : ℕ) → i ≡ j → get_elem? xs i ≡ get_elem? xs j
at xs i j e = ap (get_elem? xs) e

pub eq_of_get_elem? : (xs ys : Bytes) → ((i : ℕ) → get_elem? xs i ≡ get_elem? ys i) → xs ≡ ys
eq_of_get_elem? [] [] h = refl
eq_of_get_elem? [] (y ∷ ys) h = cc (h 0)
eq_of_get_elem? (x ∷ xs) [] h = cc (h 0)
eq_of_get_elem? (x ∷ xs) (y ∷ ys) h = cc (h 0, eq_of_get_elem? xs ys (λ i. h (suc i)))

pub get_elem?-ge : (xs : Bytes) (i : ℕ) → length xs ≤ i → get_elem? xs i ≡ none
get_elem?-ge [] i h = refl
get_elem?-ge (x ∷ xs) zero h = absurd (omega arith)
get_elem?-ge (x ∷ xs) (suc i) h = get_elem?-ge xs i (omega arith)

pub get_elem?-lt : (xs : Bytes) (i : ℕ) → i < length xs → (x : ℕ) × (get_elem? xs i ≡ some x)
get_elem?-lt [] i h = absurd (omega arith)
get_elem?-lt (x ∷ xs) zero h = (x, refl)
get_elem?-lt (x ∷ xs) (suc i) h = get_elem?-lt xs i (omega arith)

get_elem?-drop : (n : ℕ) (xs : Bytes) (i : ℕ) → get_elem? (drop n xs) i ≡ get_elem? xs (n + i)
get_elem?-drop zero xs i = at xs i (0 + i) (omega arith)
get_elem?-drop (suc n) [] i = refl
get_elem?-drop (suc n) (x ∷ xs) i =
    get_elem?-drop n xs i ∙ at (x ∷ xs) (suc (n + i)) (suc n + i) (omega arith)

get_elem?-take : (n : ℕ) (xs : Bytes) (i : ℕ) → i < n → get_elem? (take n xs) i ≡ get_elem? xs i
get_elem?-take zero xs i h = absurd (omega arith)
get_elem?-take (suc n) [] i h = refl
get_elem?-take (suc n) (x ∷ xs) zero h = refl
get_elem?-take (suc n) (x ∷ xs) (suc i) h = get_elem?-take n xs i (omega arith)

-- A byte of a chunk is a byte of the file.
pub get_elem?-read_chunk :
    (content : Bytes) (chunk_size idx k : ℕ)
    → k < chunk_size
    → get_elem? (read_chunk content chunk_size idx) k ≡ get_elem? content (idx * chunk_size + k)
unfolding read_chunk
get_elem?-read_chunk content chunk_size idx k h =
    get_elem?-take chunk_size (drop (idx * chunk_size) content) k h
    ∙ get_elem?-drop (idx * chunk_size) content k

pub length-read_chunk :
    (content : Bytes) (chunk_size idx : ℕ)
    → length (read_chunk content chunk_size idx)
      ≡ min chunk_size (length content - idx * chunk_size)
unfolding read_chunk
length-read_chunk content chunk_size idx =
    length-take chunk_size (drop (idx * chunk_size) content)
    ∙ ap (min chunk_size) (length-drop (idx * chunk_size) content)

-- What is written stands there.
pub write_at-in :
    (off : ℕ) (bs content : Bytes) (j : ℕ)
    → off ≤ j
    → j < off + length bs
    → get_elem? (write_at off bs content) j ≡ get_elem? bs (j - off)
unfolding write_at
write_at-in zero [] content j h l = absurd (omega arith)
write_at-in zero (b ∷ bs) [] zero h l = refl
write_at-in zero (b ∷ bs) [] (suc j) h l =
    write_at-in zero bs [] j (omega arith) (omega arith)
    ∙ at (b ∷ bs) (suc (j - 0)) (suc j - 0) (omega arith)
write_at-in zero (b ∷ bs) (c ∷ content) zero h l = refl
write_at-in zero (b ∷ bs) (c ∷ content) (suc j) h l =
    write_at-in zero bs content j (omega arith) (omega arith)
    ∙ at (b ∷ bs) (suc (j - 0)) (suc j - 0) (omega arith)
write_at-in (suc off) bs content zero h l = absurd (omega arith)
write_at-in (suc off) [] content (suc j) h l = absurd (omega arith)
write_at-in (suc off) (b ∷ bs) [] (suc j) h l =
    write_at-in off (b ∷ bs) [] j (omega arith) (omega arith)
    ∙ at (b ∷ bs) (j - off) (suc j - suc off) (omega arith)
write_at-in (suc off) (b ∷ bs) (c ∷ content) (suc j) h l =
    write_at-in off (b ∷ bs) content j (omega arith) (omega arith)
    ∙ at (b ∷ bs) (j - off) (suc j - suc off) (omega arith)

-- What stood outside the part that is written still stands.
pub write_at-out :
    (off : ℕ) (bs content : Bytes) (j : ℕ) {x : ℕ}
    → get_elem? content j ≡ some x
    → (j < off) ⊎ (off + length bs ≤ j)
    → get_elem? (write_at off bs content) j ≡ some x
unfolding write_at
write_at-out zero [] content j e o = e
write_at-out zero (b ∷ bs) [] j e o = cc
write_at-out zero (b ∷ bs) (c ∷ content) zero e o = absurd (omega arith)
write_at-out zero (b ∷ bs) (c ∷ content) (suc j) e o =
    write_at-out zero bs content j e (omega arith)
write_at-out (suc off) [] content j e o = e
write_at-out (suc off) (b ∷ bs) [] j e o = cc
write_at-out (suc off) (b ∷ bs) (c ∷ content) zero e o = e
write_at-out (suc off) (b ∷ bs) (c ∷ content) (suc j) e o =
    write_at-out off (b ∷ bs) content j e (omega arith)

-- A write makes the content no longer than it was, or than the end of what is written.
pub length-write_at :
    (off : ℕ) (bs content : Bytes) (n : ℕ)
    → length content ≤ n
    → off + length bs ≤ n
    → length (write_at off bs content) ≤ n
unfolding write_at
length-write_at zero [] content n hc hb = hc
length-write_at zero (b ∷ bs) content zero hc hb = absurd (omega arith)
length-write_at zero (b ∷ bs) [] (suc n) hc hb =
    omega (arith, length-write_at zero bs [] n (omega arith) (omega arith))
length-write_at zero (b ∷ bs) (c ∷ content) (suc n) hc hb =
    omega (arith, length-write_at zero bs content n (omega arith) (omega arith))
length-write_at (suc off) bs content zero hc hb = absurd (omega arith)
length-write_at (suc off) [] content (suc n) hc hb = hc
length-write_at (suc off) (b ∷ bs) [] (suc n) hc hb =
    omega (arith, length-write_at off (b ∷ bs) [] n (omega arith) (omega arith))
length-write_at (suc off) (b ∷ bs) (c ∷ content) (suc n) hc hb =
    omega (arith, length-write_at off (b ∷ bs) content n (omega arith) (omega arith))
