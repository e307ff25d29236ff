-- ===== src/Transfer/Receiver/Order.antt =====
-- The frames of a file's chunks, in some order, as the receiver takes them.
use link_chat.Prelude.{
  ℕ, ◌≡◌, refl, sym, subst, inl, inr, true, List, [], ◌∷◌, arith, Result, ok, ◌>>=◌,
}
use link_chat.Text.{Bytes}
use link_chat.Frame.{FrameSchema}
use link_chat.Transfer.{Node, FileSendCtx, read_chunk, chunk_payload, get_data_chunk}
use link_chat.Transfer.Receiver.{Host, Rx}
use link_chat.Transfer.Receiver.Data.{has_index, on_data}
use link_chat.Transfer.Receiver.Progress.{has_index-cons}
use link_chat.Transfer.Receiver.Assembly.{has_index-cons_split}

pub has_index-head : (idx : ℕ) (is : List ℕ) → has_index idx (idx ∷ is) ≡ true
unfolding has_index
has_index-head idx is = ground arith

-- The frames come one after the other, as the dispatcher takes them from its queue.
abbrev pub receive_all : Host → List FrameSchema → Rx → Result Rx
receive_all host [] s = ok s
receive_all host (frame ∷ frames) s = do s' ← on_data host frame s; receive_all host frames s'

-- The frames of chunks, each with the sequence number before it and its index.
abbrev pub chunk_frames : Node → FileSendCtx → Bytes → List (ℕ × ℕ) → List FrameSchema
chunk_frames node ctx original [] = []
chunk_frames node ctx original ((seq, idx) ∷ rest) =
    (get_data_chunk node seq ctx original idx).0 ∷ chunk_frames node ctx original rest

abbrev pub indices : List (ℕ × ℕ) → List ℕ
indices [] = []
indices ((seq, idx) ∷ rest) = idx ∷ indices rest

unfoldable pub seen : List (ℕ × ℕ) → List ℕ → List ℕ
seen [] got = got
seen ((seq, idx) ∷ rest) got = seen rest (idx ∷ got)

pub seen_got :
    (order : List (ℕ × ℕ)) (got : List ℕ) (i : ℕ)
    → has_index i got ≡ true
    → has_index i (seen order got) ≡ true
unfolding seen
seen_got [] got i h = h
seen_got ((seq, idx) ∷ rest) got i h = seen_got rest (idx ∷ got) i (has_index-cons i idx got h)

has_index-nil : (i : ℕ) → has_index i [] ≡ true → ⊥
unfolding has_index
has_index-nil i h = cc h

pub seen-indices :
    (order : List (ℕ × ℕ)) (got : List ℕ) (i : ℕ)
    → has_index i (indices order) ≡ true
    → has_index i (seen order got) ≡ true
unfolding seen
seen-indices [] got i h = absurd (has_index-nil i h)
seen-indices ((seq, idx) ∷ rest) got i h = elim (has_index-cons_split i idx (indices rest) h) [
  | inl e ↦
      seen_got rest (idx ∷ got) i
        (subst (λ j. has_index j (idx ∷ got) ≡ true) (sym e) (has_index-head idx got))
  | inr k ↦ seen-indices rest (idx ∷ got) i k
]

pub chunk_frame_payload :
    (node : Node) (ctx : FileSendCtx) (original : Bytes) (seq idx : ℕ)
    → (get_data_chunk node seq ctx original idx).0.payload
      ≡ chunk_payload ctx idx (read_chunk original ctx.chunk_size idx)
unfolding get_data_chunk
chunk_frame_payload node ctx original seq idx = refl
