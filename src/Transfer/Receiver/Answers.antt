-- ===== src/Transfer/Receiver/Answers.antt =====
-- What the receiver's acknowledgements say.
use link_chat.Prelude.{
  Option, ap, if_cases, ℕ, ◌≤◌, ◌≡◌, refl, true, ◌&&◌, not, none, some, List, [], ◌∷◌, ◌++◌, arith,
  leb, length, All, All-append,
}
use link_chat.Dict.{get}
use link_chat.Text.{Text, Bytes, codes, lower}
use link_chat.Text.Equality.{text_eq, text_key}
use link_chat.Text.Utf8.{encode}
use link_chat.Text.Decimal.{format}
use link_chat.Frame.{MessageType, FrameSchema}
use link_chat.Transfer.{FileRcvCtx, receiver_get_file_fin_frame}
use link_chat.Transfer.Receiver.{Host, Rx, send_ack, send_fin}
use link_chat.Transfer.Receiver.Data.{finish_file, tell_progress, after_write}
use link_chat.Transfer.Receiver.Fin.{send_fin-receiver_get_file_fin_frame}

-- The payload of an acknowledgement.
abbrev pub ack_bytes : Text → ℕ → Bytes
ack_bytes file_id n =
    encode (codes "file_id=" ++ (file_id ++ 10 ∷ (codes "next_needed=" ++ (format n ++ 10 ∷ []))))

-- An acknowledgement of a transfer asks for a chunk up to `n`.
pub record IsAnswer (file_id : Text) (n : ℕ) (frame : FrameSchema) : Type 0 where
  pub asks :
      frame.header.message_type ≡ MessageType.ack
      → (m : ℕ) × (m ≤ n) × (frame.payload ≡ ack_bytes file_id m)

pub IsAnswer-mono :
    (file_id : Text) (m n : ℕ) (frames : List FrameSchema)
    → m ≤ n
    → All (IsAnswer file_id m) frames
    → All (IsAnswer file_id n) frames
IsAnswer-mono file_id m n [] l h = tt
IsAnswer-mono file_id m n (f ∷ fs) l h = (
  record { asks = λ e. let a = h.0.asks e in (a.0, omega (arith, a.1), a.2) },
  IsAnswer-mono file_id m n fs l h.1,
)

-- The first chunk that a transfer misses; when it is over, it misses none.
abbrev next_missing : ℕ → Option FileRcvCtx → ℕ
next_missing total none = total
next_missing total (some c) = c.next_needed

abbrev pub progress : FileRcvCtx → Rx → ℕ
progress base s = next_missing base.total_chunks (get base.file_id s.ctx_by_id)

pub known_progress :
    (base : FileRcvCtx) (s : Rx) (c : FileRcvCtx)
    → get base.file_id s.ctx_by_id ≡ some c
    → progress base s ≡ c.next_needed
known_progress base s c e = ap (next_missing base.total_chunks) e

pub gone_progress :
    (base : FileRcvCtx) (s : Rx)
    → get base.file_id s.ctx_by_id ≡ none
    → progress base s ≡ base.total_chunks
gone_progress base s e = ap (next_missing base.total_chunks) e

-- The acknowledgements still ask for no more than the first missing chunk, which is not before the
-- one of the earlier state.
pub record Answered (base : FileRcvCtx) (s s' : Rx) : Type 0 where
  pub rising : progress base s ≤ progress base s'
  pub answers :
      All (IsAnswer base.file_id (progress base s)) s.outgoing
      → All (IsAnswer base.file_id (progress base s')) s'.outgoing

module _ (host : Host) where
  pub send_ack_answers :
      (file_id dst_mac : Text) (m n : ℕ) (s : Rx)
      → m ≤ n
      → All (IsAnswer file_id n) s.outgoing
      → All (IsAnswer file_id n) (send_ack host file_id dst_mac m s).outgoing
  unfolding send_ack
  send_ack_answers file_id dst_mac m n s l h =
      All-append (IsAnswer file_id n) s.outgoing _ h (record { asks = λ e. (m, l, refl) }, tt)

  send_fin_answers :
      (file_id id dst_mac status reason : Text) (n : ℕ) (s : Rx)
      → All (IsAnswer file_id n) s.outgoing
      → All (IsAnswer file_id n) (send_fin host id dst_mac status reason s).outgoing
  unfolding receiver_get_file_fin_frame
  send_fin_answers file_id id dst_mac status reason n s h =
      rw (send_fin-receiver_get_file_fin_frame host id dst_mac status reason s)
        (All-append (IsAnswer file_id n) s.outgoing _ h (record { asks = λ e. absurd (cc e) }, tt))

  module _ (ctx : FileRcvCtx) (frame : FrameSchema) (content : Bytes) (n : ℕ) where
    pub told_answers :
        (s : Rx)
        → ctx.next_needed ≤ n
        → All (IsAnswer ctx.file_id n) s.outgoing
        → All (IsAnswer ctx.file_id n) (tell_progress host ctx frame content s).outgoing
    unfolding tell_progress
    told_answers s l h = send_ack_answers ctx.file_id frame.src_mac ctx.next_needed n _ l h

    finish_answers :
        (s : Rx)
        → All (IsAnswer ctx.file_id n) s.outgoing
        → All (IsAnswer ctx.file_id n) (finish_file host ctx frame content s).outgoing
    unfolding finish_file
    finish_answers s h =
        if_cases (λ (t : Rx). All (IsAnswer ctx.file_id n) t.outgoing)
          (text_eq (lower (host.sha256_hex content)) (lower ctx.sha256_expected)) _ _
          (λ e. send_fin_answers ctx.file_id ctx.file_id frame.src_mac _ _ n _ h)
          (λ e. send_fin_answers ctx.file_id ctx.file_id frame.src_mac _ _ n _ h)

  module _ (ctx : FileRcvCtx) (frame : FrameSchema) (content : Bytes) (n : ℕ) where
    -- All acknowledgements after a chunk ask for a chunk up to `n`, if those before it did and the
    -- marked context does.
    pub after_write_answers :
        (s : Rx)
        → ctx.next_needed ≤ n
        → All (IsAnswer ctx.file_id n) s.outgoing
        → All (IsAnswer ctx.file_id n) (after_write host ctx frame content s).outgoing
    unfolding after_write
    after_write_answers s l h =
        if_cases (λ (t : Rx). All (IsAnswer ctx.file_id n) t.outgoing)
          (leb ctx.total_chunks (length ctx.received) && not ctx.finished) _ _
          (λ e.
            finish_answers (record ctx { finished = true }) frame content n _
              (told_answers ctx frame content n s l h))
          (λ e. told_answers ctx frame content n s l h)
