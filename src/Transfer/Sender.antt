-- ===== src/Transfer/Sender.antt =====
-- src/file_transfer/file_sender.py: starting a transfer, and the answers of the receiver.
pub mod Acks
pub mod Starting
pub mod Replies
pub mod Folder
pub mod Waiting
use link_chat.Prelude.{
  ◌>>=◌, ℕ, ◌+◌, ◌-◌, ◌/◌, Bool, true, false, ◌&&◌, ◌||◌, Option, none, some, List, [], ◌∷◌, ◌++◌,
  ltb, leb, ◌==◌, if◌then◌else◌, length, take, file_not_found, zero_division, Result, ok, err,
}
use link_chat.Prelude.Int.{ℤ, pos, pos_part, neg_part, ltb_ℤ, max_ℤ, ◌-ℤ◌}
use link_chat.Dict.{Dict, get, put, pop, keys}
use link_chat.Text.{Text, Bytes, codes}
use link_chat.Text.Equality.{text_eq, text_key, nat_key}
use link_chat.Text.Utf8.{decode}
use link_chat.Text.Decimal.{int}
use link_chat.Frame.{FrameSchema}
use link_chat.Payload.{parse_payload}
use link_chat.Transfer.{Node, FileSendCtx, new_send_ctx, get_meta_frame, get_file_fin_frame}
use link_chat.Transfer.Window.{Tx, queue}
use link_chat.Transfer.Receiver.Data.{has_index}

-- `ctx.acked.add(idx)`
abbrev pub add_index : ℕ → List ℕ → List ℕ
add_index idx acked = if has_index idx acked then acked else idx ∷ acked

-- `for idx in list(ctx.inflight.keys())`: what lies below `next_needed` has arrived.
unfoldable pub settle : ℤ → List ℕ → FileSendCtx → FileSendCtx
settle next_needed [] ctx = ctx
settle next_needed (idx ∷ rest) ctx = settle next_needed rest (
    if ltb_ℤ (pos idx) next_needed
    then record ctx { acked = add_index idx ctx.acked; inflight = pop idx ctx.inflight }
    else ctx)

abbrev pub is_zero : ℤ → Bool
is_zero n = pos_part n == 0 && neg_part n == 0

-- What an acknowledgement does to its context.
unfoldable pub ack_ctx : ℤ → FileSendCtx → FileSendCtx
unfolding settle
ack_ctx next_needed ctx =
    let settled =
      settle next_needed (keys ctx.inflight)
        (record ctx { meta_acked = ctx.meta_acked || is_zero next_needed }) in
    record settled { last_acked = max_ℤ settled.last_acked (next_needed -ℤ pos 1) }

-- `int(kv.get("next_needed", "0"))`
unfoldable pub ack_number : Dict Text Text → Result ℤ
ack_number kv = elim (get (codes "next_needed") kv) [ none ↦ ok (pos 0) | some t ↦ int t ]

-- The context that a payload names.
unfoldable pub named_ctx : Dict Text Text → Dict Text FileSendCtx → Option (Text × FileSendCtx)
named_ctx kv ctxs = elim (get (codes "file_id") kv) [
  | none ↦ none
  | some i ↦ elim i [
    | [] ↦ none
    | c ∷ r ↦ elim (get (c ∷ r) ctxs) [ none ↦ none | some ctx ↦ some (c ∷ r, ctx) ]
  ]
]

unfoldable pub on_ack : FrameSchema → Dict Text FileSendCtx → Result (Dict Text FileSendCtx)
unfolding ack_ctx ack_number named_ctx
on_ack frame ctxs = do
  payload ← decode frame.payload
  let kv = parse_payload payload
  ok (elim (named_ctx kv ctxs) [
    | none ↦ ctxs
    | some (file_id, ctx) ↦ if ctx.finished then ctxs else (elim (ack_number kv) [
      | err e ↦ ctxs
      | ok next_needed ↦ put file_id (ack_ctx next_needed ctx) ctxs
    ])
  ])

unfoldable pub on_fin : FrameSchema → Dict Text FileSendCtx → Result (Dict Text FileSendCtx)
unfolding named_ctx
on_fin frame ctxs = do
  payload ← decode frame.payload
  ok (elim (named_ctx (parse_payload payload) ctxs) [
    | none ↦ ctxs
    | some (file_id, ctx) ↦ put file_id (record ctx { finished = true }) ctxs
  ])

-- `os.path.basename`: what follows the last slash.
unfoldable pub basename : Text → Text
basename [] = []
basename (c ∷ s) = if has_index b'/' s then basename s else if c == b'/' then s else c ∷ s

-- The context of a new transfer; `content` is what the file holds.
unfoldable pub start_ctx : (Bytes → Text) → ℕ → Text → Text → Bytes → Result FileSendCtx
unfolding new_send_ctx basename
start_ctx sha256_hex chunk_size path dst_mac content =
    if chunk_size == 0
    then err zero_division
    else ok (
        new_send_ctx (basename path ++ b'-' ∷ take 12 (sha256_hex content)) dst_mac path
          (length content) (sha256_hex content) chunk_size
          ((length content + chunk_size - 1) / chunk_size))

-- What `send_file` shares with the other threads: the link, its context and the table of contexts.
pub record Sending : Type 0 where
  pub tx : Tx
  pub ctxs : Dict Text FileSendCtx

-- The context is one object: the entry of the table under its identifier, while there is one, is it.
unfoldable pub share : Tx → Dict Text FileSendCtx → Sending
share t ctxs = record {
  tx = t;
  ctxs = elim (get t.ctx.file_id ctxs) [ none ↦ ctxs | some old ↦ put t.ctx.file_id t.ctx ctxs ];
}

-- A round of the wait: what the other threads do during its sleep, and its time.
pub record WaitRound : Type 0 where
  pub others : Sending → Sending
  pub now : ℕ

module _ (node : Node) (rel : Option Text) where
  -- `_send_meta` at a time.
  unfoldable pub send_meta : ℕ → Tx → Tx
  send_meta now t =
      let queued = queue t (get_meta_frame node t.seq t.ctx (basename t.ctx.path) rel) in
      record queued { ctx = record (t.ctx) { meta_sent_ts = now } }

  unfoldable pub meta_timeout : Tx → Tx
  meta_timeout t =
      let queued =
        queue t (get_file_fin_frame node t.seq t.ctx (codes "error") (codes "meta_timeout")) in
      record queued { ctx = record (t.ctx) { finished = true } }

  -- The announcement is sent again when nobody has answered for 1.5 s.
  unfoldable pub retry_meta : ℕ → Tx → Tx
  unfolding send_meta
  retry_meta now t =
      if ltb 0 t.ctx.meta_sent_ts && leb (t.ctx.meta_sent_ts + 1500) now then send_meta now t else t

  -- The loop of the wait. What follows the sleep is one step, in which the clock is read once.
  unfoldable pub wait_meta : ℕ → List WaitRound → Sending → Sending
  unfolding share retry_meta meta_timeout
  wait_meta start [] s = s
  wait_meta start (r ∷ rounds) s = elim (s.tx.ctx.meta_acked || s.tx.ctx.finished) [
    | true ↦ s
    | false ↦
        let slept = r.others s in
        let retried = retry_meta r.now slept.tx in
        elim (ltb (start + 30000) r.now) [
          | true ↦ share (meta_timeout retried) slept.ctxs
          | false ↦ wait_meta start rounds (share retried slept.ctxs)
        ]
  ]

-- `send_file`: the transfer is registered, announced, and waits for its first acknowledgement.
-- `file` gives the content of a path where there is a file.
unfoldable pub send_file :
    Node
    → (Bytes → Text)
    → (Text → Option Bytes)
    → ℕ
    → Text
    → Text
    → Option Text
    → ℕ
    → List WaitRound
    → ℕ × List FrameSchema
    → Dict Text FileSendCtx
    → Result (Text × (ℕ × List FrameSchema) × Dict Text FileSendCtx)
unfolding start_ctx wait_meta send_meta share
send_file node sha256_hex file chunk_size path dst_mac rel start rounds (seq, outgoing) ctxs =
    elim (file path) [
      | none ↦ err file_not_found
      | some content ↦ do
        ctx ← start_ctx sha256_hex chunk_size path dst_mac content
        let registered = put ctx.file_id ctx ctxs
        let announced =
            send_meta node rel start (record { seq = seq; outgoing = outgoing; ctx = ctx })
        let s = wait_meta node rel start rounds (share announced registered)
        ok (ctx.file_id, (s.tx.seq, s.tx.outgoing), s.ctxs)
    ]
