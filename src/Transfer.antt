-- ===== src/Transfer.antt =====
-- The file transfer's data and frames: src/file_transfer/schemas/send_ctx.py,
-- src/file_transfer/schemas/recv_ctx.py and
-- src/file_transfer/handlers/file_transfer_handler.py. Times are in milliseconds.
pub mod Events
pub mod Paths
pub mod Receiver
pub mod Window
pub mod Sender
pub mod Session
use link_chat.Prelude.{
  ℕ, ◌+◌, ◌*◌, ◌%◌, ◌^◌, Bool, false, Option, none, some, List, [], ◌∷◌, ◌++◌, length, take, drop,
  Result,
}
use link_chat.Prelude.Int.{ℤ, negsuc}
use link_chat.Dict.{Dict}
use link_chat.Text.{Text, Bytes, codes}
use link_chat.Text.Decimal.{format}
use link_chat.Frame.{MessageType, HeaderSchema, FrameSchema}
use link_chat.Payload.{kv_bytes}

-- What a node's frames have in common: its address and its EtherType.
pub record Node : Type 0 where
  pub src_mac : Text
  pub ethertype : ℕ

-- `inflight` maps an index to the time of its last transmission and its retries.
pub record FileSendCtx : Type 0 where
  pub file_id : Text
  pub dst_mac : Text
  pub path : Text
  pub size : ℕ
  pub hash_sha256_hex : Text
  pub chunk_size : ℕ
  pub total_chunks : ℕ
  pub window_size : ℕ
  pub timeout_s : ℕ
  pub max_retries : ℕ
  pub next_to_send : ℕ
  pub last_acked : ℤ
  pub inflight : Dict ℕ (ℕ × ℕ)
  pub acked : List ℕ
  pub finished : Bool
  pub meta_acked : Bool
  pub meta_sent_ts : ℕ

-- A new context, with the defaults of the data class.
unfoldable pub new_send_ctx : Text → Text → Text → ℕ → Text → ℕ → ℕ → FileSendCtx
new_send_ctx file_id dst_mac path size hash chunk_size total = record {
  file_id = file_id;
  dst_mac = dst_mac;
  path = path;
  size = size;
  hash_sha256_hex = hash;
  chunk_size = chunk_size;
  total_chunks = total;
  window_size = 16;
  timeout_s = 600;
  max_retries = 10;
  next_to_send = 0;
  last_acked = negsuc 0;
  inflight = [];
  acked = [];
  finished = false;
  meta_acked = false;
  meta_sent_ts = 0;
}

-- `received` is a set: an index stands in it once.
pub record FileRcvCtx : Type 0 where
  pub file_id : Text
  pub src_mac : Text
  pub dst_mac : Text
  pub name : Text
  pub size : ℕ
  pub sha256_expected : Text
  pub chunk_size : ℕ
  pub total_chunks : ℕ
  pub temp_path : Text
  pub dest_path : Text
  pub rel : Text
  pub received : List ℕ
  pub next_needed : ℕ
  pub finished : Bool

-- `if not reason`: an empty reason leaves the line out.
abbrev pub fin_pairs : Text → Text → Text → List (Text × Text)
fin_pairs file_id status [] = (codes "file_id", file_id) ∷ (codes "status", status) ∷ []
fin_pairs file_id status (c ∷ r) =
    (codes "file_id", file_id) ∷ (codes "status", status) ∷ (codes "reason", c ∷ r) ∷ []

-- The lines in front of a chunk.
abbrev pub data_pairs : FileSendCtx → ℕ → List (Text × Text)
data_pairs ctx idx =
    (codes "file_id", ctx.file_id)
    ∷ (codes "idx", format idx)
    ∷ (codes "total", format ctx.total_chunks)
    ∷ []

-- `f.seek(idx * chunk_size); f.read(chunk_size)`
unfoldable pub read_chunk : Bytes → ℕ → ℕ → Bytes
read_chunk content chunk_size idx = take chunk_size (drop (idx * chunk_size) content)

unfoldable pub chunk_payload : FileSendCtx → ℕ → Bytes → Bytes
chunk_payload ctx idx chunk = (kv_bytes (data_pairs ctx idx) ++ 10 ∷ []) ++ chunk

abbrev pub meta_pairs : FileSendCtx → Text → Option Text → List (Text × Text)
meta_pairs ctx file_name rel =
    (codes "file_id", ctx.file_id)
    ∷ (codes "name", file_name)
    ∷ (codes "size", format ctx.size)
    ∷ (codes "sha256", ctx.hash_sha256_hex)
    ∷ (codes "chunk_size", format ctx.chunk_size)
    ∷ (codes "total", format ctx.total_chunks)
    ∷ (elim rel [ none ↦ [] | some p ↦ elim p [ [] ↦ [] | c ∷ s ↦ (codes "path", c ∷ s) ∷ [] ] ])

module _ (node : Node) where
  -- `get_frame` with the sequence number that it leaves behind; `& 0xFFFF` is `% 2 ^ 16`.
  unfoldable pub get_frame : ℕ → Text → MessageType → Bytes → FrameSchema × ℕ
  get_frame seq dst_mac msg_type payload =
      let next = (seq + 1) % 2 ^ 16 in
      (
        record {
          dst_mac = dst_mac;
          src_mac = node.src_mac;
          ethertype = node.ethertype;
          header = record {
            message_type = msg_type;
            sequence = next;
            payload_len = length payload;
            checksum = 0;
          };
          payload = payload;
        },
        next,
      )

  unfoldable pub get_file_fin_frame : ℕ → FileSendCtx → Text → Text → FrameSchema × ℕ
  unfolding get_frame
  get_file_fin_frame seq ctx status reason =
      get_frame seq ctx.dst_mac MessageType.file_fin
        (kv_bytes (fin_pairs ctx.file_id status reason))

  unfoldable pub receiver_get_file_fin_frame : ℕ → Text → Text → Text → Text → FrameSchema × ℕ
  unfolding get_frame
  receiver_get_file_fin_frame seq dst_mac file_id status reason =
      get_frame seq dst_mac MessageType.file_fin (kv_bytes (fin_pairs file_id status reason))

  -- The content of the file at `ctx.path` is an argument.
  unfoldable pub get_data_chunk : ℕ → FileSendCtx → Bytes → ℕ → FrameSchema × ℕ
  unfolding get_frame chunk_payload read_chunk
  get_data_chunk seq ctx content idx =
      get_frame seq ctx.dst_mac MessageType.file_data
        (chunk_payload ctx idx (read_chunk content ctx.chunk_size idx))

  unfoldable pub get_meta_frame : ℕ → FileSendCtx → Text → Option Text → FrameSchema × ℕ
  unfolding get_frame
  get_meta_frame seq ctx file_name rel =
      get_frame seq ctx.dst_mac MessageType.file_meta (kv_bytes (meta_pairs ctx file_name rel))
