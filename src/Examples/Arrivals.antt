-- ===== src/Examples/Arrivals.antt =====
-- A file of five bytes in three chunks, of which the last comes twice and first.
use link_chat.Transfer.Receiver.Order.{chunk_frames, receive_all}
use link_chat.Prelude.{
  some, ◌++◌, ℕ, ◌*◌, ◌<◌, ◌≡◌, refl, true, false, none, List, [], ◌∷◌, arith, ok,
}
use link_chat.Prelude.Int.{negsuc}
use link_chat.Dict.{get}
use link_chat.Text.{Bytes, codes, is_break, is_space, lower}
use link_chat.Text.Equality.{text_eq}
use link_chat.Payload.{kv_line, kv_bytes}
use link_chat.Payload.RoundTrip.{lines_text}
use link_chat.Text.Utf8.{encode}
use link_chat.Transfer.{Node, FileSendCtx, FileRcvCtx, read_chunk}
use link_chat.Transfer.Receiver.{Host, Rx}
use link_chat.Transfer.Receiver.Store.{write_file, write_at}
use link_chat.Transfer.Receiver.Data.{split_blank, has_index, mark_received}
use link_chat.Transfer.Receiver.Header.{split_blank-kv_bytes}
use link_chat.Payload.Fields.{IsField}
use link_chat.Transfer.Receiver.Progress.{IsTally, mark_received-IsTally}
use link_chat.Transfer.Receiver.Assembly.{IsAssembly, IsAssembly-chunk}
use link_chat.Transfer.Receiver.Complete.{receive_all-Arrived}
use link_chat.Transfer.Receiver.States.{Arriving, Arrived}

abbrev pub host : Host
host = record {
  node = record { src_mac = codes "02:42:ac:11:00:03"; ethertype = 0x88b5 };
  base_dir = codes "/shared";
  realpath = λ p. p;
  sha256_hex = λ content. codes "2cf2";
}

abbrev pub node : Node
node = record { src_mac = codes "02:42:ac:11:00:02"; ethertype = 0x88b5 }

abbrev pub original : Bytes
original = codes "hello"

abbrev pub send_ctx : FileSendCtx
send_ctx = record {
  file_id = codes "h-1";
  dst_mac = codes "02:42:ac:11:00:03";
  path = codes "/tmp/h";
  size = 5;
  hash_sha256_hex = codes "2CF2";
  chunk_size = 2;
  total_chunks = 3;
  window_size = 16;
  timeout_s = 600;
  max_retries = 10;
  next_to_send = 0;
  last_acked = negsuc 0;
  inflight = [];
  acked = [];
  finished = false;
  meta_acked = false;
  meta_sent_ts = 0;
}

abbrev rcv_ctx : FileRcvCtx
rcv_ctx = record {
  file_id = codes "h-1";
  src_mac = codes "02:42:ac:11:00:02";
  dst_mac = codes "02:42:ac:11:00:03";
  name = codes "h";
  size = 5;
  sha256_expected = codes "2CF2";
  chunk_size = 2;
  total_chunks = 3;
  temp_path = codes "/shared/h.part";
  dest_path = codes "/shared/h";
  rel = codes "h";
  received = [];
  next_needed = 0;
  finished = false;
}

abbrev pub receiver : Rx
receiver = record {
  seq = 0;
  outgoing = [];
  ctx_by_id = (codes "h-1", rcv_ctx) ∷ [];
  files = write_file (codes "/shared/h.part") [] (λ p. none);
  bus = record {
    sinks = record { on_started = true; on_progress = true; on_finished = true; on_error = true };
    sent = [];
  };
}

abbrev order : List (ℕ × ℕ)
order = (0, 2) ∷ (1, 0) ∷ (2, 2) ∷ (3, 1) ∷ []

none_yet : (i : ℕ) → has_index i [] ≡ true → ⊥
unfolding has_index
none_yet i h = cc h

empty-IsTally : IsTally rcv_ctx
unfolding has_index
empty-IsTally = record {
  distinct = tt;
  in_range = tt;
  before = λ i l. absurd (omega arith);
  missing = refl;
  bounded = omega arith;
}

empty-IsAssembly : IsAssembly original rcv_ctx []
empty-IsAssembly = record {
  covers = record { some_bytes = omega arith; reaches = omega arith; tight = omega arith };
  tally = empty-IsTally;
  sized = omega arith;
  agree = λ i k h l inside. absurd (none_yet i h);
}

empty_start : Arriving rcv_ctx original [] receiver
unfolding write_file get text_eq
empty_start = record {
  received = [];
  next = 0;
  content = [];
  known = refl;
  stored = refl;
  assembly = empty-IsAssembly;
  missing = omega arith;
  counted = λ i h. h;
}

abbrev id_field : IsField (codes "file_id", codes "h-1")
unfolding kv_line is_break is_space
id_field = record {
  clean = record {
    key_line = (refl, (refl, (refl, (refl, (refl, (refl, (refl, tt)))))));
    value_line = (refl, (refl, (refl, tt)));
    key_stripped = record { front = refl; back = refl };
    value_stripped = record { front = refl; back = refl };
    key_plain = (refl, (refl, (refl, (refl, (refl, (refl, (refl, tt)))))));
  };
  scalars = omega arith;
}

none_empty : codes "h-1" ≡ [] → ⊥
none_empty e = cc e

all_sent : (i : ℕ) → i < 3 → has_index i (2 ∷ 0 ∷ 2 ∷ 1 ∷ []) ≡ true
unfolding has_index
all_sent i l = ground arith

digest_ok : text_eq (lower (codes "2cf2")) (lower (codes "2CF2")) ≡ true
unfolding text_eq lower
digest_ok = refl

receive_all-Arrived_example :
    (s' : Rx) × (receive_all host (chunk_frames node send_ctx original order) receiver ≡ ok s')
    × Arrived rcv_ctx original s'
receive_all-Arrived_example =
    receive_all-Arrived host rcv_ctx send_ctx original refl (omega arith) id_field none_empty refl
      digest_ok node order receiver refl (omega arith) all_sent empty_start

IsAssembly-chunk_example :
    IsAssembly original (mark_received 2 rcv_ctx) (write_at (2 * 2) (read_chunk original 2 2) [])
IsAssembly-chunk_example = IsAssembly-chunk original [] 2 rcv_ctx empty-IsAssembly (omega arith)

mark_received-IsTally_example : IsTally (mark_received 0 rcv_ctx)
mark_received-IsTally_example = mark_received-IsTally 0 rcv_ctx empty-IsTally (omega arith)

-- The data begin with line feeds of their own.
split_blank-kv_bytes_example :
    split_blank ((kv_bytes ((codes "file_id", codes "h-1") ∷ []) ++ 10 ∷ []) ++ (10 ∷ 10 ∷ 7 ∷ []))
    ≡ some (encode (lines_text ((codes "file_id", codes "h-1") ∷ [])), 10 ∷ 10 ∷ 7 ∷ [])
split_blank-kv_bytes_example =
    split_blank-kv_bytes (codes "file_id", codes "h-1") [] (10 ∷ 10 ∷ 7 ∷ []) (id_field, tt)
