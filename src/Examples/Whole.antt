-- ===== src/Examples/Whole.antt =====
-- A file of five bytes, announced and sent in three chunks.
use link_chat.Prelude.{
  ℕ, ◌<◌, ◌≡◌, refl, subst, ◌≢◌, true, false, none, some, List, [], ◌∷◌, arith, ok,
}
use link_chat.Prelude.Int.{negsuc}
use link_chat.Dict.{get}
use link_chat.Text.{codes}
use link_chat.Text.Equality.{text_eq, text_key}
use link_chat.Payload.Fields.{IsWord, is_plain-IsKey}
use link_chat.Transfer.{FileSendCtx, get_meta_frame}
use link_chat.Transfer.Paths.{ensure_inside_base_dir, normpath, join_path, sanitize_relative_path}
use link_chat.Transfer.Sender.{start_ctx, basename}
use link_chat.Transfer.Sender.Starting.{start_ctx-Covers}
use link_chat.Transfer.Receiver.{Rx}
use link_chat.Transfer.Receiver.Data.{has_index}
use link_chat.Transfer.Receiver.Meta.{dest_path, on_meta, meta_rel}
use link_chat.Transfer.Receiver.Order.{receive_all, chunk_frames}
use link_chat.Transfer.Receiver.Assembly.{Covers}
use link_chat.Transfer.Receiver.Announced.{sent_fields, IsAnnounceable}
use link_chat.Transfer.Receiver.Whole.{on_meta-receive_all}
use link_chat.Examples.Arrivals.{host, node, original}

abbrev ctx : FileSendCtx
ctx = record {
  file_id = codes "h-2cf2";
  dst_mac = codes "02:42:ac:11:00:03";
  path = codes "/tmp/h";
  size = 5;
  hash_sha256_hex = codes "2cf2";
  chunk_size = 2;
  total_chunks = 3;
  window_size = 16;
  timeout_s = 600;
  max_retries = 10;
  next_to_send = 0;
  last_acked = negsuc 0;
  inflight = [];
  acked = [];
  finished = false;
  meta_acked = false;
  meta_sent_ts = 0;
}

started : start_ctx host.sha256_hex 2 (codes "/tmp/h") (codes "02:42:ac:11:00:03") original ≡ ok ctx
unfolding start_ctx has_index
started = refl

pub same_name : basename (codes "/tmp/h") ≡ codes "h"
unfolding basename has_index
same_name = refl

announceable : IsAnnounceable ctx (basename (codes "/tmp/h")) (some (codes "d/h"))
announceable = record {
  id_word = (is_plain-IsKey (codes "h-2cf2") refl).word;
  name_word = rw same_name (is_plain-IsKey (codes "h") refl).word;
  hash_word = (is_plain-IsKey (codes "2cf2") refl).word;
  rel_word = λ p e. subst IsWord (cc e) (is_plain-IsKey (codes "d/h") refl).word;
}

pub named : basename (codes "/tmp/h") ≢ []
named e = cc (e, same_name)

pub hashed : codes "2cf2" ≢ []
hashed e = cc e

abbrev pub idle : Rx
idle = record {
  seq = 0;
  outgoing = [];
  ctx_by_id = [];
  files = λ p. none;
  bus = record {
    sinks = record { on_started = true; on_progress = true; on_finished = true; on_error = true };
    sent = [];
  };
}

inside :
    ensure_inside_base_dir host.realpath host.base_dir
      (dest_path host (sent_fields ctx (basename (codes "/tmp/h")) (some (codes "d/h"))))
    ≡ true
unfolding ensure_inside_base_dir dest_path meta_rel normpath join_path sanitize_relative_path
    text_eq
inside = refl

abbrev order : List (ℕ × ℕ)
order = (1, 2) ∷ (2, 0) ∷ (3, 2) ∷ (4, 1) ∷ []

all_sent : (i : ℕ) → i < 3 → has_index i (2 ∷ 0 ∷ 2 ∷ 1 ∷ []) ≡ true
unfolding has_index
all_sent i l = ground arith

on_meta-receive_all_example :
    (s1 : Rx) × (s2 : Rx) × (on_meta host
        (get_meta_frame node 0 ctx (basename (codes "/tmp/h")) (some (codes "d/h"))).0
        idle
      ≡ ok s1)
    × (receive_all host (chunk_frames node ctx original order) s1 ≡ ok s2)
    × (get (codes "h-2cf2") s2.ctx_by_id ≡ none)
    × (s2.files (dest_path host (sent_fields ctx (basename (codes "/tmp/h")) (some (codes "d/h"))))
        ≡ some original)
on_meta-receive_all_example =
    on_meta-receive_all host node 0 2 (codes "/tmp/h") (codes "02:42:ac:11:00:03") original ctx
      (some (codes "d/h")) order idle started announceable (omega arith) named hashed inside
      (omega arith) all_sent

start_ctx-Covers_example : Covers 3 2 5
start_ctx-Covers_example =
    start_ctx-Covers host.sha256_hex 2 (codes "/tmp/h") (codes "02:42:ac:11:00:03") original ctx
      started
