-- ===== src/Server/Dispatch.antt =====
-- `_on_cmd` of src/app_server.py: the choice of the command.
use link_chat.Prelude.{List, Bool, [], ℕ, ◌||◌, Option, none, some, ◌++◌, if◌then◌else◌, Result}
use link_chat.Dict.{Dict}
use link_chat.Text.{Text, Bytes, codes, lower}
use link_chat.Text.Equality.{text_eq}
use link_chat.Transfer.{Node}
use link_chat.Transfer.Sender.{WaitRound}
use link_chat.Transfer.Sender.Folder.{FolderFile}
use link_chat.Services.Discovery.{Neighbor}
use link_chat.Services.Messaging.{Messaging}
use link_chat.Server.Events.{neighbors_snapshot}
use link_chat.Server.Commands.{Json, Cmd, Reply, or_key, on_send_text, on_send_text_all}
use link_chat.Server.Files.{FileServer, FileReply, on_file_send, on_folder_send}

-- What a command meets outside of the server: the clock, the files, what `int` makes of CHUNK_SIZE
-- or of the default for files and for folders, and the course of the transfers that it starts.
pub record Outside : Type 0 where
  pub now : ℕ
  pub node : Node
  pub sha256_hex : Bytes → Text
  pub file : Text → Option Bytes
  pub exists : Text → Bool
  pub is_dir : Text → Bool
  pub file_chunk : Result ℕ
  pub folder_chunk : Result ℕ
  pub rounds : List WaitRound
  pub walk : Text → List FolderFile

-- What the commands change.
pub record Services : Type 0 where
  pub messaging : Messaging
  pub files : FileServer

pub data ServerReply : Type 0 where
  text_reply : Reply → ServerReply
  file_reply : FileReply → ServerReply

abbrev pub of_text : Services → Reply × Messaging → ServerReply × Services
of_text s r = (ServerReply.text_reply r.0, record s { messaging = r.1 })

abbrev pub of_files : Services → FileReply × FileServer → ServerReply × Services
of_files s r = (ServerReply.file_reply r.0, record s { files = r.1 })

-- The command's word, in lower case. An unknown word is named in the answer.
unfoldable pub on_cmd :
    Outside → Text → Dict Text Neighbor → Cmd → Services → ServerReply × Services
unfolding on_send_text on_send_text_all neighbors_snapshot on_file_send on_folder_send
on_cmd o alias neighbors cmd s =
    let t = lower (or_key cmd.type cmd.cmd) in
    let dst = or_key cmd.dst cmd.dst_mac in
    if text_eq t (codes "ping")
    then of_text s (Reply.pong alias, s.messaging)
    else if text_eq t (codes "echo")
    then of_text s (Reply.echo (elim cmd.text [ none ↦ Json.str [] | some j ↦ j ]), s.messaging)
    else if text_eq t (codes "send_text") || text_eq t (codes "send_message")
    then of_text s (on_send_text cmd s.messaging)
    else if text_eq t (codes "send_text_all") || text_eq t (codes "broadcast_text")
    then of_text s (on_send_text_all o.now neighbors cmd s.messaging)
    else if text_eq t (codes "roster_get") || text_eq t (codes "neighbors_get")
    then of_text s (Reply.rows (neighbors_snapshot o.now neighbors), s.messaging)
    else if text_eq t (codes "file_send")
    then of_files s (
        on_file_send o.node o.sha256_hex o.file o.exists o.file_chunk o.now o.rounds dst
          (or_key cmd.path none) s.files)
    else if text_eq t (codes "folder_send")
    then of_files s (
        on_folder_send o.node o.sha256_hex o.file o.is_dir o.folder_chunk
          (o.walk (or_key cmd.folder cmd.path)) dst (or_key cmd.folder cmd.path) s.files)
    else of_text s (Reply.failed (codes "unknown_command:" ++ t), s.messaging)
