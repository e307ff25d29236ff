-- ===== src/Server/Files.antt =====
-- The commands of src/app_server.py that send files. What `int` makes of CHUNK_SIZE, the files and
-- what the other threads do meanwhile are arguments.
use link_chat.Prelude.{
  ℕ, Bool, true, false, ◌&&◌, Option, none, some, List, [], ◌∷◌, if◌then◌else◌, Error, Result, ok,
  err,
}
use link_chat.Dict.{put}
use link_chat.Text.{Text, Bytes, codes}
use link_chat.Text.Equality.{text_key}
use link_chat.Transfer.{Node}
use link_chat.Transfer.Paths.{join_path}
use link_chat.Transfer.Sender.{WaitRound, send_file, basename}
use link_chat.Transfer.Sender.Folder.{Desk, FolderFile, send_folder}
use link_chat.Server.Events.{UiEvent, emit_event}
use link_chat.Server.Poller.{FileMeta, Outbox}

-- The chunk size of the `FileSender`, once there is one.
pub record FileServer : Type 0 where
  pub file_sender : Option ℕ
  pub desk : Desk
  pub outbox : Outbox

-- An exception is answered with its text.
pub data FileReply : Type 0 where
  file_started : Text → FileReply
  files_started : List (Text × Text) → FileReply
  failed : Text → FileReply
  raised : Error → FileReply

-- `if not self.file_sender: …`
abbrev pub ensure_sender : Result ℕ → Option ℕ → Result ℕ
ensure_sender chunk_size none = chunk_size
ensure_sender chunk_size (some n) = ok n

abbrev pub not_empty : Text → Bool
not_empty [] = false
not_empty (c ∷ s) = true

-- The file is noted for the poller, and the interface hears of it.
unfoldable pub register : Text → FileMeta → FileServer → FileServer
unfolding emit_event
register file_id meta s = record s {
  outbox = record {
    files_out = put file_id meta s.outbox.files_out;
    ipc = emit_event (UiEvent.file_tx_started file_id meta.dst meta.name meta.rel) s.outbox.ipc;
  };
}

module _ (node : Node) (sha256_hex : Bytes → Text) (file : Text → Option Bytes) where
  -- `send_file` and what follows it, by a sender with a chunk size.
  unfoldable pub start_file :
      ℕ → ℕ → List WaitRound → Text → Text → FileServer → FileReply × FileServer
  unfolding send_file register basename
  start_file chunk_size start rounds dst path s =
      elim (send_file node sha256_hex file chunk_size path dst none start rounds s.desk.0
        s.desk.1) [
          | err e ↦ (FileReply.raised e, s)
          | ok (file_id, link, ctxs) ↦ (
            FileReply.file_started file_id,
            register file_id (record { dst = dst; name = basename path; rel = none })
                (record s { desk = (link, ctxs) }),
          )
        ]

  -- `exists` is `os.path.exists`, `chunk_size` what `int` makes of CHUNK_SIZE or of its default.
  unfoldable pub on_file_send :
      (Text → Bool)
      → Result ℕ
      → ℕ
      → List WaitRound
      → Text
      → Text
      → FileServer
      → FileReply × FileServer
  unfolding start_file
  on_file_send exists chunk_size start rounds dst path s =
      if not_empty dst && not_empty path && exists path
      then (elim (ensure_sender chunk_size s.file_sender) [
        | err e ↦ (FileReply.raised e, s)
        | ok n ↦ start_file n start rounds dst path (record s { file_sender = some n })
      ])
      else (FileReply.failed (codes "missing dst/path or not exists"), s)

  -- The loop over the files that were sent.
  unfoldable pub register_files : Text → Text → List (Text × Text) → FileServer → FileServer
  unfolding register basename
  register_files folder dst [] s = s
  register_files folder dst ((file_id, rel) ∷ sent) s = register_files folder dst sent (
      register file_id
        (record {
          dst = dst;
          name = (elim (basename rel) [
            | [] ↦ basename (join_path folder rel)
            | c ∷ name ↦ c ∷ name
          ]);
          rel = some rel;
        })
        s)

  unfoldable pub start_folder :
      ℕ → List FolderFile → Text → Text → FileServer → FileReply × FileServer
  unfolding send_folder register_files
  start_folder chunk_size files dst folder s =
      let r = send_folder node sha256_hex file chunk_size dst files s.desk in
      elim r.0 [
        | err e ↦ (FileReply.raised e, record s { desk = r.1 })
        | ok sent ↦
            (FileReply.files_started sent, register_files folder dst sent (record s { desk = r.1 }))
      ]

  unfoldable pub on_folder_send :
      (Text → Bool) → Result ℕ → List FolderFile → Text → Text → FileServer → FileReply × FileServer
  unfolding start_folder
  on_folder_send is_dir chunk_size files dst folder s =
      if not_empty dst && not_empty folder && is_dir folder
      then (elim (ensure_sender chunk_size s.file_sender) [
        | err e ↦ (FileReply.raised e, s)
        | ok n ↦ start_folder n files dst folder (record s { file_sender = some n })
      ])
      else (FileReply.failed (codes "missing dst/folder or not a directory"), s)
