-- ===== src/Transfer/Sender/Folder.antt =====
-- `FileSender.send_folder`: the files of a folder, one after the other.
use link_chat.Prelude.{ℕ, Option, some, List, [], ◌∷◌, Result, ok, err}
use link_chat.Dict.{Dict}
use link_chat.Text.{Text, Bytes}
use link_chat.Text.Equality.{text_key}
use link_chat.Frame.{FrameSchema}
use link_chat.Transfer.{Node, FileSendCtx}
use link_chat.Transfer.Sender.{WaitRound, send_file}

-- What `send_file` works on: the sequence number, the outgoing queue and the transfers.
abbrev pub Desk : Type 0
Desk = (ℕ × List FrameSchema) × Dict Text FileSendCtx

-- A file that `os.walk` finds, with its path below the folder's parent; when its announcement
-- starts, the rounds of its wait, and what the other threads do until it is finished.
pub record FolderFile : Type 0 where
  pub full_path : Text
  pub rel_path : Text
  pub start : ℕ
  pub rounds : List WaitRound
  pub others : Desk → Desk

module _ (node : Node) (sha256_hex : Bytes → Text) (file : Text → Option Bytes) (chunk_size : ℕ)
    (dst_mac : Text) where
  abbrev pub and_then :
      Text × Text → Result (List (Text × Text)) × Desk → Result (List (Text × Text)) × Desk
  and_then entry (err e, d) = (err e, d)
  and_then entry (ok sent, d) = (ok (entry ∷ sent), d)

  -- An exception ends the walk; what was sent until then stays sent.
  unfoldable pub send_folder : List FolderFile → Desk → Result (List (Text × Text)) × Desk
  unfolding send_file
  send_folder [] d = (ok [], d)
  send_folder (f ∷ files) (link, ctxs) =
      elim (send_file node sha256_hex file chunk_size f.full_path dst_mac (some f.rel_path) f.start
        f.rounds link ctxs) [
          | err e ↦ (err e, (link, ctxs))
          | ok (file_id, link', ctxs') ↦
              and_then (file_id, f.rel_path) (send_folder files (f.others (link', ctxs')))
        ]
