-- ===== src/Server/Poller.antt =====
-- `_file_progress_poller` of src/app_server.py: the progress of the outgoing files.
use link_chat.Prelude.{Option, none, some, List, [], ◌∷◌, ◌==◌, if◌then◌else◌}
use link_chat.Prelude.Int.{pos, ◌+ℤ◌}
use link_chat.Dict.{Dict, get, pop}
use link_chat.Text.{Text, codes}
use link_chat.Text.Equality.{text_key}
use link_chat.Transfer.{FileSendCtx}
use link_chat.Server.Events.{Ipc, UiEvent, emit_event}

-- An entry of `_files_out`.
pub record FileMeta : Type 0 where
  pub dst : Text
  pub name : Text
  pub rel : Option Text

pub record Outbox : Type 0 where
  pub files_out : Dict Text FileMeta
  pub ipc : Ipc

-- The event on a file that is still known to the thread manager.
unfoldable pub tx_progress : Text → FileMeta → FileSendCtx → UiEvent
tx_progress file_id meta ctx =
    let acked = ctx.last_acked +ℤ pos 1 in
    UiEvent.file_tx_progress file_id meta.dst meta.name meta.rel acked ctx.total_chunks
      (if ctx.total_chunks == 0 then none else some (acked, ctx.total_chunks))

unfoldable pub poll_file : Text → FileMeta → FileSendCtx → Outbox → Outbox
unfolding emit_event tx_progress
poll_file file_id meta ctx s =
    let told = emit_event (tx_progress file_id meta ctx) s.ipc in
    if ctx.finished
    then record s {
      ipc =
          emit_event (UiEvent.file_tx_finished file_id meta.dst meta.name meta.rel (codes "ok"))
            told;
      files_out = pop file_id s.files_out;
    }
    else record s { ipc = told }

-- The loop of a round over a copy of the entries.
unfoldable pub poll_loop : Dict Text FileSendCtx → List (Text × FileMeta) → Outbox → Outbox
unfolding poll_file
poll_loop ctxs [] s = s
poll_loop ctxs ((file_id, meta) ∷ rest) s =
    poll_loop ctxs rest
      (elim (get file_id ctxs) [ none ↦ s | some ctx ↦ poll_file file_id meta ctx s ])

unfoldable pub file_progress_poller : Dict Text FileSendCtx → Outbox → Outbox
unfolding poll_loop
file_progress_poller ctxs s = poll_loop ctxs s.files_out s
