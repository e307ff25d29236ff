-- ===== src/Server/Events.antt =====
-- The events of src/app_server.py: `_emit_event`, `_neighbors_snapshot` and the callbacks of
-- `_register_file_rx_callbacks`. Times are in milliseconds.
use link_chat.Prelude.{ℕ, ◌-◌, Bool, Option, List, [], ◌∷◌, ◌++◌, if◌then◌else◌}
use link_chat.Prelude.Int.{ℤ}
use link_chat.Dict.{Dict}
use link_chat.Text.{Text, codes}
use link_chat.Transfer.Events.{Event}
use link_chat.Services.Discovery.{Neighbor}

pub record NeighborRow : Type 0 where
  pub mac : Text
  pub alias : Text
  pub last_seen_ms : ℕ

-- The events in the order of their fields in the source. `progress` is a float made by one
-- division: here the two numbers that are divided, or nothing for `0.0`.
pub data UiEvent : Type 0 where
  neighbors_changed : List NeighborRow → UiEvent
  chat : Text → Text → UiEvent
  file_rx_started : Text → Text → Text → Option Text → UiEvent
  file_rx_progress : Text → Text → Text → Option Text → ℕ → ℕ → ℕ × ℕ → UiEvent
  file_rx_finished : Text → Text → Text → Option Text → Text → UiEvent
  file_rx_error : Text → Text → Option Text → Option Text → Text → UiEvent
  file_tx_started : Text → Text → Text → Option Text → UiEvent
  file_tx_progress : Text → Text → Text → Option Text → ℤ → ℕ → Option (ℤ × ℕ) → UiEvent
  file_tx_finished : Text → Text → Text → Option Text → Text → UiEvent

-- Whether the IPC server runs, and the events that it was given, oldest first.
pub record Ipc : Type 0 where
  pub running : Bool
  pub broadcasts : List UiEvent

unfoldable pub emit_event : UiEvent → Ipc → Ipc
emit_event ev ipc =
    if ipc.running then record ipc { broadcasts = ipc.broadcasts ++ ev ∷ [] } else ipc

-- `max(0.0, now - last_seen)` is subtraction that stops at 0.
unfoldable pub neighbors_snapshot : ℕ → Dict Text Neighbor → List NeighborRow
neighbors_snapshot now [] = []
neighbors_snapshot now ((mac, meta) ∷ rest) =
    record { mac = mac; alias = meta.alias; last_seen_ms = now - meta.last_seen }
    ∷ neighbors_snapshot now rest

unfoldable pub on_neighbors_changed : ℕ → Dict Text Neighbor → Ipc → Ipc
unfolding emit_event neighbors_snapshot
on_neighbors_changed now neighbors =
    emit_event (neighbors_changed (neighbors_snapshot now neighbors))

-- `ev.get(key) or other`
abbrev or_word : Text → Text → Text
or_word [] other = other
or_word (c ∷ s) other = c ∷ s

-- What the four callbacks make of the receiver's events.
unfoldable pub rx_event : Event → UiEvent
rx_event (Event.started file_id src name rel) = file_rx_started file_id src name rel
rx_event (Event.progress file_id src name rel acked total ratio) =
    file_rx_progress file_id src name rel acked total ratio
rx_event (Event.finished file_id src name rel status) =
    file_rx_finished file_id src name rel (or_word status (codes "ok"))
rx_event (Event.failed file_id src name rel error) =
    file_rx_error file_id src name rel (or_word error (codes "error"))

unfoldable pub on_rx_event : Event → Ipc → Ipc
unfolding rx_event emit_event
on_rx_event ev = emit_event (rx_event ev)
