-- ===== src/Transfer/Events.antt =====
-- src/file_transfer/handlers/ui_events.py: the events of an incoming transfer and their sinks. An
-- exception that a sink raises is swallowed, so what a sink does with an event is not seen here.
use link_chat.Prelude.{ℕ, Bool, Option, List, [], ◌∷◌, ◌++◌, if◌then◌else◌}
use link_chat.Text.{Text}

-- `progress` is a float made by one division: here the two numbers that are divided.
pub data Event : Type 0 where
  started : Text → Text → Text → Option Text → Event
  progress : Text → Text → Text → Option Text → ℕ → ℕ → ℕ × ℕ → Event
  finished : Text → Text → Text → Option Text → Text → Event
  failed : Text → Text → Option Text → Option Text → Text → Event

-- Which sinks are set.
pub record Sinks : Type 0 where
  pub on_started : Bool
  pub on_progress : Bool
  pub on_finished : Bool
  pub on_error : Bool

-- The sinks, and the events that they were called with, oldest first.
pub record Bus : Type 0 where
  pub sinks : Sinks
  pub sent : List Event

unfoldable pub set_sinks : Sinks → Bus → Bus
set_sinks s bus = record bus { sinks = s }

abbrev pub to_sink : Bool → Event → Bus → Bus
to_sink on ev bus = if on then record bus { sent = bus.sent ++ ev ∷ [] } else bus

unfoldable pub emit_started : Text → Text → Text → Option Text → Bus → Bus
emit_started file_id src name rel bus =
    to_sink bus.sinks.on_started (started file_id src name rel) bus

unfoldable pub emit_progress : Text → Text → Text → Option Text → ℕ → ℕ → ℕ × ℕ → Bus → Bus
emit_progress file_id src name rel acked total ratio bus =
    to_sink bus.sinks.on_progress (progress file_id src name rel acked total ratio) bus

unfoldable pub emit_finished : Text → Text → Text → Option Text → Text → Bus → Bus
emit_finished file_id src name rel status bus =
    to_sink bus.sinks.on_finished (finished file_id src name rel status) bus

unfoldable pub emit_error : Text → Text → Option Text → Option Text → Text → Bus → Bus
emit_error file_id src name rel error bus =
    to_sink bus.sinks.on_error (failed file_id src name rel error) bus
