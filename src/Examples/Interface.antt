-- ===== src/Examples/Interface.antt =====
-- The server's broadcast, and the services behind the user interface.
use link_chat.Prelude.{
  take, length, suc, min, drop, ◌==◌, ℕ, ◌+◌, ◌≡◌, Bool, true, false, Option, none, some, List, [],
  ◌∷◌, arith,
}
use link_chat.Dict.{Dict, get}
use link_chat.Text.{Text, codes, lower}
use link_chat.Text.Equality.{text_key}
use link_chat.Services.Discovery.{Neighbor}
use link_chat.Services.Messaging.{Messaging, send_to_macs, send_to_all_neighbors}
use link_chat.Server.Commands.{targets}
use link_chat.Server.Broadcast.{send_to_macs-targets}
use link_chat.Client.EventPump.{Pump, pump}
use link_chat.Client.Delivery.{until_empty, run_calls, calls, pump-run_calls}
use link_chat.Client.Roster.{Roster, Row, on_neighbors_changed}
use link_chat.Client.Contacts.{IsIndexed, IsSorted, on_neighbors_changed-IsIndexed}
use link_chat.Examples.Arrivals.{node}

abbrev messaging : Messaging
messaging = record {
  node = node;
  seq = 65535;
  attached = true;
  handlers = [];
  has_callback = true;
  delivered = [];
  outgoing = [];
}

abbrev table : Dict Text Neighbor
table =
    (codes "02:42:ac:11:00:03", record { alias = codes "Bo"; last_seen = 1000 })
    ∷ (codes "02:42:ac:11:00:04", record { alias = codes "Al"; last_seen = 90000 })
    ∷ []

send_to_macs-targets_example :
    send_to_macs (targets 100000 60000 table) (codes "hola") messaging
    ≡ send_to_all_neighbors table (codes "hola") 100000 (some 60000) messaging
send_to_macs-targets_example = send_to_macs-targets 100000 60000 table (codes "hola") messaging

-- A handler that counts, and one that raises before it.
abbrev counter : Pump ℕ ℕ
counter = record {
  subs = (codes "chat", (λ e n. (n, true)) ∷ (λ e n. (n + e, false)) ∷ []) ∷ [];
  fallback = none;
}

abbrev kind : ℕ → Option Text
kind n = some (codes "Chat")

abbrev is_none : ℕ → Bool
is_none n = n == 0

pump-run_calls_example : pump kind is_none 2 counter (5 ∷ 6 ∷ 7 ∷ []) (0, 0) ≡ (
  drop (min 2 (suc (length (until_empty is_none (5 ∷ 6 ∷ 7 ∷ []))))) (5 ∷ 6 ∷ 7 ∷ []),
  run_calls (calls kind is_none counter (take 2 (until_empty is_none (5 ∷ 6 ∷ 7 ∷ [])))) (0, 0),
)
pump-run_calls_example = pump-run_calls kind is_none 2 counter (5 ∷ 6 ∷ 7 ∷ []) (0, 0)

abbrev roster : Roster
roster = record {
  contacts = record { mac = codes "02:42:ac:11:00:03"; name = codes "Bo"; online = true } ∷ [];
  selected_mac = none;
  idx = (codes "02:42:ac:11:00:03", 0) ∷ [];
}

roster-IsIndexed : IsIndexed roster
unfolding get
roster-IsIndexed = record { place = λ mac i h. ground (arith, h) }

abbrev rows : List Row
rows =
    record { mac = codes "02:42:ac:11:00:04"; alias = some (codes "Al"); last_seen_ms = some 10 }
    ∷ record { mac = codes "02:42:ac:11:00:03"; alias = none; last_seen_ms = none }
    ∷ []

on_neighbors_changed-IsIndexed_example :
    (s' : Roster) × (on_neighbors_changed lower rows roster ≡ some s')
    × IsIndexed s'
    × IsSorted lower s'.contacts
on_neighbors_changed-IsIndexed_example =
    on_neighbors_changed-IsIndexed lower rows roster roster-IsIndexed
