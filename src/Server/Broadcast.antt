-- ===== src/Server/Broadcast.antt =====
-- The two ways to write to everyone.
use link_chat.Prelude.{arith, ◌+◌, leb, ◌∙◌, ℕ, ◌≡◌, refl, inl, inr, some, [], ◌∷◌, Bool-cases}
use link_chat.Dict.{Dict}
use link_chat.Text.{Text, Bytes}
use link_chat.Services.Discovery.{Neighbor}
use link_chat.Services.Messaging.{
  Messaging, send_to_mac, send_to_macs, send_to_all_neighbors, is_active,
}
use link_chat.Server.Commands.{targets}

-- The server asks for `now - last_seen <= window`, the service passes over `now - last_seen > window`.
within :
    (now window : ℕ) (n : Neighbor) → leb now (n.last_seen + window) ≡ is_active now (some window) n
unfolding is_active
within now window n = ground arith

-- The server's own choice of the neighbors and `Messaging.send_to_all_neighbors` put the same
-- frames into the queue and leave the same sequence number, for every window, clock and table.
pub send_to_macs-targets :
    (now window : ℕ) (neighbors : Dict Text Neighbor) (payload : Bytes) (m : Messaging)
    → send_to_macs (targets now window neighbors) payload m
      ≡ send_to_all_neighbors neighbors payload now (some window) m
unfolding send_to_macs targets send_to_all_neighbors
send_to_macs-targets now window [] payload m = refl
send_to_macs-targets now window ((mac, n) ∷ rest) payload m =
    elim (Bool-cases (is_active now (some window) n)) [
      | inl h ↦
          rw (h, within now window n ∙ h)
            (send_to_macs-targets now window rest payload (send_to_mac mac payload m))
      | inr h ↦ rw (h, within now window n ∙ h) (send_to_macs-targets now window rest payload m)
    ]
