-- ===== src/Server/Clients.antt =====
-- What the clients of the socket get: ipc/ipc_server.py.
use link_chat.Prelude.{
  ap, ◌++◌, ℕ, ◌≡◌, refl, ◌∙◌, Bool, ◌&&◌, not, List, [], ◌∷◌, map, arith, ◌==◌, if◌then◌else◌,
}
use link_chat.Text.{Bytes}
use link_chat.Transfer.Receiver.Data.{has_index}
use link_chat.Server.Ipc.{Clients, broadcast, discard, write_loop, drop_loop}

-- The writers that do not raise.
abbrev pub sound : (ℕ → Bool) → List ℕ → List ℕ
sound raises [] = []
sound raises (w ∷ ws) = let rest = sound raises ws in if raises w then rest else w ∷ rest

has_index-discard :
    (w v : ℕ) (ws : List ℕ) → has_index v (discard w ws) ≡ (has_index v ws && not (w == v))
unfolding has_index discard
has_index-discard w v [] = refl
has_index-discard w v (u ∷ us) = ground (arith, has_index-discard w v us)

has_index-drop_loop :
    (v : ℕ) (ws vs : List ℕ)
    → has_index v (drop_loop ws vs) ≡ (has_index v vs && not (has_index v ws))
unfolding has_index drop_loop
has_index-drop_loop v [] vs = ground arith
has_index-drop_loop v (w ∷ ws) vs =
    has_index-drop_loop v ws (discard w vs) ∙ ground (arith, has_index-discard w v vs)

write_loop-written :
    (raises : ℕ → Bool) (payload : Bytes) (ws : List ℕ)
    → (write_loop raises payload ws).0 ≡ map (λ w. (w, payload)) (sound raises ws)
unfolding write_loop
write_loop-written raises payload [] = refl
write_loop-written raises payload (w ∷ ws) = ground (arith, write_loop-written raises payload ws)

write_loop-dropped :
    (raises : ℕ → Bool) (payload : Bytes) (v : ℕ) (ws : List ℕ)
    → has_index v (write_loop raises payload ws).1 ≡ (has_index v ws && raises v)
unfolding write_loop has_index
write_loop-dropped raises payload v [] = refl
write_loop-dropped raises payload v (w ∷ ws) =
    ground (arith, write_loop-dropped raises payload v ws)

broadcast_step :
    (raises : ℕ → Bool) (payload : Bytes) (c : Clients)
    → broadcast raises payload c ≡ record c {
      written = c.written ++ (write_loop raises payload c.writers).0;
      writers = drop_loop (write_loop raises payload c.writers).1 c.writers;
    }
unfolding broadcast
broadcast_step raises payload c = refl

still_there : (a b : Bool) → (a && not (a && b)) ≡ (a && not b)
still_there a b = ground arith

-- A broadcast writes its line once to every connected client whose socket does not raise, in the
-- order of the clients, and afterwards exactly these clients are connected.
pub broadcast-sound :
    (raises : ℕ → Bool) (payload : Bytes) (c : Clients)
    → ((broadcast raises payload c).written
        ≡ c.written ++ map (λ w. (w, payload)) (sound raises c.writers))
      × ((w : ℕ)
          → has_index w (broadcast raises payload c).writers
            ≡ (has_index w c.writers && not (raises w)))
unfolding broadcast
broadcast-sound raises payload c = (
  ap (λ x. c.written ++ x) (write_loop-written raises payload c.writers),
  λ w.
      has_index-drop_loop w (write_loop raises payload c.writers).1 c.writers
      ∙ ap (λ b. has_index w c.writers && not b) (write_loop-dropped raises payload w c.writers)
      ∙ still_there (has_index w c.writers) (raises w),
)
