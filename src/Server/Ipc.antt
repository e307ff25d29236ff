-- ===== src/Server/Ipc.antt =====
-- ipc/ipc_server.py: the clients of the server's socket. What `json` makes of a line and of an
-- answer, and which writers raise, are arguments.
use link_chat.Prelude.{
  ℕ, Bool, Option, none, some, List, [], ◌∷◌, ◌++◌, ◌==◌, if◌then◌else◌, Result, ok, err,
}
use link_chat.Text.{Bytes}
use link_chat.Transfer.Receiver.Data.{has_index}

-- The connected writers, a set in some order, and what was written, oldest first.
pub record Clients : Type 0 where
  pub writers : List ℕ
  pub written : List (ℕ × Bytes)

-- `self._writers.discard(w)`
unfoldable pub discard : ℕ → List ℕ → List ℕ
discard w [] = []
discard w (v ∷ vs) = let rest = discard w vs in if w == v then rest else v ∷ rest

-- The first loop of `broadcast`: the writers to drop, oldest first. A writer raises before or after
-- its data went out; here it counts as not written.
unfoldable pub write_loop : (ℕ → Bool) → Bytes → List ℕ → List (ℕ × Bytes) × List ℕ
write_loop raises payload [] = ([], [])
write_loop raises payload (w ∷ ws) =
    let rest = write_loop raises payload ws in
    if raises w then (rest.0, w ∷ rest.1) else ((w, payload) ∷ rest.0, rest.1)

-- The second loop: what `close` does is the socket's.
unfoldable pub drop_loop : List ℕ → List ℕ → List ℕ
unfolding discard
drop_loop [] writers = writers
drop_loop (w ∷ ws) writers = drop_loop ws (discard w writers)

unfoldable pub broadcast : (ℕ → Bool) → Bytes → Clients → Clients
unfolding write_loop drop_loop
broadcast raises payload c =
    let r = write_loop raises payload c.writers in
    record c { written = c.written ++ r.0; writers = drop_loop r.1 c.writers }

-- The two answers that the loop makes itself.
pub data Answer (R : Type 0) : Type 0 where
  reply : R → Answer R
  bad_json : Answer R
  server_exception : Answer R

-- A command is run on the state of the server; its result is an answer, no answer or an exception.
module _ {C R S : Type 0} (loads : Bytes → Option C) (on_cmd : C → S → Result (Option R) × S) where
  abbrev pub answer_of : Result (Option R) → List (Answer R)
  answer_of (err e) = Answer.server_exception ∷ []
  answer_of (ok none) = []
  answer_of (ok (some r)) = Answer.reply r ∷ []

  -- One line.
  unfoldable pub handle_line : Bytes → S → List (Answer R) × S
  handle_line line s = elim (loads line) [
    | none ↦ (Answer.bad_json ∷ [], s)
    | some c ↦ (answer_of (on_cmd c s).0, (on_cmd c s).1)
  ]

  -- The loop of `_handle_client` over what `readline` gives; an empty line is the end.
  unfoldable pub handle_lines : List Bytes → S → List (Answer R) × S
  unfolding handle_line
  handle_lines [] s = ([], s)
  handle_lines ([] ∷ lines) s = ([], s)
  handle_lines ((b ∷ bs) ∷ lines) s =
      let r = handle_line (b ∷ bs) s in let rest = handle_lines lines r.1 in (r.0 ++ rest.0, rest.1)

-- The begin and the end of `_handle_client`.
unfoldable pub connect : ℕ → Clients → Clients
connect w c = record c {
  writers = (if has_index w c.writers then c.writers else c.writers ++ w ∷ []);
}

unfoldable pub disconnect : ℕ → Clients → Clients
unfolding discard
disconnect w c = record c { writers = discard w c.writers }
