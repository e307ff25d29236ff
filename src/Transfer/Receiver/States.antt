-- ===== src/Transfer/Receiver/States.antt =====
-- A transfer at the receiver while it goes on, and when it is over.
use link_chat.Transfer.Receiver.Order.{has_index-head}
use link_chat.Prelude.{
  ◌⊎◌, ℕ, ◌<◌, ◌≡◌, refl, inl, inr, true, none, some, List, ◌∷◌, Bool-cases, length,
}
use link_chat.Dict.{get}
use link_chat.Text.{Text, Bytes}
use link_chat.Text.Equality.{text_eq_refl, text_key}
use link_chat.Transfer.{FileRcvCtx}
use link_chat.Transfer.Receiver.{Rx}
use link_chat.Transfer.Receiver.Store.{write_file, Files}
use link_chat.Transfer.Receiver.Data.{has_index, mark_received}
use link_chat.Transfer.Receiver.Progress.{has_index-cons, mark_received-old, mark_received-new}
use link_chat.Transfer.Receiver.Assembly.{IsAssembly}

-- The context of a transfer, with what has come.
abbrev pub with_received : FileRcvCtx → List ℕ → ℕ → FileRcvCtx
with_received base received next = record base { received = received; next_needed = next }

-- The transfer goes on: what has come of the file stands in the temporary file.
pub record Arriving (base : FileRcvCtx) (original : Bytes) (got : List ℕ) (s : Rx) : Type 0 where
  pub received : List ℕ
  pub next : ℕ
  pub content : Bytes
  pub known : get base.file_id s.ctx_by_id ≡ some (with_received base received next)
  pub stored : s.files base.temp_path ≡ some content
  pub assembly : IsAssembly original (with_received base received next) content
  pub missing : length received < base.total_chunks
  pub counted : (i : ℕ) → has_index i got ≡ true → has_index i received ≡ true

-- The transfer is over: the file is at its place.
pub record Arrived (base : FileRcvCtx) (original : Bytes) (s : Rx) : Type 0 where
  pub gone : get base.file_id s.ctx_by_id ≡ none
  pub placed : s.files base.dest_path ≡ some original

-- The transfer goes on or is over.
abbrev pub Status : FileRcvCtx → Bytes → List ℕ → Rx → Type 0
Status base original got s = Arriving base original got s ⊎ Arrived base original s

-- A marked context differs from the one before in what has come.
pub record Marked (base : FileRcvCtx) (idx : ℕ) (received : List ℕ) (ctx : FileRcvCtx)
    : Type 0 where
  pub received' : List ℕ
  pub next' : ℕ
  pub same : ctx ≡ with_received base received' next'
  pub here : has_index idx received' ≡ true
  pub more : (i : ℕ) → has_index i received ≡ true → has_index i received' ≡ true

pub mark_received-Marked :
    (base : FileRcvCtx) (idx : ℕ) (received : List ℕ) (next : ℕ)
    → Marked base idx received (mark_received idx (with_received base received next))
mark_received-Marked base idx received next = elim (Bool-cases (has_index idx received)) [
  | inl old ↦ record {
    received' = received;
    next' = next;
    same = mark_received-old idx (with_received base received next) old;
    here = old;
    more = λ i h. h;
  }
  | inr new ↦ record {
    received' = idx ∷ received;
    next' = _;
    same = mark_received-new idx (with_received base received next) new;
    here = has_index-head idx received;
    more = λ i h. has_index-cons i idx received h;
  }
]

pub write_file_self :
    (path : Text) (content : Bytes) (files : Files)
    → write_file path content files path ≡ some content
unfolding write_file
write_file_self path content files = rw (text_eq_refl path) refl
