-- ===== src/Transfer/Sender/Waiting.antt =====
-- The wait of `send_file` for the first acknowledgement of src/file_transfer/file_sender.py.
use link_chat.Prelude.{All, false, ℕ, ◌+◌, ◌≤◌, ◌≡◌, List, [], ◌∷◌}
use link_chat.Dict.{Dict}
use link_chat.Text.{Text}
use link_chat.Text.Equality.{text_key}
use link_chat.Transfer.Window.{Tx}
use link_chat.Transfer.Sender.{Sending, WaitRound}

-- No other thread sees an answer: the two flags of the context stay as they are.
abbrev pub AreSilent : List WaitRound → Type 0
AreSilent = All (λ r.
    (s : Sending)
    → ((r.others s).tx.ctx.meta_acked ≡ s.tx.ctx.meta_acked)
      × ((r.others s).tx.ctx.finished ≡ s.tx.ctx.finished))

-- After the clock has shown `clock`, each round comes 20 ms later at least.
abbrev pub AreSpaced : ℕ → List WaitRound → Type 0
AreSpaced clock [] = Unit
AreSpaced clock (r ∷ rounds) = (clock + 20 ≤ r.now) × AreSpaced r.now rounds

-- Nobody has answered yet.
pub record IsOpen (t : Tx) : Type 0 where
  pub unanswered : t.ctx.meta_acked ≡ false
  pub unfinished : t.ctx.finished ≡ false
