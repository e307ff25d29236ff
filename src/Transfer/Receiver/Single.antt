-- ===== src/Transfer/Receiver/Single.antt =====
-- One chunk of a transfer, as the receiver takes it.
use link_chat.Transfer.Receiver.Answers.{
  gone_progress, known_progress, IsAnswer-mono, after_write_answers, IsAnswer, Answered, progress,
}
use link_chat.Transfer.Receiver.States.{
  Status, with_received, Arriving, Arrived, Marked, mark_received-Marked, write_file_self,
}
use link_chat.Prelude.{
  All, arith, ℕ, ◌*◌, ◌≤◌, ◌<◌, ◌≡◌, sym, ap, ◌∙◌, subst, ◌≢◌, ◌⊎◌, inl, inr, true, false, none,
  some, List, [], ◌∷◌, lt_split, length, ok,
}
use link_chat.Dict.{get, get-put_self}
use link_chat.Text.{Bytes, codes, lower}
use link_chat.Text.Equality.{text_eq, text_key}
use link_chat.Frame.{FrameSchema}
use link_chat.Transfer.{FileSendCtx, FileRcvCtx, read_chunk, chunk_payload}
use link_chat.Transfer.Receiver.{Host, Rx}
use link_chat.Transfer.Receiver.Store.{write_at, Files}
use link_chat.Transfer.Receiver.Data.{on_chunk, has_index, mark_received, on_data, after_write}
use link_chat.Payload.Fields.{IsField}
use link_chat.Transfer.Receiver.Target.{data_target_gone, data_target-data_kv}
use link_chat.Transfer.Receiver.Assembly.{
  has_index-cons_split, IsAssembly, IsAssembly-chunk, IsAssembly-full,
}
use link_chat.Transfer.Receiver.Arrival.{
  last_files, last_ctx, told_files, told_ctx, after_write_open, store_chunk_eq, on_chunk_ignored,
  on_chunk_stored, on_data-chunk,
}

-- More chunks, and a first missing one that is not before the old one.
next_rises :
    (received received' : List ℕ) (next next' : ℕ)
    → ((i : ℕ) → i < next → has_index i received ≡ true)
    → has_index next' received' ≡ false
    → ((i : ℕ) → has_index i received ≡ true → has_index i received' ≡ true)
    → next ≤ next'
next_rises received received' next next' all gone more = elim (lt_split next' next) [
  | inl less ↦ absurd (cc (more next' (all next' less), gone))
  | inr le ↦ le
]

module _ (host : Host) (base : FileRcvCtx) (sctx : FileSendCtx) (original : Bytes)
    (same_id : base.file_id ≡ sctx.file_id) (some_chunks : 0 < sctx.total_chunks)
    (id_field : IsField (codes "file_id", sctx.file_id)) (some_id : sctx.file_id ≢ [])
    (running : base.finished ≡ false)
    (digest : text_eq (lower (host.sha256_hex original)) (lower base.sha256_expected) ≡ true) where
  -- A chunk of a transfer that goes on.
  step :
      (idx : ℕ) (frame : FrameSchema) (got : List ℕ) (s : Rx)
      → frame.payload ≡ chunk_payload sctx idx (read_chunk original base.chunk_size idx)
      → idx < base.total_chunks
      → Arriving base original got s
      → (s' : Rx) × (on_data host frame s ≡ ok s')
        × Answered base s s'
        × (Arriving base original (idx ∷ got) s' ⊎ Arrived base original s')
  step idx frame got s e l a = elim (lt_split (length m.received') base.total_chunks) [
    | inl less ↦ (s', runs, open_answered less, inl (going_on less))
    | inr full ↦ (s', runs, full_answered full, inr (over full))
  ]
    where
      m : Marked base idx a.received (mark_received idx (with_received base a.received a.next))
      m = mark_received-Marked base idx a.received a.next

      ctx' : FileRcvCtx
      ctx' = with_received base m.received' m.next'

      chunk : Bytes
      chunk = read_chunk original base.chunk_size idx

      content' : Bytes
      content' = write_at (idx * base.chunk_size) chunk a.content

      s' : Rx
      s' = after_write host ctx' frame content' s

      assembly' : IsAssembly original ctx' content'
      assembly' =
          subst (λ c. IsAssembly original c content') m.same
            (IsAssembly-chunk original a.content idx (with_received base a.received a.next)
              a.assembly l)

      whole : base.total_chunks ≤ length m.received' → content' ≡ original
      whole full = IsAssembly-full original content' ctx' assembly' full

      counted : (i : ℕ) → (i ≡ idx) ⊎ (has_index i got ≡ true) → has_index i m.received' ≡ true
      counted i (inl e) = subst (λ j. has_index j m.received' ≡ true) (sym e) m.here
      counted i (inr h) = m.more i (a.counted i h)

      known_open :
          length m.received' < base.total_chunks → get base.file_id s'.ctx_by_id ≡ some ctx'
      known_open less =
          ap (λ t. get base.file_id t.ctx_by_id) (after_write_open host ctx' frame content' s less)
          ∙ ap (get base.file_id) (told_ctx host ctx' frame content' s)
          ∙ get-put_self base.file_id ctx' s.ctx_by_id

      going_on : length m.received' < base.total_chunks → Arriving base original (idx ∷ got) s'
      going_on less = record {
        received = m.received';
        next = m.next';
        content = content';
        known = known_open less;
        stored =
            ap (λ t. t.files base.temp_path) (after_write_open host ctx' frame content' s less)
            ∙ ap (λ (fs : Files). fs base.temp_path) (told_files host ctx' frame content' s)
            ∙ write_file_self base.temp_path content' s.files;
        assembly = assembly';
        missing = less;
        counted = λ i h. counted i (has_index-cons_split i idx got h);
      }

      over : base.total_chunks ≤ length m.received' → Arrived base original s'
      over full = record {
        gone = last_ctx host ctx' frame content' s full running;
        placed =
            last_files host ctx' frame content' s full running (
              subst (λ c. text_eq (lower (host.sha256_hex c)) (lower base.sha256_expected) ≡ true)
                (sym (whole full)) digest)
            ∙ ap some (whole full);
      }

      rising : a.next ≤ m.next'
      rising =
          next_rises a.received m.received' a.next m.next' a.assembly.tally.before
            assembly'.tally.missing m.more

      before : progress base s ≡ a.next
      before = known_progress base s (with_received base a.received a.next) a.known

      open_answered : length m.received' < base.total_chunks → Answered base s s'
      open_answered less =
          let after = known_progress base s' ctx' (known_open less) in
          record {
            rising = rw (before, after) rising;
            answers = λ h.
                subst (λ n. All (IsAnswer base.file_id n) s'.outgoing) (sym after)
                  (after_write_answers host ctx' frame content' m.next' s (omega arith) (
                    IsAnswer-mono base.file_id (progress base s) m.next' s.outgoing
                      (rw before rising) h));
          }

      full_answered : base.total_chunks ≤ length m.received' → Answered base s s'
      full_answered full =
          let after = gone_progress base s' (over full).gone in
          record {
            rising = rw (before, after) (omega (arith, rising, assembly'.tally.bounded));
            answers = λ h.
                subst (λ n. All (IsAnswer base.file_id n) s'.outgoing) (sym after)
                  (after_write_answers host ctx' frame content' base.total_chunks s
                    assembly'.tally.bounded
                    (IsAnswer-mono base.file_id (progress base s) base.total_chunks s.outgoing
                      (rw before (omega (arith, rising, assembly'.tally.bounded))) h));
          }

      runs : on_data host frame s ≡ ok s'
      runs =
          on_data-chunk host sctx idx chunk frame s id_field e
          ∙ ap (λ t. on_chunk host t frame chunk s)
              (data_target-data_kv sctx idx s (with_received base a.received a.next) some_id
                (subst (λ i. get i s.ctx_by_id ≡ some (with_received base a.received a.next))
                  same_id a.known)
                l some_chunks)
          ∙ on_chunk_stored host (with_received base a.received a.next) idx frame chunk a.content s
              a.stored
          ∙ ap ok (
              store_chunk_eq host (with_received base a.received a.next) idx frame chunk a.content s
              ∙ ap (λ c. after_write host c frame content' s) m.same)

  -- A chunk that comes after the end changes nothing.
  after_end :
      (idx : ℕ) (frame : FrameSchema) (s : Rx)
      → frame.payload ≡ chunk_payload sctx idx (read_chunk original base.chunk_size idx)
      → Arrived base original s
      → on_data host frame s ≡ ok s
  after_end idx frame s e a =
      on_data-chunk host sctx idx chunk frame s id_field e
      ∙ ap (λ t. on_chunk host t frame chunk s)
          (data_target_gone sctx idx s (subst (λ i. get i s.ctx_by_id ≡ none) same_id a.gone))
      ∙ on_chunk_ignored host frame chunk s
    where
      chunk : Bytes
      chunk = read_chunk original base.chunk_size idx

  pub step_or_end :
      (idx : ℕ) (frame : FrameSchema) (got : List ℕ) (s : Rx)
      → frame.payload ≡ chunk_payload sctx idx (read_chunk original base.chunk_size idx)
      → idx < base.total_chunks
      → Status base original got s
      → (s' : Rx) × (on_data host frame s ≡ ok s')
        × Answered base s s'
        × Status base original (idx ∷ got) s'
  step_or_end idx frame got s e l (inl a) = step idx frame got s e l a
  step_or_end idx frame got s e l (inr a) =
      (s, after_end idx frame s e a, record { rising = omega arith; answers = λ h. h }, inr a)
