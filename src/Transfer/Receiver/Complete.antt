-- ===== src/Transfer/Receiver/Complete.antt =====
-- A whole transfer at the receiver: the chunks of a file in any order, some of them more than once.
use link_chat.Transfer.Receiver.States.{Status, Arriving, Arrived}
use link_chat.Transfer.Receiver.Order.{
  receive_all, chunk_frames, indices, seen, seen-indices, chunk_frame_payload,
}
use link_chat.Prelude.{
  ℕ, ◌<◌, ◌≡◌, refl, sym, ap, ◌∙◌, ◌≢◌, inl, inr, true, false, List, [], ◌∷◌, arith, All, ok,
}
use link_chat.Text.{Bytes, codes, lower}
use link_chat.Text.Equality.{text_eq, text_key}
use link_chat.Transfer.{Node, FileSendCtx, FileRcvCtx, read_chunk, chunk_payload, get_data_chunk}
use link_chat.Transfer.Receiver.{Host, Rx}
use link_chat.Transfer.Receiver.Data.{has_index}
use link_chat.Payload.Fields.{IsField}
use link_chat.Transfer.Receiver.Progress.{le-length_of_all}
use link_chat.Transfer.Receiver.Single.{step_or_end}

module _ (host : Host) (base : FileRcvCtx) (sctx : FileSendCtx) (original : Bytes)
    (same_id : base.file_id ≡ sctx.file_id) (some_chunks : 0 < sctx.total_chunks)
    (id_field : IsField (codes "file_id", sctx.file_id)) (some_id : sctx.file_id ≢ [])
    (running : base.finished ≡ false)
    (digest : text_eq (lower (host.sha256_hex original)) (lower base.sha256_expected) ≡ true) where
  run :
      (node : Node) (order : List (ℕ × ℕ)) (got : List ℕ) (s : Rx)
      → base.chunk_size ≡ sctx.chunk_size
      → All (λ p. p.1 < base.total_chunks) order
      → Status base original got s
      → (s' : Rx) × (receive_all host (chunk_frames node sctx original order) s ≡ ok s')
        × Status base original (seen order got) s'
  unfolding seen
  run node [] got s c h a = (s, refl, a)
  run node ((seq, idx) ∷ rest) got s c h a =
      let (s1, e1, told, a1) =
        step_or_end host base sctx original same_id some_chunks id_field some_id running digest idx
          (get_data_chunk node seq sctx original idx).0 got s
          (chunk_frame_payload node sctx original seq idx
            ∙ ap (λ n. chunk_payload sctx idx (read_chunk original n idx)) (sym c))
          h.0 a in
      let (s2, e2, a2) = run node rest (idx ∷ got) s1 c h.1 a1 in (s2, rw e1 e2, a2)

  over :
      (order : List (ℕ × ℕ)) (s : Rx)
      → ((i : ℕ) → i < base.total_chunks → has_index i (indices order) ≡ true)
      → Status base original (seen order []) s
      → Arrived base original s
  over order s all (inr a) = a
  over order s all (inl a) = absurd (
      omega (
        arith,
        a.missing,
        le-length_of_all base.total_chunks a.received
            (λ i l. a.counted i (seen-indices order [] i (all i l))),
      ))

  -- A transfer is under way and not finished, under the sender's identifier, which is not empty
  -- and can stand in a line, and with the sender's chunk size; the receiver's digest of the file is
  -- the announced one, in either case of its letters. When the file has chunks, a list holds the
  -- index of each and no other index, then the frames of the listed chunks, in that order and with
  -- all repetitions, are handled without an exception, and in the end the file stands at its place
  -- and the transfer is closed.
  pub receive_all-Arrived :
      (node : Node) (order : List (ℕ × ℕ)) (s : Rx)
      → base.chunk_size ≡ sctx.chunk_size
      → All (λ p. p.1 < base.total_chunks) order
      → ((i : ℕ) → i < base.total_chunks → has_index i (indices order) ≡ true)
      → Arriving base original [] s
      → (s' : Rx) × (receive_all host (chunk_frames node sctx original order) s ≡ ok s')
        × Arrived base original s'
  receive_all-Arrived node order s c h all a =
      let (s', e, b) = run node order [] s c h (inl a) in (s', e, over order s' all b)
