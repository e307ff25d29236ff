-- ===== src/Client/Files/Found.antt =====
-- A transfer that starts: ui/services/file.py, `_on_tx_started`.
use link_chat.Prelude.{
  ℕ, ◌≡◌, refl, ◌∙◌, ◌⊎◌, inl, inr, Option, none, some, List, [], ◌∷◌, arith, Option-cases, ok,
}
use link_chat.Prelude.Int.{ℤ}
use link_chat.Dict.{Dict, get, put, keys}
use link_chat.Text.{Text, codes}
use link_chat.Text.Equality.{text_key}
use link_chat.Client.Files.{
  Kind, new_transfer, FileEvt, name_size_key, FileService, or_text, or_blank, new_tid,
}
use link_chat.Client.Files.Table.{
  truthy, tid_by_server, tid_by_name_size, only_candidate, candidates, started, number_or_zero,
  on_tx_started,
}
use link_chat.Client.Files.Consistent.{
  Known, Known-self, IsConsistent, stored-IsConsistent, started-IsConsistent,
}

truthy-some : (a : Option Text) (tid : Text) → truthy a ≡ some tid → a ≡ some tid
truthy-some none tid h = h
truthy-some (some []) tid h = absurd (cc h)
truthy-some (some (c ∷ t)) tid h = h

or_text-some :
    (a b : Option Text) (tid : Text)
    → truthy (or_text a b) ≡ some tid
    → (a ≡ some tid) ⊎ (b ≡ some tid)
or_text-some none b tid h = inr (truthy-some b tid h)
or_text-some (some []) b tid h = inr (truthy-some b tid h)
or_text-some (some (c ∷ t)) b tid h = inl h

only_candidate-get :
    (ks : List (Text × ℤ)) (d : Dict (Text × ℤ) Text) (tid : Text)
    → only_candidate ks d ≡ some tid
    → (k : Text × ℤ) × (get k d ≡ some tid)
unfolding only_candidate
only_candidate-get [] d tid h = absurd (cc h)
only_candidate-get (k ∷ []) d tid h = (k, h)
only_candidate-get (k ∷ j ∷ ks) d tid h = absurd (cc h)

module _ (s : FileService) (c : IsConsistent s) where
  server-Known :
      (i : Option Text) (tid : Text) → tid_by_server i s ≡ some tid → Known tid s.transfers
  unfolding tid_by_server
  server-Known none tid h = absurd (cc h)
  server-Known (some []) tid h = absurd (cc h)
  server-Known (some (d ∷ i)) tid h = c.by_server.found (d ∷ i) tid h

  name-Known :
      (name : Option Text) (evt : FileEvt) (tid : Text)
      → tid_by_name_size name evt s ≡ some tid
      → Known tid s.transfers
  unfolding tid_by_name_size
  name-Known none evt tid h = absurd (cc h)
  name-Known (some []) evt tid h = absurd (cc h)
  name-Known (some (d ∷ name)) evt tid h = by_size evt.size h
    where
      by_size :
          (o : Option ℤ)
          → (elim o [
            | none ↦
                only_candidate
                  (candidates (d ∷ name) (keys s.pending_by_name_size))
                  s.pending_by_name_size
            | some n ↦ get (d ∷ name, n) s.pending_by_name_size
          ])
            ≡ some tid
          → Known tid s.transfers
      by_size none h =
          let (k, g) =
            only_candidate-get (candidates (d ∷ name) (keys s.pending_by_name_size))
              s.pending_by_name_size tid h in
          c.by_name_size.found k tid g
      by_size (some n) h = c.by_name_size.found (d ∷ name, n) tid h

  found-Known :
      (i name : Option Text) (evt : FileEvt) (tid : Text)
      → truthy (or_text (tid_by_server i s) (tid_by_name_size name evt s)) ≡ some tid
      → Known tid s.transfers
  found-Known i name evt tid h = elim (or_text-some _ _ tid h) [
    | inl g ↦ server-Known i tid g
    | inr g ↦ name-Known name evt tid g
  ]

tx_found :
    (now : ℕ) (evt : FileEvt) (s : FileService) (tid : Text)
    → truthy (
        or_text
          (tid_by_server (or_text evt.file_id evt.id) s)
          (tid_by_name_size (or_text evt.name evt.filename) evt s))
      ≡ some tid
    → on_tx_started now evt s
      ≡ started tid
          (or_text evt.file_id evt.id)
          (or_text evt.dst evt.peer)
          (number_or_zero evt.size)
          s
unfolding on_tx_started
tx_found now evt s tid h = ground (arith, h)

tx_new :
    (now : ℕ) (evt : FileEvt) (s : FileService)
    → truthy (
        or_text
          (tid_by_server (or_text evt.file_id evt.id) s)
          (tid_by_name_size (or_text evt.name evt.filename) evt s))
      ≡ none
    → (tid : Text) → tid ≡ new_tid (codes "tx-") now
    → on_tx_started now evt s
      ≡ started tid
          (or_text evt.file_id evt.id)
          (or_text evt.dst evt.peer)
          (number_or_zero evt.size)
          (record s {
            transfers =
                put tid
                  (new_transfer tid Kind.tx
                    (or_blank (or_text evt.name evt.filename))
                    (number_or_zero evt.size))
                  s.transfers;
          })
unfolding on_tx_started
tx_new now evt s h tid e = rw e (ground (arith, h))

pub on_tx_started-IsConsistent :
    (now : ℕ) (evt : FileEvt) (s : FileService)
    → IsConsistent s
    → (s' : FileService) × (on_tx_started now evt s ≡ ok s') × IsConsistent s'
on_tx_started-IsConsistent now evt s c =
    elim (Option-cases (
      truthy (
        or_text (tid_by_server (or_text evt.file_id evt.id) s)
          (tid_by_name_size (or_text evt.name evt.filename) evt s)))) [
            | inl fresh ↦
                let tid = new_tid (codes "tx-") now in
                let v =
                  new_transfer tid Kind.tx (or_blank (or_text evt.name evt.filename))
                    (number_or_zero evt.size) in
                let (s', runs, c') =
                  started-IsConsistent tid (or_text evt.file_id evt.id) (or_text evt.dst evt.peer)
                    (number_or_zero evt.size) (record s { transfers = put tid v s.transfers })
                    (Known-self tid v s.transfers) (stored-IsConsistent tid v s c) in
                (s', tx_new now evt s fresh tid refl ∙ runs, c')
            | inr (tid, found) ↦
                let (s', runs, c') =
                  started-IsConsistent tid (or_text evt.file_id evt.id) (or_text evt.dst evt.peer)
                    (number_or_zero evt.size) s (found-Known s c _ _ evt tid found) c in
                (s', tx_found now evt s tid found ∙ runs, c')
          ]
