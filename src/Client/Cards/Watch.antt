-- ===== src/Client/Cards/Watch.antt =====
-- The watchdog of ui/app.py over the outgoing files.
use link_chat.Prelude.{
  ◌⊎◌, ap, ◌<◌, ◌∙◌, ℕ, ◌+◌, ◌≤◌, ◌≡◌, refl, subst, inl, inr, true, false, none, some, List, [],
  ◌∷◌, arith, ltb, Bool-cases, Option-cases,
}
use link_chat.Dict.{get, pop, get-pop, get-put, get-put_self}
use link_chat.Text.{Text, codes}
use link_chat.Text.Equality.{nat_key, text_eq, text_key, text_eq_refl, text_eq_iff}
use link_chat.Client.Cards.{TxCards, update_msg_subtitle, watch_one, watch_loop, watch_tx}

-- The transfer `k` is watched under the card `m` and has shown a sign at `ts`.
pub record IsWatched (k : Text) (m ts : ℕ) (s : TxCards) : Type 0 where
  pub watched : get k s.progress_index ≡ some m
  pub seen : get k s.last_tick ≡ some ts

-- The card `m` is shown as sent, and the transfer `k` is forgotten.
pub record IsMarked (k : Text) (m : ℕ) (s : TxCards) : Type 0 where
  pub shown : get m s.subtitles ≡ some (codes "Enviado")
  pub watched : get k s.progress_index ≡ none
  pub seen : get k s.last_tick ≡ none

module _ (now : ℕ) (fid : Text) (msg : ℕ) (s : TxCards) where
  one_unseen : get fid s.last_tick ≡ none → watch_one now fid msg s ≡ s
  unfolding watch_one
  one_unseen e = ground (arith, e)

  one_young :
      (ts : ℕ)
      → get fid s.last_tick ≡ some ts
      → ltb (ts + 1000) now ≡ false
      → watch_one now fid msg s ≡ s
  unfolding watch_one
  one_young ts e h = ground (arith, e, h)

  ended : TxCards
  ended = record s {
    subtitles = (update_msg_subtitle msg (codes "Enviado") s).subtitles;
    progress_index = pop fid s.progress_index;
    last_tick = pop fid s.last_tick;
  }

  one_old :
      (ts : ℕ)
      → get fid s.last_tick ≡ some ts
      → ltb (ts + 1000) now ≡ true
      → watch_one now fid msg s ≡ ended
  unfolding watch_one ended update_msg_subtitle
  one_old ts e h = ground (arith, e, h)

  other-IsWatched :
      (k : Text) (m ts : ℕ)
      → text_eq fid k ≡ false
      → IsWatched k m ts s
      → IsWatched k m ts (watch_one now fid msg s)
  unfolding ended
  other-IsWatched k m ts o w = elim (Option-cases (get fid s.last_tick)) [
    | inl e ↦ rw (one_unseen e) w
    | inr (us, e) ↦ elim (Bool-cases (ltb (us + 1000) now)) [
      | inr h ↦ rw (one_young us e h) w
      | inl h ↦ rw (one_old us e h) (record {
        watched = get-pop k fid s.progress_index ∙ rw (o, w.watched) refl;
        seen = get-pop k fid s.last_tick ∙ rw (o, w.seen) refl;
      })
    ]
  ]

  -- A sign of the last second keeps the card, whichever is looked at.
  young-IsWatched :
      (k : Text) (m ts : ℕ)
      → ltb (ts + 1000) now ≡ false
      → IsWatched k m ts s
      → IsWatched k m ts (watch_one now fid msg s)
  young-IsWatched k m ts h w = elim (Bool-cases (text_eq fid k)) [
    | inr o ↦ other-IsWatched k m ts o w
    | inl e ↦ rw (one_young ts (ap (λ j. get j s.last_tick) ((text_eq_iff fid k).0 e) ∙ w.seen) h) w
  ]

  one-IsMarked : (k : Text) (m : ℕ) → IsMarked k m s → IsMarked k m (watch_one now fid msg s)
  unfolding ended update_msg_subtitle
  one-IsMarked k m w = elim (Option-cases (get fid s.last_tick)) [
    | inl e ↦ rw (one_unseen e) w
    | inr (us, e) ↦ elim (Bool-cases (ltb (us + 1000) now)) [
      | inr h ↦ rw (one_young us e h) w
      | inl h ↦ rw (one_old us e h) (record {
        shown = ground (arith, get-put m msg (codes "Enviado") s.subtitles, w.shown);
        watched = ground (arith, get-pop k fid s.progress_index, w.watched);
        seen = ground (arith, get-pop k fid s.last_tick, w.seen);
      })
    ]
  ]

  self-IsMarked :
      (ts : ℕ)
      → get fid s.last_tick ≡ some ts
      → ltb (ts + 1000) now ≡ true
      → IsMarked fid msg (watch_one now fid msg s)
  unfolding ended update_msg_subtitle
  self-IsMarked ts e h = rw (one_old ts e h) (record {
    shown = get-put_self msg (codes "Enviado") s.subtitles;
    watched = ground (arith, get-pop fid fid s.progress_index, text_eq_refl fid);
    seen = ground (arith, get-pop fid fid s.last_tick, text_eq_refl fid);
  })

loop_young :
    (now : ℕ) (k : Text) (m ts : ℕ) (es : List (Text × ℕ)) (s : TxCards)
    → ltb (ts + 1000) now ≡ false
    → IsWatched k m ts s
    → IsWatched k m ts (watch_loop now es s)
unfolding watch_loop
loop_young now k m ts [] s h w = w
loop_young now k m ts ((fid, msg) ∷ rest) s h w =
    loop_young now k m ts rest (watch_one now fid msg s) h
      (young-IsWatched now fid msg s k m ts h w)

loop-IsMarked :
    (now : ℕ) (k : Text) (m : ℕ) (es : List (Text × ℕ)) (s : TxCards)
    → IsMarked k m s
    → IsMarked k m (watch_loop now es s)
unfolding watch_loop
loop-IsMarked now k m [] s w = w
loop-IsMarked now k m ((fid, msg) ∷ rest) s w =
    loop-IsMarked now k m rest (watch_one now fid msg s) (one-IsMarked now fid msg s k m w)

get-other :
    (k fid : Text) (msg m : ℕ) (rest : List (Text × ℕ))
    → get k ((fid, msg) ∷ rest) ≡ some m
    → text_eq fid k ≡ false
    → get k rest ≡ some m
unfolding get
get-other k fid msg m rest g h = ground (arith, g, h)

get-same :
    (k fid : Text) (msg m : ℕ) (rest : List (Text × ℕ))
    → get k ((fid, msg) ∷ rest) ≡ some m
    → text_eq fid k ≡ true
    → msg ≡ m
unfolding get
get-same k fid msg m rest g h = ground (arith, g, h)

no_entry : (k : Text) → get {V = ℕ} k [] ≡ none
unfolding get
no_entry k = refl

loop_old :
    (now : ℕ) (k : Text) (m ts : ℕ) (es : List (Text × ℕ)) (s : TxCards)
    → get k es ≡ some m
    → ltb (ts + 1000) now ≡ true
    → IsWatched k m ts s
    → IsMarked k m (watch_loop now es s)
unfolding watch_loop
loop_old now k m ts [] s g h w = absurd (cc (g, no_entry k))
loop_old now k m ts ((fid, msg) ∷ rest) s g h w = elim (Bool-cases (text_eq fid k)) [
  | inl e ↦ loop-IsMarked now k m rest (watch_one now fid msg s) (
      subst (λ j. IsMarked j m (watch_one now fid msg s)) ((text_eq_iff fid k).0 e)
        (subst (λ n. IsMarked fid n (watch_one now fid msg s)) (get-same k fid msg m rest g e)
          (self-IsMarked now fid msg s ts
            (ap (λ j. get j s.last_tick) ((text_eq_iff fid k).0 e) ∙ w.seen) h)))
  | inr o ↦
      loop_old now k m ts rest (watch_one now fid msg s) (get-other k fid msg m rest g o) h
        (other-IsWatched now fid msg s k m ts o w)
]

-- The watchdog decides on each transfer that is watched and has shown a sign: if the sign is older
-- than a second, the card is shown as sent and the transfer is forgotten; if not, it is watched as
-- before.
pub watch_tx-IsMarked :
    (now : ℕ) (s : TxCards) (k : Text) (m ts : ℕ)
    → IsWatched k m ts s
    → ((ts + 1000 < now) × IsMarked k m (watch_tx now s))
      ⊎ ((now ≤ ts + 1000) × IsWatched k m ts (watch_tx now s))
unfolding watch_tx
watch_tx-IsMarked now s k m ts w = elim (Bool-cases (ltb (ts + 1000) now)) [
  | inl h ↦ inl (ground (arith, h), loop_old now k m ts s.progress_index s w.watched h w)
  | inr h ↦ inr (ground (arith, h), loop_young now k m ts s.progress_index s h w)
]
