-- ===== src/Examples/Timeouts.antt =====
-- Transfers whose receiver does not answer, and the watchdogs of the interface.
use link_chat.Transfer.Window.Bounded.{pump_rounds-budget}
use link_chat.Transfer.Window.Budget.{budget}
use link_chat.Client.Received.{watch_rx}
use link_chat.Client.Received.Spared.{watch_rx-IsSpared, IsSpared}
use link_chat.Client.Incoming.{RxCards}
use link_chat.Client.Cards.Watch.{watch_tx-IsMarked, IsWatched, IsMarked}
use link_chat.Client.Cards.{watch_tx, TxCards}
use link_chat.Prelude.{
  ap, zero, ◌≤◌, suc, ◌⊎◌, List, length, ◌<◌, inr, ℕ, ◌+◌, some, ◌≡◌, refl, true, false, [], ◌∷◌,
  arith,
}
use link_chat.Prelude.Int.{negsuc}
use link_chat.Dict.{get}
use link_chat.Transfer.Sender.{WaitRound, Sending}
use link_chat.Text.{codes}
use link_chat.Text.Equality.{text_eq, nat_key, text_key}
use link_chat.Transfer.{FileSendCtx}
use link_chat.Transfer.Window.{Tx}
use link_chat.Transfer.Window.Silence.{Waiting}
use link_chat.Transfer.Window.Ending.{ArePaced, pump_rounds, pump_rounds_end}
use link_chat.Examples.Arrivals.{node, original}

-- The first chunk of three is in flight, with one retry left.
abbrev ctx : FileSendCtx
ctx = record {
  file_id = codes "h-1";
  dst_mac = codes "02:42:ac:11:00:03";
  path = codes "/tmp/h";
  size = 5;
  hash_sha256_hex = codes "2CF2";
  chunk_size = 2;
  total_chunks = 3;
  window_size = 1;
  timeout_s = 600;
  max_retries = 1;
  next_to_send = 1;
  last_acked = negsuc 0;
  inflight = (0, (100, 0)) ∷ [];
  acked = [];
  finished = false;
  meta_acked = true;
  meta_sent_ts = 50;
}

abbrev start : Tx
start = record { seq = 7; outgoing = []; ctx = ctx }

first_waits : Waiting 0 100 0 1 600 ctx
unfolding get
first_waits = record {
  known = refl;
  once = refl;
  behind = omega arith;
  announced = refl;
  bound = refl;
  pace = refl;
  tries = omega arith;
}

-- Rounds of the pump, 20 ms apart.
abbrev rounds_from : ℕ → ℕ → List (ℕ × (ℕ → ℕ))
rounds_from zero now = []
rounds_from (suc n) now = (now, λ i. now) ∷ rounds_from n (now + 20)

rounds_from-ArePaced : (n clock : ℕ) → ArePaced 0 clock (rounds_from n (clock + 20))
rounds_from-ArePaced zero clock = tt
rounds_from-ArePaced (suc n) clock = (omega arith, omega arith, rounds_from-ArePaced n (clock + 20))

length-rounds_from : (n now : ℕ) → length (rounds_from n now) ≡ n
length-rounds_from zero now = refl
length-rounds_from (suc n) now = ap suc (length-rounds_from n (now + 20))

pump_rounds_end_example : (pump_rounds node original (rounds_from 62 120) start).ctx.finished ≡ true
pump_rounds_end_example =
    pump_rounds_end node original 0 1 600 100 0 (rounds_from 62 120) start first_waits
      (rounds_from-ArePaced 62 100) (rw (length-rounds_from 62 120) (omega arith))

-- Two cards, of which the first has shown no sign for more than a second.
abbrev cards : TxCards
cards = record {
  next = 2;
  subtitles = (0, codes "10%") ∷ (1, codes "20%") ∷ [];
  progress_index = (codes "a-1", 0) ∷ (codes "b-2", 1) ∷ [];
  name_index = [];
  rel_index = [];
  last_tick = (codes "a-1", 100) ∷ (codes "b-2", 1500) ∷ [];
}

first-IsWatched : IsWatched (codes "a-1") 0 100 cards
unfolding get text_eq
first-IsWatched = record { watched = refl; seen = refl }

watch_tx-IsMarked_example :
    ((100 + 1000 < 2000) × IsMarked (codes "a-1") 0 (watch_tx 2000 cards))
    ⊎ ((2000 ≤ 100 + 1000) × IsWatched (codes "a-1") 0 100 (watch_tx 2000 cards))
watch_tx-IsMarked_example = watch_tx-IsMarked 2000 cards (codes "a-1") 0 100 first-IsWatched

-- A file of a folder, whose last sign is ten seconds old.
abbrev incoming : RxCards
incoming = record {
  next = 1;
  subtitles = (0, codes "Recibiendo… 0/1") ∷ [];
  progress_index = (codes "a-1", 0) ∷ [];
  name_index = [];
  rel_index = [];
  last_tick = (codes "a-1", 100) ∷ [];
  folder_card = ((codes "m", codes "d"), 0) ∷ [];
  folder_stats = ((codes "m", codes "d"), (1, 0)) ∷ [];
  fileid_to_folder = (codes "a-1", (codes "m", codes "d")) ∷ [];
}

in_folder : get (codes "a-1") incoming.fileid_to_folder ≡ some (codes "m", codes "d")
unfolding get text_eq
in_folder = refl

watch_rx-IsSpared_example :
    IsSpared (codes "a-1") (codes "m", codes "d") 0 incoming (watch_rx 10100 incoming)
watch_rx-IsSpared_example =
    watch_rx-IsSpared 10100 incoming (codes "a-1") (codes "m", codes "d") 0 in_folder
      (inr ((codes "m", codes "d"), in_folder), tt)

-- A wait in which nobody answers.
abbrev quiet_from : ℕ → ℕ → List WaitRound
quiet_from zero now = []
quiet_from (suc n) now = record { others = λ s. s; now = now } ∷ quiet_from n (now + 20)

abbrev sending : Sending
sending = record {
  tx = record { seq = 7; outgoing = []; ctx = record ctx { meta_acked = false; inflight = [] } };
  ctxs = [];
}

-- At most the retry that is left, two chunks sent twice each, and the `FILE_FIN`.
pump_rounds-budget_example :
    length (pump_rounds node original (rounds_from 62 120) start).outgoing ≤ 0 + budget ctx
pump_rounds-budget_example =
    pump_rounds-budget node original (rounds_from 62 120) start
      (record { distinct = (unfold get in refl, tt) })
