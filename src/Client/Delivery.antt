-- ===== src/Client/Delivery.antt =====
-- What a round of the event pump calls.
use link_chat.Prelude.{
  sym, inr, inl, Bool-cases, ap, arith, length, none, ◌∙◌, if◌then◌else◌, map, min, some, ◌++◌, ℕ,
  zero, suc, ◌≡◌, refl, Bool, Option, List, [], ◌∷◌, take, drop,
}
use link_chat.Dict.{get}
use link_chat.Text.{Text}
use link_chat.Text.Equality.{text_key}
use link_chat.Client.EventPump.{
  Handler, Pump, type_name, call_handler, run_handlers, run_fallback, deliver, pump,
}

module _ {E S : Type 0} where
  abbrev pub in_place_of : Option (Handler E S) → List (Handler E S) → List (Handler E S)
  in_place_of none [] = []
  in_place_of (some h) [] = h ∷ []
  in_place_of other (h ∷ hs) = h ∷ hs

  -- Calls of handlers, one after the other.
  abbrev pub run_calls : List (Handler E S × E) → S × ℕ → S × ℕ
  run_calls [] s = s
  run_calls ((h, evt) ∷ calls) s = run_calls calls (call_handler h evt s)

  run_calls-append :
      (xs ys : List (Handler E S × E)) (s : S × ℕ)
      → run_calls (xs ++ ys) s ≡ run_calls ys (run_calls xs s)
  run_calls-append [] ys s = refl
  run_calls-append ((h, evt) ∷ xs) ys s = run_calls-append xs ys (call_handler h evt s)

  run_handlers-calls :
      (hs : List (Handler E S)) (evt : E) (s : S × ℕ)
      → run_handlers hs evt s ≡ run_calls (map (λ h. (h, evt)) hs) s
  unfolding run_handlers
  run_handlers-calls [] evt s = refl
  run_handlers-calls (h ∷ hs) evt s = run_handlers-calls hs evt (call_handler h evt s)

-- The events before the first empty one.
abbrev pub until_empty : {E : Type 0} → (E → Bool) → List E → List E
until_empty is_empty [] = []
until_empty is_empty (evt ∷ evts) =
    let rest = until_empty is_empty evts in if is_empty evt then [] else evt ∷ rest

min-suc : (n m : ℕ) → min (suc n) (suc m) ≡ suc (min n m)
min-suc n m = ground arith

zero_min : (m : ℕ) → min 0 m ≡ 0
zero_min m = ground arith

min_zero : (m : ℕ) → min m 0 ≡ 0
min_zero m = ground arith

module _ {E S : Type 0} (type_of : E → Option Text) (is_empty : E → Bool) where
  -- The handlers that asked for the type of an event; the fallback if there are none.
  abbrev pub asked : Pump E S → E → List (Handler E S)
  asked p evt =
      in_place_of p.fallback
        (elim (get (type_name (type_of evt)) p.subs) [ none ↦ [] | some hs ↦ hs ])

  abbrev pub calls : Pump E S → List E → List (Handler E S × E)
  calls p [] = []
  calls p (evt ∷ evts) = map (λ h. (h, evt)) (asked p evt) ++ calls p evts

  fallback-calls :
      (f : Option (Handler E S)) (evt : E) (s : S × ℕ)
      → run_fallback f evt s ≡ run_calls (map (λ h. (h, evt)) (in_place_of f [])) s
  unfolding run_fallback
  fallback-calls none evt s = refl
  fallback-calls (some h) evt s = refl

  -- What is called when the table gives `o`.
  chosen : Option (List (Handler E S)) → Pump E S → E → S × ℕ → S × ℕ
  chosen none p evt s = run_fallback p.fallback evt s
  chosen (some []) p evt s = run_fallback p.fallback evt s
  chosen (some (h ∷ hs)) p evt s = run_handlers (h ∷ hs) evt s

  deliver-by :
      (o : Option (List (Handler E S))) (p : Pump E S) (evt : E) (s : S × ℕ)
      → get (type_name (type_of evt)) p.subs ≡ o
      → deliver type_of is_empty p evt s ≡ chosen o p evt s
  unfolding deliver chosen
  deliver-by none p evt s e = rw (deliver, e) refl
  deliver-by (some []) p evt s e = rw (deliver, e) refl
  deliver-by (some (h ∷ hs)) p evt s e = rw (deliver, e) refl

  chosen-calls :
      (o : Option (List (Handler E S))) (p : Pump E S) (evt : E) (s : S × ℕ)
      → chosen o p evt s
        ≡ run_calls
            (map (λ h. (h, evt)) (in_place_of p.fallback (elim o [ none ↦ [] | some hs ↦ hs ])))
            s
  unfolding chosen
  chosen-calls none p evt s = fallback-calls p.fallback evt s
  chosen-calls (some []) p evt s = fallback-calls p.fallback evt s
  chosen-calls (some (h ∷ hs)) p evt s = run_handlers-calls (h ∷ hs) evt s

  deliver-calls :
      (p : Pump E S) (evt : E) (s : S × ℕ)
      → deliver type_of is_empty p evt s ≡ run_calls (map (λ h. (h, evt)) (asked p evt)) s
  deliver-calls p evt s =
      deliver-by _ p evt s refl ∙ chosen-calls (get (type_name (type_of evt)) p.subs) p evt s

  -- A round of at most `max_events` events calls, in the order of the events, every handler that
  -- asked for an event's type, or the fallback if none did, also after one that raises. It ends
  -- with the first empty event, which is taken from the queue too; the other events are left.
  pub pump-run_calls :
      (max_events : ℕ) (p : Pump E S) (queue : List E) (s : S × ℕ)
      → pump type_of is_empty max_events p queue s ≡ (
        drop (min max_events (suc (length (until_empty is_empty queue)))) queue,
        run_calls (calls p (take max_events (until_empty is_empty queue))) s,
      )
  unfolding pump
  pump-run_calls zero p queue s = rw (zero_min (suc (length (until_empty is_empty queue)))) refl
  pump-run_calls (suc n) p [] s = rw (min-suc n 0) refl
  pump-run_calls (suc n) p (evt ∷ queue) s = elim (Bool-cases (is_empty evt)) [
    | inl h ↦ rw h (rw (min-suc n 0, min_zero n) refl)
    | inr h ↦
        rw (h, min-suc n (suc (length (until_empty is_empty queue))))
          (pump-run_calls n p queue (deliver type_of is_empty p evt s)
            ∙ ap (λ u. (drop (min n (suc (length (until_empty is_empty queue)))) queue, u))
                (ap (run_calls (calls p (take n (until_empty is_empty queue))))
                    (deliver-calls p evt s)
                  ∙ sym (run_calls-append (map (λ h. (h, evt)) (asked p evt)) _ s)))
  ]
