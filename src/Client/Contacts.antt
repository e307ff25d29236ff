-- ===== src/Client/Contacts.antt =====
-- The table of contacts after an event.
use link_chat.Prelude.{
  ℕ, zero, suc, ◌<◌, ◌≡◌, refl, ap, ◌∙◌, inl, inr, Bool, true, false, Option, none, some, List, [],
  ◌∷◌, ◌++◌, arith, Bool-cases, length, length-append,
}
use link_chat.Dict.{get, put, get-put}
use link_chat.Text.{Text}
use link_chat.Text.Equality.{text_key}
use link_chat.Client.Roster.{
  Contact, Row, Roster, alias_of, is_online, update_at, add_row, add_rows, text_le, contact_le,
  insert, sort, first_selected, on_neighbors_changed,
}

text_le_total : (s t : Text) → text_le s t ≡ false → text_le t s ≡ true
unfolding text_le
text_le_total [] t h = cc h
text_le_total (a ∷ s) [] h = refl
text_le_total (a ∷ s) (b ∷ t) h = ground (arith, h, text_le_total s t)

-- Every place that the index names is there.
pub record IsIndexed (s : Roster) : Type 0 where
  pub place : (mac : Text) (i : ℕ) → get mac s.idx ≡ some i → i < length s.contacts

module _ (lower : Text → Text) where
  contact_le_total : (c d : Contact) → contact_le lower c d ≡ false → contact_le lower d c ≡ true
  unfolding contact_le
  contact_le_total c d h = ground (arith, h, text_le_total (lower c.name) (lower d.name))

  -- Each contact is not above the one that follows.
  abbrev pub IsSorted : List Contact → Type 0
  IsSorted [] = Unit
  IsSorted (c ∷ []) = Unit
  IsSorted (c ∷ d ∷ ds) = (contact_le lower c d ≡ true) × IsSorted (d ∷ ds)

  insert-le :
      (c d : Contact) (ds : List Contact)
      → contact_le lower c d ≡ true
      → insert lower c (d ∷ ds) ≡ c ∷ d ∷ ds
  unfolding insert
  insert-le c d ds h = rw h refl

  insert-gt :
      (c d : Contact) (ds : List Contact)
      → contact_le lower c d ≡ false
      → insert lower c (d ∷ ds) ≡ d ∷ insert lower c ds
  unfolding insert
  insert-gt c d ds h = rw h refl

  insert-nil : (c : Contact) → insert lower c [] ≡ c ∷ []
  unfolding insert
  insert-nil c = refl

  insert-below :
      (c d : Contact) (ds : List Contact)
      → contact_le lower d c ≡ true
      → IsSorted (d ∷ ds)
      → IsSorted (d ∷ insert lower c ds)
  insert-below c d [] h s = rw (insert-nil c) (h, tt)
  insert-below c d (e ∷ es) h s = elim (Bool-cases (contact_le lower c e)) [
    | inl k ↦ rw (insert-le c e es k) (h, (k, s.1))
    | inr k ↦ rw (insert-gt c e es k) (s.0, insert-below c e es (contact_le_total c e k) s.1)
  ]

  insert-IsSorted : (c : Contact) (ds : List Contact) → IsSorted ds → IsSorted (insert lower c ds)
  insert-IsSorted c [] s = rw (insert-nil c) tt
  insert-IsSorted c (d ∷ ds) s = elim (Bool-cases (contact_le lower c d)) [
    | inl k ↦ rw (insert-le c d ds k) (k, s)
    | inr k ↦ rw (insert-gt c d ds k) (insert-below c d ds (contact_le_total c d k) s)
  ]

  sort-IsSorted : (cs : List Contact) → IsSorted (sort lower cs)
  unfolding sort
  sort-IsSorted [] = tt
  sort-IsSorted (c ∷ cs) = insert-IsSorted c (sort lower cs) (sort-IsSorted cs)

  length-insert : (c : Contact) (ds : List Contact) → length (insert lower c ds) ≡ suc (length ds)
  length-insert c [] = rw (insert-nil c) refl
  length-insert c (d ∷ ds) = elim (Bool-cases (contact_le lower c d)) [
    | inl k ↦ rw (insert-le c d ds k) refl
    | inr k ↦ rw (insert-gt c d ds k) (ap suc (length-insert c ds))
  ]

  length-sort : (cs : List Contact) → length (sort lower cs) ≡ length cs
  unfolding sort
  length-sort [] = refl
  length-sort (c ∷ cs) = length-insert c (sort lower cs) ∙ ap suc (length-sort cs)

  update_some :
      (i : ℕ) (name : Text) (online : Bool) (cs : List Contact)
      → i < length cs
      → (cs' : List Contact) × (update_at i name online cs ≡ some cs') × (length cs' ≡ length cs)
  unfolding update_at
  update_some i name online [] h = absurd (omega arith)
  update_some zero name online (c ∷ cs) h = (_, refl, refl)
  update_some (suc i) name online (c ∷ cs) h =
      let (cs', e, l) = update_some i name online cs (omega arith) in (c ∷ cs', rw e refl, ap suc l)

  add_row-old :
      (r : Row) (s : Roster) (i : ℕ) (cs : List Contact)
      → get r.mac s.idx ≡ some i
      → update_at i (alias_of r) (is_online r) s.contacts ≡ some cs
      → add_row r s ≡ some (record s { contacts = cs })
  unfolding add_row
  add_row-old r s i cs e f = ground (arith, e, f)

  add_row-new :
      (r : Row) (s : Roster)
      → get r.mac s.idx ≡ none
      → add_row r s
        ≡ some (record s {
          idx = put r.mac (length s.contacts) s.idx;
          contacts =
              s.contacts ++ record { mac = r.mac; name = alias_of r; online = is_online r } ∷ [];
        })
  unfolding add_row
  add_row-new r s e = ground (arith, e)

  add_row-IsIndexed :
      (r : Row) (s : Roster) → IsIndexed s → (s' : Roster) × (add_row r s ≡ some s') × IsIndexed s'
  add_row-IsIndexed r s h = by_index (get r.mac s.idx) refl
    where
      by_index :
          (o : Option ℕ)
          → get r.mac s.idx ≡ o
          → (s' : Roster) × (add_row r s ≡ some s') × IsIndexed s'
      by_index none e = (
        _,
        add_row-new r s e,
        record {
          place = λ mac i k. ground (
            arith,
            k,
            get-put mac r.mac (length s.contacts) s.idx,
            length-append s.contacts
                (record { mac = r.mac; name = alias_of r; online = is_online r } ∷ []),
            h.place mac i,
          );
        },
      )
      by_index (some i) e =
          let (cs, f, l) =
            update_some i (alias_of r) (is_online r) s.contacts (h.place r.mac i e) in
          (
            _,
            add_row-old r s i cs e f,
            record { place = λ mac j k. omega (arith, l, h.place mac j k) },
          )

  add_rows-step :
      (r : Row) (rs : List Row) (s s1 : Roster)
      → add_row r s ≡ some s1
      → add_rows (r ∷ rs) s ≡ add_rows rs s1
  unfolding add_rows
  add_rows-step r rs s s1 e = ground (arith, e)

  add_rows-IsIndexed :
      (rs : List Row) (s : Roster)
      → IsIndexed s
      → (s' : Roster) × (add_rows rs s ≡ some s') × IsIndexed s'
  add_rows-IsIndexed [] s h = (s, (unfold add_rows in refl), h)
  add_rows-IsIndexed (r ∷ rs) s h =
      let (s1, e1, h1) = add_row-IsIndexed r s h in
      let (s2, e2, h2) = add_rows-IsIndexed rs s1 h1 in (s2, add_rows-step r rs s s1 e1 ∙ e2, h2)

  changed :
      (rs : List Row) (s s' : Roster)
      → add_rows rs s ≡ some s'
      → on_neighbors_changed lower rs s
        ≡ some (record s' {
          contacts = sort lower s'.contacts;
          selected_mac = first_selected s'.selected_mac (sort lower s'.contacts);
        })
  unfolding on_neighbors_changed
  changed rs s s' e = ground (arith, e)

  -- When every place that the index names is there, an event with any rows is handled without an
  -- `IndexError`, the places are there again, and the contacts are in order: those online first, then
  -- by the names in lower case, whatever the letters' lower case is.
  pub on_neighbors_changed-IsIndexed :
      (rs : List Row) (s : Roster)
      → IsIndexed s
      → (s' : Roster) × (on_neighbors_changed lower rs s ≡ some s')
        × IsIndexed s'
        × IsSorted s'.contacts
  on_neighbors_changed-IsIndexed rs s h =
      let (s1, e, h1) = add_rows-IsIndexed rs s h in
      (
        _,
        changed rs s s1 e,
        record { place = λ mac i k. rw (length-sort s1.contacts) (h1.place mac i k) },
        sort-IsSorted s1.contacts,
      )
