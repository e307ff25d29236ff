-- ===== src/Client/Files.antt =====
-- ui/services/file.py: the table of the transfers. Numbers in an event are integers, a missing
-- field is `none`; a quotient stays the two numbers that are divided. The clock, in milliseconds,
-- and what the file system says are arguments; what is sent to the server stands in `sent`.
pub mod Table
pub mod Consistent
pub mod Found
pub mod Handled
use link_chat.Prelude.{
  get_elem?, All-get_elem?, if_cases, ℕ, zero, suc, ◌+◌, ◌-◌, ◌*◌, ◌/◌, ◌%◌, ◌^◌, ◌≤◌, ◌<◌, min,
  max, bit_and, bit_or, bit_xor, String, ◌≡◌, refl, sym, ap, ◌∙◌, subst, ◌≢◌, ◌↔◌, ◌⊎◌, inl, inr,
  Bool, true, false, ◌&&◌, ◌||◌, not, Option, none, some, List, [], ◌∷◌, ◌++◌, map, arith, ltb, leb,
  ◌==◌, if◌then◌else◌, ltb→lt, lt→ltb, leb→le, le→leb, ==_iff, ==_refl, le_split, lt_split,
  Bool-cases, Option-cases, length, take, drop, replicate, All, length-append, length-take,
  length-drop, length-replicate, take-append-drop, take-append, drop-append, take_all, drop-drop,
  All-append, All-take, All-drop, Error, value_error, struct_error, unicode_error, file_not_found,
  zero_division, Result, ok, err, ◌>>=◌, ◌>>◌, guard, >>=-eq-ok,
}
use link_chat.Prelude.Int.{ℤ, pos, ltb_ℤ, max_ℤ, pos_part, neg_part}
use link_chat.Dict.{Dict, get, put, pop, keys}
use link_chat.Text.{Text, codes}
use link_chat.Text.Equality.{Eq, text_eq, text_eq_iff, text_key}
use link_chat.Text.Decimal.{format}

pub data Kind : Type 0 where
  tx : Kind
  rx : Kind

pub data Status : Type 0 where
  pending : Status
  running : Status
  done : Status
  error : Status
  canceled : Status

pub record TransferState : Type 0 where
  pub id : Text
  pub kind : Kind
  pub name : Text
  pub size : ℤ
  pub done : ℤ
  pub status : Status
  pub peer : Option Text
  pub server_id : Option Text
  pub acked : Option ℤ
  pub total : Option ℤ
  pub progress : Option (ℤ × ℕ)

-- A new transfer, with the defaults of the data class.
abbrev pub new_transfer : Text → Kind → Text → ℤ → TransferState
new_transfer id kind name size = record {
  id = id;
  kind = kind;
  name = name;
  size = size;
  done = pos 0;
  status = Status.pending;
  peer = none;
  server_id = none;
  acked = none;
  total = none;
  progress = none;
}

-- An event of the server; `ok` is whether its field is `True`.
pub record FileEvt : Type 0 where
  pub file_id : Option Text
  pub id : Option Text
  pub name : Option Text
  pub filename : Option Text
  pub dst : Option Text
  pub src : Option Text
  pub peer : Option Text
  pub size : Option ℤ
  pub acked : Option ℤ
  pub total : Option ℤ
  pub progress : Option (ℤ × ℕ)
  pub bytes : Option ℤ
  pub ok : Bool
  pub status : Option Text

pub data FileCmd : Type 0 where
  file_send : Text → Text → Text → FileCmd
  folder_send : Text → Text → Text → FileCmd
  file_accept : Text → FileCmd

-- The keys of `_pending_by_name_size`.
unfoldable pub eqb_ℤ : ℤ → ℤ → Bool
eqb_ℤ a b = pos_part a == pos_part b && neg_part a == neg_part b

pub eqb_ℤ_iff : (a b : ℤ) → (eqb_ℤ a b ≡ true) ↔ (a ≡ b)
unfolding eqb_ℤ
eqb_ℤ_iff a b = ground arith

abbrev pub name_size_eq : Text × ℤ → Text × ℤ → Bool
name_size_eq a b = text_eq a.0 b.0 && eqb_ℤ a.1 b.1

pub name_size_eq_iff : (a b : Text × ℤ) → (name_size_eq a b ≡ true) ↔ (a ≡ b)
name_size_eq_iff (s, m) (t, n) = (
  λ h. ground (arith, h, text_eq_iff s t, eqb_ℤ_iff m n),
  λ e. ground (arith, ap (λ p. p.0) e, ap (λ p. p.1) e, text_eq_iff s t, eqb_ℤ_iff m n),
)

instance abbrev pub name_size_key : Eq (Text × ℤ)
name_size_key = record { beq = name_size_eq; beq_iff = name_size_eq_iff }

pub record FileService : Type 0 where
  pub transfers : Dict Text TransferState
  pub tid_by_server_id : Dict Text Text
  pub pending_by_name_size : Dict (Text × ℤ) Text
  pub sent : List FileCmd

abbrev pub send_cmd : FileCmd → FileService → FileService
send_cmd cmd s = record s { sent = s.sent ++ cmd ∷ [] }

-- `a or b`
abbrev pub or_text : Option Text → Option Text → Option Text
or_text none other = other
or_text (some []) other = other
or_text (some (c ∷ t)) other = some (c ∷ t)

-- `a or ""`
abbrev pub or_blank : Option Text → Text
or_blank none = []
or_blank (some t) = t

-- `_to_int(v, default)` of a field
abbrev pub or_number : Option ℤ → Option ℤ → Option ℤ
or_number none other = other
or_number (some n) other = some n

-- `f"tx-{int(time.time()*1000)}"`
abbrev pub new_tid : Text → ℕ → Text
new_tid prefix now = prefix ++ format now

-- `send_file`: `name` and `size` are those of the file at the path.
unfoldable pub send_file : ℕ → Text → ℕ → Text → Text → FileService → FileService
send_file now name size dst_mac path s =
    let tid = new_tid (codes "tx-") now in
    send_cmd (FileCmd.file_send dst_mac path tid) (record s {
      transfers =
          put tid
            (record (new_transfer tid Kind.tx name (pos size)) {
              status = Status.running;
              peer = some dst_mac;
            })
            s.transfers;
      pending_by_name_size = put (name, pos size) tid s.pending_by_name_size;
    })

-- `_done`, when the command could not be sent.
unfoldable pub send_failed : Text → FileService → FileService
send_failed tid s = elim (get tid s.transfers) [
  | none ↦ s
  | some st ↦ elim st.status [
    | pending ↦ s
    | running ↦ record s { transfers = put tid (record st { status = Status.error }) s.transfers }
    | done ↦ s
    | error ↦ s
    | canceled ↦ s
  ]
]

unfoldable pub send_folder : ℕ → Bool → Text → Text → FileService → Result FileService
send_folder now is_dir dst_mac folder_path s =
    if is_dir
    then ok (send_cmd (FileCmd.folder_send dst_mac folder_path (new_tid (codes "fx-") now)) s)
    else err value_error

unfoldable pub send_path : ℕ → Bool → Text → ℕ → Text → Text → FileService → Result FileService
unfolding send_file send_folder
send_path now is_dir name size dst_mac path s =
    if is_dir
    then send_folder now is_dir dst_mac path s
    else ok (send_file now name size dst_mac path s)

-- `on_file_offer`; `auto_accept` is what the environment says.
unfoldable pub on_file_offer : Bool → FileEvt → FileService → FileService
on_file_offer auto_accept evt s = elim (or_text evt.id evt.file_id) [
  | none ↦ s
  | some i ↦ elim i [
    | [] ↦ s
    | c ∷ r ↦ if auto_accept then send_cmd (FileCmd.file_accept (c ∷ r)) s else s
  ]
]
