-- ===== src/Ticket/Secrecy.antt =====
-- Who sees a ticket of backend/src/modules/ticket/ticket.service.js.
use havale_khodro.Prelude.{
  ℕ, Option-cases, String, ◌≡◌, inl, inr, true, false, some, List, arith, none,
}
use havale_khodro.Exec.{Exec, thrown, not_found, ticket_row, done, attachment_row}
use havale_khodro.Ticket.{
  get_ticket, attachment, reply, require_visible, may_read, ticket_set_status, find_ticket,
  find_message, find_attachment,
}
use havale_khodro.Schema.Entities.{
  Db, User, Env, TicketAttachment, StoredFile, Ticket, TicketMessage,
}
use havale_khodro.Schema.Enums.{TicketStatus}

-- The answer for a ticket that does not exist.
abbrev pub Hides {ℓ} : {A : Type ℓ} → Exec A → Db → Type ℓ
Hides m s = m s ≡ thrown (not_found ticket_row) s

-- The conversation, a reply and a change of the status of a ticket, for whoever may not read it, are
-- refused with the answer for a ticket that does not exist. So is an attachment of a message of the
-- ticket, whereas an attachment that does not exist has an answer of its own. Nothing changes.
pub reply-attachment-Hides :
    (env : Env) (user : User) (id : ℕ) (body : String) (files : List StoredFile)
    (status : TicketStatus) (attachment_id missing : ℕ) (a : TicketAttachment) (m : TicketMessage)
    (s : Db)
    → ((t : Ticket) → find_ticket id s ≡ some t → may_read user t ≡ false)
    → find_attachment attachment_id s ≡ some a
    → find_message a.message_id s ≡ some m
    → m.ticket_id ≡ id
    → find_attachment missing s ≡ none
    → Hides (get_ticket user id) s
      × Hides (reply env user id body files) s
      × Hides (ticket_set_status user id status) s
      × Hides (attachment user attachment_id) s
      × (attachment user missing s ≡ thrown (not_found attachment_row) s)
unfolding get_ticket reply ticket_set_status require_visible attachment
reply-attachment-Hides env user id body files status attachment_id missing a m s h e f g lost =
    elim (Option-cases (find_ticket id s)) [
      | inl none_there ↦ ground arith
      | inr (t, there) ↦ ground (arith, h t there)
    ]

pub attachment-may_read :
    (user : User) (id : ℕ) (s u : Db) (a : TicketAttachment)
    → attachment user id s ≡ done a u
    → (m : TicketMessage) × (t : Ticket) × (find_message a.message_id s ≡ some m)
      × (find_ticket m.ticket_id s ≡ some t)
      × (may_read user t ≡ true)
unfolding attachment require_visible
attachment-may_read user id s u a h = elim (Option-cases (find_attachment id s)) [
  | inl e ↦ absurd (ground arith)
  | inr (att, e) ↦ elim (Option-cases (find_message att.message_id s)) [
    | inl f ↦ absurd (ground arith)
    | inr (m, f) ↦ elim (Option-cases (find_ticket m.ticket_id s)) [
      | inl g ↦ absurd (ground arith)
      | inr (t, g) ↦ (m, t, ground arith, g, ground arith)
    ]
  ]
]
