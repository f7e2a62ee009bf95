-- ===== src/Examples/Tickets.antt =====
-- A closed ticket of the child account, and an open one with a file.
use havale_khodro.Ticket.Flow.{
  Request, serve, replies, sets, opens, ranks, IsClosed, serve-IsClosed,
}
use havale_khodro.Prelude.{ℕ, find_first, find_many, ◌≡◌, refl, true, false, List, [], ◌∷◌, arith}
use havale_khodro.Schema.Enums.{TicketStatus, TicketCategory, TicketPriority}
use havale_khodro.Schema.Entities.{TicketMessage, TicketAttachment, Db, Env, Ticket}
use havale_khodro.Ticket.{
  find_ticket, find_attachment, may_read, messages_of, find_message, reply, get_ticket, replied,
  ticket_set_status, attachment,
}
use havale_khodro.Examples.Fixtures.{market, noon, child, officer, independent}
use havale_khodro.Ticket.Secrecy.{Hides, reply-attachment-Hides}
use havale_khodro.Exec.{done, thrown, not_found, attachment_row}
use havale_khodro.Ticket.Replies.{IsAnswered, reply-IsAnswered}
use havale_khodro.Roles.{is_admin}

abbrev ticket_row_of : ℕ → TicketStatus → Ticket
ticket_row_of id status = record {
  id = id;
  user_id = 2;
  subject = "seats";
  category = TicketCategory.seats;
  status = status;
  priority = TicketPriority.normal;
  last_reply_at = 5;
  created_at = 5;
}

abbrev first : TicketMessage
first = record {
  id = 62;
  ticket_id = 61;
  author_id = 2;
  body = "hello";
  is_staff = false;
  created_at = 5;
}

abbrev scan : TicketAttachment
scan = record {
  id = 63;
  message_id = 62;
  file = record { name = "a"; mime = "pdf"; size = 1; stored_as = "x" };
}

abbrev desk : Db
desk = record market {
  tickets = ticket_row_of 60 TicketStatus.closed ∷ ticket_row_of 61 TicketStatus.opened ∷ [];
  ticket_messages = first ∷ [];
  ticket_attachments = scan ∷ [];
  next_id = 100;
}

reply-attachment-Hides_example :
    Hides (get_ticket independent 61) desk
    × Hides (reply noon independent 61 "mine" []) desk
    × Hides (ticket_set_status independent 61 TicketStatus.closed) desk
    × Hides (attachment independent 63) desk
    × (attachment independent 64 desk ≡ thrown (not_found attachment_row) desk)
unfolding find_ticket find_attachment find_message find_first may_read
reply-attachment-Hides_example =
    reply-attachment-Hides noon independent 61 "mine" [] TicketStatus.closed 63 64 scan first desk
      (λ t e. ground arith) refl refl refl refl

reply-IsAnswered_example :
    (u : Db) × (reply noon officer 61 "we are on it" [] desk
      ≡ done (replied noon true (ticket_row_of 61 TicketStatus.opened)) u)
    × IsAnswered noon officer 61 "we are on it" [] desk u (ticket_row_of 61 TicketStatus.opened)
unfolding find_ticket find_first may_read messages_of find_many
reply-IsAnswered_example =
    reply-IsAnswered noon officer 61 "we are on it" [] desk (ticket_row_of 61 TicketStatus.opened)
      refl refl refl (omega arith, tt) (omega arith, (omega arith, tt))

abbrev history : List (Env × Request)
history =
    (noon, replies child 60 "please" [])
    ∷ (noon, sets child 60 TicketStatus.opened)
    ∷ (noon, opens child "again" TicketCategory.seats TicketPriority.high "hello" [])
    ∷ (noon, ranks 60 TicketPriority.high)
    ∷ []

serve-IsClosed_example : IsClosed 60 [] (serve history desk)
unfolding find_ticket find_first messages_of find_many is_admin
serve-IsClosed_example =
    serve-IsClosed 60 [] history desk (refl, (refl, (refl, (tt, tt))))
      (record {
        row = (ticket_row_of 60 TicketStatus.closed, refl, refl);
        said = refl;
        old = omega arith;
      })
