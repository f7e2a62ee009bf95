-- ===== src/Ticket.antt =====
-- backend/src/modules/ticket/ticket.service.js with the queries of ticket.repository.js. A result is
-- the ticket's row; `toTicket` only lays it out.
pub mod Queue
pub mod Listed
pub mod Secrecy
pub mod Replies
pub mod Flow
use havale_khodro.Prelude.{
  ℕ, ◌==◌, if◌then◌else◌, length, find_first, find_many, update_where, ◌+◌, String, Bool, true,
  false, not, ◌&&◌, ◌||◌, Option, none, some, List, [], ◌∷◌, ◌++◌, leb,
}
use havale_khodro.Exec.{
  ◌>>=◌, ◌>>◌, Exec, reads, require, found, writes, bad_request, pure, not_found, internal,
  ticket_closed, agent_may_only_close, ticket_row, attachment_row,
}
use havale_khodro.Schema.Entities.{
  Ticket, Db, Env, StoredFile, User, TicketMessage, TicketAttachment,
}
use havale_khodro.Schema.Enums.{TicketStatus, TicketPriority, TicketCategory, ticket_opened, Target}
use havale_khodro.Roles.{is_admin}
use havale_khodro.Activity.{record_activity}

abbrev pub has_ticket_id : ℕ → Ticket → Bool
has_ticket_id id t = t.id == id

unfoldable pub find_ticket : ℕ → Db → Option Ticket
unfolding find_first
find_ticket id s = find_first (has_ticket_id id) s.tickets

-- The rows of the conversation, as they were written.
unfoldable pub messages_of : ℕ → Db → List TicketMessage
unfolding find_many
messages_of ticket_id s = find_many (λ m. m.ticket_id == ticket_id) s.ticket_messages

unfoldable pub insert_by_time : TicketMessage → List TicketMessage → List TicketMessage
insert_by_time m [] = m ∷ []
insert_by_time m (x ∷ xs) =
    let rest = insert_by_time m xs in if leb m.created_at x.created_at then m ∷ x ∷ xs else x ∷ rest

unfoldable pub by_time : List TicketMessage → List TicketMessage
unfolding insert_by_time
by_time [] = []
by_time (m ∷ ms) = insert_by_time m (by_time ms)

-- `messages: { orderBy: { createdAt: 'asc' } }`
unfoldable pub conversation : ℕ → Db → List TicketMessage
unfolding messages_of by_time
conversation ticket_id s = by_time (messages_of ticket_id s)

abbrev pub new_ticket : Env → ℕ → ℕ → String → TicketCategory → TicketPriority → Ticket
new_ticket env id user_id subject category priority = record {
  id = id;
  user_id = user_id;
  subject = subject;
  category = category;
  status = TicketStatus.opened;
  priority = priority;
  last_reply_at = env.now;
  created_at = env.now;
}

abbrev pub new_message : Env → ℕ → ℕ → ℕ → String → Bool → TicketMessage
new_message env id ticket_id author_id body is_staff = record {
  id = id;
  ticket_id = ticket_id;
  author_id = author_id;
  body = body;
  is_staff = is_staff;
  created_at = env.now;
}

-- A nested write: the ticket takes the next identifier, and its first message the one after.
unfoldable pub create_ticket : Env → ℕ → String → TicketCategory → TicketPriority → String → Db → Db
create_ticket env user_id subject category priority body s = record s {
  tickets = s.tickets ++ new_ticket env s.next_id user_id subject category priority ∷ [];
  ticket_messages =
      s.ticket_messages ++ new_message env (s.next_id + 1) s.next_id user_id body false ∷ [];
  next_id = s.next_id + 2;
}

abbrev pub attachment_rows : ℕ → ℕ → List StoredFile → List TicketAttachment
attachment_rows next message_id [] = []
attachment_rows next message_id (f ∷ fs) =
    record { id = next; message_id = message_id; file = f }
    ∷ attachment_rows (next + 1) message_id fs

unfoldable pub attach_files : ℕ → List StoredFile → Db → Db
attach_files message_id files s = record s {
  ticket_attachments = s.ticket_attachments ++ attachment_rows s.next_id message_id files;
  next_id = s.next_id + length files;
}

abbrev pub replied : Env → Bool → Ticket → Ticket
replied env is_staff t = record t {
  status = if is_staff then TicketStatus.answered else TicketStatus.opened;
  last_reply_at = env.now;
}

-- The message and the state of the ticket, in one transaction.
unfoldable pub add_message : Env → ℕ → ℕ → String → Bool → Db → Db
unfolding update_where
add_message env ticket_id author_id body is_staff s = record s {
  ticket_messages =
      s.ticket_messages ++ new_message env s.next_id ticket_id author_id body is_staff ∷ [];
  tickets = update_where (has_ticket_id ticket_id) (replied env is_staff) s.tickets;
  next_id = s.next_id + 1;
}

abbrev pub with_ticket_status : TicketStatus → Ticket → Ticket
with_ticket_status status t = record t { status = status }

abbrev pub with_ticket_priority : TicketPriority → Ticket → Ticket
with_ticket_priority priority t = record t { priority = priority }

unfoldable pub set_ticket_status : ℕ → TicketStatus → Db → Db
unfolding update_where
set_ticket_status id status s = record s {
  tickets = update_where (has_ticket_id id) (with_ticket_status status) s.tickets;
}

unfoldable pub set_ticket_priority : ℕ → TicketPriority → Db → Db
unfolding update_where
set_ticket_priority id priority s = record s {
  tickets = update_where (has_ticket_id id) (with_ticket_priority priority) s.tickets;
}

-- `!isAdmin(user.role) && ticket.userId !== user.id`
unfoldable pub may_read : User → Ticket → Bool
unfolding is_admin
may_read user t = is_admin user.role || t.user_id == user.id

unfoldable pub require_visible : User → ℕ → Exec Ticket
unfolding find_ticket may_read
require_visible user id = do
  row ← reads (find_ticket id)
  ticket ← found row (not_found ticket_row)
  require (may_read user ticket) (not_found ticket_row)
  pure ticket

-- `findById` at the end of a handler.
unfoldable pub reread : ℕ → Exec Ticket
unfolding find_ticket
reread id = do row ← reads (find_ticket id); found row (internal ticket_row)

unfoldable pub open_ticket :
    Env → User → String → TicketCategory → TicketPriority → String → List StoredFile → Exec Ticket
unfolding create_ticket attach_files record_activity reread
open_ticket env user subject category priority body files = do
  id ← reads (λ s. s.next_id)
  writes (create_ticket env user.id subject category priority body)
  writes (attach_files (id + 1) files)
  record_activity env user.id ticket_opened Target.ticket id
  reread id

abbrev pub is_closed : TicketStatus → Bool
is_closed TicketStatus.closed = true
is_closed _ = false

unfoldable pub reply : Env → User → ℕ → String → List StoredFile → Exec Ticket
unfolding require_visible add_message attach_files reread is_admin
reply env user id body files = do
  ticket ← require_visible user id
  require (not (is_closed ticket.status)) (bad_request ticket_closed)
  message ← reads (λ s. s.next_id)
  writes (add_message env id user.id body (is_admin user.role))
  writes (attach_files message files)
  reread id

unfoldable pub ticket_set_status : User → ℕ → TicketStatus → Exec Ticket
unfolding require_visible set_ticket_status reread is_admin
ticket_set_status user id status = do
  ticket ← require_visible user id
  require (is_admin user.role || is_closed status) (bad_request agent_may_only_close)
  writes (set_ticket_status ticket.id status)
  reread id

unfoldable pub set_priority : ℕ → TicketPriority → Exec Ticket
unfolding find_ticket set_ticket_priority reread
set_priority id priority = do
  row ← reads (find_ticket id)
  ticket ← found row (not_found ticket_row)
  writes (set_ticket_priority id priority)
  reread id

-- The ticket with its messages, as `get` shows it.
unfoldable pub get_ticket : User → ℕ → Exec (Ticket × List TicketMessage)
unfolding require_visible conversation
get_ticket user id = do
  ticket ← require_visible user id
  messages ← reads (conversation id)
  pure (ticket, messages)

unfoldable pub find_attachment : ℕ → Db → Option TicketAttachment
unfolding find_first
find_attachment id s = find_first (λ a. a.id == id) s.ticket_attachments

unfoldable pub find_message : ℕ → Db → Option TicketMessage
unfolding find_first
find_message id s = find_first (λ m. m.id == id) s.ticket_messages

-- The joined `message` of an attachment is there by the foreign key of the table.
unfoldable pub attachment : User → ℕ → Exec TicketAttachment
unfolding find_attachment find_message require_visible
attachment user id = do
  row ← reads (find_attachment id)
  att ← found row (not_found attachment_row)
  owner ← reads (find_message att.message_id)
  message ← found owner (internal ticket_row)
  ticket ← require_visible user message.ticket_id
  pure att
