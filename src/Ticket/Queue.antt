-- ===== src/Ticket/Queue.antt =====
-- `list` of backend/src/modules/ticket/ticket.service.js: the queue of the staff and of an agency.
use havale_khodro.Roles.{is_admin}
use havale_khodro.Prelude.{
  leb, ◌==◌, if◌then◌else◌, find_many, ℕ, zero, suc, Bool, true, false, ◌&&◌, Option, none, some,
  List, [], ◌∷◌,
}
use havale_khodro.Schema.Enums.{TicketStatus, TicketCategory}
use havale_khodro.Schema.Entities.{User, Ticket, Db}

-- `{ ...(status ? { status } : {}) }`
abbrev pub asked {ℓ} : {A : Type ℓ} → (A → A → Bool) → Option A → A → Bool
asked same none b = true
asked same (some a) b = same a b

abbrev pub same_ticket_status : TicketStatus → TicketStatus → Bool
same_ticket_status TicketStatus.opened TicketStatus.opened = true
same_ticket_status TicketStatus.answered TicketStatus.answered = true
same_ticket_status TicketStatus.closed TicketStatus.closed = true
same_ticket_status _ _ = false

abbrev pub category_index : TicketCategory → ℕ
category_index TicketCategory.subscription = 0
category_index TicketCategory.seats = 1
category_index TicketCategory.listing = 2
category_index TicketCategory.appeal = 3
category_index TicketCategory.technical = 4
category_index TicketCategory.other = 5

abbrev pub same_category : TicketCategory → TicketCategory → Bool
same_category a b = category_index a == category_index b

-- `userId: isAdmin(user.role) ? undefined : user.id`
abbrev pub scope : User → Ticket → Bool
scope user t = if is_admin user.role then true else t.user_id == user.id

unfoldable pub insert_newest_reply : Ticket → List Ticket → List Ticket
insert_newest_reply t [] = t ∷ []
insert_newest_reply t (x ∷ xs) =
    let rest = insert_newest_reply t xs in
    if leb x.last_reply_at t.last_reply_at then t ∷ x ∷ xs else x ∷ rest

-- `orderBy: { lastReplyAt: 'desc' }`
unfoldable pub newest_reply_first : List Ticket → List Ticket
unfolding insert_newest_reply
newest_reply_first [] = []
newest_reply_first (t ∷ ts) = insert_newest_reply t (newest_reply_first ts)

unfoldable pub first_tickets : ℕ → List Ticket → List Ticket
first_tickets zero ts = []
first_tickets (suc n) [] = []
first_tickets (suc n) (t ∷ ts) = t ∷ first_tickets n ts

unfoldable pub in_queue : User → Option TicketStatus → Option TicketCategory → Ticket → Bool
unfolding is_admin
in_queue user status category t =
    scope user t
    && asked same_ticket_status status t.status
    && asked same_category category t.category

abbrev pub queue_length : ℕ
queue_length = 50

-- `list`
unfoldable pub list_tickets : User → Option TicketStatus → Option TicketCategory → Db → List Ticket
unfolding find_many newest_reply_first first_tickets in_queue
list_tickets user status category s =
    first_tickets queue_length
      (newest_reply_first (find_many (in_queue user status category) s.tickets))
