-- ===== src/Ticket/Replies.antt =====
-- `reply` and `setStatus` of backend/src/modules/ticket/ticket.service.js.
use havale_khodro.Prelude.{
  ℕ, ◌==◌, ==_refl, Bool-cases, Option-cases, find_first, find_first-updated, String, ◌≡◌, refl,
  ◌⊎◌, inl, inr, true, false, not, ◌&&◌, ◌||◌, none, some, List, [], ◌∷◌, ◌++◌, arith,
  find_count_elsewhere, find_many-append, find_many_found, find_many-append-hit, All-kept,
  find_many, update_where, All, ◌+◌, ◌≤◌, ◌<◌, ap, ◌∙◌, Bool,
}
use havale_khodro.Ticket.{
  reply, ticket_set_status, require_visible, add_message, attach_files, find_ticket, new_message,
  may_read, reread, replied, is_closed, messages_of, set_ticket_status, has_ticket_id, conversation,
  attachment_rows, by_time,
}
use havale_khodro.Schema.Entities.{Env, User, StoredFile, Db, TicketMessage, Ticket}
use havale_khodro.Schema.Enums.{TicketStatus}
use havale_khodro.Exec.{
  AppError, thrown, succeeded, not_found, ticket_row, done, bad_request, ticket_closed,
  agent_may_only_close,
}
use havale_khodro.Roles.{is_admin}
use havale_khodro.Ticket.Listed.{IsDated, by_time-snoc, newest_reply_first-head}
use havale_khodro.Ticket.Queue.{
  first_tickets, same_ticket_status, in_queue, list_tickets, queue_length, newest_reply_first,
}

-- A request is refused and changes nothing, or the row that it names is found and written to.
pub reply_cases :
    (env : Env) (user : User) (id : ℕ) (body : String) (files : List StoredFile) (s : Db)
    → ((e : AppError) × (reply env user id body files s ≡ thrown e s))
      ⊎ ((t : Ticket) × (find_ticket id s ≡ some t)
          × (may_read user t ≡ true)
          × (is_closed t.status ≡ false)
          × (reply env user id body files s
              ≡ reread id (
                  attach_files s.next_id files
                    (add_message env id user.id body (is_admin user.role) s))))
unfolding reply require_visible
reply_cases env user id body files s = elim (Option-cases (find_ticket id s)) [
  | inl e ↦ inl (not_found ticket_row, ground arith)
  | inr (t, e) ↦ elim (Bool-cases (may_read user t)) [
    | inr f ↦ inl (not_found ticket_row, ground arith)
    | inl f ↦ elim (Bool-cases (is_closed t.status)) [
      | inl g ↦ inl (bad_request ticket_closed, ground arith)
      | inr g ↦ inr (t, e, f, g, ground arith)
    ]
  ]
]

pub set_status_cases :
    (user : User) (id : ℕ) (status : TicketStatus) (s : Db)
    → ((e : AppError) × (ticket_set_status user id status s ≡ thrown e s))
      ⊎ ((t : Ticket) × (find_ticket id s ≡ some t)
          × (may_read user t ≡ true)
          × ((is_admin user.role || is_closed status) ≡ true)
          × (ticket_set_status user id status s ≡ reread id (set_ticket_status t.id status s)))
unfolding ticket_set_status require_visible
set_status_cases user id status s = elim (Option-cases (find_ticket id s)) [
  | inl e ↦ inl (not_found ticket_row, ground arith)
  | inr (t, e) ↦ elim (Bool-cases (may_read user t)) [
    | inr f ↦ inl (not_found ticket_row, ground arith)
    | inl f ↦ elim (Bool-cases (is_admin user.role || is_closed status)) [
      | inr g ↦ inl (bad_request agent_may_only_close, ground arith)
      | inl g ↦ inr (t, e, f, g, ground arith)
    ]
  ]
]

-- A reply is accepted exactly from a party of a ticket that is not closed.
reply-succeeded :
    (env : Env) (user : User) (id : ℕ) (body : String) (files : List StoredFile) (s : Db)
    → succeeded (reply env user id body files s) ≡ elim (find_ticket id s) [
      | none ↦ false
      | some t ↦ may_read user t && not (is_closed t.status)
    ]
unfolding reply require_visible add_message attach_files find_ticket reread
reply-succeeded env user id body files s = elim (Option-cases (find_ticket id s)) [
  | inl e ↦ ground arith
  | inr (t, e) ↦ ground (
    arith,
    find_first-updated (has_ticket_id id) (replied env (is_admin user.role)) s.tickets (λ x. refl)
        e,
  )
]

abbrev pub answer : Env → User → ℕ → String → Db → TicketMessage
answer env user id body s = new_message env s.next_id id user.id body (is_admin user.role)

-- What a reply of a party to a ticket that is not closed does.
pub record IsAnswered (env : Env) (user : User) (id : ℕ) (body : String) (files : List StoredFile)
    (s u : Db) (t : Ticket) : Type 0 where
  pub row : find_ticket id u ≡ some (replied env (is_admin user.role) t)
  pub said : conversation id u ≡ conversation id s ++ answer env user id body s ∷ []
  pub attached :
      u.ticket_attachments ≡ s.ticket_attachments ++ attachment_rows (s.next_id + 1) s.next_id files
  pub elsewhere :
      (other : ℕ)
      → (id == other) ≡ false
      → (messages_of other u ≡ messages_of other s) × (find_ticket other u ≡ find_ticket other s)
  pub queued :
      (staff : User)
      → is_admin staff.role ≡ true
      → (rest : List Ticket) × (list_tickets staff
            (some (replied env (is_admin user.role) t).status)
            none
            u
          ≡ replied env (is_admin user.role) t ∷ rest)

-- After a reply the ticket's row bears the moment of the reply, and the others earlier ones.
dated :
    (env : Env) (id : ℕ) (is_staff : Bool) (ts : List Ticket)
    → All (λ x. x.last_reply_at < env.now) ts
    → All
        (IsDated (has_ticket_id id) env.now)
        (update_where (has_ticket_id id) (replied env is_staff) ts)
unfolding update_where
dated env id is_staff [] h = tt
dated env id is_staff (t ∷ ts) h = elim (Bool-cases (t.id == id)) [
  | inl q ↦ rw q (rw q refl, dated env id is_staff ts h.1)
  | inr q ↦ rw q (rw q h.0, dated env id is_staff ts h.1)
]

-- The ticket of the reply is the first of a queue that it is in.
first_in_queue :
    (p : Ticket → Bool) (now : ℕ) (q : Ticket → Bool) (ts : List Ticket) (r : Ticket)
    → All (IsDated p now) ts
    → find_first p ts ≡ some r
    → q r ≡ true
    → (rest : List Ticket) × (first_tickets queue_length (newest_reply_first (find_many q ts))
        ≡ r ∷ rest)
unfolding first_tickets
first_in_queue p now q ts r h e k =
    let (rest, sorted) =
      newest_reply_first-head p now (find_many q ts) r (All-kept (IsDated p now) q ts h)
        (find_many_found p q ts r e k) in
    (first_tickets 49 rest, rw sorted refl)

same_itself : (status : TicketStatus) → same_ticket_status status status ≡ true
same_itself TicketStatus.opened = refl
same_itself TicketStatus.answered = refl
same_itself TicketStatus.closed = refl

-- An officer's queue of a status takes every ticket of it.
queue_takes :
    (staff : User) (t : Ticket)
    → is_admin staff.role ≡ true
    → in_queue staff (some t.status) none t ≡ true
unfolding in_queue
queue_takes staff t q = rw (q, same_itself t.status) refl

-- Whoever may read a ticket that is not closed can reply to it, with any text and any files, and where
-- what was said and replied before bears an earlier moment: the reply is the last message of the
-- conversation, the files are attached to it, other tickets and their conversations stay as they
-- were, the ticket is answered after a reply of the staff and open after one of the agency, and it is
-- the first that any officer finds in the queue of that status.
pub reply-IsAnswered :
    (env : Env) (user : User) (id : ℕ) (body : String) (files : List StoredFile) (s : Db)
    (t : Ticket)
    → find_ticket id s ≡ some t
    → may_read user t ≡ true
    → is_closed t.status ≡ false
    → All (λ m. m.created_at ≤ env.now) (messages_of id s)
    → All (λ x. x.last_reply_at < env.now) s.tickets
    → (u : Db) × (reply env user id body files s ≡ done (replied env (is_admin user.role) t) u)
      × IsAnswered env user id body files s u t
unfolding reply require_visible add_message attach_files find_ticket reread messages_of list_tickets
    conversation
reply-IsAnswered env user id body files s t e f g said replies =
    let is_staff = is_admin user.role in
    let found_after =
      find_first-updated (has_ticket_id id) (replied env is_staff) s.tickets (λ x. refl) e in
    (
      attach_files s.next_id files (add_message env id user.id body is_staff s),
      ground (arith, found_after),
      record {
        row = found_after;
        said =
            ap by_time (
              find_many-append-hit (λ m. m.ticket_id == id) s.ticket_messages
                (answer env user id body s) (==_refl id))
            ∙ by_time-snoc (messages_of id s) (answer env user id body s) said;
        attached = refl;
        elsewhere = λ other q. (
          find_many-append (λ m. m.ticket_id == other) s.ticket_messages (answer env user id body s)
              q,
          ground (
            arith,
            find_count_elsewhere (has_ticket_id id) (replied env is_staff) (has_ticket_id other)
                s.tickets (λ x h. ground arith),
          ),
        );
        queued = λ staff q.
            first_in_queue (has_ticket_id id) env.now
              (in_queue staff (some (replied env is_staff t).status) none)
              (update_where (has_ticket_id id) (replied env is_staff) s.tickets)
              (replied env is_staff t) (dated env id is_staff s.tickets replies) found_after
              (queue_takes staff (replied env is_staff t) q);
      },
    )
