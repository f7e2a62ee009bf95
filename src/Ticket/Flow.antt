-- ===== src/Ticket/Flow.antt =====
-- The states of a ticket along requests to backend/src/modules/ticket/ticket.service.js.
use havale_khodro.Prelude.{
  ℕ, Option-cases, String, ◌≡◌, refl, inl, inr, false, some, List, arith, ◌<◌, Bool, true, [], ◌∷◌,
  ◌==◌, Bool-cases, update_where, find_first_holds, find_first-update_where, find_first-append, ◌+◌,
  ap, All, sym, find_many-append,
}
use havale_khodro.Ticket.{
  reply, add_message, attach_files, find_ticket, reread, is_closed, has_ticket_id, replied,
  open_ticket, ticket_set_status, set_priority, messages_of, create_ticket, new_ticket,
  set_ticket_priority, with_ticket_priority, new_message, set_ticket_status, with_ticket_status,
}
use havale_khodro.Schema.Entities.{Env, User, StoredFile, Db, TicketMessage, Ticket}
use havale_khodro.Exec.{after, not_found, ticket_row}
use havale_khodro.Roles.{is_admin}
use havale_khodro.Schema.Enums.{
  TicketCategory, TicketPriority, TicketStatus, Action, Target, ticket_opened,
}
use havale_khodro.Exec.Laws.{Keeps, Keeps-then, found-after}
use havale_khodro.Activity.{record_activity, record_activity-eq}
use havale_khodro.Ticket.Replies.{reply_cases, set_status_cases}

pub data Request : Type 0 where
  opens : User → String → TicketCategory → TicketPriority → String → List StoredFile → Request
  replies : User → ℕ → String → List StoredFile → Request
  sets : User → ℕ → TicketStatus → Request
  ranks : ℕ → TicketPriority → Request

unfoldable pub step : Env → Request → Db → Db
unfolding open_ticket reply ticket_set_status set_priority
step env (opens user subject category priority body files) s =
    after (open_ticket env user subject category priority body files s)
step env (replies user id body files) s = after (reply env user id body files s)
step env (sets user id status) s = after (ticket_set_status user id status s)
step env (ranks id priority) s = after (set_priority id priority s)

-- The requests in the order in which they are served, each at its own time.
unfoldable pub serve : List (Env × Request) → Db → Db
unfolding step
serve [] s = s
serve ((env, r) ∷ rest) s = serve rest (step env r s)

-- Who sends the request is no member of staff.
abbrev pub IsOutside : Env × Request → Type 0
IsOutside (env, opens user _ _ _ _ _) = is_admin user.role ≡ false
IsOutside (env, replies user _ _ _) = is_admin user.role ≡ false
IsOutside (env, sets user _ _) = is_admin user.role ≡ false
IsOutside (env, ranks _ _) = Unit

-- The ticket is closed, and its conversation is this.
pub record IsClosed (id : ℕ) (messages : List TicketMessage) (s : Db) : Type 0 where
  pub row : (t : Ticket) × (find_ticket id s ≡ some t) × (is_closed t.status ≡ true)
  pub said : messages_of id s ≡ messages
  pub old : id < s.next_id

module _ (id : ℕ) (messages : List TicketMessage) where
  create_ticket-IsClosed :
      (env : Env) (user_id : ℕ) (subject : String) (category : TicketCategory)
      (priority : TicketPriority) (body : String) (s : Db)
      → IsClosed id messages s
      → IsClosed id messages (create_ticket env user_id subject category priority body s)
  unfolding create_ticket find_ticket messages_of
  create_ticket-IsClosed env user_id subject category priority body s c =
      let (t, e, q) = c.row in
      let row = new_ticket env s.next_id user_id subject category priority in
      let first = new_message env (s.next_id + 1) s.next_id user_id body false in
      record {
        row = (t, ground (arith, e, find_first-append (has_ticket_id id) s.tickets (row ∷ [])), q);
        said = ground (
          arith,
          c.said,
          c.old,
          find_many-append (λ m. m.ticket_id == id) s.ticket_messages first,
        );
        old = ground (arith, c.old);
      }

  attach_files-IsClosed :
      (message_id : ℕ) (files : List StoredFile) (s : Db)
      → IsClosed id messages s
      → IsClosed id messages (attach_files message_id files s)
  unfolding attach_files find_ticket messages_of
  attach_files-IsClosed message_id files s c = record {
    row = c.row;
    said = c.said;
    old = ground (arith, c.old);
  }

  record_activity-IsClosed :
      (env : Env) (user_id : ℕ) (action : Action) (target : Target) (target_id : ℕ)
      → Keeps (IsClosed id messages) (record_activity env user_id action target target_id)
  unfolding find_ticket messages_of
  record_activity-IsClosed env user_id action target target_id s c =
      let (rows, e) = record_activity-eq env user_id action target target_id s in
      rw e (record { row = c.row; said = c.said; old = c.old })

  reread-IsClosed : (other : ℕ) → Keeps (IsClosed id messages) (reread other)
  unfolding reread
  reread-IsClosed other s c = elim (Option-cases (find_ticket other s)) [
    | inl e ↦ rw e c
    | inr (t, e) ↦ rw e c
  ]

  open_ticket-IsClosed :
      (env : Env) (user : User) (subject : String) (category : TicketCategory)
      (priority : TicketPriority) (body : String) (files : List StoredFile)
      → Keeps (IsClosed id messages) (open_ticket env user subject category priority body files)
  unfolding open_ticket
  open_ticket-IsClosed env user subject category priority body files s c =
      Keeps-then (IsClosed id messages)
        (record_activity env user.id ticket_opened Target.ticket s.next_id) (reread s.next_id)
        (record_activity-IsClosed env user.id ticket_opened Target.ticket s.next_id)
        (reread-IsClosed s.next_id) _
        (attach_files-IsClosed (s.next_id + 1) files _
          (create_ticket-IsClosed env user.id subject category priority body s c))

  -- A write to another ticket, or one that leaves the status alone.
  update-IsClosed :
      (p : Ticket → Bool) (f : Ticket → Ticket) (s : Db)
      → ((t : Ticket) → (f t).id ≡ t.id)
      → ((t : Ticket) → p t ≡ true → find_ticket id s ≡ some t → is_closed (f t).status ≡ true)
      → IsClosed id messages s
      → IsClosed id messages (record s { tickets = update_where p f s.tickets })
  unfolding find_ticket messages_of
  update-IsClosed p f s q h c =
      let (t, e, z) = c.row in
      let after_write =
        find_first-update_where (has_ticket_id id) p f s.tickets (λ x. ap (λ n. n == id) (q x)) in
      elim (Bool-cases (p t)) [
        | inl hit ↦ record { row = (f t, ground arith, h t hit e); said = c.said; old = c.old }
        | inr miss ↦ record { row = (t, ground arith, z); said = c.said; old = c.old }
      ]

  add_message-IsClosed :
      (env : Env) (other author_id : ℕ) (body : String) (is_staff : Bool) (s : Db)
      → (other == id) ≡ false
      → IsClosed id messages s
      → IsClosed id messages (add_message env other author_id body is_staff s)
  unfolding add_message messages_of find_ticket
  add_message-IsClosed env other author_id body is_staff s q c =
      let d =
        update-IsClosed (has_ticket_id other) (replied env is_staff) s (λ t. refl)
          (λ t hit e. absurd (ground (arith, find_first_holds (has_ticket_id id) s.tickets e))) c in
      record {
        row = d.row;
        said =
            rw
              (find_many-append (λ m. m.ticket_id == id) s.ticket_messages
                (new_message env s.next_id other author_id body is_staff) q)
              c.said;
        old = ground (arith, c.old);
      }

  other_open :
      (other : ℕ) (t x : Ticket) (s : Db)
      → find_ticket other s ≡ some t
      → find_ticket id s ≡ some x
      → is_closed t.status ≡ false
      → is_closed x.status ≡ true
      → (other == id) ≡ false
  other_open other t x s e f g h = elim (Bool-cases (other == id)) [
    | inl q ↦
        let i : other ≡ id = ground arith in
        let j : find_ticket id s ≡ some t = rw (sym i) e in absurd (ground arith)
    | inr q ↦ q
  ]

  reply-IsClosed :
      (env : Env) (user : User) (other : ℕ) (body : String) (files : List StoredFile)
      → Keeps (IsClosed id messages) (reply env user other body files)
  reply-IsClosed env user other body files s c = elim (reply_cases env user other body files s) [
    | inl (e, r) ↦ rw r c
    | inr (t, there, seen, going, r) ↦ rw r (
        reread-IsClosed other _ (
          attach_files-IsClosed s.next_id files _ (
            add_message-IsClosed env other user.id body (is_admin user.role) s
              (let (x, e, z) = c.row in other_open other t x s there e going z) c)))
  ]

  sets-IsClosed :
      (user : User) (other : ℕ) (status : TicketStatus)
      → is_admin user.role ≡ false
      → Keeps (IsClosed id messages) (ticket_set_status user other status)
  unfolding set_ticket_status
  sets-IsClosed user other status q s c = elim (set_status_cases user other status s) [
    | inl (e, r) ↦ rw r c
    | inr (t, there, seen, closing, r) ↦ rw r (
        reread-IsClosed other _ (
          update-IsClosed (has_ticket_id t.id) (with_ticket_status status) s (λ x. refl)
            (λ x hit e. ground arith) c))
  ]

  ranks-IsClosed :
      (other : ℕ) (priority : TicketPriority)
      → Keeps (IsClosed id messages) (set_priority other priority)
  unfolding set_priority set_ticket_priority
  ranks-IsClosed other priority s c =
      found-after (IsClosed id messages) (find_ticket other s) (not_found ticket_row) _ s c λ t e.
        reread-IsClosed other _ (
          update-IsClosed (has_ticket_id other) (with_ticket_priority priority) s (λ x. refl)
            (λ x hit f. let (t, there, z) = c.row in ground arith) c)

-- A closed ticket stays closed, and nothing is added to its conversation, whatever anybody outside the
-- staff asks for, in any order and at any time.
pub serve-IsClosed :
    (id : ℕ) (messages : List TicketMessage) (rs : List (Env × Request)) (s : Db)
    → All IsOutside rs
    → IsClosed id messages s
    → IsClosed id messages (serve rs s)
unfolding serve step
serve-IsClosed id messages [] s h c = c
serve-IsClosed id messages ((env, opens user subject category priority body files) ∷ rs) s h c =
    serve-IsClosed id messages rs _ h.1
      (open_ticket-IsClosed id messages env user subject category priority body files s c)
serve-IsClosed id messages ((env, replies user other body files) ∷ rs) s h c =
    serve-IsClosed id messages rs _ h.1 (reply-IsClosed id messages env user other body files s c)
serve-IsClosed id messages ((env, sets user other status) ∷ rs) s h c =
    serve-IsClosed id messages rs _ h.1 (sets-IsClosed id messages user other status h.0 s c)
serve-IsClosed id messages ((env, ranks other priority) ∷ rs) s h c =
    serve-IsClosed id messages rs _ h.1 (ranks-IsClosed id messages other priority s c)
