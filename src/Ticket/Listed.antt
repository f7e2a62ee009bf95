-- ===== src/Ticket/Listed.antt =====
-- The order of the queue and of the conversation, of backend/src/modules/ticket/ticket.repository.js.
use havale_khodro.Ticket.{insert_by_time, by_time, may_read}
use havale_khodro.Ticket.Queue.{
  insert_newest_reply, newest_reply_first, first_tickets, in_queue, list_tickets, queue_length,
}
use havale_khodro.Prelude.{
  leb, if◌then◌else◌, Bool-cases, All-find_many, find_first, All, ℕ, zero, suc, ◌≤◌, ◌<◌, ◌≡◌, refl,
  ap, inl, inr, Bool, true, Option, some, List, [], ◌∷◌, ◌++◌, arith, All-found, All-weaken,
  find_many, find_first_holds,
}
use havale_khodro.Schema.Entities.{Ticket, User, TicketMessage, Db}
use havale_khodro.Schema.Enums.{TicketStatus, TicketCategory}
use havale_khodro.Roles.{is_admin}

All-insert_newest_reply :
    (P : Ticket → Type 0) (t : Ticket) (ts : List Ticket)
    → P t
    → All P ts
    → All P (insert_newest_reply t ts)
unfolding insert_newest_reply
All-insert_newest_reply P t [] p h = (p, tt)
All-insert_newest_reply P t (x ∷ xs) p h = elim (Bool-cases (leb x.last_reply_at t.last_reply_at)) [
  | inl e ↦ rw e (p, h)
  | inr e ↦ rw e (h.0, All-insert_newest_reply P t xs p h.1)
]

All-newest_reply_first :
    (P : Ticket → Type 0) (ts : List Ticket) → All P ts → All P (newest_reply_first ts)
unfolding newest_reply_first
All-newest_reply_first P [] h = tt
All-newest_reply_first P (t ∷ ts) h =
    All-insert_newest_reply P t (newest_reply_first ts) h.0 (All-newest_reply_first P ts h.1)

All-first_tickets :
    (P : Ticket → Type 0) (n : ℕ) (ts : List Ticket) → All P ts → All P (first_tickets n ts)
unfolding first_tickets
All-first_tickets P zero ts h = tt
All-first_tickets P (suc n) [] h = tt
All-first_tickets P (suc n) (t ∷ ts) h = (h.0, All-first_tickets P n ts h.1)

in_queue-may_read :
    (user : User) (status : Option TicketStatus) (category : Option TicketCategory) (t : Ticket)
    → in_queue user status category t ≡ true
    → may_read user t ≡ true
unfolding may_read in_queue is_admin
in_queue-may_read user status category t h = elim (Bool-cases (is_admin user.role)) [
  | inl a ↦ rw a refl
  | inr a ↦ ground (arith, a)
]

pub list_tickets-may_read :
    (user : User) (status : Option TicketStatus) (category : Option TicketCategory) (s : Db)
    → All (λ t. may_read user t ≡ true) (list_tickets user status category s)
unfolding list_tickets
list_tickets-may_read user status category s =
    let P : Ticket → Type 0 = λ t. may_read user t ≡ true in
    let rows = find_many (in_queue user status category) s.tickets in
    let kept : All P rows =
      All-find_many (in_queue user status category) (may_read user) s.tickets
        (in_queue-may_read user status category) in
    All-first_tickets P queue_length (newest_reply_first rows) (All-newest_reply_first P rows kept)

insert_front :
    (t : Ticket) (ts : List Ticket)
    → All (λ x. x.last_reply_at ≤ t.last_reply_at) ts
    → insert_newest_reply t ts ≡ t ∷ ts
unfolding insert_newest_reply
insert_front t [] h = refl
insert_front t (x ∷ xs) h = let first = h.0 in ground arith

-- A row that passes was replied to at the moment, and any other before it.
abbrev pub IsDated : (Ticket → Bool) → ℕ → Ticket → Type 0
IsDated p now t = if p t then t.last_reply_at ≡ now else t.last_reply_at < now

dated_le : (p : Ticket → Bool) (now : ℕ) (t : Ticket) → IsDated p now t → t.last_reply_at ≤ now
dated_le p now t h = elim (Bool-cases (p t)) [
  | inl q ↦ let e : t.last_reply_at ≡ now = rw q at h in omega arith
  | inr q ↦ let e : t.last_reply_at < now = rw q at h in omega arith
]

-- The row that was replied to last is the first.
pub newest_reply_first-head :
    (p : Ticket → Bool) (now : ℕ) (ts : List Ticket) (r : Ticket)
    → All (IsDated p now) ts
    → find_first p ts ≡ some r
    → (rest : List Ticket) × (newest_reply_first ts ≡ r ∷ rest)
unfolding newest_reply_first find_first insert_newest_reply
newest_reply_first-head p now [] r h e = absurd (ground arith)
newest_reply_first-head p now (t ∷ ts) r h e = elim (Bool-cases (p t)) [
  | inl q ↦
      let i : t ≡ r = ground arith in
      let mine : t.last_reply_at ≡ now = rw q at h.0 in
      let below : All (λ x. x.last_reply_at ≤ t.last_reply_at) ts =
        All-weaken (IsDated p now) (λ x. x.last_reply_at ≤ t.last_reply_at) ts
          (λ x k. let le = dated_le p now x k in omega arith) h.1 in
      (
        newest_reply_first ts,
        rw (← i) (
            insert_front t (newest_reply_first ts)
              (All-newest_reply_first (λ x. x.last_reply_at ≤ t.last_reply_at) ts below)),
      )
  | inr q ↦
      let there : find_first p ts ≡ some r = rw q at e in
      let mine : t.last_reply_at < now = rw q at h.0 in
      let hit : p r ≡ true = find_first_holds p ts there in
      let last : r.last_reply_at ≡ now = rw hit at (All-found (IsDated p now) p ts r h.1 there) in
      let (rest, sorted) = newest_reply_first-head p now ts r h.1 there in
      (insert_newest_reply t rest, rw sorted (ground arith))
]

insert_by_time-snoc :
    (m a : TicketMessage) (ms : List TicketMessage)
    → m.created_at ≤ a.created_at
    → insert_by_time m (ms ++ a ∷ []) ≡ insert_by_time m ms ++ a ∷ []
unfolding insert_by_time
insert_by_time-snoc m a [] h = ground arith
insert_by_time-snoc m a (x ∷ xs) h = elim (Bool-cases (leb m.created_at x.created_at)) [
  | inl q ↦ rw q refl
  | inr q ↦ rw q (ap (λ r. x ∷ r) (insert_by_time-snoc m a xs h))
]

-- What is said after everything else stands last.
pub by_time-snoc :
    (ms : List TicketMessage) (a : TicketMessage)
    → All (λ m. m.created_at ≤ a.created_at) ms
    → by_time (ms ++ a ∷ []) ≡ by_time ms ++ a ∷ []
unfolding by_time
by_time-snoc [] a h = refl
by_time-snoc (m ∷ ms) a h = rw (by_time-snoc ms a h.1) (insert_by_time-snoc m a (by_time ms) h.0)
