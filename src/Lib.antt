-- ===== src/Lib.antt =====
-- The backend of a marketplace on which car agencies trade sale orders (havale), factory
-- registrations and cars: backend/src, over the tables of backend/prisma/schema.prisma; and of the panel
-- the arithmetic of its calendar. Paths below are under backend/src unless they begin with backend/ or
-- frontend/.
--
-- The parts and how they interact. A request carries an account; the middleware resolves what the
-- account is entitled to (Subscription.Entitlement, Access) and the services act on the database.
-- Contacts of a listing are shown by one service for every market, which counts and charges
-- (Reveal); who sees a listing that is for a network only is decided in one place (Network);
-- reports against listings lead to strikes against their owners or their reporters (Report);
-- resellers buy capacity for sub-agencies (Subscription.Seats), open them
-- (SubAgents), suspend and reactivate them and divide their brands among them (Brands); what staff
-- may do is a table (Roles). Accounts sign in and hold sessions (SignIn), write to the staff (Ticket), and what looks like an attack is counted, recorded and blocked (Security).
--
-- Schema: the enumerations and the rows (backend/prisma/schema.prisma). A table is a list of rows, an
-- identifier a number, a time a number of milliseconds since the epoch, and `Db` is all the tables.
-- Exec: a handler is a function from the database to a result, or an error of errors/AppError.js,
-- with the database that it leaves; a transaction (utils/serialize.js and prisma.$transaction) rolls
-- back when it throws. One request reads the clock once: `new Date()` is `now` of `Env`, which also
-- holds the offset of the Tehran clock, how the runtime writes a date, and the Persian wording of
-- notes. The offset is the time-zone database's, and an argument.
-- Roles: constants/roles.js. Time: utils/time.js. Activity: recordActivity of
-- modules/auth/auth.repository.js. Access: middlewares/access.js.
-- Reveal: modules/listing/reveal.service.js and reveal.dto.js (`reveal`, `usageFor`, `record`), with
-- Charging, Ledger and Allowance about them.
-- Network: modules/listing/network.js (`visibilityClause`, `mayView`, `resolveVisibility`).
-- Subscription: modules/subscription. Store is the repository, Entitlement `resolveAccess` and
-- `latestPeriodStart`, Grants `grant`, `setExpiry`, `cancelFor` and `issueSeatSubscription`, Seats
-- the orders of capacity and `seatSummary`; Periods, Renewal, Inheritance, Credits, Overlaps and Capacity are
-- about them.
-- Report: modules/report. Store is the repository, Filing `create`, Review `review`, `confirm`,
-- `markAbusive`, `hold` and `approveSuspension`; Limits, Verdicts, Tally, Waiting,
-- Histories and Overlaps are about them. A text message is a row of the outbox, and the reason that the table cannot hold fails as
-- the database would.
-- Havale: modules/havale. Store is the repository, Lifecycle `renew`, `markFulfilled` and `remove`,
-- Cards havale.dto.js, Browsing `publicWhere`, Pages `list` by numbered pages, Scrolling `list` by
-- cursor, Opening `getById`; Confidence, Ownership, Listed, Walking, Order and Stretches are about them.
-- Brands: modules/catalog/brandAccess.service.js, with Ceiling about it. SubAgents: `setStatus` of
-- modules/subagent, with Seating about it; Creation `create`, `setBrands` and `resetPassword`, with
-- Room about it.
-- SignIn: modules/auth/auth.service.js and its queries; Tokens, Lockout, Guesses, Single, Sessions and
-- Histories are about it. Hashing and the life of a session are the arguments in `Keyring`.
-- Ticket: modules/ticket; Secrecy, Queue, Listed, Replies and Flow are about it.
-- Security.Counters: modules/security/counters.js, a capped map of hits by key, with Bounds, Windows and
-- Refinement about it. Security.Events: security.service.js, its rows of events and blocks, the
-- cooldown of `send` of modules/alert/telegram.js (whose channel is taken as configured), and the door
-- of middlewares/blockedIp.js, with Alarms and Door about it. Security.Threats: the counting of failed
-- sign-ins in middlewares/threatDetect.js.
-- TextGuard: utils/textGuard.js on lists of code units, `normalise` and `looksLikePhone`, and in Rules the other
-- rules with `inspect` and `assertClean`; Marks, Words, Runs, Detection and Refusals are about them.
-- Jalali: frontend/src/ui/jalali.js, from a Persian date to a day; Calendar states what the calendar of the
-- runtime gives, and Passes, RoundTrip, Missing and Lengths are about it.
-- Examples: concrete databases, runs, and the theorems at them.
--
-- A request is one action on the database, and a history is a list of requests, each finished before
-- the next begins. Reveals, the filing of reports and the creation of sub-agencies take an advisory lock
-- (utils/serialize.js), which makes the requests of one key follow one another. The other handlers take
-- no lock: in particular the verdicts on reports, the decisions on orders of seats and the sign-ins check
-- before they write and outside the transaction. Reviews of reports and of orders are therefore also
-- modelled in two steps, between which other requests are served (Report.Overlaps,
-- Subscription.Overlaps); Examples.Reports and Examples.Seats run two reviews of one row that overlap,
-- and both take effect. What is said of histories of sign-ins is for requests that do not overlap.
-- Prisma's queries stand as filters over lists:
-- `findFirst` is the first row that passes, `count` the number, `updateMany` a map. A row that was
-- read in a request is still there when the request writes it: the only rows that the modelled code
-- deletes are the grants of an account whose grants the request has not read and the blocks of an
-- address. What the process keeps in memory between requests, its counters of hits, stands in `Db` beside
-- the tables. A text that is only compared (a user name, an address, a hash) is a number.
-- Every definition is structural. The one loop with a bound, the search of a day in Jalali, runs on the
-- bound of the source, 8 passes, of which three are enough.
--
-- Not modelled: HTTP routing, validation schemas, rate limits, the patterns by which the payload of a
-- request is found to be an attack, the creation and editing of listings and the masking of stored texts, the
-- markets of registrations and cars, the catalogue, the price import, administration and monitoring,
-- the numbering of sub-agencies (`nextAgencyCode`, whose code `create` takes), uploads, the views of the panel (frontend), deployment scripts; of the activity log the address,
-- device, summary and differences; of a card of the list the columns that every viewer sees.
pub mod Prelude
pub mod Schema
pub mod Exec
pub mod Roles
pub mod Time
pub mod Access
pub mod Activity
pub mod Reveal
pub mod Jalali
pub mod Network
pub mod Subscription
pub mod Report
pub mod Havale
pub mod Security
pub mod SignIn
pub mod SubAgents
pub mod TextGuard
pub mod Ticket
pub mod Brands
pub mod Examples
