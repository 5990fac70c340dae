-- ===== src/Lib.antt =====
-- EventNow: the selling of tickets, from the hold on the stock to the door of the event; the requests,
-- shared lists and polls of community events; and what users do to one another: follows, invitations to
-- the staff, reviews, reports and bans. The services are those of the backend (TypeScript,
-- NestJS) over a PostgreSQL database that they reach through Prisma.
--
-- The parts and the files.
--
--   Prelude, Prelude/        Boolean tests and conditionals on the native numbers, lists, signed
--                            amounts, and `Outcome`, the result of a handler: a value or an
--                            exception, each with the state that is left. `transaction` rolls back.
--                            Double: the doubles of JavaScript. Sorted: what `orderBy` promises.
--   Prisma, Prisma/          The Prisma client as a parameter: tables with the operations that the
--                            services use and laws on them, none of which speaks of an order of the
--                            records but that of `orderBy`. Prisma/Rows is an instance in memory in
--                            which the laws hold; Prisma/Laws draws consequences.
--   Http                     The exceptions of NestJS that the services throw, the messages as values.
--   Database                 backend/prisma/schema.prisma: the rows, the whole database as a record of
--                            tables, and `create`, `update` and so on for one table.
--   Redis, Redis/            backend/src/redis/redis.service.ts: acquireLock, releaseLock, withLock.
--                            A client with keys that have a time to live is a parameter.
--                            Tokens: the blacklist of tokens and the codes of OAuth.
--   Bookings, Bookings/      backend/src/bookings/bookings.service.ts. Calls: when each call returns
--                            and what it leaves. Stock: the balance of stock and holds. Expiry: the
--                            clean-up of overdue holds.
--   PromoCodes, PromoCodes/  backend/src/promo-codes/promo-codes.service.ts. Amounts: the discount.
--                            Uses: validation, limits, deletion.
--   Payment, Payment/        backend/src/payment/payment.service.ts, with Stripe as a parameter.
--   QrCode, QrCode/          generateQRCode of backend/src/orders/orders.service.ts and
--                            normalizeQrCodeInput of backend/src/tickets/tickets.service.ts.
--   Orders, Orders/          backend/src/orders/orders.service.ts. Orders: initiatePayment and
--                            confirmPayment; Orders/Confirm: their effect. Orders/Refunds: a refund is
--                            asked for, approved or rejected; its Lifecycle: the states of an order.
--                            Orders/Webhook: Stripe's events.
--   Events, Events/          backend/src/events/events.service.ts: create, cancelEvent, suspendEvent.
--                            Creation: create. Cancel: the parts of cancelEvent. Closed: the call and
--                            bookings after it. Stock: the balance of the stock.
--   Sales                    The calls of Bookings, Orders and Events that move the stock, in any
--                            order.
--   Tickets, Tickets/        backend/src/tickets/tickets.service.ts. Validate: staff at the door, and
--                            refunds that were asked for. Reading: lists and the clean-up of staff
--                            assignments.
--   Participants             The access check that the shared lists and the polls of a community event
--                            have in common.
--   EventItems, EventItems/  backend/src/event-items/event-items.service.ts. Claims: who brings what.
--   Polls, Polls/            backend/src/polls/polls.service.ts. Votes: the rows that a call adds.
--                            Cases: what each call makes of the tables. Sound: what holds of the
--                            votes. Calls: the calls one after the other.
--   Follows, Follows/        backend/src/follows/follows.service.ts. Friends: mutual follows and the
--                            flags of a list. Pairs, Calls: the calls against a relation on users.
--   Notifications,           backend/src/notifications/notifications.service.ts. Counts: the number of
--   Notifications/           unread ones.
--   Messages, Messages/      backend/src/messages/messages.service.ts. Creation: how
--                            conversations come about. Members: who may use one. Unread: the counts
--                            of a user's list.
--   StaffInvitations,        backend/src/staff-invitations/staff-invitations.service.ts. Cases: the
--   StaffInvitations/        effect of a call as a relation. Lifecycle: the states of an invitation.
--   Reviews, Reviews/        backend/src/reviews/reviews.service.ts. Access: who may review. Lists:
--                            pages and masked addresses.
--   ParticipantReviews,      backend/src/participant-reviews/participant-reviews.service.ts. Access:
--   ParticipantReviews/      who reviews whom.
--   Reports, Reports/        backend/src/reports/reports.service.ts. Targets: what a report is about.
--   Users, Users/            backend/src/users/users.service.ts. Bans.
--   ParticipationRequests,   backend/src/participation-requests/participation-requests.service.ts.
--   ParticipationRequests/   Places: free places against accepted requests.
--   Tests, and Tests below a part: a small database in memory and the theorems applied to it.
--
-- How the parts interact. A booking lowers `current_stock` and holds places; Orders turns a pending
-- booking into an order with tickets, after Payment has opened a payment and PromoCodes has said what
-- is due; Tickets validates the tickets of paid orders; the refund calls of Orders ask Payment to give
-- the money back and return the places. An accepted invitation of StaffInvitations makes the assignment
-- to the staff that Tickets asks for; a validated ticket, or an accepted request of
-- ParticipationRequests, lets its user write a review. Orders, ParticipationRequests, Follows and
-- StaffInvitations leave records that Notifications reads; Messages does too, and it opens the
-- conversation of an event to the users whom ParticipationRequests has accepted. Events cancels an
-- event: it asks Payment for the money, releases the holds of Bookings and closes the sale.
--
-- How the code corresponds to the model. A method `createBooking` is `create_booking`; a DTO is a
-- record of its name. A handler takes the database and returns an `Outcome`; a step that throws
-- outside a transaction leaves what was written before it. The clock is an argument: one call reads
-- one time. What runs beside a callback under a lock is a part of the callback. Identifiers are
-- numbers instead of UUIDs, times are milliseconds, money is in cents (signed where the code can make
-- it negative), a percentage is in hundredths of a percent. Discounts are computed in doubles, as in
-- the source; a price times a quantity without a promo code is the exact number of cents, which is
-- what the column of the order stores for amounts of this size. A relation that the schema requires is
-- a look-up that throws Prisma's error if it fails. A code on a ticket is a list of code points.
--
-- Fuel. Loops are recursions on lists or counts. The decimal digits of a number n are written with
-- fuel n + 1, which is enough because every digit divides the number by ten. The scale of a double is
-- looked for up to 2200, which is enough because the products of two doubles that occur, of numbers
-- with two decimals and their quotients by 100, are above 2^-2100 or 0. Doubles of 2^53 and more do
-- not occur. The average of the ratings is rounded from the exact fraction, in tenths.
--
-- What is not modelled: mail, sockets, PDF, logs, the shape of JSON answers; two calls in the middle
-- of each other inside one transaction; the searches, the update and the removal of events;
-- authentication, the dashboard and the frontend.
pub mod Prelude
pub mod Prisma
pub mod Http
pub mod Database
pub mod Bookings
pub mod Redis
pub mod PromoCodes
pub mod Participants
pub mod Notifications
pub mod Follows
pub mod StaffInvitations
pub mod Reviews
pub mod ParticipantReviews
pub mod Reports
pub mod Messages
pub mod Users
pub mod Payment
pub mod Polls
pub mod QrCode
pub mod Orders
pub mod Sales
pub mod Tickets
pub mod EventItems
pub mod Events
pub mod ParticipationRequests
pub mod Tests
