-- ===== src/Lib.antt =====
-- A model of the shop's API: orders, donations, raffles, payments and the workers that move them, with
-- the theorems that hold of it. Paths are from the root of the repository.
--
-- The parts and how they interact. Accounts and their sessions stand alone; a route knows its caller by
-- the claims of an access token. The routes and the checkout write orders and donations as pending;
-- the providers tell what was paid, expired or refunded through webhooks, which the webhook processor
-- hands to the payment routing, and this to the repository of the order or of the donation; the
-- repositories put notices and transfers into the outbox, and the relay of the outbox sends them, and
-- gives a paid donation its numbers in a raffle. Files and what they model:
--
--   Prelude, Errors          tests, lists, integers; src/shared/errors.ts and code that throws
--   Schema                   prisma/schema.prisma: enums, rows, and the database `Db` with `enqueue`
--   Table                    the calls of the Prisma client, with their laws (Laws, Keys, Every)
--   Shelf                    the reservation and the restocking of orders.repository.ts
--   Orders                   src/http/api/orders/orders.repository.ts, with Refunds; Ops: any history
--   Checkout, Offers         orders/checkout/checkout.service.ts, and the offers of events.repository.ts
--   Donations                src/http/api/donations/donations.repository.ts; Renewals: its monthly cycles
--   Giving                   src/http/api/donations/create-donation/create-donation.service.ts
--   Campaigns                src/http/api/campaigns: its repository, and the routes that write
--   Accounts                 src/http/api/auth, and src/lib/guest-identity.ts (Guests): accounts, their
--                            sessions (Tokens) and the services on them (Login), with Ops: any history
--   Team                     src/http/api/stores/team: members and invitations of a store
--   Permissions              src/shared/permissions.ts and src/http/hooks: personas and roles
--   OrderRoutes              src/http/api/orders: cancelling, delivering and refunding by a store
--   Expiry                   src/workers/expire-reservations.ts and expire-donations.ts
--   RaffleWindow             src/http/api/raffles/raffle-window.ts
--   Raffles, Grants          src/http/api/raffles/raffles.repository.ts: raffles and their draw (Drawing),
--                            and the numbers of a donation
--   Draw                     src/http/api/raffles/draw.ts
--   Routing, Webhooks        src/workers/payment-routing.ts and webhook-processor.ts
--   Billing, Verification    src/workers/billing-webhook.ts with billing.repository.ts, and
--                            src/workers/pix-key-verification.ts
--   Outbox, Interests        src/workers/outbox-relay.ts, src/http/api/interests/interests.repository.ts
--   TaxId, Payouts, Paging   src/lib/pix-key-owner.ts; payouts.helpers.ts, src/lib/provider-fee.ts and
--                            src/lib/store-payments.ts; src/lib/cursor.ts
--   Examples, Orders.Tests   the theorems at concrete inputs
--
-- A function of the source has its name in snake case. A method of a repository takes the time of the
-- call, where it reads a clock, and the database, and returns its value with the database that it
-- leaves. A transaction that throws leaves the database as it was (`transaction`); outside of one, what
-- was written before stays (`Effects`). `updateMany` with its guard is `update_many`, and its count is
-- `count_where`: the guarded updates are what the theorems on repeated and concurrent calls rest on.
-- Calls are one after another; each of the code's transactions is one step, and histories are lists of
-- steps in any order.
--
-- Choices. Tables are lists in creation order. Identifiers are numbers that are drawn from a counter
-- where the database draws a UUID; names and other texts that the code only stores and compares are
-- numbers, with 0 for the empty text, which the code takes as absent; documents are lists of character
-- codes. Money is in cents, natural or signed, without a bound; times are milliseconds. An order holds
-- its lines, where the database joins them; checking in at the door, which writes a line, is not one of
-- the operations. The update of an order or a payment sets its `updated_at`, as Prisma does. The numbers of a donation need a positive price of a number, which the routes ask for.
--
-- Parameters: the hash of the draw, the gateways of the relay, of the checkout, of the donations and of
-- the refunds, the check of an access token, the hashes of tokens and passwords, what Google answers,
-- and the label that an order line gets of its batch. No function needs fuel: the loops go over the
-- rows that were read.
--
-- Not modelled: what the messages say, logs, the lists and the shapes of responses, the text form of
-- cursors, cookies, stores, products and categories, uploads, the clients of the providers and the timers.
pub mod Table
pub mod Shelf
pub mod Orders
pub mod Donations
pub mod Draw
pub mod RaffleWindow
pub mod Raffles
pub mod Routing
pub mod Grants
pub mod Interests
pub mod Outbox
pub mod Billing
pub mod Verification
pub mod Webhooks
pub mod Offers
pub mod Checkout
pub mod Paging
pub mod Prelude
pub mod Errors
pub mod TaxId
pub mod Payouts
pub mod Schema
pub mod Expiry
pub mod Campaigns
pub mod Giving
pub mod Permissions
pub mod Accounts
pub mod Team
pub mod OrderRoutes
pub mod Examples
