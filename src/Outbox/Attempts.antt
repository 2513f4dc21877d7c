-- ===== src/Outbox/Attempts.antt =====
-- The attempts of an outbox event (src/workers/outbox-relay.ts).
use udv_shop_api.Prelude.{
  ℕ, suc, ◌≤◌, ◌≡◌, true, ◌&&◌, none, some, List, [], ◌∷◌, ◌==◌, inl, inr, arith, Bool-cases, leb,
  any, All, &&-left, &&-right,
}
use udv_shop_api.Errors.{Effects}
use udv_shop_api.Schema.{OutboxStatus, outbox_is, OutboxEvent, Db}
use udv_shop_api.Table.Every.{All-update_many, All-update_first, All-find_many}
use udv_shop_api.Outbox.Handlers.{handle-outbox}
use udv_shop_api.Outbox.{
  max_attempts, give_back, reap, candidates, is_candidate, set_claimed, is_held, claim,
  set_event_done, set_event_failed, settle_event, process_each, relay_candidates, relay_outbox,
  Gateways, handle,
}

-- How often an event in a status was tried: five times if it failed for good, less if it will be
-- tried again.
abbrev pub TriedAs : OutboxStatus → ℕ → Type 0
TriedAs OutboxStatus.pending n = suc n ≤ max_attempts
TriedAs OutboxStatus.processing n = suc n ≤ max_attempts
TriedAs OutboxStatus.processed n = n ≤ max_attempts
TriedAs OutboxStatus.failed n = n ≡ max_attempts

abbrev pub IsTried : OutboxEvent → Type 0
IsTried e = TriedAs e.status e.attempts

processing-left :
    (status : OutboxStatus) (n : ℕ)
    → outbox_is OutboxStatus.processing status ≡ true
    → TriedAs status n
    → suc n ≤ max_attempts
processing-left OutboxStatus.pending n h t = t
processing-left OutboxStatus.processing n h t = t
processing-left OutboxStatus.processed n h t = ground arith
processing-left OutboxStatus.failed n h t = ground arith

pending-left :
    (status : OutboxStatus) (n : ℕ)
    → outbox_is OutboxStatus.pending status ≡ true
    → TriedAs status n
    → suc n ≤ max_attempts
pending-left OutboxStatus.pending n h t = t
pending-left OutboxStatus.processing n h t = t
pending-left OutboxStatus.processed n h t = ground arith
pending-left OutboxStatus.failed n h t = ground arith

at-most : (status : OutboxStatus) (n : ℕ) → TriedAs status n → n ≤ max_attempts
at-most OutboxStatus.pending n t = omega arith
at-most OutboxStatus.processing n t = omega arith
at-most OutboxStatus.processed n t = t
at-most OutboxStatus.failed n t = omega arith

abbrev HasLeft : OutboxEvent → Type 0
HasLeft e = suc e.attempts ≤ max_attempts

failed-IsTried : (seen e : OutboxEvent) → HasLeft seen → IsTried (set_event_failed seen e)
failed-IsTried seen e h = elim (Bool-cases (leb max_attempts (suc seen.attempts))) [
  | inl t ↦ rw t (ground arith)
  | inr t ↦ rw t (ground arith)
]

abbrev AllTried : Db → Type 0
AllTried db = All IsTried db.outbox

settle-AllTried :
    (e : OutboxEvent) (now : ℕ) (r : Effects Db)
    → HasLeft e
    → AllTried r.1
    → AllTried (settle_event e now r).1
settle-AllTried e now (none, db) h a =
    All-update_first IsTried _ (set_event_done now) db.outbox (λ r t. at-most r.status r.attempts t)
      a
settle-AllTried e now (some error, db) h a =
    All-update_first IsTried _ (set_event_failed e) db.outbox (λ r t. failed-IsTried e r h) a

reap-AllTried : (now : ℕ) (db : Db) → AllTried db → AllTried (reap now db)
unfolding reap
reap-AllTried now db a =
    All-update_many IsTried _ give_back db.outbox
      (λ e h t. processing-left e.status e.attempts (&&-left _ _ h) t) a

claim-AllTried :
    (ids : List ℕ) (token now : ℕ) (db : Db)
    → AllTried db
    → All HasLeft (claim ids token now db).0 × AllTried (claim ids token now db).1
unfolding claim
claim-AllTried ids token now db a =
    let claimed =
      All-update_many IsTried (is_candidate ids) (set_claimed token now) db.outbox
        (λ e h t. pending-left e.status e.attempts (&&-right _ _ h) t) a in
    (
      All-find_many IsTried HasLeft (λ e. any (λ id. e.id == id) ids && is_held token e) _
          (λ e h t. processing-left e.status e.attempts (&&-left _ _ (&&-right _ _ h)) t) claimed,
      claimed,
    )

process_each-AllTried :
    (g : Gateways) (now : ℕ) (es : List OutboxEvent) (db : Db)
    → All HasLeft es
    → AllTried db
    → AllTried (process_each g now es db).1
unfolding process_each
process_each-AllTried g now [] db h a = a
process_each-AllTried g now (e ∷ es) db (left, h) a =
    process_each-AllTried g now es (settle_event e now (handle g e.payload now db)).1 h (
      settle-AllTried e now (handle g e.payload now db) left
        (rw (handle-outbox g e.payload now db) a))

relay_candidates-AllTried :
    (ids : List ℕ) (g : Gateways) (now : ℕ) (db : Db)
    → AllTried db
    → AllTried (relay_candidates ids g now db).1
unfolding relay_candidates
relay_candidates-AllTried [] g now db a = a
relay_candidates-AllTried (id ∷ ids) g now db a =
    let drawn = record db { next_id = suc db.next_id } in
    let (events, claimed) = claim (id ∷ ids) db.next_id now drawn in
    let (left, tried) = claim-AllTried (id ∷ ids) db.next_id now drawn a in
    process_each-AllTried g now events claimed left tried

-- Over a tick of the relay, whatever the gateways answer, by the failed tries that the events count: an
-- event has five at most, one that failed for good has exactly five, and one that waits or is claimed
-- has fewer. (A claim that a worker never came back from is not counted.)
pub relay_outbox-IsTried :
    (g : Gateways) (now : ℕ) (db : Db)
    → All IsTried db.outbox
    → All IsTried (relay_outbox g now db).1.outbox
unfolding relay_outbox
relay_outbox-IsTried g now db a =
    relay_candidates-AllTried (candidates (reap now db)) g now (reap now db)
      (reap-AllTried now db a)
