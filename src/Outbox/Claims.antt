-- ===== src/Outbox/Claims.antt =====
-- Claims of two ticks of the relay (src/workers/outbox-relay.ts).
use udv_shop_api.Prelude.{
  ℕ, ◌+◌, ◌≤◌, ◌≡◌, ◌≢◌, refl, ap, Bool, true, false, some, List, [], ◌∷◌, inl, inr, arith,
  Bool-cases, Option-cases, ltb, All, &&-right, sym, ◌∙◌,
}
use udv_shop_api.Schema.{OutboxEvent, Db}
use udv_shop_api.Table.{update_many, find_many}
use udv_shop_api.Table.Every.{All-intro, All-map, All-find_many}
use udv_shop_api.Outbox.{
  is_abandoned, give_back, reap, is_candidate, is_stale, set_claimed, is_held, claim,
  stale_claim_ms,
}

-- The events that a tick has under its token.
abbrev pub held_by : ℕ → Db → List OutboxEvent
held_by token db = find_many (is_held token) db.outbox

-- The claims of a token that are there were made at a time.
abbrev pub ClaimedAt : ℕ → ℕ → OutboxEvent → Type 0
ClaimedAt token at e = is_held token e ≡ true → e.claimed_at ≡ some at

-- An update that touches no event of the token and gives it none leaves it what it has.
held-update :
    (token : ℕ) (p : OutboxEvent → Bool) (f : OutboxEvent → OutboxEvent) (es : List OutboxEvent)
    → All (λ e. p e ≡ true → (is_held token e ≡ false) × (is_held token (f e) ≡ false)) es
    → find_many (is_held token) (update_many p f es) ≡ find_many (is_held token) es
unfolding update_many find_many
held-update token p f [] h = refl
held-update token p f (e ∷ es) (k, h) = elim (Bool-cases (p e)) [
  | inl t ↦ rw (t, (k t).1, (k t).0) (held-update token p f es h)
  | inr t ↦ rw (t, held-update token p f es h) refl
]

fresh : (at now : ℕ) → now ≤ at + stale_claim_ms → ltb (at + stale_claim_ms) now ≢ true
fresh at now h = ground arith

-- A claim that is not stale is not given back.
reap-held :
    (token at now : ℕ) (e : OutboxEvent)
    → now ≤ at + stale_claim_ms
    → ClaimedAt token at e
    → is_abandoned now e ≡ true
    → (is_held token e ≡ false) × (is_held token (give_back e) ≡ false)
reap-held token at now e h c a = (
  elim (Bool-cases (is_held token e)) [
    | inr out ↦ out
    | inl held ↦
        let stale : is_stale now e.claimed_at ≡ true = &&-right _ _ a in
        absurd (fresh at now h (sym (ap (is_stale now) (c held)) ∙ stale))
  ],
  refl,
)

claim-held :
    (ids : List ℕ) (token other now : ℕ) (e : OutboxEvent)
    → token ≢ other
    → is_candidate ids e ≡ true
    → (is_held token e ≡ false) × (is_held token (set_claimed other now e) ≡ false)
claim-held ids token other now e n c = (ground arith, ground arith)

other-held :
    (token other : ℕ) (e : OutboxEvent)
    → token ≢ other
    → is_held other e ≡ true
    → is_held token e ≡ false
other-held token other e n h = elim (Option-cases e.claimed_by) [
  | inl z ↦ ground arith
  | inr (t, z) ↦ ground arith
]

-- While the claims of a tick are not older than five minutes, another tick neither gives them back nor
-- takes them: under the first one's token stand the same events, and none of these is among the
-- events that the second one works on.
pub claim-exclusive :
    (ids : List ℕ) (token other at now : ℕ) (db : Db)
    → token ≢ other
    → now ≤ at + stale_claim_ms
    → All (ClaimedAt token at) db.outbox
    → (held_by token (claim ids other now (reap now db)).1 ≡ held_by token db)
      × All (λ e. is_held token e ≡ false) (claim ids other now (reap now db)).0
unfolding claim reap
claim-exclusive ids token other at now db n h c = (
  held-update token (is_candidate ids) (set_claimed other now) (reap now db).outbox
        (All-intro _ (reap now db).outbox (λ e. claim-held ids token other now e n))
      ∙ held-update token (is_abandoned now) give_back db.outbox
          (All-map (ClaimedAt token at) _ db.outbox (λ e k. reap-held token at now e h k) c),
  All-find_many (λ e. Unit {0}) _ _ _ (λ e t u. other-held token other e n (&&-right _ _ t))
      (All-intro (λ e. Unit {0}) _ (λ e. tt)),
)
