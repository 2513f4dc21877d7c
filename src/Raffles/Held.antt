-- ===== src/Raffles/Held.antt =====
-- Who holds which number, over a history of the raffle operations (raffles.repository.ts).
use mathlib.Core.Path.{subst}
use udv_shop_api.Prelude.{
  ℕ, ◌≤◌, ◌≡◌, refl, ==_iff, Bool, true, ◌==◌, ◌&&◌, none, some, Option, List, [], ◌∷◌, inl, inr,
  arith, Bool-cases, Option-cases, sum_of-append, if◌then◌else◌, is_none,
}
use udv_shop_api.Errors.{ok, ◌>>=◌, OnOk, OnOk-intro, transaction-OnOk}
use udv_shop_api.Orders.{set_payment_status}
use udv_shop_api.Orders.Refunds.{is_refundable}
use udv_shop_api.Schema.{Payment, PaymentStatus, Raffle, RaffleEntry, RaffleStatus, raffle_is, Db}
use udv_shop_api.Table.{delete_many, find_many}
use udv_shop_api.Table.Laws.{sum_of-update_many}
use udv_shop_api.Table.Keys.{update_key, count_key, find_key}
use udv_shop_api.Donations.{refund_donation, refund_donation_of, free_donation, in_open_raffle}
use udv_shop_api.Grants.{grant_numbers_for_donation, is_open}
use udv_shop_api.Raffles.{
  RaffleConfig, RaffleChange, reopen, create_raffle, update_config, set_status, set_status_of,
  open_status, configure, cancel_raffle, reopen_raffle, write_config, insert_raffle, new_raffle,
  window_of, next_sequence, cancel_status,
}
use udv_shop_api.Raffles.Drawing.{draw, claim_draw, set_drawn, close_window}
use udv_shop_api.Raffles.Ops.{RaffleOp, create, update, change, grant, refund, perform, step, run}
use udv_shop_api.Raffles.Narrowing.{raffle_id_of, draw-ok}
use udv_shop_api.Raffles.Windows.{assert_window_free-cases, own_window}
use udv_shop_api.Raffles.Apart.{IsApart, find_raffle-cases, step-IsApart, refund_donation-raffles}
use udv_shop_api.Raffles.Numbers.{held, limit, IsNumbered, Eases, Eases-IsNumbered}
use udv_shop_api.Raffles.Given.{backfill_within-IsNumbered, grant_paid-IsNumbered}

-- An update by key that keeps the identifier and the next number of each row.
Eases-update :
    (k : ℕ) (q : Raffle → Bool) (f : Raffle → Raffle) (db db' : Db)
    → db'.raffles ≡ update_key raffle_id_of k q f db.raffles
    → db'.entries ≡ db.entries
    → ((r : Raffle) → (f r).id ≡ r.id)
    → ((r : Raffle) → (f r).next_number ≡ r.next_number)
    → Eases db db'
Eases-update k q f db db' rs es ids nexts = record {
  keys = λ j. rw rs (sum_of-update_many _ _ _ db.raffles (λ r e. rw (ids r) refl));
  limits = λ j. rw rs (sum_of-update_many _ _ _ db.raffles (λ r e. rw (ids r, nexts r) refl));
  fewer = λ j n. rw es (omega arith);
}

held-delete_many :
    (p : RaffleEntry → Bool) (j n : ℕ) (es : List RaffleEntry)
    → held j n (delete_many p es) ≤ held j n es
unfolding delete_many find_many
held-delete_many p j n [] = omega arith
held-delete_many p j n (e ∷ es) = ground (arith, held-delete_many p j n es)

held-cleared :
    (k n : ℕ) (es : List RaffleEntry) → held k n (delete_many (λ e. e.raffle_id == k) es) ≡ 0
unfolding delete_many find_many
held-cleared k n [] = refl
held-cleared k n (e ∷ es) = ground (arith, held-cleared k n es)

-- Cancelling starts the numbers again, with no entry left.
cancelled-below :
    (k j n : ℕ) (db : Db)
    → IsNumbered db
    → limit j (update_key raffle_id_of k (λ r. true) cancel_status db.raffles) ≤ n
    → held j n (delete_many (λ e. e.raffle_id == k) db.entries) ≡ 0
cancelled-below k j n db a h = elim (Bool-cases (k == j)) [
  | inl e ↦
      subst (λ j. held j n (delete_many (λ e. e.raffle_id == k) db.entries) ≡ 0) ((==_iff k j).0 e)
        (held-cleared k n db.entries)
  | inr e ↦
      let kept : limit j (update_key raffle_id_of k (λ r. true) cancel_status db.raffles)
          ≡ limit j db.raffles =
        sum_of-update_many _ _ _ db.raffles (λ r g. ground arith) in
      omega (
        arith,
        held-delete_many (λ e. e.raffle_id == k) j n db.entries,
        a.below j n (omega (arith, kept, h)),
      )
]

cancel_raffle-IsNumbered : (k : ℕ) (db : Db) → IsNumbered db → IsNumbered (cancel_raffle k db)
unfolding cancel_raffle
cancel_raffle-IsNumbered k db a =
    let keys : (j : ℕ)
        → count_key raffle_id_of j (update_key raffle_id_of k (λ r. true) cancel_status db.raffles)
          ≡ count_key raffle_id_of j db.raffles =
      λ j. sum_of-update_many _ _ _ db.raffles (λ r e. refl) in
    record {
      unique = λ j. omega (arith, keys j, a.unique j);
      once =
          λ j n. omega (arith, held-delete_many (λ e. e.raffle_id == k) j n db.entries, a.once j n);
      below = λ j n h. cancelled-below k j n db a h;
    }

insert_raffle-IsNumbered :
    (x : Raffle) (prizes : List (ℕ × ℕ)) (db : Db)
    → x.id ≡ db.next_id
    → IsApart db
    → IsNumbered db
    → IsNumbered (insert_raffle x prizes db)
unfolding insert_raffle
insert_raffle-IsNumbered x prizes db e apart a = record {
  unique = λ k. rw sum_of-append (ground (arith, a.unique k, apart.fresh k, e));
  once = λ k n. a.once k n;
  below = λ k n h. a.below k n (
      omega (
        arith,
        h,
        sum_of-append (λ r. if r.id == k then r.next_number else 0) db.raffles (x ∷ []),
      ));
}

refund_donation_of-held :
    (found : Option Payment) (db : Db) (r : Bool) (db' : Db) (j n : ℕ)
    → refund_donation_of found db ≡ ok (r, db')
    → held j n db'.entries ≤ held j n db.entries
unfolding refund_donation_of free_donation
refund_donation_of-held none db r db' j n h = ground arith
refund_donation_of-held (some p) db r db' j n h = elim (Option-cases p.donation_id) [
  | inl z ↦ ground arith
  | inr (d, z) ↦ ground (
    arith,
    held-delete_many (λ e. e.donation_id == d && in_open_raffle db.raffles e) j n db.entries,
  )
]

refund_donation-held :
    (p now : ℕ) (db : Db) (r : Bool) (db' : Db) (j n : ℕ)
    → refund_donation p now db ≡ ok (r, db')
    → held j n db'.entries ≤ held j n db.entries
unfolding refund_donation
refund_donation-held p now db r db' j n h =
    let refunded = record db {
      payments =
          update_key (λ (p : Payment). p.id) p is_refundable
            (set_payment_status PaymentStatus.refunded now) db.payments;
    } in
    ground (
      arith,
      refund_donation_of-held (find_key (λ (p : Payment). p.id) p refunded.payments) refunded r db'
          j n,
    )

refund-IsNumbered :
    (p now : ℕ) (db : Db) → IsNumbered db → OnOk IsNumbered (refund_donation p now db)
refund-IsNumbered p now db a = OnOk-intro IsNumbered (refund_donation p now db) (λ r db' h.
    let (rs, next) = refund_donation-raffles p now db r db' h in
    Eases-IsNumbered db db'
      (record {
        keys = λ k. rw rs refl;
        limits = λ k. rw rs refl;
        fewer = λ j n. refund_donation-held p now db r db' j n h;
      })
      a)

draw-IsNumbered :
    (digest : ℕ → ℕ → ℕ) (k seed now : ℕ) (db : Db)
    → IsNumbered db
    → OnOk IsNumbered (draw digest k seed now db)
unfolding claim_draw
draw-IsNumbered digest k seed now db a =
    OnOk-intro IsNumbered (draw digest k seed now db) (λ r db' h.
      let (rs, es, ds, next) = draw-ok digest k seed now db r db' h in
      let drawn = record db {
        raffles = update_key raffle_id_of k is_open (set_drawn seed now) db.raffles;
      } in
      Eases-IsNumbered drawn db'
        (Eases-update k (λ r. is_none r.ends_at) (close_window now) drawn db' rs es (λ r. refl)
          (λ r. refl))
        (Eases-IsNumbered db drawn
          (Eases-update k is_open (set_drawn seed now) db drawn refl refl (λ r. refl) (λ r. refl))
          a))

create-IsNumbered :
    (c : ℕ) (input : RaffleConfig) (db : Db)
    → IsApart db
    → IsNumbered db
    → OnOk IsNumbered (create_raffle c input db)
unfolding create_raffle
create-IsNumbered c input db apart a = elim (assert_window_free-cases (window_of c input none) db) [
  | inr (e, z) ↦ rw z tt
  | inl (z, none_in) ↦
      let x = new_raffle db.next_id c (next_sequence c db) input in
      rw z (
        backfill_within-IsNumbered c x (insert_raffle x input.prizes db)
          (insert_raffle-IsNumbered x input.prizes db refl apart a))
]

update-IsNumbered :
    (k : ℕ) (input : RaffleConfig) (db : Db)
    → IsNumbered db
    → OnOk IsNumbered (update_config k input db)
unfolding update_config write_config
update-IsNumbered k input db a = elim (find_raffle-cases k db) [
  | inr (e, z) ↦ rw z tt
  | inl (r, z, x) ↦ elim (assert_window_free-cases (window_of r.campaign_id input (some k)) db) [
    | inr (e, y) ↦ rw (z, ◌>>=◌, y) tt
    | inl (y, none_in) ↦
        rw (z, ◌>>=◌, y)
          (Eases-IsNumbered db (write_config k input db)
            (Eases-update k (λ r. true) (configure input) db _ refl refl (λ r. refl) (λ r. refl)) a)
  ]
]

status-IsNumbered :
    (r : Raffle) (to : RaffleChange) (db : Db)
    → IsNumbered db
    → OnOk IsNumbered (set_status_of r to db)
unfolding set_status_of reopen_raffle
status-IsNumbered r RaffleChange.cancel db a =
    elim (Bool-cases (raffle_is RaffleStatus.open_entries r.status)) [
      | inl e ↦ rw e (cancel_raffle-IsNumbered r.id db a)
      | inr e ↦ rw e tt
    ]
status-IsNumbered r reopen db a = elim (Bool-cases (raffle_is RaffleStatus.cancelled r.status)) [
  | inr e ↦ rw e tt
  | inl e ↦ elim (assert_window_free-cases (own_window r.campaign_id r (some r.id)) db) [
    | inr (f, y) ↦ rw (e, y) tt
    | inl (y, none_in) ↦
        rw (e, y)
          (backfill_within-IsNumbered r.campaign_id r _ (
            Eases-IsNumbered db _
              (Eases-update r.id (λ r. true) open_status db _ refl refl (λ r. refl) (λ r. refl)) a))
  ]
]

set_status-IsNumbered :
    (k : ℕ) (to : RaffleChange) (db : Db) → IsNumbered db → OnOk IsNumbered (set_status k to db)
unfolding set_status
set_status-IsNumbered k to db a = elim (find_raffle-cases k db) [
  | inr (e, z) ↦ rw z tt
  | inl (r, z, y) ↦ rw z (status-IsNumbered r to db a)
]

step-IsNumbered :
    (digest : ℕ → ℕ → ℕ) (op : RaffleOp) (now : ℕ) (db : Db)
    → IsApart db
    → IsNumbered db
    → IsNumbered (step digest op now db)
unfolding step grant_numbers_for_donation
step-IsNumbered digest (create c input) now db p a =
    transaction-OnOk IsNumbered db (create_raffle c input db) a (create-IsNumbered c input db p a)
step-IsNumbered digest (update k input) now db p a =
    transaction-OnOk IsNumbered db (update_config k input db) a (update-IsNumbered k input db a)
step-IsNumbered digest (change k to) now db p a =
    transaction-OnOk IsNumbered db (set_status k to db) a (set_status-IsNumbered k to db a)
step-IsNumbered digest (grant d) now db p a = grant_paid-IsNumbered _ db a
step-IsNumbered digest (refund k) now db p a =
    transaction-OnOk IsNumbered db (refund_donation k now db) a (refund-IsNumbered k now db a)
step-IsNumbered digest (perform k seed) now db p a =
    transaction-OnOk IsNumbered db (draw digest k seed now db) a
      (draw-IsNumbered digest k seed now db a)

-- From raffles that are apart, with every number of a raffle held once at most and below its next
-- number, the same holds after any history of raffles created, configured, cancelled, reopened and
-- drawn, of numbers granted and donations refunded: at no time do two entries hold a number.
pub run-IsNumbered :
    (digest : ℕ → ℕ → ℕ) (ops : List (ℕ × RaffleOp)) (db : Db)
    → IsApart db
    → IsNumbered db
    → IsNumbered (run digest ops db)
unfolding run
run-IsNumbered digest [] db p a = a
run-IsNumbered digest ((now, op) ∷ ops) db p a =
    run-IsNumbered digest ops (step digest op now db) (step-IsApart digest op now db p)
      (step-IsNumbered digest op now db p a)
