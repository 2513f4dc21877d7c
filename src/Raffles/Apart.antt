-- ===== src/Raffles/Apart.antt =====
-- The windows of live raffles over a history of the raffle operations (raffles.repository.ts).
use mathlib.Core.Path.{subst}
use udv_shop_api.Prelude.{
  ℕ, ◌≤◌, ◌≡◌, ◌⊎◌, refl, sym, ◌∙◌, ==_iff, some-injective, Bool, true, ◌==◌, none, some, List, [],
  ◌∷◌, inl, inr, arith, Bool-cases, Option-cases, sum_of-append,
}
use udv_shop_api.Errors.{AppError, failure, ok, err, ◌>>=◌, OnOk, OnOk-intro, transaction-OnOk}
use udv_shop_api.Schema.{Raffle, RaffleStatus, raffle_is, Db}
use udv_shop_api.Table.{count_where, find_first}
use udv_shop_api.Table.Selected.{count_where-found}
use udv_shop_api.Table.Laws.{sum_of-update_many, find_first_sound}
use udv_shop_api.Table.Keys.{update_key, count_key, find_key}
use udv_shop_api.RaffleWindow.{conflicts, covers, resolve_raffle}
use udv_shop_api.Donations.{refund_donation, refund_donation_of, free_donation}
use udv_shop_api.Raffles.{
  RaffleConfig, RaffleChange, reopen, create_raffle, update_config, set_status, set_status_of,
  open_status, configure, cancel_raffle, reopen_raffle, write_config, find_raffle, insert_raffle,
  new_raffle, window_of, next_sequence,
}
use udv_shop_api.Grants.{backfill_within}
use udv_shop_api.Raffles.Drawing.{draw}
use udv_shop_api.Raffles.Ops.{RaffleOp, create, update, change, grant, refund, perform, step, run}
use udv_shop_api.Raffles.Narrowing.{
  covering, raffle_id_of, Narrows, Narrows-same, grant-Narrows, cancel_raffle-Narrows,
  backfill_within-Narrows, draw-Narrows,
}
use udv_shop_api.Raffles.Windows.{own_window, assert_window_free-cases, insert-apart, replace-apart}

-- Any time is in the window of at most one live raffle of a campaign; identifiers are unique, and
-- the next one is fresh.
pub record IsApart (db : Db) : Type 0 where
  pub unique : (k : ℕ) → count_key raffle_id_of k db.raffles ≤ 1
  pub fresh : (k : ℕ) → db.next_id ≤ k → count_key raffle_id_of k db.raffles ≡ 0
  pub apart : (c t : ℕ) → covering c t db.raffles ≤ 1

Narrows-IsApart : (db db' : Db) → Narrows db db' → IsApart db → IsApart db'
Narrows-IsApart db db' n a = record {
  unique = λ k. omega (arith, n.keys k, a.unique k);
  fresh = λ k h. omega (arith, n.keys k, n.next, a.fresh k);
  apart = λ c t. omega (arith, n.windows c t, a.apart c t);
}

insert-IsApart :
    (x : Raffle) (prizes : List (ℕ × ℕ)) (db : Db)
    → x.id ≡ db.next_id
    → count_where (conflicts (own_window x.campaign_id x none)) db.raffles ≡ 0
    → IsApart db
    → IsApart (insert_raffle x prizes db)
unfolding insert_raffle
insert-IsApart x prizes db e h a = record {
  unique = λ k. rw sum_of-append (ground (arith, a.unique k, a.fresh k, e));
  fresh = λ k g. rw sum_of-append (ground (arith, a.fresh k, e));
  apart = λ c t. insert-apart x c t db.raffles h (a.apart c t);
}

-- An update of one raffle that keeps identifiers, and moves it to a free window.
replace-IsApart :
    (k : ℕ) (f : Raffle → Raffle) (db db' : Db)
    → db'.raffles ≡ update_key raffle_id_of k (λ r. true) f db.raffles
    → db.next_id ≤ db'.next_id
    → ((r : Raffle) → (f r).id ≡ r.id)
    → ((r : Raffle)
        → find_key raffle_id_of k db.raffles ≡ some r
        → count_where (conflicts (own_window (f r).campaign_id (f r) (some k))) db.raffles ≡ 0)
    → IsApart db
    → IsApart db'
replace-IsApart k f db db' e n ids h a =
    let keys : (j : ℕ)
        → count_key raffle_id_of j db'.raffles ≡ count_key raffle_id_of j db.raffles =
      λ j. rw e (sum_of-update_many _ _ _ db.raffles (λ r g. rw (ids r) refl)) in
    record {
      unique = λ j. omega (arith, keys j, a.unique j);
      fresh = λ j g. omega (arith, keys j, a.fresh j);
      apart = λ c t. rw e (replace-apart k f c t db.raffles (a.unique k) h (a.apart c t));
    }

-- The row that is found by a key has it.
found-id : (k : ℕ) (r : Raffle) (rs : List Raffle) → find_key raffle_id_of k rs ≡ some r → r.id ≡ k
found-id k r rs z = (==_iff r.id k).0 (find_first_sound (λ r. r.id == k) rs r z)

pub find_raffle-cases :
    (k : ℕ) (db : Db)
    → ((r : Raffle) × (find_raffle k db ≡ ok r) × (find_key raffle_id_of k db.raffles ≡ some r))
      ⊎ ((e : AppError) × (find_raffle k db ≡ err e))
unfolding find_raffle
find_raffle-cases k db = elim (Option-cases (find_key raffle_id_of k db.raffles)) [
  | inl z ↦ inr (failure "record_not_found", rw (find_raffle, z) refl)
  | inr (r, z) ↦ inl (r, rw (find_raffle, z) refl, z)
]

configured-IsApart :
    (k : ℕ) (input : RaffleConfig) (r : Raffle) (db : Db)
    → find_key raffle_id_of k db.raffles ≡ some r
    → count_where (conflicts (window_of r.campaign_id input (some k))) db.raffles ≡ 0
    → IsApart db
    → IsApart (write_config k input db)
unfolding write_config
configured-IsApart k input r db z none_in a =
    replace-IsApart k (configure input) db (write_config k input db) refl (omega arith) (λ r. refl)
      (λ s found.
        subst
          (λ (x : Raffle).
            count_where (conflicts (window_of x.campaign_id input (some k))) db.raffles ≡ 0)
          (some-injective (sym z ∙ found)) none_in)
      a

reopened-IsApart :
    (r : Raffle) (db : Db)
    → find_key raffle_id_of r.id db.raffles ≡ some r
    → count_where (conflicts (own_window r.campaign_id r (some r.id))) db.raffles ≡ 0
    → IsApart db
    → IsApart (reopen_raffle r db)
unfolding reopen_raffle
reopened-IsApart r db z none_in a =
    let opened = record db {
      raffles = update_key raffle_id_of r.id (λ r. true) open_status db.raffles;
    } in
    Narrows-IsApart opened (reopen_raffle r db) (backfill_within-Narrows r.campaign_id r opened) (
      replace-IsApart r.id open_status db opened refl (omega arith) (λ r. refl)
        (λ s found.
          subst
            (λ (x : Raffle).
              count_where (conflicts (own_window x.campaign_id x (some r.id))) db.raffles ≡ 0)
            (some-injective (sym z ∙ found)) none_in)
        a)

create-IsApart :
    (c : ℕ) (input : RaffleConfig) (db : Db) → IsApart db → OnOk IsApart (create_raffle c input db)
unfolding create_raffle
create-IsApart c input db a = elim (assert_window_free-cases (window_of c input none) db) [
  | inr (e, z) ↦ rw z tt
  | inl (z, none_in) ↦
      let x = new_raffle db.next_id c (next_sequence c db) input in
      let inserted = insert_raffle x input.prizes db in
      rw z (
        Narrows-IsApart inserted (backfill_within c x inserted)
          (backfill_within-Narrows c x inserted) (insert-IsApart x input.prizes db refl none_in a))
]

update-IsApart :
    (k : ℕ) (input : RaffleConfig) (db : Db) → IsApart db → OnOk IsApart (update_config k input db)
unfolding update_config
update-IsApart k input db a = elim (find_raffle-cases k db) [
  | inr (e, z) ↦ rw z tt
  | inl (r, z, x) ↦ elim (assert_window_free-cases (window_of r.campaign_id input (some k)) db) [
    | inr (e, y) ↦ rw (z, ◌>>=◌, y) tt
    | inl (y, none_in) ↦ rw (z, ◌>>=◌, y) (configured-IsApart k input r db x none_in a)
  ]
]

status-IsApart :
    (r : Raffle) (to : RaffleChange) (db : Db)
    → find_key raffle_id_of r.id db.raffles ≡ some r
    → IsApart db
    → OnOk IsApart (set_status_of r to db)
unfolding set_status_of
status-IsApart r RaffleChange.cancel db found a =
    elim (Bool-cases (raffle_is RaffleStatus.open_entries r.status)) [
      | inl e ↦ rw e (Narrows-IsApart db (cancel_raffle r.id db) (cancel_raffle-Narrows r.id db) a)
      | inr e ↦ rw e tt
    ]
status-IsApart r reopen db found a = elim (Bool-cases (raffle_is RaffleStatus.cancelled r.status)) [
  | inr e ↦ rw e tt
  | inl e ↦ elim (assert_window_free-cases (own_window r.campaign_id r (some r.id)) db) [
    | inr (f, y) ↦ rw (e, y) tt
    | inl (y, none_in) ↦ rw (e, y) (reopened-IsApart r db found none_in a)
  ]
]

set_status-IsApart :
    (k : ℕ) (to : RaffleChange) (db : Db) → IsApart db → OnOk IsApart (set_status k to db)
unfolding set_status
set_status-IsApart k to db a = elim (find_raffle-cases k db) [
  | inr (e, z) ↦ rw z tt
  | inl (r, z, y) ↦ rw z (
      status-IsApart r to db
        (subst (λ j. find_key raffle_id_of j db.raffles ≡ some r) (sym (found-id k r db.raffles y))
          y)
        a)
]

pub refund_donation-raffles :
    (p now : ℕ) (db : Db) (r : Bool) (db' : Db)
    → refund_donation p now db ≡ ok (r, db')
    → (db'.raffles ≡ db.raffles) × (db'.next_id ≡ db.next_id)
unfolding refund_donation refund_donation_of free_donation
refund_donation-raffles p now db r db' h = ground arith

refund-IsApart : (p now : ℕ) (db : Db) → IsApart db → OnOk IsApart (refund_donation p now db)
refund-IsApart p now db a = OnOk-intro IsApart (refund_donation p now db) (λ r db' h.
    let (rs, next) = refund_donation-raffles p now db r db' h in
    Narrows-IsApart db db' (Narrows-same db db' rs (omega arith)) a)

draw-IsApart :
    (digest : ℕ → ℕ → ℕ) (k seed now : ℕ) (db : Db)
    → IsApart db
    → OnOk IsApart (draw digest k seed now db)
draw-IsApart digest k seed now db a =
    OnOk-intro IsApart (draw digest k seed now db)
      (λ r db' h. Narrows-IsApart db db' (draw-Narrows digest k seed now db r db' h) a)

pub step-IsApart :
    (digest : ℕ → ℕ → ℕ) (op : RaffleOp) (now : ℕ) (db : Db)
    → IsApart db
    → IsApart (step digest op now db)
unfolding step
step-IsApart digest (create c input) now db a =
    transaction-OnOk IsApart db (create_raffle c input db) a (create-IsApart c input db a)
step-IsApart digest (update k input) now db a =
    transaction-OnOk IsApart db (update_config k input db) a (update-IsApart k input db a)
step-IsApart digest (change k to) now db a =
    transaction-OnOk IsApart db (set_status k to db) a (set_status-IsApart k to db a)
step-IsApart digest (grant d) now db a = Narrows-IsApart db _ (grant-Narrows d db) a
step-IsApart digest (refund p) now db a =
    transaction-OnOk IsApart db (refund_donation p now db) a (refund-IsApart p now db a)
step-IsApart digest (perform k seed) now db a =
    transaction-OnOk IsApart db (draw digest k seed now db) a (draw-IsApart digest k seed now db a)

-- From raffles with unique identifiers of which no two live ones of a campaign have a time in their
-- windows, whatever the history of raffles created, configured, cancelled, reopened and drawn, of
-- numbers granted and donations refunded, failing or not: the same holds, so no time comes to be in
-- the windows of two live raffles of a campaign.
pub run-IsApart :
    (digest : ℕ → ℕ → ℕ) (ops : List (ℕ × RaffleOp)) (db : Db)
    → IsApart db
    → IsApart (run digest ops db)
unfolding run
run-IsApart digest [] db a = a
run-IsApart digest ((now, op) ∷ ops) db a =
    run-IsApart digest ops (step digest op now db) (step-IsApart digest op now db a)

-- Of rows of which at most one passes the test, that one is found first.
only_row :
    (p : Raffle → Bool) (rs : List Raffle) (r : Raffle)
    → count_where p rs ≤ 1
    → find_key raffle_id_of r.id rs ≡ some r
    → p r ≡ true
    → find_first p rs ≡ some r
unfolding find_first
only_row p [] r one found t = ground arith
only_row p (x ∷ rs) r one found t = elim (Bool-cases (x.id == r.id)) [
  | inl e ↦ let same : x ≡ r = some-injective (ground arith) in rw same (rw t refl)
  | inr e ↦
      let tail : find_first p rs ≡ some r = only_row p rs r (ground arith) (ground arith) t in
      ground (arith, count_where-found p rs r tail, tail)
]

-- From raffles that are apart, after any history of the operations of raffles: a live raffle of a
-- campaign whose window has a time is the one that a donation of that time is resolved to, in
-- whatever order the database keeps the raffles; neither another nor a later one is chosen.
pub run-resolve_raffle :
    (digest : ℕ → ℕ → ℕ) (ops : List (ℕ × RaffleOp)) (db : Db) (c t : ℕ) (r : Raffle)
    → IsApart db
    → find_key raffle_id_of r.id (run digest ops db).raffles ≡ some r
    → covers c t r ≡ true
    → resolve_raffle c t (run digest ops db) ≡ some r
unfolding resolve_raffle
run-resolve_raffle digest ops db c t r a found covered =
    let later = run-IsApart digest ops db a in
    rw
      (
        resolve_raffle,
        only_row (covers c t) (run digest ops db).raffles r (later.apart c t) found covered,
      )
      refl
