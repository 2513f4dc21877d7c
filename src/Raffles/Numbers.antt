-- ===== src/Raffles/Numbers.antt =====
-- The numbers of a raffle and the reservation of a range of them (raffles.repository.ts).
use mathlib.Core.Path.{subst}
use udv_shop_api.Prelude.{
  ℕ, zero, suc, ◌+◌, ◌-◌, ◌≤◌, ◌<◌, ◌≡◌, refl, ==_iff, false, ◌&&◌, ◌==◌, some, List, [], ◌∷◌, ◌++◌,
  inl, inr, arith, sum_of, if◌then◌else◌, Bool-cases, Option-cases, sum_of-append,
}
use udv_shop_api.Schema.{Raffle, RaffleEntry, Donation, Db}
use udv_shop_api.Table.{update_many, count_where, find_first}
use udv_shop_api.Table.Laws.{sum_of-update_many, update_many-none}
use udv_shop_api.Table.Keys.{update_key, count_key, count_at, count_at-le, find_key}
use udv_shop_api.Grants.{new_entries, reserve_range, is_open, advance}
use udv_shop_api.Raffles.Narrowing.{raffle_id_of}

-- How many entries of a raffle hold a number.
abbrev pub held : ℕ → ℕ → List RaffleEntry → ℕ
held k n es = count_where (λ e. e.raffle_id == k && e.number == n) es

-- The next number of the raffle `k`, or 0 where there is no such raffle.
abbrev pub limit : ℕ → List Raffle → ℕ
limit k rs = sum_of (λ r. if r.id == k then r.next_number else 0) rs

-- A number is held once at most, and below the next number of its raffle.
pub record IsNumbered (db : Db) : Type 0 where
  pub unique : (k : ℕ) → count_key raffle_id_of k db.raffles ≤ 1
  pub once : (k n : ℕ) → held k n db.entries ≤ 1
  pub below : (k n : ℕ) → limit k db.raffles ≤ n → held k n db.entries ≡ 0

pub limit-absent : (k : ℕ) (rs : List Raffle) → count_key raffle_id_of k rs ≡ 0 → limit k rs ≡ 0
limit-absent k [] h = refl
limit-absent k (r ∷ rs) h = ground (arith, limit-absent k rs)

limit-found :
    (k : ℕ) (rs : List Raffle) (row : Raffle)
    → count_key raffle_id_of k rs ≤ 1
    → find_key raffle_id_of k rs ≡ some row
    → limit k rs ≡ row.next_number
unfolding find_first
limit-found k [] row u h = ground arith
limit-found k (r ∷ rs) row u h = ground (arith, limit-found k rs row, limit-absent k rs)

limit-advance :
    (k n : ℕ) (rs : List Raffle)
    → count_at raffle_id_of k is_open rs ≡ 1
    → limit k (update_key raffle_id_of k is_open (advance n) rs) ≡ limit k rs + n
unfolding update_many
limit-advance k n [] h = ground arith
limit-advance k n (r ∷ rs) h =
    ground
      (arith, limit-advance k n rs, update_many-none (λ r. r.id == k && is_open r) (advance n) rs)

limit-advance_other :
    (j k n : ℕ) (rs : List Raffle)
    → (k == j) ≡ false
    → limit j (update_key raffle_id_of k is_open (advance n) rs) ≡ limit j rs
limit-advance_other j k n rs h = sum_of-update_many _ _ _ rs (λ r e. ground arith)

held-new_entries-below : (j m k d u i s n : ℕ) → m < s → held j m (new_entries k d u i s n) ≡ 0
unfolding new_entries
held-new_entries-below j m k d u i s zero h = refl
held-new_entries-below j m k d u i s (suc n) h =
    ground (arith, held-new_entries-below j m k d u (suc i) (suc s) n)

held-new_entries-above : (j m k d u i s n : ℕ) → s + n ≤ m → held j m (new_entries k d u i s n) ≡ 0
unfolding new_entries
held-new_entries-above j m k d u i s zero h = refl
held-new_entries-above j m k d u i s (suc n) h =
    ground (arith, held-new_entries-above j m k d u (suc i) (suc s) n)

held-new_entries-other :
    (j m k d u i s n : ℕ) → (k == j) ≡ false → held j m (new_entries k d u i s n) ≡ 0
unfolding new_entries
held-new_entries-other j m k d u i s zero h = refl
held-new_entries-other j m k d u i s (suc n) h =
    ground (arith, held-new_entries-other j m k d u (suc i) (suc s) n)

held-new_entries-once : (j m k d u i s n : ℕ) → held j m (new_entries k d u i s n) ≤ 1
unfolding new_entries
held-new_entries-once j m k d u i s zero = omega arith
held-new_entries-once j m k d u i s (suc n) = ground (
  arith,
  held-new_entries-once j m k d u (suc i) (suc s) n,
  held-new_entries-below j m k d u (suc i) (suc s) n,
)

-- Rows that hold the next `n` numbers of the raffle `k` clash with none that are there.
appended-once :
    (k n d u i s : ℕ) (db : Db) (j m : ℕ)
    → s ≡ limit k db.raffles
    → IsNumbered db
    → held j m (db.entries ++ new_entries k d u i s n) ≤ 1
appended-once k n d u i s db j m e a = rw sum_of-append (elim (Bool-cases (k == j)) [
  | inr other ↦ omega (arith, a.once j m, held-new_entries-other j m k d u i s n other)
  | inl same_raffle ↦
      subst (λ j. held j m db.entries + held j m (new_entries k d u i s n) ≤ 1)
        ((==_iff k j).0 same_raffle)
        (ground (
          arith,
          a.once k m,
          a.below k m,
          held-new_entries-once k m k d u i s n,
          held-new_entries-below k m k d u i s n,
        ))
])

appended-below :
    (k n d u i s : ℕ) (db : Db) (j m : ℕ)
    → s ≡ limit k db.raffles
    → count_at raffle_id_of k is_open db.raffles ≡ 1
    → IsNumbered db
    → limit j (update_key raffle_id_of k is_open (advance n) db.raffles) ≤ m
    → held j m (db.entries ++ new_entries k d u i s n) ≡ 0
appended-below k n d u i s db j m e one a h = rw sum_of-append (elim (Bool-cases (k == j)) [
  | inr other ↦ omega (
    arith,
    a.below j m (omega (arith, h, limit-advance_other j k n db.raffles other)),
    held-new_entries-other j m k d u i s n other,
  )
  | inl same_raffle ↦
      subst
        (λ j.
          limit j (update_key raffle_id_of k is_open (advance n) db.raffles) ≤ m
          → held j m db.entries + held j m (new_entries k d u i s n) ≡ 0)
        ((==_iff k j).0 same_raffle)
        (λ g. omega (
          arith,
          a.below k m (omega (arith, g, limit-advance k n db.raffles one)),
          held-new_entries-above k m k d u i s n
              (omega (arith, e, g, limit-advance k n db.raffles one)),
        ))
        h
])

-- The tables after a reservation of `n` numbers for the raffle `k`, which is open.
reserved-IsNumbered :
    (k n d u i : ℕ) (row : Raffle) (db db' : Db)
    → db'.raffles ≡ update_key raffle_id_of k is_open (advance n) db.raffles
    → db'.entries ≡ db.entries ++ new_entries k d u i (row.next_number - n) n
    → count_at raffle_id_of k is_open db.raffles ≡ 1
    → find_key raffle_id_of k (update_key raffle_id_of k is_open (advance n) db.raffles) ≡ some row
    → IsNumbered db
    → IsNumbered db'
reserved-IsNumbered k n d u i row db db' rs es one found a =
    let keys : (j : ℕ)
        → count_key raffle_id_of j (update_key raffle_id_of k is_open (advance n) db.raffles)
          ≡ count_key raffle_id_of j db.raffles =
      λ j. sum_of-update_many _ _ _ db.raffles (λ r g. refl) in
    let start : row.next_number ≡ limit k db.raffles + n = omega (
      arith,
      limit-found k (update_key raffle_id_of k is_open (advance n) db.raffles) row
          (omega (arith, keys k, a.unique k)) found,
      limit-advance k n db.raffles one,
    ) in
    record {
      unique = λ j. rw rs (omega (arith, keys j, a.unique j));
      once = λ j m. rw es (appended-once k n d u i _ db j m (omega arith) a);
      below = λ j m h.
          rw es (
            appended-below k n d u i _ db j m (omega arith) one a
              (subst (λ l. limit j l ≤ m) rs h));
    }

-- Two databases with the same rows under every key, the same limits, and no number held more often.
pub record Eases (db db' : Db) : Type 0 where
  pub keys : (k : ℕ) → count_key raffle_id_of k db'.raffles ≡ count_key raffle_id_of k db.raffles
  pub limits : (k : ℕ) → limit k db'.raffles ≡ limit k db.raffles
  pub fewer : (k n : ℕ) → held k n db'.entries ≤ held k n db.entries

pub Eases-IsNumbered : (db db' : Db) → Eases db db' → IsNumbered db → IsNumbered db'
Eases-IsNumbered db db' e a = record {
  unique = λ k. omega (arith, e.keys k, a.unique k);
  once = λ k n. omega (arith, e.fewer k n, a.once k n);
  below = λ k n h. omega (arith, e.fewer k n, a.below k n (omega (arith, e.limits k, h)));
}

pub Eases-same : (db db' : Db) → db'.raffles ≡ db.raffles → db'.entries ≡ db.entries → Eases db db'
Eases-same db db' rs es = record {
  keys = λ k. rw rs refl;
  limits = λ k. rw rs refl;
  fewer = λ k n. rw es (omega arith);
}

-- `reserve_range` on every branch.
pub reserve_range-IsNumbered :
    (k : ℕ) (d : Donation) (n : ℕ) (db : Db) → IsNumbered db → IsNumbered (reserve_range k d n db).1
unfolding reserve_range
reserve_range-IsNumbered k d n db a =
    elim (Bool-cases (count_at raffle_id_of k is_open db.raffles == 0)) [
      | inl z ↦ rw z (Eases-IsNumbered db _ (Eases-same db _ refl refl) a)
      | inr s ↦
          elim (Option-cases
            (find_key raffle_id_of k (update_key raffle_id_of k is_open (advance n) db.raffles))) [
              | inl z ↦ rw (s, z) a
              | inr (row, z) ↦
                  rw (s, z)
                    (reserved-IsNumbered k n d.id d.user_id db.next_id row db _ refl refl
                      (ground (arith, count_at-le raffle_id_of k is_open db.raffles, a.unique k)) z
                      a)
            ]
    ]
