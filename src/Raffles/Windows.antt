-- ===== src/Raffles/Windows.antt =====
-- Windows of raffles as sets of times, and the test of conflicts (raffle-window.ts).
use udv_shop_api.Prelude.{
  ℕ, ◌+◌, ◌≤◌, ◌≡◌, ◌⊎◌, refl, Bool, true, false, not, ◌&&◌, ◌==◌, ltb, leb, Option, none, some,
  List, [], ◌∷◌, ◌++◌, inl, inr, arith, if◌then◌else◌, Bool-cases, Option-cases, is_none, sym, ◌∙◌,
  &&-left, &&-right, sum_of-append,
}
use mathlib.Core.Path.{subst}
use udv_shop_api.Errors.{AppError, conflict, ok, err}
use udv_shop_api.Schema.{Raffle, Db}
use udv_shop_api.Table.{count_where, find_first, sort_by}
use udv_shop_api.Table.Laws.{sum_of-sort_by, find_first-none, sum_of-same}
use udv_shop_api.Table.Keys.{
  update_key, count_at, count_key, find_key, update_key-Point, count_at-eq,
}
use udv_shop_api.Raffles.Narrowing.{covering, raffle_id_of, Narrows}
use udv_shop_api.RaffleWindow.{
  covers, is_live, ends_after, Window, conflicts, find_window_conflict, assert_window_free,
  is_other, starts_before,
}

-- A time before an end that may be missing.
abbrev until : Option ℕ → ℕ → Bool
until none t = true
until (some e) t = ltb t e

-- The window that is asked for contains a time.
abbrev contains : Window → ℕ → Bool
contains w t = leb w.starts_at t && until w.ends_at t

until-earlier : (e : Option ℕ) (s t : ℕ) → leb s t ≡ true → until e t ≡ true → until e s ≡ true
until-earlier none s t h k = refl
until-earlier (some e) s t h k = ground arith

ends_after-until : (r : Raffle) (t : ℕ) → ends_after t r ≡ until r.ends_at t
ends_after-until r t = elim (Option-cases r.ends_at) [ inl z ↦ rw z refl | inr (e, z) ↦ rw z refl ]

starts_before-until : (e : Option ℕ) (r : Raffle) → starts_before e r ≡ until e r.starts_at
starts_before-until none r = refl
starts_before-until (some e) r = refl

disjoint :
    (live other before after from to : Bool)
    → (live && (other && (before && after))) ≡ false
    → other ≡ true
    → (from ≡ true → before ≡ true)
    → (to ≡ true → after ≡ true)
    → (live && (from && to)) ≡ false
disjoint live other before after from to h o b a = ground arith

-- A raffle that is not in conflict with a window shares no time with it.
conflicts-covers :
    (w : Window) (t : ℕ) (r : Raffle)
    → conflicts w r ≡ false
    → is_other w.except_raffle_id r ≡ true
    → contains w t ≡ true
    → covers w.campaign_id t r ≡ false
conflicts-covers w t r h o c =
    disjoint (is_live w.campaign_id r) (is_other w.except_raffle_id r) (starts_before w.ends_at r)
      (ends_after w.starts_at r) (leb r.starts_at t) (ends_after t r) h o
      (λ b.
        starts_before-until w.ends_at r ∙ until-earlier w.ends_at r.starts_at t b (&&-right _ _ c))
      (λ a.
        ends_after-until r w.starts_at
        ∙ until-earlier r.ends_at w.starts_at t (&&-left _ _ c) (sym (ends_after-until r t) ∙ a))

find_window_conflict-none :
    (w : Window) (db : Db)
    → find_window_conflict w db ≡ none
    → count_where (conflicts w) db.raffles ≡ 0
unfolding find_window_conflict
find_window_conflict-none w db h =
    elim (Option-cases
      (find_first (conflicts w) (sort_by (λ s r. ltb s.starts_at r.starts_at) db.raffles))) [
        | inl z ↦ omega (
          arith,
          find_first-none (conflicts w) (sort_by (λ s r. ltb s.starts_at r.starts_at) db.raffles) z,
          sum_of-sort_by (λ r. if conflicts w r then 1 else 0) (λ s r. ltb s.starts_at r.starts_at)
              db.raffles,
        )
        | inr (r, z) ↦ ground arith
      ]

-- A window is free, or asking for it throws.
pub assert_window_free-cases :
    (w : Window) (db : Db)
    → ((assert_window_free w db ≡ ok db) × (count_where (conflicts w) db.raffles ≡ 0))
      ⊎ ((e : AppError) × (assert_window_free w db ≡ err e))
unfolding assert_window_free
assert_window_free-cases w db = elim (Option-cases (find_window_conflict w db)) [
  | inl z ↦ inl (rw (assert_window_free, z) refl, find_window_conflict-none w db z)
  | inr ((n, b), z) ↦ elim (Bool-cases (b && is_none w.ends_at)) [
    | inl e ↦ inr (conflict "raffle_open_ended_conflict", rw (assert_window_free, z, e) refl)
    | inr e ↦ inr (conflict "raffle_window_overlap", rw (assert_window_free, z, e) refl)
  ]
]

-- The raffles other than the one the window is for have no time in it.
others-free :
    (w : Window) (t : ℕ) (rs : List Raffle)
    → count_where (conflicts w) rs ≡ 0
    → contains w t ≡ true
    → count_where (λ r. covers w.campaign_id t r && is_other w.except_raffle_id r) rs ≡ 0
others-free w t [] h c = refl
others-free w t (r ∷ rs) h c =
    let rest = others-free w t rs (omega arith) c in ground (arith, conflicts-covers w t r)

-- A live raffle is in at most one window at a time; identifiers are unique, and the next is fresh.
pub record IsApart (db : Db) : Type 0 where
  pub unique : (k : ℕ) → count_key raffle_id_of k db.raffles ≤ 1
  pub fresh : (k : ℕ) → db.next_id ≤ k → count_key raffle_id_of k db.raffles ≡ 0
  pub apart : (c t : ℕ) → covering c t db.raffles ≤ 1

Narrows-IsApart : (db db' : Db) → Narrows db db' → IsApart db → IsApart db'
Narrows-IsApart db db' n a = record {
  unique = λ k. omega (arith, n.keys k, a.unique k);
  fresh = λ k h. omega (arith, n.keys k, n.next, a.fresh k);
  apart = λ c t. omega (arith, n.windows c t, a.apart c t);
}

-- The window of a raffle, as it is asked for.
abbrev pub own_window : ℕ → Raffle → Option ℕ → Window
own_window c r except = record {
  campaign_id = c;
  starts_at = r.starts_at;
  ends_at = r.ends_at;
  except_raffle_id = except;
}

-- A raffle that covers a time has it in its window.
covers-contains :
    (c t : ℕ) (r : Raffle) (except : Option ℕ)
    → covers c t r ≡ true
    → (r.campaign_id ≡ c) × (contains (own_window c r except) t ≡ true)
covers-contains c t r except h = (ground arith, rw⁻¹ (ends_after-until r t) (ground arith))

-- Where a raffle covers a time, and its window is free, no other raffle covers it.
alone :
    (c t : ℕ) (x : Raffle) (rs : List Raffle) (except : Option ℕ)
    → count_where (conflicts (own_window x.campaign_id x except)) rs ≡ 0
    → covers c t x ≡ true
    → count_where (λ r. covers c t r && is_other except r) rs ≡ 0
alone c t x rs except h on =
    let (same, inside) = covers-contains c t x except on in
    others-free (own_window c x except) t rs
      (subst (λ j. count_where (conflicts (own_window j x except)) rs ≡ 0) same h) inside

-- A new raffle in a free window.
pub insert-apart :
    (x : Raffle) (c t : ℕ) (rs : List Raffle)
    → count_where (conflicts (own_window x.campaign_id x none)) rs ≡ 0
    → covering c t rs ≤ 1
    → covering c t (rs ++ x ∷ []) ≤ 1
insert-apart x c t rs h a = elim (Bool-cases (covers c t x)) [
  | inr out ↦ rw sum_of-append (rw out (omega arith))
  | inl on ↦ rw sum_of-append (
      rw on (
        omega (
          arith,
          alone c t x rs none h on,
          sum_of-same (λ r. if covers c t r && true then 1 else 0)
              (λ r. if covers c t r then 1 else 0) rs (λ r. ground arith),
        )))
]

count_where-split :
    (p : Raffle → Bool) (k : ℕ) (rs : List Raffle)
    → count_where p rs ≡ count_where (λ r. p r && not (r.id == k)) rs + count_at raffle_id_of k p rs
count_where-split p k [] = refl
count_where-split p k (r ∷ rs) = ground (arith, count_where-split p k rs)

-- A raffle that takes a window which is free but for itself.
pub replace-apart :
    (k : ℕ) (f : Raffle → Raffle) (c t : ℕ) (rs : List Raffle)
    → count_key raffle_id_of k rs ≤ 1
    → ((r : Raffle)
        → find_key raffle_id_of k rs ≡ some r
        → count_where (conflicts (own_window (f r).campaign_id (f r) (some k))) rs ≡ 0)
    → covering c t rs ≤ 1
    → covering c t (update_key raffle_id_of k (λ r. true) f rs) ≤ 1
replace-apart k f c t rs u h a = elim (update_key-Point raffle_id_of k (λ r. true) f rs u) [
  | inl (z, same) ↦ rw same a
  | inr (r, found, met, one, sums) ↦ elim (Bool-cases (covers c t (f r))) [
    | inr out ↦ ground (arith, sums (λ r. if covers c t r then 1 else 0))
    | inl on ↦ ground (
      arith,
      sums (λ r. if covers c t r then 1 else 0),
      alone c t (f r) rs (some k) (h r found) on,
      count_where-split (covers c t) k rs,
      count_at-eq raffle_id_of k (covers c t) rs r u found,
    )
  ]
]
