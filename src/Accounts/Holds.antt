-- ===== src/Accounts/Holds.antt =====
-- An account and its password, under the writes of auth.repository.ts.
use udv_shop_api.Prelude.{
  ℕ, ◌≤◌, ◌≡◌, refl, Bool, false, ◌&&◌, some, [], ◌∷◌, inl, inr, arith, ◌==◌, is_some_of,
  if◌then◌else◌, sum_of-append, Bool-cases,
}
use udv_shop_api.Errors.{ok}
use udv_shop_api.Table.{count_where, update_first}
use udv_shop_api.Table.Keys.{count_key, find_key}
use udv_shop_api.Table.Laws.{sum_of-update_first}
use udv_shop_api.Table.Selected.{find_key-found, count_where-update_first-same}
use udv_shop_api.Accounts.{
  Accounts, User, update_user, create_user, find_user_by_email, adopt_guest_user,
}
use udv_shop_api.Accounts.Login.{is_credentialed}
use udv_shop_api.Accounts.SameUsers.{SameUsers}

abbrev pub user_id_of : User → ℕ
user_id_of u = u.id

abbrev pub has_password : ℕ → ℕ → User → Bool
has_password id h u = u.id == id && is_some_of h u.password_hash

-- The account has the password hash `h`; identifiers are unique, and the next one is fresh.
pub record Holds (id h : ℕ) (db : Accounts) : Type 0 where
  pub unique : (k : ℕ) → count_key user_id_of k db.users ≤ 1
  pub fresh : (k : ℕ) → db.next_id ≤ k → count_key user_id_of k db.users ≡ 0
  pub held : 1 ≤ count_where (has_password id h) db.users

pub Holds-SameUsers :
    (id h : ℕ) (db db' : Accounts) → SameUsers db db' → Holds id h db → Holds id h db'
Holds-SameUsers id h db db' s a = record {
  unique = λ k. rw s.users (a.unique k);
  fresh = λ k g. rw s.users (a.fresh k (omega (arith, s.later)));
  held = rw s.users a.held;
}

-- A new account has an identifier of its own.
pub create_user-Holds :
    (id h : ℕ) (row : ℕ → User) (db : Accounts)
    → (row db.next_id).id ≡ db.next_id
    → Holds id h db
    → Holds id h (create_user row db).1
unfolding create_user
create_user-Holds id h row db e a =
    let count = λ (q : User → Bool).
      sum_of-append (λ u. if q u then 1 else 0) db.users (row db.next_id ∷ []) in
    record {
      unique = λ k. ground (arith, count (λ u. u.id == k), a.unique k, a.fresh k, e);
      fresh = λ k g. ground (arith, count (λ u. u.id == k), a.fresh k, e);
      held = ground (arith, count (has_password id h), a.held);
    }

-- A write that keeps the password.
pub update_user-Holds :
    (id h k : ℕ) (f : User → User) (db db' : Accounts)
    → ((u : User) → (f u).id ≡ u.id)
    → ((u : User) → (f u).password_hash ≡ u.password_hash)
    → update_user k f db ≡ ok db'
    → Holds id h db
    → Holds id h db'
unfolding update_user
update_user-Holds id h k f db db' i p e a =
    elim (Bool-cases (count_key user_id_of k db.users == 0)) [
      | inl t ↦ ground arith
      | inr t ↦
          let same : record db { users = update_first (λ u. u.id == k) f db.users } ≡ db' =
            ground arith in
          rw (← same) (record {
            unique = λ j. omega (
              arith,
              a.unique j,
              count_where-update_first-same (λ u. u.id == j) (λ u. u.id == k) f db.users
                  (λ u. rw (i u) refl),
            );
            fresh = λ j g. omega (
              arith,
              a.fresh j g,
              count_where-update_first-same (λ u. u.id == j) (λ u. u.id == k) f db.users
                  (λ u. rw (i u) refl),
            );
            held = omega (
              arith,
              a.held,
              count_where-update_first-same (has_password id h) (λ u. u.id == k) f db.users
                  (λ u. rw (i u, p u) refl),
            );
          })
    ]

-- Adopting an account that has no credentials takes no password away.
pub adopt-Holds :
    (id h email name password : ℕ) (u : User) (db db' : Accounts)
    → find_user_by_email email db ≡ some u
    → is_credentialed u ≡ false
    → update_user u.id (adopt_guest_user name password) db ≡ ok db'
    → Holds id h db
    → Holds id h db'
unfolding update_user find_user_by_email
adopt-Holds id h email name password u db db' found c e a =
    elim (Bool-cases (count_key user_id_of u.id db.users == 0)) [
      | inl t ↦ ground arith
      | inr t ↦
          let f = adopt_guest_user name password in
          let same : record db { users = update_first (λ v. v.id == u.id) f db.users } ≡ db' =
            ground arith in
          let own : find_key user_id_of u.id db.users ≡ some u =
            find_key-found user_id_of (λ v. is_some_of email v.email) db.users u a.unique found in
          rw (← same) (record {
            unique = λ j. omega (
              arith,
              a.unique j,
              count_where-update_first-same (λ v. v.id == j) (λ v. v.id == u.id) f db.users
                  (λ v. refl),
            );
            fresh = λ j g. omega (
              arith,
              a.fresh j g,
              count_where-update_first-same (λ v. v.id == j) (λ v. v.id == u.id) f db.users
                  (λ v. refl),
            );
            held = ground (
              arith,
              a.held,
              sum_of-update_first (λ v. if has_password id h v then 1 else 0) (λ v. v.id == u.id) f
                  db.users u own,
            );
          })
    ]
