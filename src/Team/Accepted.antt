-- ===== src/Team/Accepted.antt =====
-- Invitations that are accepted: src/http/api/stores/team.
use mathlib.Core.Path.{subst}
use udv_shop_api.Prelude.{
  ℕ, ◌≡◌, ◌∙◌, sym, true, false, ◌&&◌, some, ◌==◌, ==_iff, ==_refl, leb, is_some_of, any, inl, inr,
  arith, Bool-cases, Option-cases,
}
use udv_shop_api.Errors.{ok, Result-cases}
use udv_shop_api.Table.{find_many}
use udv_shop_api.Table.Keys.{count_key}
use udv_shop_api.Table.Selected.{
  find_many-update_first, find_many-append_other, all-found, any-found, any-selected,
}
use udv_shop_api.Table.Laws.{find_first_sound}
use udv_shop_api.Accounts.{User, UserStoreRole, find_user_by_id}
use udv_shop_api.Team.{
  Team, StoreInvite, has_email, is_member, find_member, give_role, is_open,
  find_invite_by_token_hash, update_invite, accept_row, upsert_role, accept_invite, find_live,
  accept_by, accept, is_owner,
}
use udv_shop_api.Team.Kept.{
  is_owner_row, owners, owns_as, is_safe, IsSafe, Keeps, update_invite-Keeps, with_roles-Keeps,
}

-- A member whom a waiting invitation names by his address is no owner.
member-other :
    (i : StoreInvite) (user : User) (m : UserStoreRole) (db : Team)
    → is_safe db.accounts.users (owners db) i ≡ true
    → is_open i ≡ true
    → is_some_of i.email user.email ≡ true
    → find_user_by_id user.id db.accounts ≡ some user
    → find_member i.store_id user.id db ≡ some m
    → is_owner m.role ≡ false
unfolding find_member find_user_by_id owners
member-other i user m db safe waiting named known found = elim (Bool-cases (is_owner m.role)) [
  | inr t ↦ t
  | inl t ↦
      let own : is_member i.store_id user.id m ≡ true =
        find_first_sound (is_member i.store_id user.id) db.accounts.store_roles m found in
      let same : m.user_id ≡ user.id = (==_iff m.user_id user.id).0 (ground (arith, own)) in
      let address : has_email i.email db.accounts.users user.id ≡ true =
        any-found (λ u. u.id == user.id && is_some_of i.email u.email) (λ u. u.id == user.id)
          db.accounts.users user known (ground (arith, ==_refl user.id, named)) in
      let owned : any (owns_as i.store_id i.email db.accounts.users)
            (find_many is_owner_row db.accounts.store_roles)
          ≡ true =
        any-selected (owns_as i.store_id i.email db.accounts.users) is_owner_row
          (is_member i.store_id user.id) db.accounts.store_roles m found t
          (rw same (ground (arith, own, address))) in
      ground (arith, safe, waiting, owned)
]

upsert_role-Keeps :
    (i : StoreInvite) (user : User) (db : Team)
    → is_owner i.role ≡ false
    → ((m : UserStoreRole) → find_member i.store_id user.id db ≡ some m → is_owner m.role ≡ false)
    → IsSafe db
    → Keeps db (upsert_role i.store_id user.id i.role db)
unfolding upsert_role owners find_member
upsert_role-Keeps i user db t h a = elim (Option-cases (find_member i.store_id user.id db)) [
  | inl e ↦
      rw (upsert_role, e)
        (with_roles-Keeps _ db
          (find_many-append_other is_owner_row db.accounts.store_roles
            (record { user_id = user.id; store_id = i.store_id; role = i.role }) t)
          a)
  | inr (m, e) ↦
      rw (upsert_role, e)
        (with_roles-Keeps _ db
          (find_many-update_first is_owner_row (is_member i.store_id user.id) (give_role i.role)
            db.accounts.store_roles m e (h m e) t)
          a)
]

pub Keeps-trans : (a b c : Team) → Keeps a b → Keeps b c → Keeps a c
Keeps-trans a b c x y = record {
  same_owners = y.same_owners ∙ x.same_owners;
  same_users = y.same_users ∙ x.same_users;
  still = y.still;
}

update_invite-accounts :
    (id : ℕ) (f : StoreInvite → StoreInvite) (db db' : Team)
    → update_invite id f db ≡ ok db'
    → db'.accounts ≡ db.accounts
unfolding update_invite
update_invite-accounts id f db db' h =
    elim (Bool-cases (count_key (λ (i : StoreInvite). i.id) id db.invites == 0)) [
      | inl t ↦ ground arith
      | inr t ↦ ground arith
    ]

pub accept_invite-Keeps :
    (i : StoreInvite) (user : User) (now : ℕ) (db db' : Team)
    → is_safe db.accounts.users (owners db) i ≡ true
    → is_open i ≡ true
    → is_some_of i.email user.email ≡ true
    → find_user_by_id user.id db.accounts ≡ some user
    → accept_invite i user.id now db ≡ ok db'
    → IsSafe db
    → Keeps db db'
unfolding accept_invite find_member
accept_invite-Keeps i user now db db' safe waiting named known h a =
    elim (Result-cases (update_invite i.id (accept_row now) db)) [
      | inr (e, y) ↦ ground arith
      | inl (db1, y) ↦
          let k1 =
            update_invite-Keeps i.id (accept_row now) db db1 (λ j s. ground (arith, s)) y a in
          let accounts = update_invite-accounts i.id (accept_row now) db db1 y in
          let same : upsert_role i.store_id user.id i.role db1 ≡ db' = ground arith in
          subst (Keeps db) same (
            Keeps-trans db db1 _ k1 (
              upsert_role-Keeps i user db1 (ground (arith, safe))
                (λ m found.
                  member-other i user m db safe waiting named known
                    (rw (find_member, ← accounts) found))
                k1.still))
    ]

pub find_live-found :
    (hash_token : ℕ → ℕ) (raw now : ℕ) (db : Team) (i : StoreInvite)
    → find_live hash_token raw now db ≡ ok i
    → (find_invite_by_token_hash (hash_token raw) db ≡ some i) × (is_open i ≡ true)
unfolding find_live
find_live-found hash_token raw now db i h =
    elim (Option-cases (find_invite_by_token_hash (hash_token raw) db)) [
      | inl e ↦ ground arith
      | inr (j, e) ↦ elim (Bool-cases (is_open j)) [
        | inr t ↦ ground arith
        | inl t ↦ elim (Bool-cases (leb j.expires_at now)) [
          | inl l ↦ ground arith
          | inr l ↦ ground arith
        ]
      ]
    ]

pub found-own :
    (id : ℕ) (db : Team) (user : User)
    → find_user_by_id id db.accounts ≡ some user
    → find_user_by_id user.id db.accounts ≡ some user
unfolding find_user_by_id
found-own id db user h =
    let e : user.id ≡ id =
      (==_iff user.id id).0 (find_first_sound (λ u. u.id == id) db.accounts.users user h) in
    subst (λ k. find_user_by_id k db.accounts ≡ some user) (sym e) h

pub accept-Keeps :
    (hash_token : ℕ → ℕ) (raw user_id now : ℕ) (db db' : Team)
    → accept hash_token raw user_id now db ≡ ok db'
    → IsSafe db
    → Keeps db db'
unfolding accept accept_by find_invite_by_token_hash
accept-Keeps hash_token raw user_id now db db' h a =
    elim (Option-cases (find_user_by_id user_id db.accounts)) [
      | inl e ↦ ground arith
      | inr (user, e) ↦ elim (Result-cases (find_live hash_token raw now db)) [
        | inr (x, y) ↦ ground arith
        | inl (i, y) ↦ elim (Bool-cases (is_some_of i.email user.email)) [
          | inr t ↦ ground arith
          | inl t ↦
              let (found, waiting) = find_live-found hash_token raw now db i y in
              accept_invite-Keeps i user now db db'
                (all-found (is_safe db.accounts.users (owners db)) _ db.invites i found a.safe)
                waiting t (found-own user_id db user e) (ground arith) a
        ]
      ]
    ]
