-- ===== src/Team/Kept.antt =====
-- The owners of the stores, and the invitations that wait (src/http/api/stores/team), under a request.
use udv_shop_api.Prelude.{
  ℕ, ◌≡◌, refl, Bool, true, false, not, ◌&&◌, ◌||◌, some, List, ◌==◌, any, all, inl, inr, arith,
  Bool-cases, Option-cases,
}
use udv_shop_api.Errors.{ok, Result-cases, unless-ok}
use udv_shop_api.Table.{find_many, update_first, delete_first}
use udv_shop_api.Table.Selected.{find_many-update_first, find_many-delete_first, all-update_first}
use udv_shop_api.Accounts.{User, UserStoreRole}
use udv_shop_api.Team.{
  Team, StoreInvite, InvitableRole, as_admin, as_staff, role_of, has_email, is_member, find_member,
  with_roles, give_role, set_member_role, remove_member, is_open, update_invite, is_owner,
  target_member, set_role, remove,
}

abbrev pub is_owner_row : UserStoreRole → Bool
is_owner_row r = is_owner r.role

-- Who owns which store.
unfoldable pub owners : Team → List UserStoreRole
owners db = find_many is_owner_row db.accounts.store_roles

abbrev pub owns_as : ℕ → ℕ → List User → UserStoreRole → Bool
owns_as store_id email users r = r.store_id == store_id && has_email email users r.user_id

-- An invitation makes nobody an owner, and is not for an owner of the store while it waits.
abbrev pub is_safe : List User → List UserStoreRole → StoreInvite → Bool
is_safe users os i =
    not (is_owner i.role) && (not (is_open i) || not (any (owns_as i.store_id i.email users) os))

pub record IsSafe (db : Team) : Type 0 where
  pub safe : all (is_safe db.accounts.users (owners db)) db.invites ≡ true

-- What a request keeps.
pub record Keeps (db db' : Team) : Type 0 where
  pub same_owners : owners db' ≡ owners db
  pub same_users : db'.accounts.users ≡ db.accounts.users
  pub still : IsSafe db'

pub Keeps-refl : (db : Team) → IsSafe db → Keeps db db
Keeps-refl db a = record { same_owners = refl; same_users = refl; still = a }

-- A write to the invitations that keeps each of them safe.
pub update_invite-Keeps :
    (id : ℕ) (f : StoreInvite → StoreInvite) (db db' : Team)
    → ((i : StoreInvite)
        → is_safe db.accounts.users (owners db) i ≡ true
        → is_safe db.accounts.users (owners db) (f i) ≡ true)
    → update_invite id f db ≡ ok db'
    → IsSafe db
    → Keeps db db'
unfolding update_invite owners
update_invite-Keeps id f db db' k h a = rw (← unless-ok _ _ _ db' h) (record {
  same_owners = refl;
  same_users = refl;
  still = record {
    safe =
        all-update_first (is_safe db.accounts.users (owners db)) (λ i. i.id == id) f db.invites k
          a.safe;
  };
})

-- A write to the roles that keeps the owners.
pub with_roles-Keeps :
    (rs : List UserStoreRole) (db : Team)
    → find_many is_owner_row rs ≡ owners db
    → IsSafe db
    → Keeps db (with_roles rs db)
unfolding owners
with_roles-Keeps rs db e a = record {
  same_owners = e;
  same_users = refl;
  still = record { safe = rw e a.safe };
}

pub invitable-other : (role : InvitableRole) → is_owner (role_of role) ≡ false
invitable-other as_admin = refl
invitable-other as_staff = refl

target_member-found :
    (store_id user_id : ℕ) (db : Team) (m : UserStoreRole)
    → target_member store_id user_id db ≡ ok m
    → (find_member store_id user_id db ≡ some m) × (is_owner m.role ≡ false)
unfolding target_member
target_member-found store_id user_id db m h =
    elim (Option-cases (find_member store_id user_id db)) [
      | inl e ↦ ground arith
      | inr (n, e) ↦ elim (Bool-cases (is_owner n.role)) [
        | inl t ↦ ground arith
        | inr t ↦ ground arith
      ]
    ]

pub set_role-Keeps :
    (store_id user_id : ℕ) (role : InvitableRole) (db db' : Team)
    → set_role store_id user_id role db ≡ ok db'
    → IsSafe db
    → Keeps db db'
unfolding set_role set_member_role find_member owners
set_role-Keeps store_id user_id role db db' h a =
    elim (Result-cases (target_member store_id user_id db)) [
      | inr (e, y) ↦ ground arith
      | inl (m, y) ↦
          let (found, t) = target_member-found store_id user_id db m y in
          let rs =
            update_first (is_member store_id user_id) (give_role (role_of role))
              db.accounts.store_roles in
          let e : with_roles rs db ≡ db' = ground arith in
          rw (← e) (
            with_roles-Keeps rs db
              (find_many-update_first is_owner_row (is_member store_id user_id)
                (give_role (role_of role)) db.accounts.store_roles m found t (invitable-other role))
              a)
    ]

pub remove-Keeps :
    (store_id user_id : ℕ) (db db' : Team)
    → remove store_id user_id db ≡ ok db'
    → IsSafe db
    → Keeps db db'
unfolding remove remove_member find_member owners
remove-Keeps store_id user_id db db' h a = elim (Result-cases (target_member store_id user_id db)) [
  | inr (e, y) ↦ ground arith
  | inl (m, y) ↦
      let (found, t) = target_member-found store_id user_id db m y in
      let rs = delete_first (is_member store_id user_id) db.accounts.store_roles in
      let e : with_roles rs db ≡ db' = ground arith in
      rw (← e) (
        with_roles-Keeps rs db
          (find_many-delete_first is_owner_row (is_member store_id user_id) db.accounts.store_roles
            m found t)
          a)
]
