-- ===== src/Team.antt =====
-- src/http/api/stores/team: the people of a store, and the invitations to become one of them. The
-- addresses of users and of invitations are in lower case, as both are written.
use udv_shop_api.Prelude.{
  ℕ, suc, ◌+◌, ◌*◌, Bool, true, false, not, ◌&&◌, ◌||◌, Option, none, some, List, [], ◌∷◌, ◌++◌,
  ◌==◌, ltb, leb, is_some_of, is_none, any, if◌then◌else◌,
}
pub mod Kept
pub mod Invited
pub mod Accepted
pub mod Owners
use udv_shop_api.Errors.{
  Result, ok, err, failure, conflict, not_found, gone, forbidden, validation, unauthorized, ◌>>=◌,
}
use udv_shop_api.Table.{find_first, update_first, delete_first}
use udv_shop_api.Table.Keys.{count_key}
use udv_shop_api.Permissions.{RoleName, owner, admin, staff, other}
use udv_shop_api.Accounts.{Accounts, User, UserStoreRole, find_user_by_id}

pub record StoreInvite : Type 0 where
  pub id : ℕ
  pub store_id : ℕ
  pub email : ℕ
  pub role : RoleName
  pub token_hash : ℕ
  pub invited_by : ℕ
  pub expires_at : ℕ
  pub accepted_at : Option ℕ
  pub revoked_at : Option ℕ

pub record Team : Type 0 where
  pub accounts : Accounts
  pub invites : List StoreInvite

-- `InvitableRole`
pub data InvitableRole : Type 0 where
  as_admin as_staff : InvitableRole

abbrev pub role_of : InvitableRole → RoleName
role_of as_admin = admin
role_of as_staff = staff

-- INVITE_TTL_MS
abbrev pub invite_ttl_ms : ℕ
invite_ttl_ms = 7 * 24 * 60 * 60 * 1000

-- The user has the address.
abbrev pub has_email : ℕ → List User → ℕ → Bool
has_email email users user_id = any (λ u. u.id == user_id && is_some_of email u.email) users

abbrev pub is_member : ℕ → ℕ → UserStoreRole → Bool
is_member store_id user_id r = r.user_id == user_id && r.store_id == store_id

unfoldable pub find_member : ℕ → ℕ → Team → Option UserStoreRole
find_member store_id user_id db = find_first (is_member store_id user_id) db.accounts.store_roles

unfoldable pub find_member_by_email : ℕ → ℕ → Team → Option UserStoreRole
find_member_by_email store_id email db =
    find_first (λ r. r.store_id == store_id && has_email email db.accounts.users r.user_id)
      db.accounts.store_roles

abbrev pub with_roles : List UserStoreRole → Team → Team
with_roles rs db = record db { accounts = record db.accounts { store_roles = rs } }

abbrev pub give_role : RoleName → UserStoreRole → UserStoreRole
give_role role r = record r { role = role }

-- `setMemberRole`
unfoldable pub set_member_role : ℕ → ℕ → RoleName → Team → Result Team
set_member_role store_id user_id role db = elim (find_member store_id user_id db) [
  | none ↦ err (failure "record_not_found")
  | some m ↦ ok (
      with_roles
        (update_first (is_member store_id user_id) (give_role role) db.accounts.store_roles) db)
]

-- `removeMember`
unfoldable pub remove_member : ℕ → ℕ → Team → Result Team
remove_member store_id user_id db = elim (find_member store_id user_id db) [
  | none ↦ err (failure "record_not_found")
  | some m ↦ ok (with_roles (delete_first (is_member store_id user_id) db.accounts.store_roles) db)
]

-- Neither accepted nor revoked.
abbrev pub is_open : StoreInvite → Bool
is_open i = is_none i.accepted_at && is_none i.revoked_at

unfoldable pub find_pending_invite_by_email : ℕ → ℕ → Team → Option StoreInvite
find_pending_invite_by_email store_id email db =
    find_first (λ i. i.store_id == store_id && i.email == email && is_open i) db.invites

unfoldable pub find_invite_by_id : ℕ → ℕ → Team → Option StoreInvite
find_invite_by_id store_id id db = find_first (λ i. i.id == id && i.store_id == store_id) db.invites

unfoldable pub find_invite_by_token_hash : ℕ → Team → Option StoreInvite
find_invite_by_token_hash hash db = find_first (λ i. i.token_hash == hash) db.invites

-- `createInvite`
unfoldable pub create_invite :
    (store_id email : ℕ) → RoleName → (token_hash invited_by expires_at : ℕ) → Team → Team
create_invite store_id email role token_hash invited_by expires_at db = record db {
  accounts = record db.accounts { next_id = suc db.accounts.next_id };
  invites =
      db.invites
      ++ record {
        id = db.accounts.next_id;
        store_id = store_id;
        email = email;
        role = role;
        token_hash = token_hash;
        invited_by = invited_by;
        expires_at = expires_at;
        accepted_at = none;
        revoked_at = none;
      }
        ∷ [];
}

-- `storeInvite.update`
unfoldable pub update_invite : ℕ → (StoreInvite → StoreInvite) → Team → Result Team
update_invite id f db =
    if count_key (λ (i : StoreInvite). i.id) id db.invites == 0
    then err (failure "record_not_found")
    else ok (record db { invites = update_first (λ i. i.id == id) f db.invites })

abbrev pub renew_invite : RoleName → (token_hash expires_at : ℕ) → StoreInvite → StoreInvite
renew_invite role token_hash expires_at i = record i {
  role = role;
  token_hash = token_hash;
  expires_at = expires_at;
}

abbrev pub revoke_row : ℕ → StoreInvite → StoreInvite
revoke_row now i = record i { revoked_at = some now }

abbrev pub accept_row : ℕ → StoreInvite → StoreInvite
accept_row now i = record i { accepted_at = some now }

-- `userStoreRole.upsert`
unfoldable pub upsert_role : ℕ → ℕ → RoleName → Team → Team
upsert_role store_id user_id role db = elim (find_member store_id user_id db) [
  | none ↦
      with_roles
        (db.accounts.store_roles
          ++ record { user_id = user_id; store_id = store_id; role = role } ∷ [])
        db
  | some m ↦
      with_roles
        (update_first (is_member store_id user_id) (give_role role) db.accounts.store_roles) db
]

-- `acceptInvite`, a transaction.
unfoldable pub accept_invite : StoreInvite → ℕ → ℕ → Team → Result Team
unfolding update_invite upsert_role
accept_invite invite user_id now db = update_invite invite.id (accept_row now) db >>= λ db'.
    ok (upsert_role invite.store_id user_id invite.role db')

module _ (hash_token : ℕ → ℕ) where
  -- The hash of a token is unique.
  unfoldable pub write_invite :
      Option StoreInvite → (store_id email : ℕ) → RoleName → (raw by now : ℕ) → Team → Result Team
  write_invite none store_id email role raw by now db =
      if any (λ i. i.token_hash == hash_token raw) db.invites
      then err (failure "unique_constraint")
      else ok (create_invite store_id email role (hash_token raw) by (now + invite_ttl_ms) db)
  write_invite (some i) store_id email role raw by now db =
      if any (λ j. j.token_hash == hash_token raw && not (j.id == i.id)) db.invites
      then err (failure "unique_constraint")
      else update_invite i.id (renew_invite role (hash_token raw) (now + invite_ttl_ms)) db

  -- `invite`; the message that is sent is left out.
  unfoldable pub invite :
      (store_id by email : ℕ) → InvitableRole → (raw now : ℕ) → Team → Result Team
  unfolding write_invite
  invite store_id by email role raw now db = elim (find_member_by_email store_id email db) [
    | some m ↦ err (conflict "already_member")
    | none ↦
        write_invite (find_pending_invite_by_email store_id email db) store_id email (role_of role)
          raw by now db
  ]

  -- `findLive`
  unfoldable pub find_live : (raw now : ℕ) → Team → Result StoreInvite
  find_live raw now db = elim (find_invite_by_token_hash (hash_token raw) db) [
    | none ↦ err (not_found "invite_not_found")
    | some i ↦
        if is_open i
        then (if leb i.expires_at now then err (gone "invite_expired") else ok i)
        else err (not_found "invite_not_found")
  ]

  -- `accept`, of the account that the route has found.
  unfoldable pub accept_by : User → (now : ℕ) → Team → StoreInvite → Result Team
  unfolding accept_invite
  accept_by user now db i =
      if is_some_of i.email user.email
      then accept_invite i user.id now db
      else err (forbidden "invite_email_mismatch")

  unfoldable pub accept : (raw user_id now : ℕ) → Team → Result Team
  unfolding accept_by
  accept raw user_id now db = elim (find_user_by_id user_id db.accounts) [
    | none ↦ err (unauthorized "user_not_found")
    | some user ↦ find_live raw now db >>= accept_by user now db
  ]

abbrev pub is_owner : RoleName → Bool
is_owner owner = true
is_owner _ = false

-- `targetMember`
unfoldable pub target_member : ℕ → ℕ → Team → Result UserStoreRole
target_member store_id user_id db = elim (find_member store_id user_id db) [
  | none ↦ err (not_found "member_not_found")
  | some m ↦ if is_owner m.role then err (validation "owner_is_immutable") else ok m
]

-- `revokeInvite`
unfoldable pub revoke_invite : (store_id id now : ℕ) → Team → Result Team
revoke_invite store_id id now db = elim (find_invite_by_id store_id id db) [
  | none ↦ err (not_found "invite_not_found")
  | some i ↦
      if is_open i then update_invite id (revoke_row now) db else err (not_found "invite_not_found")
]

-- `setRole`
unfoldable pub set_role : (store_id user_id : ℕ) → InvitableRole → Team → Result Team
unfolding target_member set_member_role
set_role store_id user_id role db =
    target_member store_id user_id db >>= λ m. set_member_role store_id user_id (role_of role) db

-- `remove`
unfoldable pub remove : (store_id user_id : ℕ) → Team → Result Team
unfolding target_member remove_member
remove store_id user_id db =
    target_member store_id user_id db >>= λ m. remove_member store_id user_id db

pub data TeamOp : Type 0 where
  inviting : (by email : ℕ) → InvitableRole → (raw : ℕ) → TeamOp
  revoking : (id : ℕ) → TeamOp
  appointing : (user_id : ℕ) → InvitableRole → TeamOp
  removing : (user_id : ℕ) → TeamOp
  accepting : (raw user_id : ℕ) → TeamOp

abbrev pub or_same : Team → Result Team → Team
or_same db (ok db') = db'
or_same db (err e) = db

-- A request at a time, for a store where it is about one.
unfoldable pub perform : (ℕ → ℕ) → TeamOp → (store_id now : ℕ) → Team → Result Team
perform hash_token (inviting by email role raw) store_id now db =
    invite hash_token store_id by email role raw now db
perform hash_token (revoking id) store_id now db = revoke_invite store_id id now db
perform hash_token (appointing user_id role) store_id now db = set_role store_id user_id role db
perform hash_token (removing user_id) store_id now db = remove store_id user_id db
perform hash_token (accepting raw user_id) store_id now db = accept hash_token raw user_id now db

unfoldable pub run : (ℕ → ℕ) → List (ℕ × ℕ × TeamOp) → Team → Team
unfolding perform
run hash_token [] db = db
run hash_token ((store_id, now, op) ∷ ops) db =
    run hash_token ops (or_same db (perform hash_token op store_id now db))
