-- ===== src/Team/Invited.antt =====
-- Invitations that are sent, renewed and revoked: src/http/api/stores/team.
use mathlib.Core.Path.{subst}
use udv_shop_api.Prelude.{
  ℕ, ◌+◌, ◌≡◌, refl, false, not, ◌&&◌, none, ◌==◌, any, inl, inr, arith, Bool-cases, Option-cases,
}
use udv_shop_api.Errors.{ok}
use udv_shop_api.Table.Selected.{all-append, any-none, any-find_many}
use udv_shop_api.Team.{
  Team, StoreInvite, InvitableRole, role_of, find_member_by_email, is_open, invite_ttl_ms,
  find_pending_invite_by_email, find_invite_by_id, create_invite, renew_invite, revoke_row,
  write_invite, invite, revoke_invite,
}
use udv_shop_api.Team.Kept.{
  is_owner_row, owners, owns_as, IsSafe, Keeps, update_invite-Keeps, invitable-other,
}

-- An address that no member of the store has is none of its owners'.
not_owned :
    (store_id email : ℕ) (db : Team)
    → find_member_by_email store_id email db ≡ none
    → any (owns_as store_id email db.accounts.users) (owners db) ≡ false
unfolding find_member_by_email owners
not_owned store_id email db h =
    any-find_many (owns_as store_id email db.accounts.users) is_owner_row db.accounts.store_roles
      (any-none (owns_as store_id email db.accounts.users) db.accounts.store_roles h)

create_invite-Keeps :
    (store_id email : ℕ) (role : InvitableRole) (hash by expires : ℕ) (db : Team)
    → any (owns_as store_id email db.accounts.users) (owners db) ≡ false
    → IsSafe db
    → Keeps db (create_invite store_id email (role_of role) hash by expires db)
unfolding create_invite owners
create_invite-Keeps store_id email role hash by expires db h a = record {
  same_owners = refl;
  same_users = refl;
  still = record { safe = rw all-append (ground (arith, a.safe, h, invitable-other role)) };
}

pub invite-Keeps :
    (hash_token : ℕ → ℕ) (store_id by email : ℕ) (role : InvitableRole) (raw now : ℕ)
    (db db' : Team)
    → invite hash_token store_id by email role raw now db ≡ ok db'
    → IsSafe db
    → Keeps db db'
unfolding invite write_invite
invite-Keeps hash_token store_id by email role raw now db db' h a =
    elim (Option-cases (find_member_by_email store_id email db)) [
      | inr (m, e) ↦ ground arith
      | inl e ↦ elim (Option-cases (find_pending_invite_by_email store_id email db)) [
        | inl p ↦
            elim (Bool-cases
              (any (λ (i : StoreInvite). i.token_hash == hash_token raw) db.invites)) [
                | inl t ↦ ground arith
                | inr t ↦
                    let same : create_invite store_id email (role_of role) (hash_token raw) by
                          (now + invite_ttl_ms) db
                        ≡ db' =
                      ground arith in
                    subst (Keeps db) same (
                      create_invite-Keeps store_id email role (hash_token raw) by
                        (now + invite_ttl_ms) db (not_owned store_id email db e) a)
              ]
        | inr (i, p) ↦
            elim (Bool-cases (
              any (λ (j : StoreInvite). j.token_hash == hash_token raw && not (j.id == i.id))
                db.invites)) [
                  | inl t ↦ ground arith
                  | inr t ↦
                      update_invite-Keeps i.id
                        (renew_invite (role_of role) (hash_token raw) (now + invite_ttl_ms)) db db'
                        (λ j s. ground (arith, s, invitable-other role)) (ground arith) a
                ]
      ]
    ]

pub revoke_invite-Keeps :
    (store_id id now : ℕ) (db db' : Team)
    → revoke_invite store_id id now db ≡ ok db'
    → IsSafe db
    → Keeps db db'
unfolding revoke_invite
revoke_invite-Keeps store_id id now db db' h a =
    elim (Option-cases (find_invite_by_id store_id id db)) [
      | inl e ↦ ground arith
      | inr (i, e) ↦ elim (Bool-cases (is_open i)) [
        | inr t ↦ ground arith
        | inl t ↦
            update_invite-Keeps id (revoke_row now) db db' (λ j s. ground (arith, s)) (ground arith)
              a
      ]
    ]
