-- ===== src/Team/Owners.antt =====
-- The owners of the stores over any history of the requests of src/http/api/stores/team.
use udv_shop_api.Prelude.{ℕ, ◌≡◌, List, [], ◌∷◌, inl, inr}
use udv_shop_api.Errors.{ok, Result-cases}
use udv_shop_api.Team.{
  Team, TeamOp, inviting, revoking, appointing, removing, accepting, perform, or_same, run,
}
use udv_shop_api.Team.Kept.{IsSafe, Keeps, Keeps-refl, set_role-Keeps, remove-Keeps}
use udv_shop_api.Team.Invited.{invite-Keeps, revoke_invite-Keeps}
use udv_shop_api.Team.Accepted.{Keeps-trans, accept-Keeps}

perform-Keeps :
    (hash_token : ℕ → ℕ) (op : TeamOp) (store_id now : ℕ) (db db' : Team)
    → perform hash_token op store_id now db ≡ ok db'
    → IsSafe db
    → Keeps db db'
unfolding perform
perform-Keeps hash_token (inviting by email role raw) store_id now db db' h a =
    invite-Keeps hash_token store_id by email role raw now db db' h a
perform-Keeps hash_token (revoking id) store_id now db db' h a =
    revoke_invite-Keeps store_id id now db db' h a
perform-Keeps hash_token (appointing user_id role) store_id now db db' h a =
    set_role-Keeps store_id user_id role db db' h a
perform-Keeps hash_token (removing user_id) store_id now db db' h a =
    remove-Keeps store_id user_id db db' h a
perform-Keeps hash_token (accepting raw user_id) store_id now db db' h a =
    accept-Keeps hash_token raw user_id now db db' h a

step-Keeps :
    (hash_token : ℕ → ℕ) (op : TeamOp) (store_id now : ℕ) (db : Team)
    → IsSafe db
    → Keeps db (or_same db (perform hash_token op store_id now db))
step-Keeps hash_token op store_id now db a =
    elim (Result-cases (perform hash_token op store_id now db)) [
      | inr (e, h) ↦ rw h (Keeps-refl db a)
      | inl (db', h) ↦ rw h (perform-Keeps hash_token op store_id now db db' h a)
    ]

-- Whatever a team is asked, by whom and in any order (invitations that are sent, renewed, revoked and
-- accepted, roles that are given and members that are removed), the stores keep the same owners, in
-- the same order, and the accounts are the same; when no invitation at the start makes an owner, or
-- waits for an address of an owner of its store, which stays so.
pub run-Keeps :
    (hash_token : ℕ → ℕ) (ops : List (ℕ × ℕ × TeamOp)) (db : Team)
    → IsSafe db
    → Keeps db (run hash_token ops db)
unfolding run
run-Keeps hash_token [] db a = Keeps-refl db a
run-Keeps hash_token ((store_id, now, op) ∷ ops) db a =
    let k = step-Keeps hash_token op store_id now db a in
    let db1 = or_same db (perform hash_token op store_id now db) in
    Keeps-trans db db1 (run hash_token ops db1) k (run-Keeps hash_token ops db1 k.still)
