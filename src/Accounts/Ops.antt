-- ===== src/Accounts/Ops.antt =====
-- What the routes of src/http/api/auth and the forms of guests do to the accounts, in any order.
use udv_shop_api.Prelude.{ℕ, Option, List, [], ◌∷◌}
use udv_shop_api.Errors.{Result, ok, err}
use udv_shop_api.Accounts.{Accounts}
use udv_shop_api.Accounts.Tokens.{TokenConfig, rotate, revoke_family_by_token}
use udv_shop_api.Accounts.Login.{
  Draws, Externals, login, register, forgot_password, reset_password, confirm_email, google_auth,
}
use udv_shop_api.Accounts.Guests.{GuestContact, resolve_actor}

pub data AccountOp : Type 0 where
  log_in : (email password : ℕ) → AccountOp
  sign_up : (email name password : ℕ) → AccountOp
  refresh : (token : ℕ) → AccountOp
  log_out : (token : ℕ) → AccountOp
  forget : (email : ℕ) → AccountOp
  reset : (token password : ℕ) → AccountOp
  confirm : (token : ℕ) → AccountOp
  google : (code nonce : ℕ) → AccountOp
  act_as_guest : GuestContact → AccountOp

abbrev pub or_same : Accounts → Result Accounts → Accounts
or_same db (ok db') = db'
or_same db (err e) = db

module _ (config : TokenConfig) (x : Externals) where
  -- What a call at the time `now` leaves, with what it draws.
  unfoldable pub step : AccountOp → Draws → ℕ → Accounts → Accounts
  step (log_in email password) draws now db = (login config x email password draws now db).1
  step (sign_up email name password) draws now db =
      (register config x email name password draws now db).1
  step (refresh token) draws now db = (rotate config token draws.refresh now db).1
  step (log_out token) draws now db = revoke_family_by_token config token now db
  step (forget email) draws now db = or_same db (forgot_password config x email draws now db)
  step (reset token password) draws now db = (reset_password config x token password draws now db).1
  step (confirm token) draws now db = (confirm_email config x token now db).1
  step (google code nonce) draws now db = (google_auth config x code nonce draws now db).1
  step (act_as_guest contact) draws now db = (resolve_actor Option.none (Option.some contact) db).1

  unfoldable pub run : List (ℕ × Draws × AccountOp) → Accounts → Accounts
  run [] db = db
  run ((now, draws, op) ∷ ops) db = run ops (step op draws now db)
