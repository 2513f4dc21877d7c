-- ===== src/Permissions.antt =====
-- src/shared/permissions.ts, src/http/hooks/auth.ts and store-role.ts: who a caller is, and what the
-- roles of its token let it do. Checking the signature of a token is a parameter, `verify`.
use udv_shop_api.Prelude.{
  ℕ, Bool, true, false, not, ◌&&◌, ◌||◌, Option, none, some, List, [], ◌∷◌, ltb, ◌==◌, any, all,
  if◌then◌else◌,
}
use udv_shop_api.Errors.{Result, ok, err, unauthorized, forbidden, failure, ◌>>=◌}
use udv_shop_api.Schema.{Store, StoreStatus}

pub data Persona : Type 0 where
  platform_admin store_owner store_admin store_staff customer : Persona

abbrev persona_rank : Persona → ℕ
persona_rank platform_admin = 0
persona_rank store_owner = 1
persona_rank store_admin = 2
persona_rank store_staff = 3
persona_rank customer = 4

abbrev pub same_persona : Persona → Persona → Bool
same_persona p q = persona_rank p == persona_rank q

-- The role that a token names for a store. A name that is none of the three is `other`.
pub data RoleName : Type 0 where
  owner admin staff other : RoleName

-- The claims of an access token.
pub record Claims : Type 0 where
  pub sub : ℕ
  pub is_platform_admin : Bool
  pub roles : List (ℕ × RoleName)

-- `ROLE_TO_PERSONA`
abbrev pub persona_of_role : RoleName → Option Persona
persona_of_role owner = some store_owner
persona_of_role admin = some store_admin
persona_of_role staff = some store_staff
persona_of_role other = none

unfoldable pub role_personas : List (ℕ × RoleName) → List Persona
role_personas [] = []
role_personas ((store_id, role) ∷ roles) = elim (persona_of_role role) [
  | none ↦ role_personas roles
  | some p ↦ p ∷ role_personas roles
]

-- `personasOf`, a set kept as a list.
unfoldable pub personas_of : Claims → List Persona
personas_of user =
    let held = customer ∷ role_personas user.roles in
    if user.is_platform_admin then platform_admin ∷ held else held

abbrev pub has_persona : List Persona → Persona → Bool
has_persona held p = any (same_persona p) held

-- What a route declares.
pub record RouteConfig : Type 0 where
  pub is_public : Bool
  pub optional_auth : Bool
  pub any_of : List Persona
  pub all_of : List Persona

abbrev pub require_user : Option Claims → Result Claims
require_user none = err (unauthorized "unauthenticated")
require_user (some user) = ok user

abbrev is_empty {ℓ} : {A : Type ℓ} → List A → Bool
is_empty [] = true
is_empty (x ∷ xs) = false

-- What the header says: nothing, something that is no bearer token, or a token.
pub data Authorization : Type 0 where
  absent malformed : Authorization
  bearer : (token : ℕ) → Authorization

module _ (verify : ℕ → Result Claims) where
  abbrev claims_of : ℕ → Result (Option Claims)
  claims_of token = verify token >>= λ claims. ok (some claims)

  -- `authHook`: who the request comes from.
  unfoldable pub auth_hook : RouteConfig → Authorization → Result (Option Claims)
  auth_hook config absent =
      if config.is_public then ok none else err (unauthorized "missing_bearer_token")
  auth_hook config malformed =
      if config.is_public && not config.optional_auth
      then ok none
      else err (unauthorized "missing_bearer_token")
  auth_hook config (bearer token) =
      if config.is_public && not config.optional_auth then ok none else claims_of token

  -- `optionalUser`
  unfoldable pub optional_user : Authorization → Option Claims
  optional_user (bearer token) = elim (verify token) [ ok claims ↦ some claims | err e ↦ none ]
  optional_user _ = none

-- `permissionsHook`
unfoldable pub permissions_hook : RouteConfig → Option Claims → Result (Unit {0})
permissions_hook config user =
    if config.is_public
    then ok tt
    else (if is_empty config.any_of && is_empty config.all_of
        then err (failure "route declared no permissions")
        else (require_user user >>= λ claims.
            (if not (is_empty config.any_of)
                && not (any (has_persona (personas_of claims)) config.any_of)
              then err (forbidden "insufficient_persona")
              else (if all (has_persona (personas_of claims)) config.all_of
                  then ok tt
                  else err (forbidden "insufficient_persona")))))

-- `ORDER`, which has no entry for another name.
abbrev pub role_order : RoleName → Option ℕ
role_order staff = some 1
role_order admin = some 2
role_order owner = some 3
role_order other = none

-- `ORDER[role] < ORDER[min]`: a comparison with `undefined` is false.
abbrev pub is_below : Option ℕ → Option ℕ → Bool
is_below (some a) (some b) = ltb a b
is_below _ _ = false

unfoldable pub role_in : ℕ → List (ℕ × RoleName) → Option RoleName
role_in store_id [] = none
role_in store_id ((s, role) ∷ roles) = if s == store_id then some role else role_in store_id roles

abbrev pub has_role : Option RoleName → RoleName → Bool
has_role none min = false
has_role (some role) min = not (is_below (role_order role) (role_order min))

-- `requireStoreRole`
unfoldable pub require_store_role : Option Claims → ℕ → RoleName → Result Claims
require_store_role user store_id min = require_user user >>= λ claims.
    (if claims.is_platform_admin || has_role (role_in store_id claims.roles) min
      then ok claims
      else err (forbidden "insufficient_store_role"))

abbrev is_suspended : StoreStatus → Bool
is_suspended StoreStatus.suspended = true
is_suspended _ = false

-- `requireWritableStore`
unfoldable pub require_writable_store : Option Claims → Store → Result Claims
require_writable_store user store = require_user user >>= λ claims.
    (if not claims.is_platform_admin && is_suspended store.status
      then err (forbidden "store_suspended")
      else ok claims)
