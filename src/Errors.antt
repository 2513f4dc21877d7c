-- ===== src/Errors.antt =====
-- src/shared/errors.ts: the errors that the handlers throw, and the code that may throw.
use Prim.Native.String.{String}
use udv_shop_api.Prelude.{
  ℕ, ◌≡◌, refl, ◌⊎◌, inl, inr, Option, none, some, Bool, true, false, if◌then◌else◌,
}

-- The subclasses of `AppError`, with their message; `failure` is a plain `Error`.
pub data AppError : Type 0 where
  not_found validation conflict unauthorized forbidden gone bad_gateway : String → AppError
  service_unavailable failure : String → AppError

-- The HTTP status of an `AppError`.
pub status_code : AppError → Option ℕ
status_code (validation m) = some 400
status_code (unauthorized m) = some 401
status_code (forbidden m) = some 403
status_code (not_found m) = some 404
status_code (conflict m) = some 409
status_code (gone m) = some 410
status_code (bad_gateway m) = some 502
status_code (service_unavailable m) = some 503
status_code (failure m) = none

-- What a statement that may throw leaves: its value, or what it threw.
pub data Result {ℓ} (Value : Type ℓ) : Type ℓ where
  ok : Value → Result Value
  err : AppError → Result Value

infixl 5 ◌>>=◌
abbrev pub ◌>>=◌ {κ ℓ} : {V : Type κ} {W : Type ℓ} → Result V → (V → Result W) → Result W
err thrown >>= next = err thrown
ok v >>= next = next v

-- `db.$transaction`: what the body wrote stays only if the body did not throw.
abbrev pub transaction {ℓ} : {S A : Type ℓ} → S → Result (A × S) → Result A × S
transaction s (ok (a, s')) = (ok a, s')
transaction s (err e) = (err e, s)

-- A chain that ends well had a first statement that did not throw.
pub >>=-eq-ok {κ ℓ} :
    {V : Type κ} {W : Type ℓ} (first : Result V) (next : V → Result W) {w : W}
    → (first >>= next) ≡ ok w
    → (v : V) × (first ≡ ok v) × (next v ≡ ok w)
>>=-eq-ok (err thrown) next h = cc
>>=-eq-ok (ok v) next h = (v, refl, h)

pub Result-cases {ℓ} :
    {A : Type ℓ} (r : Result A) → ((a : A) × (r ≡ ok a)) ⊎ ((e : AppError) × (r ≡ err e))
Result-cases (ok a) = inl (a, refl)
Result-cases (err e) = inr (e, refl)

-- A predicate of the state that a transaction leaves when it does not throw.
abbrev pub OnOk {ℓ κ} : {S : Type ℓ} {A : Type ℓ} → (S → Type κ) → Result (A × S) → Type κ
OnOk P (ok (a, s)) = P s
OnOk P (err e) = Unit

pub transaction-OnOk {ℓ κ} :
    {S : Type ℓ} {A : Type ℓ} (P : S → Type κ) (s : S) (m : Result (A × S))
    → P s
    → OnOk P m
    → P (transaction s m).1
transaction-OnOk P s (ok (a, t)) p q = q
transaction-OnOk P s (err e) p q = p

pub OnOk-intro {ℓ κ} :
    {S : Type ℓ} {A : Type ℓ} (P : S → Type κ) (m : Result (A × S))
    → ((a : A) (s : S) → m ≡ ok (a, s) → P s)
    → OnOk P m
OnOk-intro P (ok (a, s)) h = h a s refl
OnOk-intro P (err e) h = tt

-- Code outside a transaction: what it wrote before it threw stays.
abbrev pub Effects {ℓ} : Type ℓ → Type ℓ
Effects S = Option AppError × S

abbrev pub done {ℓ} : {S : Type ℓ} → S → Effects S
done s = (none, s)

-- The next statement, unless the one before threw.
abbrev pub and_then {ℓ} : {S : Type ℓ} → Effects S → (S → Effects S) → Effects S
and_then (none, s) f = f s
and_then (some e, s) f = (some e, s)

-- A call that is a transaction, its value unused.
abbrev pub commit {ℓ} : {A S : Type ℓ} → S → Result (A × S) → Effects S
commit s (ok (a, s')) = (none, s')
commit s (err e) = (some e, s)

-- A single write, which throws or writes.
abbrev pub write {ℓ} : {S : Type ℓ} → S → Result S → Effects S
write s (ok s') = (none, s')
write s (err e) = (some e, s)

-- A write that throws on a test, and did not throw.
pub unless-ok {ℓ} :
    {S : Type ℓ} (b : Bool) (e : AppError) (s s' : S) → (if b then err e else ok s) ≡ ok s' → s ≡ s'
unless-ok true e s s' h = cc
unless-ok false e s s' h = cc

pub when-ok {ℓ} :
    {S : Type ℓ} (b : Bool) (e : AppError) (s s' : S) → (if b then ok s else err e) ≡ ok s' → s ≡ s'
when-ok true e s s' h = cc
when-ok false e s s' h = cc
