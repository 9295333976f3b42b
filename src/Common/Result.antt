-- ===== src/Common/Result.antt =====
-- const.go and errors.go: the typed error of the package, and the pair of a value and an error as a result.
use Prim.Native.String.{String}
use mathlib.Core.Path.{◌≡◌, refl}
use mathlib.Core.Logic.{◌⊎◌, inl, inr}
use mathlib.Core.Bool.{Bool, true, false}
use mathlib.Core.Option.{Option, none, some}

pub data ErrorCode : Type 0 where
  invalid_argument unauthorized invalid_access_token invalid_response decode_response : ErrorCode
  transport_failure storage_failure certificate_invalid spec_not_found : ErrorCode
  protocol_failure feature_not_portable : ErrorCode

-- `fault code op msg` is `&Error{Code, Op, Msg}`, `wrapped` is the result of `Wrap`, `context` that of
-- `fmt.Errorf("text: %w", err)`, and `opaque` is an error that another package returned, or a plain text.
pub data Fault : Type 0 where
  fault : ErrorCode → String → String → Fault
  wrapped : ErrorCode → String → Fault → Fault
  context : String → Fault → Fault
  opaque : String → Fault

pub data Result {ℓ} (A : Type ℓ) : Type ℓ where
  ok : A → Result A
  err : Fault → Result A

-- The next call is made only if this one has not failed.
infixl 5 ◌>>=◌ ◌>>◌
abbrev pub ◌>>=◌ {ℓ κ} : {V : Type ℓ} {W : Type κ} (r : Result V) (next : V → Result W) → Result W
err e >>= next = err e
ok v >>= next = next v

abbrev pub ◌>>◌ {κ} : {W : Type κ} (r : Result (Unit {0})) (next : Result W) → Result W
r >> next = r >>= λ _. next

-- `if test { return err }`.
abbrev pub fail_if : Bool → Fault → Result (Unit {0})
fail_if true e = err e
fail_if false e = ok tt

-- An `error` that a call returns, as the fault `e`.
abbrev pub or_fail {ℓ} : {A : Type ℓ} → Option A → Fault → Result A
or_fail none e = err e
or_fail (some a) e = ok a

-- A sequence of two calls succeeds only if both do.
pub >>=-eq-ok {ℓ κ} :
    {V : Type ℓ} {W : Type κ} (r : Result V) (next : V → Result W) {w : W}
    → (r >>= next) ≡ ok w
    → (v : V) × (r ≡ ok v) × (next v ≡ ok w)
>>=-eq-ok (err e) next both = cc
>>=-eq-ok (ok v) next both = (v, refl, both)

pub fail_if-eq-ok : (b : Bool) (e : Fault) {u : Unit {0}} → fail_if b e ≡ ok u → b ≡ false
fail_if-eq-ok true e h = cc
fail_if-eq-ok false e h = refl

pub Result-cases {ℓ} :
    {A : Type ℓ} (r : Result A) → ((a : A) × (r ≡ ok a)) ⊎ ((e : Fault) × (r ≡ err e))
Result-cases (ok a) = inl (a, refl)
Result-cases (err e) = inr (e, refl)
