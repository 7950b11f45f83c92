-- ===== src/Base/Results.antt =====
-- A value with a Go `error` beside it: the value, or the error's message.
use Prim.Native.String.{String}
use mathlib.Core.Path.{◌≡◌, refl}
use mathlib.Core.Logic.{◌⊎◌, inl, inr}
use mathlib.Core.Bool.{Bool, true, false}

pub data Result {κ} (V : Type κ) : Type κ where
  ok : V → Result V
  err : String → Result V

abbrev pub IsOk {κ} : {V : Type κ} → Result V → Type 0
IsOk (ok v) = Unit
IsOk (err message) = ⊥

-- `if !b { return errors.New(message) }`
abbrev pub guard : Bool → String → Result (Unit {0})
guard false message = err message
guard true message = ok tt

-- `v, err := …; if err != nil { return err }`, and the rest.
abbrev pub ◌>>=◌ {κ μ} : {V : Type κ} {W : Type μ} → Result V → (V → Result W) → Result W
err message >>= rest = err message
ok v >>= rest = rest v

abbrev pub ◌>>◌ {κ} : {W : Type κ} → Result (Unit {0}) → Result W → Result W
test >> rest = test >>= λ _. rest

infixl 5 ◌>>=◌ ◌>>◌
-- The steps of a chain that succeeds have succeeded.
pub ok_parts {κ μ} :
    {V : Type κ} {W : Type μ} (first : Result V) (rest : V → Result W) {w : W}
    → (first >>= rest) ≡ ok w
    → (v : V) × (first ≡ ok v) × (rest v ≡ ok w)
ok_parts (err message) rest e = cc
ok_parts (ok v) rest e = (v, refl, e)

pub guard-eq-ok : (b : Bool) (e : String) {u : Unit {0}} → guard b e ≡ ok u → b ≡ true
guard-eq-ok true e h = refl
guard-eq-ok false e h = cc

-- A test and then a value.
pub guarded {ℓ} :
    {A : Type ℓ} (b : Bool) (e : String) (a : A) {x : A}
    → (guard b e >> ok a) ≡ ok x
    → (b ≡ true) × (a ≡ x)
guarded true e a h = (refl, cc)
guarded false e a h = cc

-- A test before the rest of a chain.
pub passed {κ} :
    {W : Type κ} (b : Bool) (message : String) (rest : Result W) {w : W}
    → (guard b message >> rest) ≡ ok w
    → (b ≡ true) × (rest ≡ ok w)
passed true message rest h = (refl, h)
passed false message rest h = cc

pub ok_eq {κ} : {V : Type κ} (v w : V) → ok v ≡ ok w → v ≡ w
ok_eq v w h = cc

pub Result-cases {κ} :
    {V : Type κ} (r : Result V) → ((v : V) × (r ≡ ok v)) ⊎ ((message : String) × (r ≡ err message))
Result-cases (ok v) = inl (v, refl)
Result-cases (err message) = inr (message, refl)
