-- ===== src/Base/Results.antt =====
-- Go's pair of a value and an error, with a constructor for a run-time panic.
use mathlib.Core.Path.{◌≡◌, refl, ap}
use mathlib.Core.Bool.{Bool, true, false}
use mathlib.Core.Option.{Option, none, some}

pub data Result {ℓ κ} (E : Type ℓ) (A : Type κ) : Type (ℓ ⊔ κ) where
  panic : Result E A
  err : E → Result E A
  ok : A → Result E A

module _ {ℓ κ μ} {E : Type ℓ} {A : Type κ} {B : Type μ} where
  infixl 5 ◌>>=◌
  abbrev pub ◌>>=◌ : Result E A → (A → Result E B) → Result E B
  panic >>= next = panic
  err failure >>= next = err failure
  ok value >>= next = next value

  -- What a successful run went through.
  pub >>=-eq-ok :
      (run : Result E A) (next : A → Result E B) {out : B}
      → run >>= next ≡ ok out
      → (value : A) × (run ≡ ok value) × (next value ≡ ok out)
  >>=-eq-ok panic next done = cc
  >>=-eq-ok (err failure) next done = cc
  >>=-eq-ok (ok value) next done = (value, refl, done)

-- `fmt.Errorf("…: %w", err)`: the error is wrapped, a panic goes through.
module _ {ℓ κ μ} {E : Type ℓ} {F : Type κ} {A : Type μ} where
  abbrev pub map_err : (E → F) → Result E A → Result F A
  map_err wrap panic = panic
  map_err wrap (err failure) = err (wrap failure)
  map_err wrap (ok value) = ok value

-- The value of a success, or the default.
ok_value {ℓ κ} : {E : Type ℓ} {A : Type κ} → A → Result E A → A
ok_value default panic = default
ok_value default (err failure) = default
ok_value default (ok value) = value

pub ok-injective {ℓ κ} :
    {E : Type ℓ} {A : Type κ} (default : A) {x y : A} → ◌≡◌ {A = Result E A} (ok x) (ok y) → x ≡ y
unfolding ok_value
ok-injective default same = ap (ok_value default) same

pub map_err_ok {ℓ κ μ} :
    {E : Type ℓ} {F : Type κ} {A : Type μ} (wrap : E → F) (run : Result E A) {value : A}
    → map_err wrap run ≡ ok value
    → run ≡ ok value
map_err_ok wrap panic done = cc
map_err_ok wrap (err failure) done = cc
map_err_ok wrap (ok x) {value} done = ap ok (ok-injective value done)

-- The value of an option, or an error; and an early return on a test.
module _ {ℓ} {E : Type ℓ} where
  abbrev pub require : {A : Type 0} → Option A → E → Result E A
  require none e = err e
  require (some a) e = ok a

  abbrev pub forbid : Bool → E → Result E (Unit {0})
  forbid true e = err e
  forbid false e = ok tt

  pub require_ok : {A : Type 0} (o : Option A) (e : E) {a : A} → require o e ≡ ok a → o ≡ some a
  require_ok none e h = cc
  require_ok (some b) e {a} h = ap some (ok-injective a h)

  pub forbid_ok : (b : Bool) (e : E) {u : Unit {0}} → forbid b e ≡ ok u → b ≡ false
  forbid_ok true e h = cc
  forbid_ok false e h = refl

-- Runs that do not panic, and that a run composed of such runs is one.
abbrev pub is_panic {ℓ κ} : {E : Type ℓ} {A : Type κ} → Result E A → Bool
is_panic panic = true
is_panic (err failure) = false
is_panic (ok value) = false

pub >>=-is_panic {ℓ κ μ} :
    {E : Type ℓ} {A : Type κ} {B : Type μ} (m : Result E A) (next : A → Result E B)
    → is_panic m ≡ false
    → ((a : A) → m ≡ ok a → is_panic (next a) ≡ false)
    → is_panic (m >>= next) ≡ false
>>=-is_panic panic next h k = cc
>>=-is_panic (err failure) next h k = refl
>>=-is_panic (ok value) next h k = k value refl

pub map_err-is_panic {ℓ κ μ} :
    {E : Type ℓ} {F : Type κ} {A : Type μ} (wrap : E → F) (m : Result E A)
    → is_panic m ≡ false
    → is_panic (map_err wrap m) ≡ false
map_err-is_panic wrap panic h = cc
map_err-is_panic wrap (err failure) h = refl
map_err-is_panic wrap (ok value) h = refl
