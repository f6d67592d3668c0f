-- ===== src/Base/Rows.antt =====
-- Rows of a table: the first that satisfies a test, and a change of those that satisfy it.
use mathlib.Core.Path.{◌≡◌, refl, subst, ap}
use mathlib.Core.Logic.{◌⊎◌, inl, inr}
use mathlib.Core.Bool.{Bool, true, false}
use mathlib.Core.Option.{Option, none, some}
use mathlib.Core.List.{List, [], ◌∷◌, ◌++◌}
use native.Mathlib.Omega.{arith}
use pfas_load_control.Base.Tests.{if◌then◌else◌, Bool-cases, some-injective}
use pfas_load_control.Base.Lists.{any, All, All-append, All-imp, Ordered}

unfoldable pub find : {A : Type 0} → (A → Bool) → List A → Option A
find p [] = none
find p (x ∷ xs) = let rest = find p xs in if p x then some x else rest

unfoldable pub change : {A : Type 0} → (A → Bool) → (A → A) → List A → List A
change p f [] = []
change p f (x ∷ xs) = (if p x then f x else x) ∷ change p f xs

pub find-true : {A : Type 0} (p : A → Bool) (xs : List A) {x : A} → find p xs ≡ some x → p x ≡ true
unfolding find
find-true p [] h = cc
find-true p (y ∷ ys) {x} h = elim (Bool-cases (p y)) [
  | inl here ↦ subst (λ z. p z ≡ true) (some-injective (rw here at h)) here
  | inr later ↦ find-true p ys (rw later at h)
]

-- The changed row is found where the row was found.
pub find-change :
    {A : Type 0} (p : A → Bool) (f : A → A) (xs : List A) {x : A}
    → find p xs ≡ some x
    → p (f x) ≡ true
    → find p (change p f xs) ≡ some (f x)
unfolding find change
find-change p f [] h k = cc
find-change p f (y ∷ ys) {x} h k = elim (Bool-cases (p y)) [
  | inl here ↦ let same : y ≡ x = some-injective (rw here at h) in rw (here, same, k) refl
  | inr later ↦ rw (later, later) (find-change p f ys (rw later at h) k)
]

-- A row that is appended is found, or one before it.
pub find_last :
    {A : Type 0} (p : A → Bool) (xs : List A) (x : A)
    → p x ≡ true
    → (y : A) × (find p (xs ++ x ∷ []) ≡ some y)
unfolding find
find_last p [] x h = (x, rw h refl)
find_last p (y ∷ ys) x h = elim (Bool-cases (p y)) [
  | inl here ↦ (y, rw here refl)
  | inr later ↦ let (z, e) = find_last p ys x h in (z, rw later e)
]

pub find-append :
    {A : Type 0} (p : A → Bool) (xs ys : List A) {x : A}
    → find p xs ≡ some x
    → find p (xs ++ ys) ≡ some x
unfolding find
find-append p [] ys h = cc
find-append p (y ∷ xs) ys h = elim (Bool-cases (p y)) [
  | inl here ↦ rw here (rw here at h)
  | inr later ↦ rw later (find-append p xs ys (rw later at h))
]

pub any_last :
    {A : Type 0} (p : A → Bool) (xs : List A) (x : A) → p x ≡ true → any p (xs ++ x ∷ []) ≡ true
any_last p [] x h = rw h refl
any_last p (y ∷ ys) x h = elim (Bool-cases (p y)) [
  | inl e ↦ rw e refl
  | inr e ↦ rw e (any_last p ys x h)
]

pub All-find :
    {A : Type 0} (P : A → Type 0) (p : A → Bool) (xs : List A) {x : A}
    → All P xs
    → find p xs ≡ some x
    → P x
unfolding find
All-find P p [] h e = cc
All-find P p (y ∷ ys) (py, h) e = elim (Bool-cases (p y)) [
  | inl here ↦ subst P (some-injective (rw here at e)) py
  | inr later ↦ All-find P p ys h (rw later at e)
]

-- A row after a change of the rows that pass the test.
abbrev pub changed : {A : Type 0} → (A → Bool) → (A → A) → A → A
changed p f y = if p y then f y else y

pub All-change :
    {A : Type 0} (P Q : A → Type 0) (p : A → Bool) (f : A → A) (xs : List A)
    → ((y : A) → P y → Q (changed p f y))
    → All P xs
    → All Q (change p f xs)
unfolding change
All-change P Q p f [] keep h = tt
All-change P Q p f (y ∷ ys) keep (py, h) = (keep y py, All-change P Q p f ys keep h)

pub Ordered-change :
    {A : Type 0} (R : A → A → Type 0) (p : A → Bool) (f : A → A) (xs : List A)
    → ((x y : A) → R x y → R (changed p f x) (changed p f y))
    → Ordered R xs
    → Ordered R (change p f xs)
unfolding change
Ordered-change R p f [] keep h = tt
Ordered-change R p f (y ∷ ys) keep (ry, h) =
    (All-change (R y) (R (changed p f y)) p f ys (keep y) ry, Ordered-change R p f ys keep h)

-- In a list without duplicates, a row is the one that is found, or it is apart from that one.
pub All-apart :
    {A : Type 0} (R : A → A → Type 0) (p : A → Bool) (xs : List A) {x : A}
    → ((a b : A) → R a b → R b a)
    → Ordered R xs
    → find p xs ≡ some x
    → All (λ y. (y ≡ x) ⊎ R x y) xs
unfolding find
All-apart R p [] swap h e = tt
All-apart R p (y ∷ ys) {x} swap (ry, h) e = elim (Bool-cases (p y)) [
  | inl here ↦
      let same : y ≡ x = some-injective (rw here at e) in
      (
        inl same,
        All-imp (R y) (λ z. (z ≡ x) ⊎ R x z) (λ z r. inr (subst (λ a. R a z) same r)) ys ry,
      )
  | inr later ↦
      let e' = rw later at e in
      (inr (swap y x (All-find (R y) p ys ry e')), All-apart R p ys swap h e')
]

pub All-both :
    {A : Type 0} (P Q : A → Type 0) (xs : List A) → All P xs → All Q xs → All (λ x. P x × Q x) xs
All-both P Q [] h k = tt
All-both P Q (x ∷ xs) (px, h) (qx, k) = ((px, qx), All-both P Q xs h k)

-- What the test finds after a change that the test does not see.
pub find_after :
    {A : Type 0} (q p : A → Bool) (f : A → A) (xs : List A) {x : A}
    → ((y : A) → q (changed p f y) ≡ q y)
    → find q xs ≡ some x
    → find q (change p f xs) ≡ some (changed p f x)
unfolding find change
find_after q p f [] same e = cc
find_after q p f (y ∷ ys) {x} same e = elim (Bool-cases (q y)) [
  | inl here ↦
      let is_x : y ≡ x = some-injective (rw here at e) in
      rw (same y, here) (ap (λ z. some (changed p f z)) is_x)
  | inr later ↦ rw (same y, later) (find_after q p f ys same (rw later at e))
]

pub Ordered-last :
    {A : Type 0} (R : A → A → Type 0) (xs : List A) (x : A)
    → Ordered R xs
    → All (λ y. R y x) xs
    → Ordered R (xs ++ x ∷ [])
Ordered-last R [] x h k = (tt, tt)
Ordered-last R (y ∷ ys) x (ry, h) (k, ks) =
    (All-append (R y) ys (x ∷ []) ry (k, tt), Ordered-last R ys x h ks)

-- No row passes a test that `any` refuses.
pub All-any :
    {A : Type 0} (p : A → Bool) (xs : List A) → any p xs ≡ false → All (λ x. p x ≡ false) xs
All-any p [] h = tt
All-any p (x ∷ xs) h = (ground arith, All-any p xs (ground arith))

-- A row that is appended is found, where no row before it passes the test.
pub find_new :
    {A : Type 0} (p : A → Bool) (xs : List A) (x : A)
    → All (λ y. p y ≡ false) xs
    → p x ≡ true
    → find p (xs ++ x ∷ []) ≡ some x
unfolding find
find_new p [] x h e = rw e refl
find_new p (y ∷ ys) x (h, hs) e = rw h (find_new p ys x hs e)

pub find-any :
    {A : Type 0} (p : A → Bool) (xs : List A) → any p xs ≡ true → (x : A) × (find p xs ≡ some x)
unfolding find
find-any p [] h = cc
find-any p (x ∷ xs) h = elim (Bool-cases (p x)) [
  | inl here ↦ (x, rw here refl)
  | inr later ↦ let (y, e) = find-any p xs (rw later at h) in (y, rw later e)
]
