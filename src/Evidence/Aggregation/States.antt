-- ===== src/Evidence/Aggregation/States.antt =====
-- internal/evidence/aggregation.go, the state of an aggregate, from its three counts.
use pfas_load_control.Base.{
  ℕ, suc, ◌≤◌, ◌<◌, ◌≡◌, refl, sym, ap, subst, inl, inr, ◌↔◌, Bool, true, false, not, ◌||◌, ◌==◌,
  ==-refl, ==-true, ltb, String, str_eq, if◌then◌else◌, Bool-cases, arith,
}

-- The state for the numbers that the counts come to.
abbrev pub state_in : ℕ → ℕ → ℕ → ℕ → String
state_in n a b c = if not (a == n) || ltb 0 b || ltb 0 c then "PARTIAL" else "COMPLETE"

state_in_complete : (n a b c : ℕ) → state_in n a b c ≡ "COMPLETE" → (a ≡ n) × (b ≡ 0) × (c ≡ 0)
state_in_complete n a b c h = elim (Bool-cases (not (a == n) || ltb 0 b || ltb 0 c)) [
  | inl partial ↦
      let absurd : ◌≡◌ {A = Bool} false true =
        ap (λ (t : String). str_eq t "COMPLETE") (rw partial at h) in
      cc
  | inr complete ↦ (ground arith, ground arith, ground arith)
]

state_in_sound : (n b c : ℕ) → b ≡ 0 → c ≡ 0 → state_in n n b c ≡ "COMPLETE"
state_in_sound n b c e1 e2 = rw (==-refl n, e1, e2) refl

abbrev pub final_state : ℕ → ℕ → ℕ → ℕ → String
final_state n a b c = if a == 0 then "UNAVAILABLE" else state_in n a b c

not_unavailable : (n a b c : ℕ) → state_in n a b c ≡ "UNAVAILABLE" → ⊥
not_unavailable n a b c h = elim (Bool-cases (not (a == n) || ltb 0 b || ltb 0 c)) [
  | inl partial ↦
      let absurd : ◌≡◌ {A = Bool} false true =
        ap (λ (t : String). str_eq t "UNAVAILABLE") (rw partial at h) in
      cc
  | inr complete ↦
      let absurd : ◌≡◌ {A = Bool} false true =
        ap (λ (t : String). str_eq t "UNAVAILABLE") (rw complete at h) in
      cc
]

pub final_state_unavailable : (n a b c : ℕ) → (final_state n a b c ≡ "UNAVAILABLE") ↔ (a ≡ 0)
final_state_unavailable n a b c = elim (Bool-cases (a == 0)) [
  | inl nothing ↦ rw nothing (λ h. ==-true a 0 nothing, λ e. refl)
  | inr something ↦ rw something (
    λ h. elim (not_unavailable n a b c h) [ ],
    λ e.
        let absurd : ◌≡◌ {A = Bool} false true =
          subst (λ (m : ℕ). false ≡ (m == 0)) e (sym something) in
        cc,
  )
]

pub final_state_complete :
    (n a b c : ℕ) → (final_state n a b c ≡ "COMPLETE") ↔ ((0 < a) × (a ≡ n) × (b ≡ 0) × (c ≡ 0))
final_state_complete n a b c = elim (Bool-cases (a == 0)) [
  | inl nothing ↦ rw nothing (
    λ h. let absurd : ◌≡◌ {A = Bool} false true = ap (λ (t : String). str_eq t "COMPLETE") h in cc,
    λ (positive, e, eb, ec).
        let zero_a = ==-true a 0 nothing in let absurd : suc a ≤ a = omega arith in ground arith,
  )
  | inr something ↦ rw something (
    λ h. let (e, eb, ec) = state_in_complete n a b c h in (ground arith, e, eb, ec),
    λ (positive, e, eb, ec).
        subst (λ (m : ℕ). state_in m a b c ≡ "COMPLETE") e (state_in_sound a b c eb ec),
  )
]
