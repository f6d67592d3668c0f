-- ===== src/Fields/Readiness/Gaps.antt =====
-- internal/field/service.go, the loop of `syncFieldState` that opens and resolves the gaps.
use pfas_load_control.Base.{
  ℕ, zero, suc, ◌≡◌, refl, sym, ◌∙◌, ap, subst, inl, inr, Bool, true, false, ◌&&◌, ◌||◌, ◌==◌,
  ==-refl, ==-true, &&-eq-true, List, [], ◌∷◌, ◌++◌, any, any_last, change, changed, if◌then◌else◌,
  Bool-cases, arith,
}
use pfas_load_control.Workspace.{Uuid, Time}
use pfas_load_control.Fields.Model.{
  GapCode, location_unresolved, location_ambiguous, outside_michigan, geometry_unconfirmed,
  rmp_approval_missing, usable_acres_missing, agronomic_rate_missing, prior_loading_missing,
  FieldGapRow,
}
use pfas_load_control.Fields.Readiness.{
  code_number, has_key, is_open_gap, reopened, resolved, open_field_gap, resolve_field_gap,
  sync_gaps,
}

-- Has the field an open gap of the code?
abbrev pub has_open : Uuid → GapCode → List FieldGapRow → Bool
has_open id code rows = any (is_open_gap id code) rows

-- Is it another field or another code?
abbrev pub same_key : Uuid → GapCode → Uuid → GapCode → Bool
same_key id code other other_code = id == other && code_number code == code_number other_code

any-change :
    (q p : FieldGapRow → Bool) (f : FieldGapRow → FieldGapRow) (rows : List FieldGapRow)
    → ((row : FieldGapRow) → q (changed p f row) ≡ q row)
    → any q (change p f rows) ≡ any q rows
unfolding change
any-change q p f [] same = refl
any-change q p f (row ∷ rows) same = rw (same row, any-change q p f rows same) refl

other_key :
    (id id' : Uuid) (code code' : GapCode) (row : FieldGapRow)
    → same_key id code id' code' ≡ false
    → has_key id code row ≡ true
    → has_key id' code' row ≡ false
other_key id id' code code' row h k = ground arith

module _ (id id' : Uuid) (code code' : GapCode) (apart : same_key id code id' code' ≡ false) where
  open_field_gap_elsewhere :
      (rows : List FieldGapRow)
      → has_open id' code' (open_field_gap id code rows) ≡ has_open id' code' rows
  unfolding open_field_gap
  open_field_gap_elsewhere rows = elim (Bool-cases (any (has_key id code) rows)) [
    | inl known ↦ rw known (
        any-change (is_open_gap id' code') (has_key id code) (reopened code) rows (λ row.
          elim (Bool-cases (has_key id code row)) [
            | inl mine ↦ rw (mine, other_key id id' code code' row apart mine) refl
            | inr foreign ↦ rw foreign refl
          ]))
    | inr unknown ↦ rw unknown (any_other (is_open_gap id' code') rows _ (rw apart refl))
  ]
    where
      any_other :
          (q : FieldGapRow → Bool) (xs : List FieldGapRow) (x : FieldGapRow)
          → q x ≡ false
          → any q (xs ++ x ∷ []) ≡ any q xs
      any_other q [] x h = rw h refl
      any_other q (y ∷ ys) x h = rw (any_other q ys x h) refl

  resolve_field_gap_elsewhere :
      (now : Time) (rows : List FieldGapRow)
      → has_open id' code' (resolve_field_gap id code now rows) ≡ has_open id' code' rows
  unfolding resolve_field_gap
  resolve_field_gap_elsewhere now rows =
      any-change (is_open_gap id' code') (is_open_gap id code) (resolved now) rows (λ row.
        elim (Bool-cases (is_open_gap id code row)) [
          | inl mine ↦
              let (key, open_row) = &&-eq-true (has_key id code row) row.is_open mine in
              rw (mine, other_key id id' code code' row apart key) refl
          | inr foreign ↦ rw foreign refl
        ])

changed_open :
    (id : Uuid) (code : GapCode) (xs : List FieldGapRow)
    → any (has_key id code) xs ≡ true
    → has_open id code (change (has_key id code) (reopened code) xs) ≡ true
unfolding change
changed_open id code [] h = cc
changed_open id code (x ∷ xs) h = elim (Bool-cases (has_key id code x)) [
  | inl here ↦ rw (here, here) refl
  | inr later ↦ rw (later, later) (changed_open id code xs (rw later at h))
]

open_field_gap_here :
    (id : Uuid) (code : GapCode) (rows : List FieldGapRow)
    → has_open id code (open_field_gap id code rows) ≡ true
unfolding open_field_gap
open_field_gap_here id code rows = elim (Bool-cases (any (has_key id code) rows)) [
  | inl known ↦ rw known (changed_open id code rows known)
  | inr unknown ↦
      rw unknown
        (any_last (is_open_gap id code) rows _ (rw (==-refl id, ==-refl (code_number code)) refl))
]

resolve_field_gap_here :
    (id : Uuid) (code : GapCode) (now : Time) (rows : List FieldGapRow)
    → has_open id code (resolve_field_gap id code now rows) ≡ false
unfolding resolve_field_gap change
resolve_field_gap_here id code now [] = refl
resolve_field_gap_here id code now (row ∷ rows) = elim (Bool-cases (is_open_gap id code row)) [
  | inl mine ↦ rw mine (closed_and (has_key id code row) (resolve_field_gap_here id code now rows))
  | inr other ↦ rw (other, other) (resolve_field_gap_here id code now rows)
]
  where
    closed_and : (a : Bool) {b : Bool} → b ≡ false → ((a && false) || b) ≡ false
    closed_and a h = ground arith

code_at : ℕ → GapCode
code_at zero = location_unresolved
code_at (suc zero) = location_ambiguous
code_at (suc (suc zero)) = outside_michigan
code_at (suc (suc (suc zero))) = geometry_unconfirmed
code_at (suc (suc (suc (suc zero)))) = rmp_approval_missing
code_at (suc (suc (suc (suc (suc zero))))) = usable_acres_missing
code_at (suc (suc (suc (suc (suc (suc zero)))))) = agronomic_rate_missing
code_at _ = prior_loading_missing

code_at-code_number : (code : GapCode) → code_at (code_number code) ≡ code
unfolding code_at
code_at-code_number location_unresolved = refl
code_at-code_number location_ambiguous = refl
code_at-code_number outside_michigan = refl
code_at-code_number geometry_unconfirmed = refl
code_at-code_number rmp_approval_missing = refl
code_at-code_number usable_acres_missing = refl
code_at-code_number agronomic_rate_missing = refl
code_at-code_number prior_loading_missing = refl

abbrev pub same_code : GapCode → GapCode → Bool
same_code c code = code_number code == code_number c

same_code-true : (c code : GapCode) → same_code c code ≡ true → code ≡ c
same_code-true c code h =
    sym (code_at-code_number code)
    ∙ ap (λ (n : ℕ). code_at n) (==-true (code_number code) (code_number c) h)
    ∙ code_at-code_number c

module _ (opens : GapCode → Bool) (id : Uuid) (now : Time) where
  -- The step for one code.
  abbrev synced : GapCode → List FieldGapRow → List FieldGapRow
  synced code rows =
      if opens code then open_field_gap id code rows else resolve_field_gap id code now rows

  sync_gaps_step :
      (code : GapCode) (rest : List GapCode) (rows : List FieldGapRow)
      → sync_gaps opens id now (code ∷ rest) rows ≡ sync_gaps opens id now rest (synced code rows)
  unfolding sync_gaps
  sync_gaps_step code rest rows = elim (Bool-cases (opens code)) [
    | inl opened ↦ rw opened refl
    | inr closed ↦ rw closed refl
  ]

  synced_here :
      (code : GapCode) (rows : List FieldGapRow) → has_open id code (synced code rows) ≡ opens code
  synced_here code rows = elim (Bool-cases (opens code)) [
    | inl opened ↦ rw opened (open_field_gap_here id code rows)
    | inr closed ↦ rw closed (resolve_field_gap_here id code now rows)
  ]

  synced_elsewhere :
      (id' : Uuid) (code code' : GapCode) (rows : List FieldGapRow)
      → same_key id code id' code' ≡ false
      → has_open id' code' (synced code rows) ≡ has_open id' code' rows
  synced_elsewhere id' code code' rows apart = elim (Bool-cases (opens code)) [
    | inl opened ↦ rw opened (open_field_gap_elsewhere id id' code code' apart rows)
    | inr closed ↦ rw closed (resolve_field_gap_elsewhere id id' code code' apart now rows)
  ]

  pub sync_gaps_here :
      (c : GapCode) (codes : List GapCode) (rows : List FieldGapRow)
      → has_open id c (sync_gaps opens id now codes rows)
        ≡ (if any (same_code c) codes then opens c else has_open id c rows)
  unfolding sync_gaps
  sync_gaps_here c [] rows = refl
  sync_gaps_here c (code ∷ rest) rows =
      ap (λ (gaps : List FieldGapRow). has_open id c gaps) (sync_gaps_step code rest rows)
      ∙ sync_gaps_here c rest (synced code rows)
      ∙ elim (Bool-cases (same_code c code)) [
        | inl same ↦
            let now_is : has_open id c (synced code rows) ≡ opens c =
              subst (λ (d : GapCode). has_open id d (synced code rows) ≡ opens d)
                (same_code-true c code same) (synced_here code rows) in
            rw (same, now_is) (both (any (same_code c) rest) (opens c))
        | inr other ↦ rw (other, synced_elsewhere id code c rows (rw (==-refl id, other) refl)) refl
      ]
    where
      both : (b x : Bool) → (if b then x else x) ≡ x
      both true x = refl
      both false x = refl

  pub sync_gaps_elsewhere :
      (id' : Uuid) (c : GapCode) (codes : List GapCode) (rows : List FieldGapRow)
      → (id == id') ≡ false
      → has_open id' c (sync_gaps opens id now codes rows) ≡ has_open id' c rows
  unfolding sync_gaps
  sync_gaps_elsewhere id' c [] rows apart = refl
  sync_gaps_elsewhere id' c (code ∷ rest) rows apart =
      ap (λ (gaps : List FieldGapRow). has_open id' c gaps) (sync_gaps_step code rest rows)
      ∙ sync_gaps_elsewhere id' c rest (synced code rows) apart
      ∙ synced_elsewhere id' code c rows (rw apart refl)
