-- ===== src/ActionCenter/Execute/Edits.antt =====
-- internal/actioncenter/service.go, `UpdatePayload` before `Execute`.
use pfas_load_control.Base.{
  forbid_ok, forbid, find-true, require, find-change, require_ok, ◌+◌, Bool, true, false, not,
  not-true, ◌&&◌, ◌||◌, Option, none, some, [], Text, text_eq, if◌then◌else◌, ok, err, >>=-eq-ok,
  ok-injective, ◌≡◌, refl, sym, ap, subst, ◌⊎◌, inl, inr, Bool-cases, Option-cases, &&-eq-true,
  arith,
}
use pfas_load_control.ActionCenter.Model.{
  Uuid, Time, ActionPayload, proposed, ActionRecord, ControlledAction, UpdatePayloadInput,
  not_found, conflict, DecisionPackage,
}
use pfas_load_control.ActionCenter.Payloads.{
  Outcome, is_control, payload_of, validate_draft_payload,
}
use pfas_load_control.ActionCenter.Store.{
  ExecutionAttempt, Store, is_action, attempt_by_key, get_action, change_action, hydrate_action,
  action_context,
}
use pfas_load_control.ActionCenter.Decide.{
  is_executed, is_rejected, edited, with_payload, update_payload,
}
use pfas_load_control.ActionCenter.Execute.{
  Fresh, is_approved, execute_once, execute_row, execute_keyed,
}

||-false : (a b : Bool) → (a || b) ≡ false → a ≡ false
||-false a b h = ground arith

-- What an edit did: nothing, where the payload is the current one, or a new revision that nobody
-- has approved and that is not executed.
module _ (hash : Text → Option Text) (parse_id : Text → Option Uuid)
    (hash_payload : ActionPayload → Text)
    (get_package : Text → Uuid → Outcome DecisionPackage) where
  pub record IsEdited (workspace id : Uuid) (input : UpdatePayloadInput) (s s' : Store)
      (a r : ActionRecord) : Type 0 where
    pub found : get_action workspace id s' ≡ some a
    pub revised : a.revision ≡ r.revision + 1
    pub unreviewed : a.status ≡ proposed
    pub hashed : a.payload_hash ≡ hash_payload (edited input (payload_of r))
    pub replaced : payload_of a ≡ edited input (payload_of r)
    pub refused :
        (key idempotency_key : Text) (fresh : Fresh)
        → ((attempt_by_key id idempotency_key s ≡ none)
            × (execute_keyed hash parse_id get_package key workspace id idempotency_key fresh s'
                ≡ err (conflict "approve the current payload before execution")))
          ⊎ ((attempt : ExecutionAttempt) × (attempt_by_key id idempotency_key s ≡ some attempt)
              × (execute_keyed hash parse_id get_package key workspace id idempotency_key fresh s'
                  ≡ ok (s', hydrate_action a [] (some attempt.receipt))))

  execute_row-unapproved :
      (workspace id : Uuid) (s : Store) (r : ActionRecord) (key idempotency_key : Text)
      (fresh : Fresh)
      → get_action workspace id s ≡ some r
      → is_control r.execution_mode ≡ false
      → is_executed r.status ≡ false
      → is_approved r.status ≡ false
      → execute_row hash parse_id get_package key workspace id idempotency_key fresh s
        ≡ err (conflict "approve the current payload before execution")
  unfolding execute_row execute_once
  execute_row-unapproved workspace id s r key idempotency_key fresh found open_mode todo
        unapproved =
      rw (found, open_mode, todo, unapproved) refl

  -- Before the row is looked at, an attempt with the key is answered by its receipt.
  execute_keyed-unapproved :
      (workspace id : Uuid) (s : Store) (r : ActionRecord) (key idempotency_key : Text)
      (fresh : Fresh)
      → get_action workspace id s ≡ some r
      → is_control r.execution_mode ≡ false
      → is_executed r.status ≡ false
      → is_approved r.status ≡ false
      → ((attempt_by_key id idempotency_key s ≡ none)
          × (execute_keyed hash parse_id get_package key workspace id idempotency_key fresh s
              ≡ err (conflict "approve the current payload before execution")))
        ⊎ ((attempt : ExecutionAttempt) × (attempt_by_key id idempotency_key s ≡ some attempt)
            × (execute_keyed hash parse_id get_package key workspace id idempotency_key fresh s
                ≡ ok (s, hydrate_action r [] (some attempt.receipt))))
  unfolding execute_keyed
  execute_keyed-unapproved workspace id s r key idempotency_key fresh found open_mode todo
        unapproved =
      elim (Option-cases (attempt_by_key id idempotency_key s)) [
        | inl first ↦ inl (
          first,
          rw (execute_keyed, first)
              (execute_row-unapproved workspace id s r key idempotency_key fresh found open_mode
                todo unapproved),
        )
        | inr (attempt, stored) ↦ inr (attempt, stored, rw (execute_keyed, stored, found) refl)
      ]

  edit_cases :
      (workspace id : Uuid) (input : UpdatePayloadInput) (now : Time) (s : Store) (r : ActionRecord)
      {out : Store × ControlledAction}
      → get_action workspace id s ≡ some r
      → (is_control r.execution_mode || is_executed r.status) ≡ false
      → ◌≡◌ {A = Outcome (Store × ControlledAction)}
          (if text_eq (hash_payload (edited input (payload_of r))) r.payload_hash
              && not (is_rejected r.status)
            then ok (s, hydrate_action r [] none)
            else ok (
              change_action workspace id
                  (with_payload
                    (edited input (payload_of r))
                    (hash_payload (edited input (payload_of r)))
                    now)
                  s,
              hydrate_action
                  (with_payload
                    (edited input (payload_of r))
                    (hash_payload (edited input (payload_of r)))
                    now
                    r)
                  []
                  none,
            ))
          (ok out)
      → ((out.0 ≡ s)
          × (text_eq (hash_payload (edited input (payload_of r))) r.payload_hash ≡ true)
          × (is_rejected r.status ≡ false))
        ⊎ IsEdited workspace id input s out.0 out.1.row r
  unfolding hydrate_action change_action get_action attempt_by_key
  edit_cases workspace id input now s r {out} found open_action e =
      let payload = edited input (payload_of r) in
      let f = with_payload payload (hash_payload payload) now in
      let moved =
        find-change (is_action workspace id) f s.actions found
          (find-true (is_action workspace id) s.actions found) in
      elim (Bool-cases
        (text_eq (hash_payload payload) r.payload_hash && not (is_rejected r.status))) [
          | inl same ↦ inl (
            ap (λ (o : Store × ControlledAction). o.0) (sym (ok-injective out (rw same at e))),
            (&&-eq-true _ _ same).0,
            not-true _ (&&-eq-true _ _ same).1,
          )
          | inr other ↦ inr (
              subst (λ (o : Store × ControlledAction). IsEdited workspace id input s o.0 o.1.row r)
                (ok-injective out (rw other at e))
                (record {
                  found = moved;
                  revised = refl;
                  unreviewed = refl;
                  hashed = refl;
                  replaced = refl;
                  refused = λ key idempotency_key fresh.
                      execute_keyed-unapproved workspace id (change_action workspace id f s) (f r)
                        key idempotency_key fresh moved
                        (||-false (is_control r.execution_mode) (is_executed r.status) open_action)
                        refl refl;
                }))
        ]

  -- An edit that succeeds leaves the store and the row as they are, if the hash of the edited
  -- payload is the current one and the action is not rejected; or else the row has the next
  -- revision, the status PROPOSED, the edited payload and its hash, and is what the new store
  -- holds. From that store an execution of the action, whatever its key, is never a new one: if
  -- an attempt with the key was stored before the edit, its receipt is the answer and nothing
  -- changes, and otherwise the execution is refused until the payload is approved.
  pub update_payload_lem :
      (key action_id : Text) (input : UpdatePayloadInput) (now : Time) (s : Store)
      {out : Store × ControlledAction}
      → update_payload hash parse_id hash_payload key action_id input now s ≡ ok out
      → (context : Uuid × Uuid) × (r : ActionRecord) × (get_action context.0 context.1 s ≡ some r)
        × (((out.0 ≡ s)
              × (text_eq (hash_payload (edited input (payload_of r))) r.payload_hash ≡ true)
              × (is_rejected r.status ≡ false))
            ⊎ IsEdited context.0 context.1 input s out.0 out.1.row r)
  unfolding update_payload hydrate_action change_action get_action
  update_payload_lem key action_id input now s {out} e =
      let (context, e1, e2) = >>=-eq-ok (action_context hash parse_id key action_id s) _ e in
      let (r, e3, e4) = >>=-eq-ok (require (get_action context.0 context.1 s) not_found) _ e2 in
      let (u, e5, e6) =
        >>=-eq-ok
          (forbid (is_control r.execution_mode || is_executed r.status)
            (conflict "completed controls and actions cannot be edited"))
          _ e4 in
      let (v, e7, e8) = >>=-eq-ok (validate_draft_payload (edited input (payload_of r))) _ e6 in
      (
        context,
        r,
        require_ok (get_action context.0 context.1 s) not_found e3,
        edit_cases context.0 context.1 input now s r
            (require_ok (get_action context.0 context.1 s) not_found e3) (forbid_ok _ _ e5) e8,
      )
