-- ===== src/Exceptions/Resolving.antt =====
-- Who may close an exception, and how.
use eco_green_zoho_migration.Fallible.Sums.{ok-injective}
use eco_green_zoho_migration.Audit.Trail.{emit_only}
use eco_green_zoho_migration.Base.{
  Text, ◌≡◌, ◌⊎◌, inl, inr, true, Option, some, none, text, arith, find, ◌==◌, nat_Eq, text_Eq,
  text_eq_iff, Option-cases, Bool-cases, ap, sym, ◌∙◌, ◌&&◌, not, false,
}
use eco_green_zoho_migration.Errors.{Role, ok, approver, admin}
use eco_green_zoho_migration.Store.{
  Store, ExceptionRow, ExceptionState, resolved, approved_exception, rejected, calls, update_rows,
  chains, pure, ◌>>◌,
}
use eco_green_zoho_migration.Store.Logic.{find-update_rows, find_holds, >>=-eq-ok}
use eco_green_zoho_migration.Audit.{Context, emit, Entry}
use eco_green_zoho_migration.Exceptions.{
  Resolution, resolve, resolve_status, is_approver, is_approval, closed,
}

-- The status asked for, with the one that a row then has, and who may ask for it.
abbrev pub IsClosedAs : Option Role → Text → ExceptionState → Type 0
IsClosedAs role asked status =
    ((asked ≡ text "RESOLVED") × (status ≡ resolved))
    ⊎ (((asked ≡ text "REJECTED") × (status ≡ rejected))
        ⊎ ((asked ≡ text "APPROVED_EXCEPTION")
            × (status ≡ approved_exception)
            × ((role ≡ some approver) ⊎ (role ≡ some admin))))

approver_or_admin :
    (role : Option Role) → is_approver role ≡ true → (role ≡ some approver) ⊎ (role ≡ some admin)
approver_or_admin none h = absurd cc
approver_or_admin (some r) h = ground arith

closed_as :
    (role : Option Role) (asked : Text) (status : ExceptionState)
    → resolve_status asked ≡ some status
    → is_approval status && not (is_approver role) ≡ false
    → IsClosedAs role asked status
unfolding resolve_status
closed_as role asked status h k =
    let (r, r') = text_eq_iff asked (text "RESOLVED") in
    let (a, a') = text_eq_iff asked (text "APPROVED_EXCEPTION") in
    let (j, j') = text_eq_iff asked (text "REJECTED") in
    elim (Bool-cases (asked == text "RESOLVED")) [
      | inl e ↦ inl (r e, ground arith)
      | inr e ↦ elim (Bool-cases (asked == text "APPROVED_EXCEPTION")) [
        | inl f ↦
            let approves : status ≡ approved_exception = ground arith in
            inr (inr (a f, approves, approver_or_admin role (ground arith)))
        | inr f ↦ elim (Bool-cases (asked == text "REJECTED")) [
          | inl g ↦ inr (inl (j g, ground arith))
          | inr g ↦ absurd (ground arith)
        ]
      ]
    ]

allowed_to_close :
    (ctx : Context) (r : Resolution) (s t : Store) (row found : ExceptionRow)
    (status : ExceptionState)
    → find (λ e. e.id == r.id) s.exceptions.rows ≡ some found
    → resolve_status r.status ≡ some status
    → resolve ctx r s ≡ (ok row, t)
    → is_approval status && not (is_approver ctx.actor_role) ≡ false
unfolding resolve calls
allowed_to_close ctx r s t row found status f q h =
    elim (Bool-cases (is_approval status && not (is_approver ctx.actor_role))) [
      | inl refused ↦ absurd (let k = rw (q, f, refused) at h in cc)
      | inr free ↦ free
    ]

-- What is left after the last event has been written.
emitted :
    (ctx : Context) (e : Entry) (s t : Store) (made row : ExceptionRow)
    → (emit ctx e >> pure made) s ≡ (ok row, t)
    → (row ≡ made) × (t.exceptions.rows ≡ s.exceptions.rows)
unfolding chains
emitted ctx e s t made row h =
    let (u, r, out, done) = >>=-eq-ok (emit ctx e) (λ _. pure made) s h in
    (
      sym (ok-injective (ap (λ x. x.0) done)),
      ap (λ (x : Store). x.exceptions.rows)
          (sym (ap (λ x. x.1) done) ∙ sym (ap (λ x. x.1) out) ∙ emit_only ctx e s),
    )

closed_row :
    (ctx : Context) (r : Resolution) (s t : Store) (row found : ExceptionRow)
    (status : ExceptionState)
    → find (λ e. e.id == r.id) s.exceptions.rows ≡ some found
    → resolve_status r.status ≡ some status
    → find
        (λ e. e.id == r.id)
        (update_rows (λ e. e.id == r.id) (closed ctx r status found) s.exceptions.rows)
      ≡ some (closed ctx r status found found)
    → is_approval status && not (is_approver ctx.actor_role) ≡ false
    → resolve ctx r s ≡ (ok row, t)
    → (row ≡ closed ctx r status found found)
      × (t.exceptions.rows
          ≡ update_rows (λ e. e.id == r.id) (closed ctx r status found) s.exceptions.rows)
unfolding resolve calls
closed_row ctx r s t row found status f q there free h =
    let k = rw (q, f, free, there) at h in emitted ctx _ _ t _ row k

-- If `resolve` succeeds, then the exception existed, the row that is returned is the ledger's row of that
-- id, and it was closed as asked: as RESOLVED or REJECTED, or as APPROVED_EXCEPTION, which only an
-- approver or an admin may ask for.
pub waived_by_approver :
    (ctx : Context) (r : Resolution) (s t : Store) (row : ExceptionRow)
    → resolve ctx r s ≡ (ok row, t)
    → (found : ExceptionRow) × (find (λ e. e.id == r.id) s.exceptions.rows ≡ some found)
      × (find (λ e. e.id == r.id) t.exceptions.rows ≡ some row)
      × IsClosedAs ctx.actor_role r.status row.status
unfolding resolve calls emit
waived_by_approver ctx r s t row h =
    elim (Option-cases (find (λ (e : ExceptionRow). e.id == r.id) s.exceptions.rows)) [
      | inl missing ↦ absurd (ground arith)
      | inr (found, f) ↦ elim (Option-cases (resolve_status r.status)) [
        | inl unknown ↦ absurd (ground arith)
        | inr (status, q) ↦
            let holds = find_holds (λ (e : ExceptionRow). e.id == r.id) s.exceptions.rows found f in
            let there =
              find-update_rows (λ (e : ExceptionRow). e.id == r.id) (closed ctx r status found)
                s.exceptions.rows found f holds in
            let may = allowed_to_close ctx r s t row found status f q h in
            let (made, rows) = closed_row ctx r s t row found status f q there may h in
            (
              found,
              f,
              rw rows (there ∙ ap some (sym made)),
              rw made (closed_as ctx.actor_role r.status status q may),
            )
      ]
    ]
