-- ===== src/Classification/Settled.antt =====
-- A run that has been classified has no pending voucher left.
use eco_green_zoho_migration.Store.Rows.{disposition_eq_iff}
use eco_green_zoho_migration.Base.{
  ℕ, Text, text, ◌≡◌, ◌≢◌, refl, sym, ap, ◌∙◌, true, false, ◌&&◌, Option, none, some, List, [], ◌∷◌,
  map, filter, includes, ◌==◌, text_Eq, nat_Eq, All, arith, Bool-cases, inl, inr, find,
}
use mathlib.Core.Path.{subst}
use eco_green_zoho_migration.Errors.{ok}
use eco_green_zoho_migration.Store.{
  calls, chains, Store, Action, for_each, ◌>>◌, Voucher, Disposition, Disposition_Eq, update_rows,
  Json, get_run, update_run, ExtractionRun,
}
use eco_green_zoho_migration.Store.Logic.{
  >>=-eq-ok, Keeps, Keeps-then, Keeps-pure, Keeps-modify, Keeps-throw_if,
}
use eco_green_zoho_migration.Audit.{Context, Entry, emit}
use eco_green_zoho_migration.Exceptions.{Condition, raise}
use eco_green_zoho_migration.Exceptions.Apart.{rest_of, raise-rest, emit-IsRest}
use eco_green_zoho_migration.Overlap.{SpEvidence, Reasoning, Decision}
use eco_green_zoho_migration.Classification.{
  Gates, Verdict, inventory_only, outside_window, not_eligible, posted_already, ambiguous,
  unmapped_module, migrates, judge,
}
use eco_green_zoho_migration.Classification.Run.{
  stamp, keep_candidate, carry_out, classify_run, end_classification, assert_classifiable,
}
use eco_green_zoho_migration.Classification.Pending.{
  is_pending_in, PendingAre, All-listed, none_left,
}

other_excluded-is_settled : Disposition.other_excluded ≢ Disposition.pending
other_excluded-is_settled h = cc

blocked-is_settled : Disposition.blocked ≢ Disposition.pending
blocked-is_settled h = cc

smart_pharma_excluded-is_settled : Disposition.smart_pharma_excluded ≢ Disposition.pending
smart_pharma_excluded-is_settled h = cc

migrate-is_settled : Disposition.migrate ≢ Disposition.pending
migrate-is_settled h = cc

module _ (run_id : Text) (ids : List ℕ) where
  emit-Keeps : (ctx : Context) (e : Entry) → Keeps (PendingAre run_id ids) (emit ctx e)
  emit-Keeps ctx e = record {
    kept =
        λ s h. subst (PendingAre run_id ids) (sym ((emit-IsRest (rest_of s) ctx e).kept s refl)) h;
  }

  raise-Keeps : (ctx : Context) (c : Condition) → Keeps (PendingAre run_id ids) (raise ctx c)
  raise-Keeps ctx c = record {
    kept = λ s h. subst (PendingAre run_id ids) (sym (raise-rest ctx c s)) h;
  }

  -- A row that is given another disposition is not pending; any other row is as it was.
  settled_rows :
      (id : ℕ) (d : Disposition) (f : Voucher → Voucher)
      → d ≢ Disposition.pending
      → ((x : Voucher) → (f x).disposition ≡ d)
      → (rows : List Voucher)
      → All (λ x. is_pending_in run_id x ≡ true → includes (id ∷ ids) x.id ≡ true) rows
      → All
          (λ x. is_pending_in run_id x ≡ true → includes ids x.id ≡ true)
          (update_rows (λ r. r.id == id) f rows)
  settled_rows id d f n e [] h = tt
  settled_rows id d f n e (x ∷ xs) h = elim (Bool-cases (x.id == id)) [
    | inl i ↦ rw i (
      λ p. absurd (
          n (
            sym (e x)
            ∙ (disposition_eq_iff (f x).disposition Disposition.pending).0 (both (f x) p))),
      settled_rows id d f n e xs h.1,
    )
    | inr i ↦ rw i (λ p. (let q = h.0 p in other id x i q), settled_rows id d f n e xs h.1)
  ]
    where
      both :
          (y : Voucher)
          → is_pending_in run_id y ≡ true
          → (y.disposition == Disposition.pending) ≡ true
      both y p = ground arith

      other :
          (id : ℕ) (x : Voucher)
          → (x.id == id) ≡ false
          → includes (id ∷ ids) x.id ≡ true
          → includes ids x.id ≡ true
      other id x i q = ground arith

  stamp-settles :
      (ctx : Context) (rule_version : Text) (v : Voucher) (d : Disposition) (reason : Text)
      (evidence : Option Reasoning) (s : Store)
      → d ≢ Disposition.pending
      → PendingAre run_id (v.id ∷ ids) s
      → PendingAre run_id ids (stamp ctx rule_version v d reason evidence s).1
  unfolding stamp calls
  stamp-settles ctx rule_version v d reason evidence s n h =
      settled_rows v.id d _ n (λ x. refl) s.vouchers h

  -- A stamp, and what comes after it; and what comes before.
  stamp-then :
      (ctx : Context) (rule_version : Text) (v : Voucher) (d : Disposition) (reason : Text)
      (evidence : Option Reasoning) (k : Action (Unit {0})) (s : Store)
      → d ≢ Disposition.pending
      → Keeps (PendingAre run_id ids) k
      → PendingAre run_id (v.id ∷ ids) s
      → PendingAre run_id ids ((stamp ctx rule_version v d reason evidence >> k) s).1
  unfolding stamp calls
  stamp-then ctx rule_version v d reason evidence k s n keeps h =
      keeps.kept _ (stamp-settles ctx rule_version v d reason evidence s n h)

  candidate-then :
      (ctx : Context) (rule_version : Text) (v : Voucher) (d : Decision) (k : Action (Unit {0}))
      (s : Store)
      → ((t : Store) → PendingAre run_id (v.id ∷ ids) t → PendingAre run_id ids (k t).1)
      → PendingAre run_id (v.id ∷ ids) s
      → PendingAre run_id ids ((keep_candidate ctx rule_version v d >> k) s).1
  unfolding keep_candidate calls
  candidate-then ctx rule_version v d k s f h = f _ h

  carry_out-settles :
      (json_of : Reasoning → Json) (ctx : Context) (rule_version : Text) (v : Voucher) (j : Verdict)
      (s : Store)
      → PendingAre run_id (v.id ∷ ids) s
      → PendingAre run_id ids (carry_out json_of ctx run_id rule_version v j s).1
  unfolding carry_out
  carry_out-settles json_of ctx rule_version v inventory_only s h =
      stamp-then ctx rule_version v Disposition.other_excluded _ _ _ s other_excluded-is_settled
        (emit-Keeps ctx _) h
  carry_out-settles json_of ctx rule_version v (outside_window r) s h =
      stamp-settles ctx rule_version v Disposition.other_excluded _ _ s other_excluded-is_settled h
  carry_out-settles json_of ctx rule_version v (not_eligible r) s h =
      stamp-then ctx rule_version v Disposition.blocked _ _ _ s blocked-is_settled
        (Keeps-then (raise-Keeps ctx _) (Keeps-pure tt)) h
  carry_out-settles json_of ctx rule_version v (posted_already d) s h =
      candidate-then ctx rule_version v d _ s
        (λ t.
          stamp-settles ctx rule_version v Disposition.smart_pharma_excluded _ _ t
            smart_pharma_excluded-is_settled)
        h
  carry_out-settles json_of ctx rule_version v (ambiguous d) s h =
      candidate-then ctx rule_version v d _ s
        (λ t.
          stamp-then ctx rule_version v Disposition.blocked _ _ _ t blocked-is_settled
            (Keeps-then (raise-Keeps ctx _) (Keeps-pure tt)))
        h
  carry_out-settles json_of ctx rule_version v (unmapped_module d) s h =
      candidate-then ctx rule_version v d _ s
        (λ t.
          stamp-then ctx rule_version v Disposition.blocked _ _ _ t blocked-is_settled
            (Keeps-then (raise-Keeps ctx _) (Keeps-pure tt)))
        h
  carry_out-settles json_of ctx rule_version v (migrates d) s h =
      candidate-then ctx rule_version v d _ s
        (λ t. stamp-settles ctx rule_version v Disposition.migrate _ _ t migrate-is_settled) h

loop-settles :
    (run_id : Text) (f : Voucher → Action (Unit {0}))
    → ((v : Voucher) (ids : List ℕ) (s : Store)
        → PendingAre run_id (v.id ∷ ids) s
        → PendingAre run_id ids (f v s).1)
    → (vs : List Voucher) (s t : Store) (u : Unit {0}) → PendingAre run_id (map (λ v. v.id) vs) s
    → for_each vs f s ≡ (ok u, t)
    → PendingAre run_id [] t
unfolding for_each chains
loop-settles run_id f settles [] s t u h k = subst (PendingAre run_id []) (ap (λ x. x.1) k) h
loop-settles run_id f settles (v ∷ vs) s t u h k =
    let (w, r, one, rest) = >>=-eq-ok (f v) (λ _. for_each vs f) s k in
    loop-settles run_id f settles vs r t u
      (subst (PendingAre run_id (map (λ x. x.id) vs)) (ap (λ x. x.1) one)
        (settles v (map (λ x. x.id) vs) s h))
      rest

end-Keeps :
    (run_id : Text) (ids : List ℕ) (ctx : Context) (run : Option ExtractionRun)
    → Keeps (PendingAre run_id ids) (end_classification ctx run_id run)
unfolding end_classification update_run
end-Keeps run_id ids ctx run =
    Keeps-then (passes run) (Keeps-then (Keeps-modify _ (λ s h. h)) (emit-Keeps run_id ids ctx _))
  where
    passes : (run : Option ExtractionRun) → Keeps (PendingAre run_id ids) (assert_classifiable run)
    passes none = Keeps-pure tt
    passes (some run) = Keeps-throw_if _ _

-- Whatever the rules and the evidence: whenever the classification of a run succeeds, no voucher of the
-- run is pending.
pub classify_run_settles :
    (json_of : Reasoning → Json) (ctx : Context) (run_id rule_version : Text)
    (evidence : List SpEvidence) (s t : Store) (u : Unit {0})
    → classify_run json_of ctx run_id rule_version evidence s ≡ (ok u, t)
    → All (λ x. is_pending_in run_id x ≡ false) t.vouchers
unfolding classify_run get_run chains
classify_run_settles json_of ctx run_id rule_version evidence s t u h =
    let gates : Gates = record {
      matrix = filter (λ r. r.approval_status == text "APPROVED") s.cutover_matrix;
      routes =
          filter (λ r. r.rule_type == text "MODULE_ROUTE" && r.status == text "APPROVED")
            s.mapping_rules;
      sp_evidence = evidence;
    } in
    let one : Voucher → Action (Unit {0}) =
      λ v. carry_out json_of ctx run_id rule_version v (judge gates v) in
    let mine =
      filter (λ v. v.disposition == Disposition.pending)
        (filter (λ v. v.extraction_run_id == run_id) s.vouchers) in
    let run = find (λ x. x.id == run_id) s.extraction_runs in
    let (w, r, looped, after) =
      >>=-eq-ok (for_each mine one) (λ _. end_classification ctx run_id run) s h in
    let settled =
      loop-settles run_id one
        (λ v ids q k. carry_out-settles run_id ids json_of ctx rule_version v (judge gates v) q k)
        mine s r w (All-listed run_id s.vouchers) looped in
    none_left run_id t.vouchers (
      subst (PendingAre run_id []) (ap (λ x. x.1) after)
        ((end-Keeps run_id [] ctx run).kept r settled))
