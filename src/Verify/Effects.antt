-- ===== src/Verify/Effects.antt =====
-- What `perform` prints and runs beyond the MISS lines: the plan is the same with and without
-- --apply, a dry run runs nothing, and `act_fail` tells of the failures.
use netrec.Prelude.{
  ℕ, ◌≡◌, ◌≢◌, refl, sym, ap, inl, inr, Option-cases, Bool-cases, Bool, true, false, not, ◌||◌,
  Option, none, List, [], ◌∷◌, ◌++◌, append_assoc, append-nil, arith, Bytes, take, Result, ◌∙◌,
}
use netrec.State.{DesiredState, RealState}
use netrec.Verify.Calls.{Call, ok, miss, act}
use netrec.Verify.Scenario.{verify_scenario}
use netrec.Verify.Exec.{
  Line, said, apply_ok, apply_fail, Spawn, Vctx, start_ctx, is_comment, is_failure, report, run_act,
  run_call, perform, verify_state,
}

-- The call as it is printed: `act` keeps 255 bytes of the command.
abbrev pub clip : Call → Call
clip (ok s) = ok s
clip (miss s) = miss s
clip (act s) = act (take 255 s)

abbrev pub clip_all : List Call → List Call
clip_all [] = []
clip_all (c ∷ cs) = clip c ∷ clip_all cs

-- The OK, MISS and ACT lines, without the APPLY lines.
abbrev pub plan : List Line → List Call
plan [] = []
plan (said c ∷ l) = c ∷ plan l
plan (apply_ok s ∷ l) = plan l
plan (apply_fail rc s ∷ l) = plan l

-- Whether an APPLY_FAIL line is among the lines.
abbrev pub has_fail : List Line → Bool
has_fail [] = false
has_fail (said c ∷ l) = has_fail l
has_fail (apply_ok s ∷ l) = has_fail l
has_fail (apply_fail rc s ∷ l) = true

pub plan-append : (xs ys : List Line) → plan (xs ++ ys) ≡ plan xs ++ plan ys
plan-append [] ys = refl
plan-append (said c ∷ xs) ys = rw (plan-append xs ys)
plan-append (apply_ok s ∷ xs) ys = plan-append xs ys
plan-append (apply_fail rc s ∷ xs) ys = plan-append xs ys

pub has_fail-append : (xs ys : List Line) → has_fail (xs ++ ys) ≡ has_fail xs || has_fail ys
has_fail-append [] ys = refl
has_fail-append (said c ∷ xs) ys = has_fail-append xs ys
has_fail-append (apply_ok s ∷ xs) ys = has_fail-append xs ys
has_fail-append (apply_fail rc s ∷ xs) ys = refl

-- `act_fail` is set exactly if an APPLY_FAIL line has been printed.
abbrev FailTold : Vctx → Type 0
FailTold ctx = ctx.act_fail ≡ has_fail ctx.out

module _ (ctx : Vctx) (cmd : Bytes) (r : Result ℕ × List (List Bytes)) where
  report-plan : plan (report ctx cmd r).out ≡ plan ctx.out
  unfolding report
  report-plan = elim (Bool-cases (is_failure r.0)) [
    | inl bad ↦ rw bad (simp (plan-append, append-nil))
    | inr good ↦ rw good (simp (plan-append, append-nil))
  ]

  report-FailTold : FailTold ctx → FailTold (report ctx cmd r)
  unfolding report
  report-FailTold h = elim (Bool-cases (is_failure r.0)) [
    | inl bad ↦ rw bad (simp has_fail-append (ground arith))
    | inr good ↦ rw good (simp has_fail-append (ground arith))
  ]

module _ (spawn : Spawn) where
  run_act-plan :
      (ctx : Vctx) (s : Bytes)
      → plan (run_act spawn ctx s).out ≡ plan ctx.out ++ act (take 255 s) ∷ []
  unfolding run_act
  run_act-plan ctx s = elim (Bool-cases (not ctx.apply || is_comment (take 255 s))) [
    | inl quiet ↦ rw quiet (simp plan-append)
    | inr run ↦ rw (run, report-plan) (simp plan-append)
  ]

  run_act-FailTold : (ctx : Vctx) (s : Bytes) → FailTold ctx → FailTold (run_act spawn ctx s)
  unfolding run_act
  run_act-FailTold ctx s h =
      let printed : FailTold (record ctx { out = ctx.out ++ said (act (take 255 s)) ∷ [] }) =
        simp has_fail-append (ground arith) in
      elim (Bool-cases (not ctx.apply || is_comment (take 255 s))) [
        | inl quiet ↦ rw quiet printed
        | inr run ↦ rw run (report-FailTold _ _ _ printed)
      ]

  run_act-dry :
      (ctx : Vctx) (s : Bytes)
      → ctx.apply ≡ false
      → run_act spawn ctx s ≡ record ctx { out = ctx.out ++ said (act (take 255 s)) ∷ [] }
  unfolding run_act
  run_act-dry ctx s h = simp h

  run_call-plan :
      (ctx : Vctx) (c : Call) → plan (run_call spawn ctx c).out ≡ plan ctx.out ++ clip c ∷ []
  unfolding run_call
  run_call-plan ctx (ok s) = simp plan-append
  run_call-plan ctx (miss s) = simp plan-append
  run_call-plan ctx (act s) = run_act-plan ctx s

  run_call-FailTold : (ctx : Vctx) (c : Call) → FailTold ctx → FailTold (run_call spawn ctx c)
  unfolding run_call
  run_call-FailTold ctx (ok s) h = simp has_fail-append (ground arith)
  run_call-FailTold ctx (miss s) h = simp has_fail-append (ground arith)
  run_call-FailTold ctx (act s) h = run_act-FailTold ctx s h

  perform-plan :
      (ctx : Vctx) (cs : List Call) → plan (perform spawn ctx cs).out ≡ plan ctx.out ++ clip_all cs
  unfolding perform
  perform-plan ctx [] = sym (append-nil _)
  perform-plan ctx (c ∷ cs) =
      perform-plan (run_call spawn ctx c) cs ∙ rw (run_call-plan ctx c, append_assoc)

  perform-FailTold : (ctx : Vctx) (cs : List Call) → FailTold ctx → FailTold (perform spawn ctx cs)
  unfolding perform
  perform-FailTold ctx [] h = h
  perform-FailTold ctx (c ∷ cs) h =
      perform-FailTold (run_call spawn ctx c) cs (run_call-FailTold ctx c h)

  -- Without --apply a call only prints.
  run_call-dry :
      (ctx : Vctx) (c : Call)
      → ctx.apply ≡ false
      → run_call spawn ctx c ≡ record ctx { out = ctx.out ++ said (clip c) ∷ [] }
  unfolding run_call
  run_call-dry ctx (ok s) h = refl
  run_call-dry ctx (miss s) h = refl
  run_call-dry ctx (act s) h = run_act-dry ctx s h

  perform-dry :
      (ctx : Vctx) (cs : List Call)
      → ctx.apply ≡ false
      → ((perform spawn ctx cs).ran ≡ ctx.ran)
        × (has_fail (perform spawn ctx cs).out ≡ has_fail ctx.out)
  unfolding perform
  perform-dry ctx [] h = (refl, refl)
  perform-dry ctx (c ∷ cs) h =
      let next = record ctx { out = ctx.out ++ said (clip c) ∷ [] } in
      let stepped = run_call-dry ctx c h in
      let (ran, fail) = perform-dry next cs h in
      (
        ap (λ x. (perform spawn x cs).ran) stepped ∙ ran,
        ap (λ x. has_fail (perform spawn x cs).out) stepped
            ∙ fail
            ∙ simp has_fail-append (ground arith),
      )

module _ (net : Bytes → Option ℕ) (ds : DesiredState) (rs : RealState) where
  -- The diff and the OK, MISS and ACT lines of a run under --apply are those of a dry run, in the
  -- same order, whatever the commands do and have done.
  pub verify_state-plan :
      (spawn spawn' : Spawn) (fail fail' : Bool) (ran ran' : List (List Bytes))
      → (plan (verify_state net spawn ds rs true fail ran).out
          ≡ plan (verify_state net spawn' ds rs false fail' ran').out)
        × ((verify_state net spawn ds rs true fail ran).diff
            ≡ (verify_state net spawn' ds rs false fail' ran').diff)
  unfolding verify_state
  verify_state-plan spawn spawn' fail fail' ran ran' =
      elim (Option-cases (verify_scenario net ds rs)) [
        | inl e ↦ (rw (e, verify_state), rw (e, verify_state))
        | inr (m, e) ↦ (
          rw (e, verify_state) (perform-plan spawn _ _ ∙ sym (perform-plan spawn' _ _)),
          rw (e, verify_state),
        )
      ]

  -- A dry run of a supported scenario runs no command and clears `act_fail`.
  pub verify_state-dry_run :
      (spawn : Spawn) (fail : Bool) (ran : List (List Bytes))
      → verify_scenario net ds rs ≢ none
      → ((verify_state net spawn ds rs false fail ran).ran ≡ ran)
        × ((verify_state net spawn ds rs false fail ran).act_fail ≡ false)
  unfolding verify_state
  verify_state-dry_run spawn fail ran h = elim (Option-cases (verify_scenario net ds rs)) [
    | inl e ↦ absurd (h e)
    | inr (m, e) ↦ (
      rw (e, verify_state) ((perform-dry spawn (start_ctx false ran) _ refl).0),
      rw (e, verify_state)
          (perform-FailTold spawn (start_ctx false ran) _ refl
            ∙ (perform-dry spawn (start_ctx false ran) _ refl).1),
    )
  ]

  -- For a supported scenario `act_fail` is set exactly if an APPLY_FAIL line was printed.
  pub verify_state-act_fail :
      (spawn : Spawn) (apply fail : Bool) (ran : List (List Bytes))
      → verify_scenario net ds rs ≢ none
      → (verify_state net spawn ds rs apply fail ran).act_fail
        ≡ has_fail (verify_state net spawn ds rs apply fail ran).out
  unfolding verify_state
  verify_state-act_fail spawn apply fail ran h = elim (Option-cases (verify_scenario net ds rs)) [
    | inl e ↦ absurd (h e)
    | inr (m, e) ↦ rw (e, verify_state) (perform-FailTold spawn (start_ctx apply ran) _ refl)
  ]
