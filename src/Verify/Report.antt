-- ===== src/Verify/Report.antt =====
-- What `verify_state` prints and runs: the calls of the checks, carried out by `perform`.
use netrec.Prelude.{
  ℕ, suc, ◌+◌, ◌≡◌, ◌≢◌, inl, inr, Option-cases, Bool-cases, Bool, not, ◌||◌, Option, none, List,
  [], ◌∷◌, ◌++◌, Result, arith, Bytes, take,
}
use netrec.State.{DesiredState, RealState}
use netrec.Verify.Calls.{Call, ok, miss, act}
use netrec.Verify.Scenario.{verify_scenario, verify_checks}
use netrec.Verify.Exec.{
  Line, said, apply_ok, apply_fail, Spawn, Vctx, start_ctx, is_comment, is_failure, report, run_act,
  run_call, perform, verify_state,
}
use netrec.Verify.Tally.{misses, misses-append, verify_checks-misses}

-- How many of the lines are MISS lines.
abbrev pub miss_lines : List Line → ℕ
miss_lines [] = 0
miss_lines (said (miss s) ∷ l) = suc (miss_lines l)
miss_lines (said (ok s) ∷ l) = miss_lines l
miss_lines (said (act s) ∷ l) = miss_lines l
miss_lines (apply_ok s ∷ l) = miss_lines l
miss_lines (apply_fail rc s ∷ l) = miss_lines l

pub miss_lines-append : (xs ys : List Line) → miss_lines (xs ++ ys) ≡ miss_lines xs + miss_lines ys
miss_lines-append [] ys = omega arith
miss_lines-append (said (miss s) ∷ xs) ys = omega (arith, miss_lines-append xs ys)
miss_lines-append (said (ok s) ∷ xs) ys = miss_lines-append xs ys
miss_lines-append (said (act s) ∷ xs) ys = miss_lines-append xs ys
miss_lines-append (apply_ok s ∷ xs) ys = miss_lines-append xs ys
miss_lines-append (apply_fail rc s ∷ xs) ys = miss_lines-append xs ys

report-miss_lines :
    (ctx : Vctx) (cmd : Bytes) (r : Result ℕ × List (List Bytes))
    → miss_lines (report ctx cmd r).out ≡ miss_lines ctx.out
unfolding report
report-miss_lines ctx cmd (rc, ran) = elim (Bool-cases (is_failure rc)) [
  | inl bad ↦ rw bad (simp miss_lines-append (omega arith))
  | inr good ↦ rw good (simp miss_lines-append (omega arith))
]

module _ (spawn : Spawn) where
  run_act-miss_lines :
      (ctx : Vctx) (s : Bytes) → miss_lines (run_act spawn ctx s).out ≡ miss_lines ctx.out
  unfolding run_act
  run_act-miss_lines ctx s =
      let cmd : Bytes = take 255 s in
      let added = miss_lines-append ctx.out (said (act cmd) ∷ []) in
      elim (Bool-cases (not ctx.apply || is_comment cmd)) [
        | inl quiet ↦ rw quiet (omega (arith, added))
        | inr run ↦ rw (run, report-miss_lines) (omega (arith, added))
      ]

  run_call-miss_lines :
      (ctx : Vctx) (c : Call)
      → miss_lines (run_call spawn ctx c).out ≡ miss_lines ctx.out + misses (c ∷ [])
  unfolding run_call
  run_call-miss_lines ctx (ok s) = simp miss_lines-append
  run_call-miss_lines ctx (miss s) = simp miss_lines-append
  run_call-miss_lines ctx (act s) = omega (arith, run_act-miss_lines ctx s)

  perform-miss_lines :
      (ctx : Vctx) (cs : List Call)
      → miss_lines (perform spawn ctx cs).out ≡ miss_lines ctx.out + misses cs
  unfolding perform
  perform-miss_lines ctx [] = omega arith
  perform-miss_lines ctx (c ∷ cs) = omega (
    arith,
    perform-miss_lines (run_call spawn ctx c) cs,
    run_call-miss_lines ctx c,
    misses-append (c ∷ []) cs,
  )

  -- For a supported scenario `verify_state` returns the number of the MISS lines that it prints,
  -- in a dry run and under --apply, whatever the commands do.
  pub verify_state-miss_lines :
      (net : Bytes → Option ℕ) (ds : DesiredState) (rs : RealState) (apply act_fail : Bool)
      (ran : List (List Bytes))
      → verify_scenario net ds rs ≢ none
      → miss_lines (verify_state net spawn ds rs apply act_fail ran).out
        ≡ (verify_state net spawn ds rs apply act_fail ran).diff
  unfolding verify_state
  verify_state-miss_lines net ds rs apply act_fail ran h =
      elim (Option-cases (verify_scenario net ds rs)) [
        | inl e ↦ absurd (h e)
        | inr (m, e) ↦
            rw (e, verify_state)
              (omega (
                arith,
                perform-miss_lines (start_ctx apply ran) (verify_checks net ds rs).1,
                verify_checks-misses net ds rs h,
              ))
      ]
