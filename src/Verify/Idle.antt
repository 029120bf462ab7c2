-- ===== src/Verify/Idle.antt =====
-- Where nothing is missing nothing happens: a check with no MISS line makes no `act` call.
use netrec.Prelude.{
  ℕ, ◌≡◌, ◌≢◌, refl, inl, inr, Option-cases, Bool, false, Option, none, List, [], ◌∷◌, arith, Bytes,
  All, All-append,
}
use netrec.State.{DesiredState, RealState}
use netrec.Verify.Calls.{Call, ok, miss, act}
use netrec.Verify.Scenario.{verify_scenario, verify_checks}
use netrec.Verify.Exec.{Line, said, Spawn, Vctx, start_ctx, run_call, perform, verify_state}
use netrec.Verify.Tally.{misses, verify_checks-misses}
use netrec.Verify.Acts.{acts, verify_checks-acts}
use netrec.Verify.Spec.{Satisfies}
use netrec.Verify.Sound.Scenario.{verify_state-zero_iff, verify_state-diff}

-- An OK line.
abbrev pub IsOk : Line → Type 0
IsOk (said (ok s)) = Unit
IsOk _ = ⊥

-- What a call has changed: nothing but the lines printed, which are OK lines.
abbrev Quiet : Vctx → Vctx → Type 0
Quiet ctx ctx' =
    (ctx'.ran ≡ ctx.ran) × (ctx'.act_fail ≡ ctx.act_fail) × (All IsOk ctx.out → All IsOk ctx'.out)

perform-Quiet :
    (spawn : Spawn) (ctx : Vctx) (cs : List Call)
    → misses cs ≡ 0
    → acts cs ≡ 0
    → Quiet ctx (perform spawn ctx cs)
unfolding perform run_call
perform-Quiet spawn ctx [] m a = (refl, refl, λ h. h)
perform-Quiet spawn ctx (ok s ∷ cs) m a =
    let (r, f, o) = perform-Quiet spawn (run_call spawn ctx (ok s)) cs m a in
    (r, f, λ h. o (All-append IsOk ctx.out (said (ok s) ∷ []) h (tt, tt)))
perform-Quiet spawn ctx (miss s ∷ cs) m a = absurd (omega arith)
perform-Quiet spawn ctx (act s ∷ cs) m a = absurd (omega arith)

-- On a snapshot that satisfies the desired state as the code checks it, `verify_state` prints OK lines
-- only, runs no command and reports no failure, under --apply too. An uplink of `wg_vxlan_bridge` is
-- only asked to exist and to be up: one that is no port of the bridge is left so, where README.md and
-- ctx.md ask for the check and the command of `uplink_bridge`.
pub verify_state-idle :
    (net : Bytes → Option ℕ) (spawn : Spawn) (ds : DesiredState) (rs : RealState)
    (apply fail : Bool) (ran : List (List Bytes))
    → Satisfies net ds rs
    → ((verify_state net spawn ds rs apply fail ran).ran ≡ ran)
      × ((verify_state net spawn ds rs apply fail ran).act_fail ≡ false)
      × All IsOk (verify_state net spawn ds rs apply fail ran).out
unfolding verify_state
verify_state-idle net spawn ds rs apply fail ran s =
    let zero_diff = (verify_state-zero_iff net ds rs spawn apply fail ran).1 s in
    let value = verify_state-diff net ds rs spawn apply fail ran in
    elim (Option-cases (verify_scenario net ds rs)) [
      | inl e ↦ absurd (ground arith)
      | inr (m, e) ↦
          let supported : verify_scenario net ds rs ≢ none = λ n. cc in
          let told = verify_checks-misses net ds rs supported in
          let few = verify_checks-acts net ds rs in
          let (r, f, o) =
            perform-Quiet spawn (start_ctx apply ran) (verify_checks net ds rs).1 (omega arith)
              (omega arith) in
          (rw (e, verify_state) r, rw (e, verify_state) f, rw (e, verify_state) (o tt))
    ]
