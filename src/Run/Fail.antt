-- ===== src/Run/Fail.antt =====
-- run.c: which failures of commands a pass tells of.
use netrec.Prelude.{ℕ, ◌+◌, ◌≡◌, ◌≢◌, refl, ◌∙◌, Bool, false, none, List, [], ◌∷◌, ◌++◌, Bytes, ret}
use netrec.State.{DesiredState, DesiredSet, RealState}
use netrec.Verify.Exec.{Line, verify_state}
use netrec.Verify.Scenario.{verify_scenario}
use netrec.Verify.Effects.{has_fail, verify_state-act_fail}
use netrec.Run.{System, load_real, verify_loop, run_verify_set}

module _ (sys : System) where
  verify_loop-append :
      (rs : RealState) (apply : Bool) (diff : ℕ) (fail : Bool) (out : List Line)
      (ran : List (List Bytes)) (set : DesiredSet) (ds : DesiredState)
      → (verify_loop sys rs apply diff fail out ran (set ++ ds ∷ [])).act_fail
        ≡ (verify_state sys.uci.inet_pton sys.spawn ds rs apply
            (verify_loop sys rs apply diff fail out ran set).act_fail
            (verify_loop sys rs apply diff fail out ran set).ran).act_fail
  unfolding verify_loop
  verify_loop-append rs apply diff fail out ran [] ds = refl
  verify_loop-append rs apply diff fail out ran (d ∷ set) ds =
      let v = verify_state sys.uci.inet_pton sys.spawn d rs apply fail ran in
      verify_loop-append rs apply (diff + v.diff) v.act_fail (out ++ v.out) v.ran set ds

  -- Behind a pass over several states, the last one with a supported scenario, act_fail says whether a
  -- command of the last state failed, whatever became of the commands of the states before it.
  pub run_verify_set-last_fail :
      (set : DesiredSet) (ds : DesiredState) (rs : RealState) (apply fail : Bool)
      (ran : List (List Bytes))
      → load_real sys ran ≡ ret rs
      → verify_scenario sys.uci.inet_pton ds rs ≢ none
      → (run_verify_set sys (set ++ ds ∷ []) apply fail ran).act_fail
        ≡ has_fail
            (verify_state sys.uci.inet_pton sys.spawn ds rs apply
              (run_verify_set sys set apply fail ran).act_fail
              (run_verify_set sys set apply fail ran).ran).out
  unfolding run_verify_set
  run_verify_set-last_fail set ds rs apply fail ran x sup =
      let before = verify_loop sys rs apply 0 false [] ran set in
      rw (x, run_verify_set)
        (verify_loop-append rs apply 0 false [] ran set ds
          ∙ verify_state-act_fail sys.uci.inet_pton ds rs sys.spawn apply before.act_fail before.ran
              sup)
