-- ===== src/Run/Post.antt =====
-- run.c: what the value of `netrec_run_once` says of the host.
use netrec.Prelude.{
  ℕ, ◌+◌, ◌≡◌, ◌↔◌, ◌⊎◌, refl, ap, ◌∙◌, inl, inr, Bool-cases, Option-cases, Bool, true, false, not,
  none, List, [], ◌∷◌, ◌++◌, arith, Bytes, ◌==◌, if◌then◌else◌, All, Result, Result-cases, ret, err,
}
use netrec.State.{DesiredState, DesiredSet, RealState}
use netrec.Verify.Exec.{Line, verify_state}
use netrec.Verify.Spec.{Satisfies}
use netrec.Verify.Sound.Scenario.{verify_state-zero_iff}
use netrec.Verify.Idle.{verify_state-idle}
use netrec.Verify.Effects.{verify_state-dry_run}
use netrec.Verify.Scenario.{verify_scenario}
use netrec.Run.{
  System, NetrecRunCfg, Pass, apply_lock, load_real, verify_loop, run_verify_set, load_desired_set,
  settle, netrec_run_once,
}

module _ (sys : System) where
  -- A snapshot that satisfies every desired state.
  abbrev pub AllSatisfied : DesiredSet → RealState → Type 0
  AllSatisfied set rs = All (λ ds. Satisfies sys.uci.inet_pton ds rs) set

  -- The sum of the diffs is zero if it was and no state adds to it.
  verify_loop-zero :
      (rs : RealState) (apply : Bool) (diff : ℕ) (fail : Bool) (out : List Line)
      (ran : List (List Bytes)) (set : DesiredSet)
      → ((verify_loop sys rs apply diff fail out ran set).diff ≡ ret 0)
        ↔ ((diff ≡ 0) × AllSatisfied set rs)
  unfolding verify_loop
  verify_loop-zero rs apply diff fail out ran [] = ((λ h. (ground arith, tt)), (λ h. ap ret h.0))
  verify_loop-zero rs apply diff fail out ran (ds ∷ set) =
      let v = verify_state sys.uci.inet_pton sys.spawn ds rs apply fail ran in
      let rest = verify_loop-zero rs apply (diff + v.diff) v.act_fail (out ++ v.out) v.ran set in
      let here = verify_state-zero_iff sys.uci.inet_pton ds rs sys.spawn apply fail ran in
      (
        (λ h. let (z, more) = rest.0 h in (omega arith, (here.0 (omega arith), more))),
        (λ h. let z = here.1 h.1.0 in rest.1 (omega arith, h.1.1)),
      )

  run_verify_set-zero :
      (set : DesiredSet) (apply fail : Bool) (ran : List (List Bytes))
      → (run_verify_set sys set apply fail ran).diff ≡ ret 0
      → (rs : RealState) × (load_real sys ran ≡ ret rs) × AllSatisfied set rs
  unfolding run_verify_set
  run_verify_set-zero set apply fail ran h = elim (Result-cases (load_real sys ran)) [
    | inl (e, x) ↦ cc (rw (x, run_verify_set) at h)
    | inr (rs, x) ↦
        (rs, x, ((verify_loop-zero rs apply 0 false [] ran set).0 (rw (x, run_verify_set) at h)).1)
  ]

  dry_state :
      (ds : DesiredState) (rs : RealState) (fail : Bool) (ran : List (List Bytes))
      → (verify_state sys.uci.inet_pton sys.spawn ds rs false fail ran).ran ≡ ran
  unfolding verify_state
  dry_state ds rs fail ran = elim (Option-cases (verify_scenario sys.uci.inet_pton ds rs)) [
    | inl e ↦ rw (e, verify_state)
    | inr (m, e) ↦
        (verify_state-dry_run sys.uci.inet_pton ds rs sys.spawn fail ran (λ n. cc (e, n))).0
  ]

  verify_loop-dry :
      (rs : RealState) (diff : ℕ) (fail : Bool) (out : List Line) (ran : List (List Bytes))
      (set : DesiredSet)
      → (verify_loop sys rs false diff fail out ran set).ran ≡ ran
  unfolding verify_loop
  verify_loop-dry rs diff fail out ran [] = refl
  verify_loop-dry rs diff fail out ran (ds ∷ set) =
      let v = verify_state sys.uci.inet_pton sys.spawn ds rs false fail ran in
      verify_loop-dry rs (diff + v.diff) v.act_fail (out ++ v.out) v.ran set
      ∙ dry_state ds rs fail ran

  run_verify_set-dry :
      (set : DesiredSet) (fail : Bool) (ran : List (List Bytes))
      → (run_verify_set sys set false fail ran).ran ≡ ran
  unfolding run_verify_set
  run_verify_set-dry set fail ran = elim (Result-cases (load_real sys ran)) [
    | inl (e, x) ↦ rw (x, run_verify_set)
    | inr (rs, x) ↦ rw (x, run_verify_set) (verify_loop-dry rs 0 false [] ran set)
  ]

  -- A pass over a host that has what is desired.
  record Quiet (ran : List (List Bytes)) (p : Pass) : Type 0 where
    zero_diff : p.diff ≡ ret 0
    none_failed : p.act_fail ≡ false
    none_run : p.ran ≡ ran

  verify_loop-Quiet :
      (rs : RealState) (apply : Bool) (out : List Line) (ran : List (List Bytes)) (set : DesiredSet)
      → AllSatisfied set rs
      → Quiet ran (verify_loop sys rs apply 0 false out ran set)
  unfolding verify_loop
  verify_loop-Quiet rs apply out ran [] h = record {
    zero_diff = refl;
    none_failed = refl;
    none_run = refl;
  }
  verify_loop-Quiet rs apply out ran (ds ∷ set) h =
      let v = verify_state sys.uci.inet_pton sys.spawn ds rs apply false ran in
      let z : v.diff ≡ 0 =
        (verify_state-zero_iff sys.uci.inet_pton ds rs sys.spawn apply false ran).1 h.0 in
      let idle = verify_state-idle sys.uci.inet_pton sys.spawn ds rs apply false ran h.0 in
      rw (z, idle.0, idle.1) (verify_loop-Quiet rs apply (out ++ v.out) ran set h.1)

  run_verify_set-Quiet :
      (set : DesiredSet) (apply fail : Bool) (ran : List (List Bytes)) (rs : RealState)
      → load_real sys ran ≡ ret rs
      → AllSatisfied set rs
      → Quiet ran (run_verify_set sys set apply fail ran)
  unfolding run_verify_set
  run_verify_set-Quiet set apply fail ran rs x h =
      rw (x, run_verify_set) (verify_loop-Quiet rs apply [] ran set h)

  post_rc : (q : Pass) → Result ℕ
  post_rc q = elim q.diff [
    | err e ↦ err e
    | ret n ↦ ret (if not (n == 0) then 1 else if q.act_fail then 1 else 0)
  ]

  post-zero : (q : Pass) → post_rc q ≡ ret 0 → q.diff ≡ ret 0
  unfolding post_rc
  post-zero q h = elim (Result-cases q.diff) [
    | inl (e, x) ↦ cc (rw x at h)
    | inr (n, x) ↦ elim (Bool-cases (n == 0)) [
      | inl z ↦ let same : n ≡ 0 = ground arith in rw x (ap ret same)
      | inr z ↦ absurd (ground (arith, rw (x, z) at h))
    ]
  ]

  -- The pass that a value of zero is about: the first one, or the one behind `POST_VERIFY`.
  settle-zero :
      (set : DesiredSet) (apply : Bool) (closed : List ℕ) (p : Pass)
      → (settle sys set apply closed p).rc ≡ ret 0
      → ((p.diff ≡ ret 0) × ((settle sys set apply closed p).ran ≡ p.ran))
        ⊎ (((run_verify_set sys set false p.act_fail p.ran).diff ≡ ret 0)
            × ((settle sys set apply closed p).ran
                ≡ (run_verify_set sys set false p.act_fail p.ran).ran))
  unfolding settle post_rc run_verify_set
  settle-zero set apply closed p h = elim (Result-cases p.diff) [
    | inl (e, x) ↦ cc (rw (x, settle) at h)
    | inr (d, x) ↦ elim (Bool-cases apply) [
      | inr dry ↦
          let z : d ≡ 0 = ground (arith, rw (x, dry, settle) at h) in
          inl (rw x (ap ret z), rw (x, dry, settle))
      | inl a ↦ elim (Bool-cases p.act_fail) [
        | inl f ↦ absurd (ground (arith, rw (x, a, f, settle) at h))
        | inr f ↦ elim (Bool-cases (d == 0)) [
          | inl z ↦
              let same : d ≡ 0 = ground arith in inl (rw x (ap ret same), rw (x, a, f, z, settle))
          | inr z ↦ inr (
            post-zero (run_verify_set sys set false p.act_fail p.ran)
                (rw (x, a, f, z, settle) at h),
            rw (x, a, f, z, settle),
          )
        ]
      ]
    ]
  ]

  settle-Satisfied :
      (set : DesiredSet) (apply : Bool) (closed : List ℕ)
      → (settle sys set apply closed (run_verify_set sys set apply false [])).rc ≡ ret 0
      → (rs : RealState) × (load_real sys
            (settle sys set apply closed (run_verify_set sys set apply false [])).ran
          ≡ ret rs)
        × AllSatisfied set rs
  settle-Satisfied set apply closed h =
      let p = run_verify_set sys set apply false [] in
      elim (settle-zero set apply closed p h) [
        | inl (z, same) ↦
            let (rs, x, sat) = run_verify_set-zero set apply false [] z in
            let quiet = run_verify_set-Quiet set apply false [] rs x sat in
            (rs, rw (same ∙ quiet.none_run) x, sat)
        | inr (z, same) ↦
            let (rs, x, sat) = run_verify_set-zero set false p.act_fail p.ran z in
            (rs, rw (same ∙ run_verify_set-dry set p.act_fail p.ran) x, sat)
      ]

  -- `netrec_run_once` returns 0 only if the desired states were loaded and the snapshot of the host taken
  -- behind the last command that was run satisfies every one of them; in a dry run and under --apply,
  -- whatever the commands do.
  pub netrec_run_once-zero :
      (cfg : NetrecRunCfg)
      → (netrec_run_once sys cfg).rc ≡ ret 0
      → (set : DesiredSet) × (rs : RealState) × (load_desired_set sys cfg ≡ ret set)
        × (load_real sys (netrec_run_once sys cfg).ran ≡ ret rs)
        × AllSatisfied set rs
  unfolding netrec_run_once
  netrec_run_once-zero cfg h = elim (Result-cases (load_desired_set sys cfg)) [
    | inl (e, x) ↦ cc (rw (x, netrec_run_once) at h)
    | inr (set, x) ↦ elim (Bool-cases cfg.apply) [
      | inr dry ↦
          let (rs, y, sat) = settle-Satisfied set false [] (rw (x, dry, netrec_run_once) at h) in
          (set, rs, x, rw (x, dry, netrec_run_once) y, sat)
      | inl a ↦ elim (Result-cases (apply_lock sys).0) [
        | inl (e, y) ↦ cc (rw (x, a, y, netrec_run_once) at h)
        | inr (fd, y) ↦
            let (rs, z, sat) =
              settle-Satisfied set true (fd ∷ []) (rw (x, a, y, netrec_run_once) at h) in
            (set, rs, x, rw (x, a, y, netrec_run_once) z, sat)
      ]
    ]
  ]

  -- A host that already has what is desired, as the code checks it, is left alone: if the desired
  -- states load, a snapshot can be taken and the lock can be had, `netrec_run_once` returns 0 without a
  -- command and without a second pass, and closes the lock if it took it. An uplink of
  -- `wg_vxlan_bridge` is only asked to exist and to be up: one that is no port of the bridge is left so,
  -- where README.md and ctx.md ask for the check and the command of `uplink_bridge`.
  pub netrec_run_once-idle :
      (cfg : NetrecRunCfg) (set : DesiredSet) (rs : RealState) (fd : ℕ)
      → load_desired_set sys cfg ≡ ret set
      → load_real sys [] ≡ ret rs
      → (apply_lock sys).0 ≡ ret fd
      → AllSatisfied set rs
      → ((netrec_run_once sys cfg).rc ≡ ret 0)
        × ((netrec_run_once sys cfg).ran ≡ [])
        × ((netrec_run_once sys cfg).post ≡ none)
        × ((netrec_run_once sys cfg).closed ≡ (if cfg.apply then fd ∷ [] else []))
  unfolding netrec_run_once settle
  netrec_run_once-idle cfg set rs fd x y l sat = elim (Bool-cases cfg.apply) [
    | inr dry ↦
        let q = run_verify_set-Quiet set false false [] rs y sat in
        (
          rw (x, dry, q.zero_diff, netrec_run_once, settle),
          rw (x, dry, q.zero_diff, netrec_run_once, settle) q.none_run,
          rw (x, dry, q.zero_diff, netrec_run_once, settle),
          rw (x, dry, q.zero_diff, netrec_run_once, settle),
        )
    | inl a ↦
        let q = run_verify_set-Quiet set true false [] rs y sat in
        (
          rw (x, a, l, q.zero_diff, q.none_failed, netrec_run_once, settle),
          rw (x, a, l, q.zero_diff, q.none_failed, netrec_run_once, settle) q.none_run,
          rw (x, a, l, q.zero_diff, q.none_failed, netrec_run_once, settle),
          rw (x, a, l, q.zero_diff, q.none_failed, netrec_run_once, settle),
        )
  ]
