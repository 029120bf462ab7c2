-- ===== src/Run.antt =====
-- run.c: one pass over the desired states, and `netrec_run_once`.
pub mod Post
pub mod Fail
pub mod Source
pub mod Snapshot
use netrec.Prelude.{
  ℕ, zero, suc, ◌+◌, Bool, true, false, not, Option, none, some, List, [], ◌∷◌, ◌++◌, Bytes, codes,
  streq, ltb, ◌==◌, if◌then◌else◌, Result, ret, err, einval, eagain, ◌>>=◌,
}
use netrec.State.{DesiredState, DesiredSet, RealState}
use netrec.State.Resolv.{rs_load_resolv_conf}
use netrec.Yaml.Load.{yaml_load_desired_set}
use netrec.Uci.Load.{UciHost, uci_load_desired_set}
use netrec.Verify.Exec.{Spawn, Line, Verified, verify_state}

-- The host. What it answers depends on the commands run so far.
pub record System : Type 0 where
  pub uci : UciHost
  pub spawn : Spawn
  pub nl_load_state : List (List Bytes) → Result RealState
  pub resolv_conf : List (List Bytes) → Option Bytes
  pub open_lock : Result ℕ
  pub flock : Bool

pub record NetrecRunCfg : Type 0 where
  pub cfg_path : Option Bytes
  pub source : Bytes
  pub uci_bin : Bytes
  pub uci_network : Option Bytes
  pub uci_wireless : Option Bytes
  pub apply : Bool

-- The descriptor or the error, and the descriptors closed on the way.
unfoldable pub apply_lock : System → Result ℕ × List ℕ
apply_lock sys = elim sys.open_lock [
  | err e ↦ (err e, [])
  | ret fd ↦ if sys.flock then (ret fd, []) else (err eagain, fd ∷ [])
]

unfoldable pub load_real : System → List (List Bytes) → Result RealState
load_real sys ran = do
  rs ← sys.nl_load_state ran
  rs_load_resolv_conf sys.uci.inet_pton rs (sys.resolv_conf ran)

-- A pass: what it returns, `*act_fail` behind it, what it printed, and the commands run so far.
pub record Pass : Type 0 where
  pub diff : Result ℕ
  pub act_fail : Bool
  pub out : List Line
  pub ran : List (List Bytes)

-- The loop of `run_verify_set`, from the sum of the diffs so far on. `verify_state` never returns a
-- negative number, so the test for one stops no pass.
unfoldable pub verify_loop :
    System → RealState → Bool → ℕ → Bool → List Line → List (List Bytes) → DesiredSet → Pass
verify_loop sys rs apply diff fail out ran [] = record {
  diff = ret diff;
  act_fail = fail;
  out = out;
  ran = ran;
}
verify_loop sys rs apply diff fail out ran (ds ∷ set) =
    let v = verify_state sys.uci.inet_pton sys.spawn ds rs apply fail ran in
    verify_loop sys rs apply (diff + v.diff) v.act_fail (out ++ v.out) v.ran set

unfoldable pub run_verify_set : System → DesiredSet → Bool → Bool → List (List Bytes) → Pass
run_verify_set sys set apply fail ran = elim (load_real sys ran) [
  | err e ↦ record { diff = err e; act_fail = fail; out = []; ran = ran }
  | ret rs ↦ verify_loop sys rs apply 0 false [] ran set
]

unfoldable pub load_desired_set : System → NetrecRunCfg → Result DesiredSet
unfolding codes
load_desired_set sys cfg =
    if streq cfg.source (codes "yaml")
    then elim cfg.cfg_path [
      | none ↦ err einval
      | some path ↦ sys.uci.read_file path >>= yaml_load_desired_set
    ]
    else if streq cfg.source (codes "uci")
    then uci_load_desired_set sys.uci (some cfg.uci_bin) cfg.uci_network cfg.uci_wireless
    else err einval

-- What a call returns, the lines of its first pass, those behind `POST_VERIFY` if it comes to that, the
-- commands run and the descriptors closed.
pub record RunOnce : Type 0 where
  pub rc : Result ℕ
  pub out : List Line
  pub post : Option (List Line)
  pub ran : List (List Bytes)
  pub closed : List ℕ

-- Behind the first pass, without the lock's end: what the call returns and prints.
unfoldable pub settle : System → DesiredSet → Bool → List ℕ → Pass → RunOnce
settle sys set apply closed p =
    let done : Result ℕ → RunOnce =
      λ rc. record { rc = rc; out = p.out; post = none; ran = p.ran; closed = closed } in
    let post = run_verify_set sys set false p.act_fail p.ran in
    elim p.diff [
      | err e ↦ done (err e)
      | ret diff ↦
          if not apply
          then done (ret (if ltb 0 diff then 1 else diff))
          else if p.act_fail
          then done (ret 1)
          else if diff == 0
          then done (ret 0)
          else record {
            rc = elim post.diff [
              | err e ↦ err e
              | ret n ↦ ret (if not (n == 0) then 1 else if post.act_fail then 1 else 0)
            ];
            out = p.out;
            post = some post.out;
            ran = post.ran;
            closed = closed;
          }
    ]

abbrev pub stopped_early : Result ℕ → List ℕ → RunOnce
stopped_early rc closed = record { rc = rc; out = []; post = none; ran = []; closed = closed }

unfoldable pub netrec_run_once : System → NetrecRunCfg → RunOnce
netrec_run_once sys cfg = elim (load_desired_set sys cfg) [
  | err e ↦ stopped_early (err e) []
  | ret set ↦
      if cfg.apply
      then elim (apply_lock sys).0 [
        | err e ↦ stopped_early (err e) (apply_lock sys).1
        | ret fd ↦ settle sys set true (fd ∷ []) (run_verify_set sys set true false [])
      ]
      else settle sys set false [] (run_verify_set sys set false false [])
]
