-- ===== src/Verify/Exec.antt =====
-- verify.c: what the calls of a check do (`ok`, `miss`, `act`, `cmd_exec`, `cmd_split`), and
-- `verify_state`. `spawn` is the system: `fork`, `execvp` and `waitpid` on an argument vector, which
-- may depend on the commands run before.
use netrec.Prelude.{
  ℕ, zero, suc, ◌+◌, Bool, true, false, not, ◌&&◌, ◌||◌, Option, none, some, List, [], ◌∷◌, ◌++◌,
  Bytes, is_blank, ◌==◌, leb, if◌then◌else◌, take, Errno, einval, e2big, eio, Result, ret, err,
  ◌>>=◌,
}
use netrec.State.{DesiredState, RealState}
use netrec.Verify.Calls.{Call, ok, miss, act}
use netrec.Verify.Scenario.{verify_scenario, verify_checks}

-- A printed line. The texts of `apply_ok` and `apply_fail` are the command's.
pub data Line : Type 0 where
  said : Call → Line
  apply_ok : Bytes → Line
  apply_fail : Result ℕ → Bytes → Line

-- How an attempt to run a command ends: `fork` or `waitpid` fails, or the wait status.
pub data Outcome : Type 0 where
  no_fork no_wait : Errno → Outcome
  exited signaled : ℕ → Outcome
  stopped : Outcome

abbrev pub Spawn : Type 0
Spawn = List (List Bytes) → List Bytes → Outcome

-- The words of a command: the run of other bytes that it starts with, put before the others.
unfoldable pub push_word : Bytes → List Bytes → List Bytes
push_word [] ws = ws
push_word (c ∷ w) ws = (c ∷ w) ∷ ws

-- The loop of `cmd_split`, with `argc` words begun; `inside` says that the byte before belongs to a
-- word. Returns the run of other bytes that the text starts with, and the words behind it.
unfoldable pub split_loop : ℕ → ℕ → Bool → Bytes → Result (Bytes × List Bytes)
unfolding is_blank push_word
split_loop max argc inside [] = ret ([], [])
split_loop max argc inside (c ∷ cs) =
    let begins = not inside && not (is_blank c) in
    let rest = split_loop max (if begins then argc + 1 else argc) (not (is_blank c)) cs in
    if begins && leb max (argc + 1)
    then err e2big
    else (rest >>= λ r. if is_blank c then ret ([], push_word r.0 r.1) else ret (c ∷ r.0, r.1))

unfoldable pub cmd_split : Bytes → ℕ → Result (List Bytes)
unfolding split_loop push_word
cmd_split cmd max = do r ← split_loop max 0 false cmd; ret (push_word r.0 r.1)

unfoldable pub is_comment : Bytes → Bool
is_comment [] = false
is_comment (c ∷ _) = c == b'#'

-- The value of `cmd_exec` for the way that the command ended.
unfoldable pub outcome_rc : Outcome → Result ℕ
outcome_rc (no_fork e) = err e
outcome_rc (no_wait e) = err e
outcome_rc (exited n) = ret n
outcome_rc (signaled n) = ret (128 + n)
outcome_rc stopped = err eio

-- The argument vector that `cmd_exec` runs, or the error that it returns before `fork`.
unfoldable pub cmd_argv : Bytes → Result (List Bytes)
unfolding cmd_split
cmd_argv cmd = elim (cmd_split (take 255 cmd) 32) [
  | err e ↦ err e
  | ret [] ↦ err einval
  | ret (w ∷ ws) ↦ ret (w ∷ ws)
]

-- `cmd_exec`, and the commands run so far with this one behind them.
unfoldable pub cmd_exec : Spawn → List (List Bytes) → Bytes → Result ℕ × List (List Bytes)
cmd_exec spawn ran cmd = if is_comment cmd then (ret 0, ran) else elim (cmd_argv cmd) [
  | err e ↦ (err e, ran)
  | ret argv ↦ (outcome_rc (spawn ran argv), ran ++ argv ∷ [])
]

-- `struct vctx`, with what has been printed and the commands that have been run.
pub record Vctx : Type 0 where
  pub apply : Bool
  pub act_fail : Bool
  pub out : List Line
  pub ran : List (List Bytes)

-- `if (rc)`
unfoldable pub is_failure : Result ℕ → Bool
is_failure (err e) = true
is_failure (ret zero) = false
is_failure (ret (suc n)) = true

-- The end of `act`, with the result of `cmd_exec`.
unfoldable pub report : Vctx → Bytes → Result ℕ × List (List Bytes) → Vctx
report ctx cmd (rc, ran) =
    if is_failure rc
    then record ctx { act_fail = true; out = ctx.out ++ apply_fail rc cmd ∷ []; ran = ran }
    else record ctx { out = ctx.out ++ apply_ok cmd ∷ []; ran = ran }

-- `act`, on the formatted command: `vsnprintf` keeps 255 bytes of it.
unfoldable pub run_act : Spawn → Vctx → Bytes → Vctx
run_act spawn ctx formatted =
    let cmd = take 255 formatted in
    let printed = record ctx { out = ctx.out ++ said (act cmd) ∷ [] } in
    if not ctx.apply || is_comment cmd
    then printed
    else report printed cmd (cmd_exec spawn ctx.ran cmd)

unfoldable pub run_call : Spawn → Vctx → Call → Vctx
run_call spawn ctx (ok s) = record ctx { out = ctx.out ++ said (ok s) ∷ [] }
run_call spawn ctx (miss s) = record ctx { out = ctx.out ++ said (miss s) ∷ [] }
run_call spawn ctx (act s) = run_act spawn ctx s

-- The calls of a check, one after the other.
unfoldable pub perform : Spawn → Vctx → List Call → Vctx
perform spawn ctx [] = ctx
perform spawn ctx (c ∷ cs) = perform spawn (run_call spawn ctx c) cs

-- The context that `verify_state` starts with.
abbrev pub start_ctx : Bool → List (List Bytes) → Vctx
start_ctx apply ran = record { apply = apply; act_fail = false; out = []; ran = ran }

-- What `verify_state` returns, `*act_fail` behind the call, what it printed and ran.
pub record Verified : Type 0 where
  pub diff : ℕ
  pub act_fail : Bool
  pub out : List Line
  pub ran : List (List Bytes)

-- `act_fail` and `ran` are the values before the call. An unsupported scenario does not write
-- `*act_fail`.
unfoldable pub verify_state :
    (Bytes → Option ℕ)
    → Spawn
    → DesiredState
    → RealState
    → Bool
    → Bool
    → List (List Bytes)
    → Verified
verify_state inet_pton spawn ds rs apply act_fail ran =
    let checks = verify_checks inet_pton ds rs in
    let ctx = perform spawn (start_ctx apply ran) checks.1 in
    elim (verify_scenario inet_pton ds rs) [
      | none ↦ record { diff = 1; act_fail = act_fail; out = []; ran = ran }
      | some _ ↦ record { diff = checks.0; act_fail = ctx.act_fail; out = ctx.out; ran = ctx.ran }
    ]
