-- ===== src/Watch.antt =====
-- watch.c: the watch and its loop. The loop runs beside the callback of nlmon, the signals and
-- `netrec_watch_stop`, which only write to the pipe and set `stop`; what poll, the pipe's making,
-- sigaction and nlmon give is a parameter.
pub mod Drive
pub mod Steps
pub mod Wakes
pub mod Stops
use netrec.Prelude.{
  ℕ, suc, Bool, true, false, not, ◌&&◌, Option, none, some, List, [], ◌∷◌, if◌then◌else◌, ℤ, pos,
  negsuc,
}
use netrec.Run.{NetrecRunCfg}

-- `struct netrec_watch`. `pending` says whether there are bytes in the pipe.
pub record Watch : Type 0 where
  pub run : NetrecRunCfg
  pub debounce_ms : ℤ
  pub manage_nlmon : Bool
  pub manage_signals : Bool
  pub sig_installed : Bool
  pub nlmon_started : Bool
  pub sub : Bool
  pub stop : Bool
  pub pending : Bool

-- `struct netrec_watch_opts`, without the callback behind a run.
pub record WatchOpts : Type 0 where
  pub debounce_ms : ℤ
  pub manage_nlmon : Bool
  pub manage_signals : Bool

-- What `pipe` gives, and whether `fd_nonblock` succeeds on its ends; whether `sigaction` succeeds for
-- both signals, `nlmon_run` and `nlmon_subscribe` succeed.
pub record WatchHost : Type 0 where
  pub pipe : Option (ℕ × ℕ)
  pub nonblock : ℕ → Bool
  pub sigaction : Bool
  pub nlmon_run : Bool
  pub nlmon_subscribe : Bool

abbrev pub is_negative : ℤ → Bool
is_negative (pos _) = false
is_negative (negsuc _) = true

-- NETREC_WATCH_DEBOUNCE_MS
abbrev pub debounce_default : ℤ
debounce_default = pos 500

-- `watch` as `netrec_watch_open` fills it.
unfoldable pub new_watch : NetrecRunCfg → Option WatchOpts → Watch
new_watch cfg none = record {
  run = cfg;
  debounce_ms = debounce_default;
  manage_nlmon = true;
  manage_signals = true;
  sig_installed = false;
  nlmon_started = false;
  sub = false;
  stop = false;
  pending = false;
}
new_watch cfg (some opts) = record {
  run = cfg;
  debounce_ms = if is_negative opts.debounce_ms then debounce_default else opts.debounce_ms;
  manage_nlmon = opts.manage_nlmon;
  manage_signals = opts.manage_signals;
  sig_installed = false;
  nlmon_started = false;
  sub = false;
  stop = false;
  pending = false;
}

-- The watch, or nothing and the ends of the pipe that were closed.
unfoldable pub netrec_watch_open :
    WatchHost → NetrecRunCfg → Option WatchOpts → Option Watch × List ℕ
unfolding new_watch
netrec_watch_open host cfg opts = elim host.pipe [
  | none ↦ (none, [])
  | some (r, w) ↦
      if host.nonblock r && host.nonblock w
      then (some (new_watch cfg opts), [])
      else (none, r ∷ w ∷ [])
]

-- A byte into the pipe; if the pipe is full, there are bytes in it.
unfoldable pub wake_watch : Watch → Watch
wake_watch w = record w { pending = true }

-- `netrec_watch_stop` and `watch_signal`
unfoldable pub netrec_watch_stop : Watch → Watch
unfolding wake_watch
netrec_watch_stop w = wake_watch (record w { stop = true })

unfoldable pub watch_drain : Watch → Watch
watch_drain w = record w { pending = false }

-- `watch_cleanup_runtime`, with `watch_uninstall_signals`
unfoldable pub watch_cleanup_runtime : Watch → Watch
watch_cleanup_runtime w = record w { sub = false; nlmon_started = false; sig_installed = false }

-- Where `netrec_watch_loop` stands: at the test of `while`, in the first wait, before and behind the
-- drain that follows, in the wait for quiet, before and behind its drain, behind the inner loop, past
-- the last test of `stop`, in the run, or behind the loop with its `rc`.
pub data Place : Type 0 where
  at_top first_wait first_drain first_test quiet_wait quiet_drain quiet_test last_test starting
        running :
      Place
  behind : ℕ → Place

-- The loop, with two counts that the code does not keep: whether an event has come since the last run
-- began, and the runs begun.
pub record Loop : Type 0 where
  pub place : Place
  pub watch : Watch
  pub owed : Bool
  pub runs : ℕ

-- What `watch_wait` gives.
pub data Poll : Type 0 where
  ready timeout failed : Poll

-- From the start of `netrec_watch_loop` to its loop; the watch alone is what a return of 1 leaves.
pub data Setup : Type 0 where
  given_up : Watch → Setup
  looping : Loop → Setup

-- The nlmon part of it.
unfoldable pub start_nlmon : WatchHost → Watch → Setup
unfolding watch_cleanup_runtime wake_watch
start_nlmon host w =
    if w.manage_nlmon && not host.nlmon_run
    then given_up (watch_cleanup_runtime w)
    else let started = record w {
      nlmon_started = if w.manage_nlmon then true else w.nlmon_started;
    } in
      if not host.nlmon_subscribe
      then given_up (watch_cleanup_runtime started)
      else looping (record {
        place = at_top;
        watch = wake_watch (record started { sub = true });
        owed = true;
        runs = 0;
      })

unfoldable pub loop_setup : WatchHost → Watch → Setup
unfolding start_nlmon
loop_setup host w =
    let cleared = record w { stop = false } in
    if w.manage_signals
    then (if host.sigaction
        then start_nlmon host (record cleared { sig_installed = true })
        else given_up cleared)
    else start_nlmon host cleared

-- One step of the loop, with what the wait gives if it stands in one. The run is `netrec_run_once` on
-- `watch.run`; the loop only prints what it returns.
unfoldable pub loop_step : Poll → Loop → Loop
unfolding watch_drain
loop_step p l = elim l.place [
  | at_top ↦ record l { place = if l.watch.stop then behind 0 else first_wait }
  | first_wait ↦ record l {
    place = elim p [ failed ↦ behind 1 | timeout ↦ at_top | ready ↦ first_drain ];
  }
  | first_drain ↦ record l { place = first_test; watch = watch_drain l.watch }
  | first_test ↦ record l { place = if l.watch.stop then behind 0 else quiet_wait }
  | quiet_wait ↦ elim p [
    | failed ↦ record l { place = behind 1; watch = record l.watch { stop = true } }
    | timeout ↦ record l { place = last_test }
    | ready ↦ record l { place = quiet_drain }
  ]
  | quiet_drain ↦ record l { place = quiet_test; watch = watch_drain l.watch }
  | quiet_test ↦ record l { place = if l.watch.stop then last_test else quiet_wait }
  | last_test ↦ record l { place = if l.watch.stop then behind 0 else starting }
  | starting ↦ record l { place = running; owed = false; runs = suc l.runs }
  | running ↦ record l { place = at_top }
  | behind rc ↦ l
]

-- What the callback of nlmon does while the loop stands anywhere.
unfoldable pub watch_nlmon_cb : Loop → Loop
unfolding wake_watch
watch_nlmon_cb l = record l { watch = wake_watch l.watch; owed = true }

unfoldable pub stop_asked : Loop → Loop
unfolding netrec_watch_stop
stop_asked l = record l { watch = netrec_watch_stop l.watch }

-- The return of `netrec_watch_loop`.
unfoldable pub loop_end : Loop → Option (ℕ × Watch)
unfolding watch_cleanup_runtime
loop_end l = elim l.place [ behind rc ↦ some (rc, watch_cleanup_runtime l.watch) | _ ↦ none ]
