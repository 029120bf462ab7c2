-- ===== src/Tests/MainTests.antt =====
-- The theorems on main.c and watch.c at concrete inputs.
use netrec.Prelude.{
  ℕ, ◌+◌, ◌≤◌, ◌≡◌, refl, true, false, none, some, [], ◌∷◌, codes, streq, pos, ret,
}
use netrec.Prelude.Libc.{strtol, finish, take_sign, read_digits, is_space, digit_value, is_digit}
use netrec.State.{DesiredSet, RealState}
use netrec.Run.{load_desired_set, load_real, netrec_run_once}
use netrec.Run.Post.{AllSatisfied}
use netrec.Main.{
  defaults, flag, valued, arg_loop, source_fits, debounce_of, int_of_long, start_of, main_start,
  main, once,
}
use netrec.Netlink.Attr.{int32}
use netrec.Main.Args.{daemon, apply_long, config, source, means_all, arg_loop-spell_all}
use netrec.Main.Status.{IsSource, main-zero, main_start-StartsSource}
use netrec.Tests.RunTests.{host, run_cfg, returns_zero}
use netrec.Watch.{
  Watch, WatchHost, Loop, at_top, first_wait, running, starting, behind, ready, timeout, failed,
  loop_setup, looping, loop_step, new_watch, start_nlmon, wake_watch, watch_drain,
}
use netrec.Watch.Steps.{moved, Reach, here, next}
use netrec.Watch.Drive.{netrec_watch, step, event, stop}
use netrec.Watch.Wakes.{Reach-rest}
use netrec.Watch.Stops.{drive, Reach-runs, drive-behind}

arg_loop-spell_all_example :
    arg_loop defaults (
      codes "--daemon"
      ∷ codes "-c"
      ∷ codes "-a"
      ∷ codes "--apply"
      ∷ codes "--source"
      ∷ codes "uci"
      ∷ [])
    ≡ some
        (means_all (daemon ∷ config (codes "-a") ∷ apply_long ∷ source (codes "uci") ∷ []) defaults)
unfolding codes
arg_loop-spell_all_example =
    arg_loop-spell_all (daemon ∷ config (codes "-a") ∷ apply_long ∷ source (codes "uci") ∷ [])
      defaults

-- A delay of 2^32 milliseconds is read as 0.
large_delay : debounce_of (some (codes "4294967296")) ≡ some (pos 0)
unfolding debounce_of codes int_of_long int32 strtol finish take_sign read_digits is_space
    digit_value is_digit
large_delay = refl

main_start-StartsSource_example :
    IsSource (record defaults.run { cfg_path = some (codes "a.yaml") })
unfolding codes main_start arg_loop flag valued streq start_of source_fits debounce_of
main_start-StartsSource_example = main_start-StartsSource (codes "-c" ∷ codes "a.yaml" ∷ [])

abbrev watch_host : WatchHost
watch_host = record {
  pipe = some (3, 4);
  nonblock = λ fd. true;
  sigaction = true;
  nlmon_run = true;
  nlmon_subscribe = true;
}

started : main_start (codes "-a" ∷ codes "-c" ∷ codes "net.yaml" ∷ []) ≡ once run_cfg
unfolding codes main_start arg_loop flag valued streq start_of source_fits debounce_of
started = refl

exits_zero : main host watch_host [] (codes "-a" ∷ codes "-c" ∷ codes "net.yaml" ∷ []) ≡ some 0
unfolding main
exits_zero = rw (started, returns_zero, main) refl

main-zero_example :
    (set : DesiredSet) × (rs : RealState) × (load_desired_set host run_cfg ≡ ret set)
    × (load_real host (netrec_run_once host run_cfg).ran ≡ ret rs)
    × AllSatisfied host set rs
main-zero_example =
    main-zero host watch_host [] (codes "-a" ∷ codes "-c" ∷ codes "net.yaml" ∷ []) run_cfg started
      exits_zero

abbrev watched : Watch
watched = record (new_watch run_cfg none) { sig_installed = true; nlmon_started = true; sub = true }

abbrev begun : Loop
begun = record { place = at_top; watch = record watched { pending = true }; owed = true; runs = 0 }

set_up : loop_setup watch_host (new_watch run_cfg none) ≡ looping begun
unfolding loop_setup start_nlmon wake_watch new_watch
set_up = refl

-- The first run, and the wait behind it.
abbrev rested : Loop
rested = record begun { place = first_wait; watch = watched; owed = false; runs = 1 }

first_run : Reach begun rested
unfolding loop_step watch_drain new_watch
first_run =
    next
      (next
        (next
          (next
            (next
              (next (next (next (next here (moved failed tt)) (moved ready refl)) (moved failed tt))
                (moved failed tt))
              (moved timeout refl))
            (moved failed tt))
          (moved failed tt))
        (moved failed tt))
      (moved failed tt)

Reach-rest_example : (rested.owed ≡ false) × (rested.watch.stop ≡ false)
unfolding new_watch
Reach-rest_example =
    Reach-rest watch_host (new_watch run_cfg none) begun rested set_up first_run refl refl

-- A stop while the first run is due.
abbrev due_run : Loop
due_run = record begun { place = starting; watch = record watched { stop = true; pending = true } }

Reach-runs_example : 1 ≤ 0 + 1
unfolding loop_step
Reach-runs_example =
    Reach-runs due_run (record due_run { place = running; owed = false; runs = 1 })
      (next here (moved failed tt)) refl

drive-behind_example :
    (rc : ℕ) × ((drive (ready ∷ ready ∷ ready ∷ ready ∷ []) due_run).place ≡ behind rc)
drive-behind_example = drive-behind ready ready ready ready due_run refl

-- An event while the first run is due, a stop in the wait behind it.
watch_stopped :
    netrec_watch watch_host
      (step failed
        ∷ step ready
        ∷ step failed
        ∷ event
        ∷ step failed
        ∷ step ready
        ∷ step failed
        ∷ step failed
        ∷ step timeout
        ∷ step failed
        ∷ step failed
        ∷ step failed
        ∷ step failed
        ∷ stop
        ∷ step ready
        ∷ step failed
        ∷ step failed
        ∷ [])
      run_cfg
      (pos 800)
    ≡ some 0
unfolding netrec_watch
watch_stopped = refl
