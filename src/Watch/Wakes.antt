-- ===== src/Watch/Wakes.antt =====
-- watch.c: no event is forgotten, and a stop ends the runs.
use netrec.Prelude.{
  ℕ, ◌≡◌, refl, inl, inr, Bool-cases, Bool, true, false, not, ◌&&◌, arith, if◌then◌else◌, subst,
}
use netrec.Watch.{
  Watch, WatchHost, Place, at_top, first_wait, first_drain, first_test, quiet_wait, quiet_drain,
  quiet_test, last_test, starting, running, behind, Loop, Poll, ready, timeout, failed, Setup,
  given_up, looping, start_nlmon, loop_setup, loop_step, watch_nlmon_cb, stop_asked, wake_watch,
  watch_drain, netrec_watch_stop,
}
use netrec.Watch.Steps.{IsPoll, Step, moved, woken, told, Reach, here, next}

-- Places that the loop leaves for another run only through the first wait.
abbrev is_before : Place → Bool
is_before at_top = true
is_before first_wait = true
is_before running = true
is_before _ = false

abbrev is_first_wait : Place → Bool
is_first_wait first_wait = true
is_first_wait _ = false

-- An event that no run has seen, and a stop, leave a byte in the pipe for the first wait.
abbrev IsAwake : Loop → Type 0
IsAwake l =
    (is_before l.place && l.owed && not l.watch.pending ≡ false)
    × (is_first_wait l.place && l.watch.stop && not l.watch.pending ≡ false)

loop_step-IsAwake :
    (p : Poll) (place : Place) (w : Watch) (owed : Bool) (runs : ℕ)
    → IsPoll p (record { place = place; watch = w; owed = owed; runs = runs })
    → IsAwake (record { place = place; watch = w; owed = owed; runs = runs })
    → IsAwake (loop_step p (record { place = place; watch = w; owed = owed; runs = runs }))
unfolding loop_step watch_drain
loop_step-IsAwake p at_top w owed runs h a = elim (Bool-cases w.stop) [
  | inl s ↦ rw s (refl, refl)
  | inr n ↦ rw n (a.0, refl)
]
loop_step-IsAwake ready first_wait w owed runs h a = (refl, refl)
loop_step-IsAwake timeout first_wait w owed runs h a = (a.0, refl)
loop_step-IsAwake failed first_wait w owed runs h a = (refl, refl)
loop_step-IsAwake p first_drain w owed runs h a = (refl, refl)
loop_step-IsAwake p first_test w owed runs h a = elim (Bool-cases w.stop) [
  | inl s ↦ rw s (refl, refl)
  | inr n ↦ rw n (refl, refl)
]
loop_step-IsAwake ready quiet_wait w owed runs h a = (refl, refl)
loop_step-IsAwake timeout quiet_wait w owed runs h a = (refl, refl)
loop_step-IsAwake failed quiet_wait w owed runs h a = (refl, refl)
loop_step-IsAwake p quiet_drain w owed runs h a = (refl, refl)
loop_step-IsAwake p quiet_test w owed runs h a = elim (Bool-cases w.stop) [
  | inl s ↦ rw s (refl, refl)
  | inr n ↦ rw n (refl, refl)
]
loop_step-IsAwake p last_test w owed runs h a = elim (Bool-cases w.stop) [
  | inl s ↦ rw s (refl, refl)
  | inr n ↦ rw n (refl, refl)
]
loop_step-IsAwake p starting w owed runs h a = (refl, refl)
loop_step-IsAwake p running w owed runs h a = (a.0, refl)
loop_step-IsAwake p (behind rc) w owed runs h a = a

Step-IsAwake : {l m : Loop} → Step l m → IsAwake l → IsAwake m
unfolding watch_nlmon_cb stop_asked netrec_watch_stop wake_watch
Step-IsAwake {l} (moved p h) a = loop_step-IsAwake p l.place l.watch l.owed l.runs h a
Step-IsAwake woken a = (ground arith, ground arith)
Step-IsAwake told a = (ground arith, ground arith)

Reach-IsAwake : {l m : Loop} → Reach l m → IsAwake l → IsAwake m
Reach-IsAwake here a = a
Reach-IsAwake (next r s) a = Step-IsAwake s (Reach-IsAwake r a)

start_nlmon-IsAwake :
    (host : WatchHost) (w : Watch) (l : Loop) → start_nlmon host w ≡ looping l → IsAwake l
unfolding start_nlmon wake_watch
start_nlmon-IsAwake host w l h = elim (Bool-cases (w.manage_nlmon && not host.nlmon_run)) [
  | inl y ↦ cc (rw (y, start_nlmon) at h)
  | inr n ↦ elim (Bool-cases host.nlmon_subscribe) [
    | inr f ↦ cc (rw (n, f, start_nlmon) at h)
    | inl s ↦
        let same : record {
          place = at_top;
          watch = wake_watch (record w {
            nlmon_started = if w.manage_nlmon then true else w.nlmon_started;
            sub = true;
          });
          owed = true;
          runs = 0;
        }
            ≡ l =
          cc (rw (n, s, start_nlmon) at h) in
        subst IsAwake same (refl, refl)
  ]
]

either_setup :
    (manage installed : Bool) (x y : Setup) (w : Watch) {l : Loop}
    → (x ≡ looping l → IsAwake l)
    → (y ≡ looping l → IsAwake l)
    → (if manage then (if installed then x else given_up w) else y) ≡ looping l
    → IsAwake l
either_setup true true x y w f g h = f h
either_setup true false x y w f g h = cc h
either_setup false installed x y w f g h = g h

loop_setup-IsAwake :
    (host : WatchHost) (w : Watch) (l : Loop) → loop_setup host w ≡ looping l → IsAwake l
unfolding loop_setup
loop_setup-IsAwake host w l h =
    let cleared = record w { stop = false } in
    let signals = record cleared { sig_installed = true } in
    either_setup w.manage_signals host.sigaction (start_nlmon host signals)
      (start_nlmon host cleared) cleared (start_nlmon-IsAwake host signals l)
      (start_nlmon-IsAwake host cleared l) h

-- Where the loop of a watch waits with nothing in the pipe, a run has begun since the last event and
-- since the start, and no stop has been asked for: however events, stops, the waits' results and the
-- loop's steps follow each other, no event and no stop is forgotten.
pub Reach-rest :
    (host : WatchHost) (w : Watch) (l m : Loop)
    → loop_setup host w ≡ looping l
    → Reach l m
    → m.place ≡ first_wait
    → m.watch.pending ≡ false
    → (m.owed ≡ false) × (m.watch.stop ≡ false)
Reach-rest host w l m s r first empty =
    let a = Reach-IsAwake r (loop_setup-IsAwake host w l s) in
    let (event, stop) : (true && m.owed && true ≡ false) × (true && m.watch.stop && true ≡ false) =
      (rw (first, empty) at a.0, rw (first, empty) at a.1) in
    (ground arith, ground arith)
