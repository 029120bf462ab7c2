-- ===== src/Watch/Drive.antt =====
-- watch.c: the loop driven by what happens, from `netrec_watch` on.
use netrec.Prelude.{ℕ, true, Option, none, some, List, [], ◌∷◌, ℤ}
use netrec.Run.{NetrecRunCfg}
use netrec.Watch.{
  Watch, WatchOpts, WatchHost, Loop, Poll, loop_step, watch_nlmon_cb, stop_asked, loop_setup,
  given_up, looping, loop_end, netrec_watch_open,
}

-- One thing that happens: a step of the loop, an event, or a stop.
pub data Event : Type 0 where
  step : Poll → Event
  event : Event
  stop : Event

unfoldable pub happen : Event → Loop → Loop
unfolding loop_step watch_nlmon_cb stop_asked
happen (step p) l = loop_step p l
happen event l = watch_nlmon_cb l
happen stop l = stop_asked l

unfoldable pub happen_all : List Event → Loop → Loop
unfolding happen
happen_all [] l = l
happen_all (e ∷ es) l = happen_all es (happen e l)

-- `netrec_watch_loop`, up to where the events lead; `none` if it has not returned there.
unfoldable pub netrec_watch_loop : WatchHost → List Event → Watch → Option ℕ
unfolding loop_setup happen_all loop_end
netrec_watch_loop host es w = elim (loop_setup host w) [
  | given_up _ ↦ some 1
  | looping l ↦ elim (loop_end (happen_all es l)) [ some (rc, _) ↦ some rc | none ↦ none ]
]

unfoldable pub netrec_watch : WatchHost → List Event → NetrecRunCfg → ℤ → Option ℕ
unfolding netrec_watch_open netrec_watch_loop
netrec_watch host es cfg ms =
    let opts : WatchOpts = record {
      debounce_ms = ms;
      manage_nlmon = true;
      manage_signals = true;
    } in
    elim (netrec_watch_open host cfg (some opts)).0 [
      | none ↦ some 1
      | some w ↦ netrec_watch_loop host es w
    ]
