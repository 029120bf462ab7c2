-- ===== src/Watch/Stops.antt =====
-- watch.c: what a stop that was asked for does to the loop.
use netrec.Prelude.{ℕ, ◌+◌, ◌-◌, ◌≤◌, ◌≡◌, refl, Bool, true, arith, List, [], ◌∷◌, length}
use netrec.Watch.{
  Watch, Place, at_top, first_wait, first_drain, first_test, quiet_wait, quiet_drain, quiet_test,
  last_test, starting, running, behind, Loop, Poll, ready, timeout, failed, loop_step,
  watch_nlmon_cb, stop_asked, wake_watch, watch_drain, netrec_watch_stop,
}
use netrec.Watch.Steps.{moved, woken, told, Reach, here, next}

-- A run that is past the last test of `stop` and has not begun.
abbrev pub due : Place → ℕ
due starting = 1
due _ = 0

-- The steps that are left at most once `stop` is set.
abbrev pub left : Place → ℕ
left at_top = 1
left first_wait = 3
left first_drain = 2
left first_test = 1
left quiet_wait = 4
left quiet_drain = 3
left quiet_test = 2
left last_test = 1
left starting = 3
left running = 2
left (behind rc) = 0

-- A step keeps the stop, adds no run that was not due, and comes nearer to the end.
record IsEnding (l m : Loop) : Type 0 where
  still : m.watch.stop ≡ true
  no_more : m.runs + due m.place ≤ l.runs + due l.place
  nearer : left m.place ≤ left l.place - 1

loop_step-IsEnding :
    (p : Poll) (place : Place) (w : Watch) (owed : Bool) (runs : ℕ)
    → w.stop ≡ true
    → IsEnding
        (record { place = place; watch = w; owed = owed; runs = runs })
        (loop_step p (record { place = place; watch = w; owed = owed; runs = runs }))
unfolding loop_step watch_drain
loop_step-IsEnding p at_top w owed runs s =
    rw s (record { still = refl; no_more = omega arith; nearer = omega arith })
loop_step-IsEnding ready first_wait w owed runs s = record {
  still = s;
  no_more = omega arith;
  nearer = omega arith;
}
loop_step-IsEnding timeout first_wait w owed runs s = record {
  still = s;
  no_more = omega arith;
  nearer = omega arith;
}
loop_step-IsEnding failed first_wait w owed runs s = record {
  still = s;
  no_more = omega arith;
  nearer = omega arith;
}
loop_step-IsEnding p first_drain w owed runs s = record {
  still = s;
  no_more = omega arith;
  nearer = omega arith;
}
loop_step-IsEnding p first_test w owed runs s =
    rw s (record { still = refl; no_more = omega arith; nearer = omega arith })
loop_step-IsEnding ready quiet_wait w owed runs s = record {
  still = s;
  no_more = omega arith;
  nearer = omega arith;
}
loop_step-IsEnding timeout quiet_wait w owed runs s = record {
  still = s;
  no_more = omega arith;
  nearer = omega arith;
}
loop_step-IsEnding failed quiet_wait w owed runs s = record {
  still = refl;
  no_more = omega arith;
  nearer = omega arith;
}
loop_step-IsEnding p quiet_drain w owed runs s = record {
  still = s;
  no_more = omega arith;
  nearer = omega arith;
}
loop_step-IsEnding p quiet_test w owed runs s =
    rw s (record { still = refl; no_more = omega arith; nearer = omega arith })
loop_step-IsEnding p last_test w owed runs s =
    rw s (record { still = refl; no_more = omega arith; nearer = omega arith })
loop_step-IsEnding p starting w owed runs s = record {
  still = s;
  no_more = omega arith;
  nearer = omega arith;
}
loop_step-IsEnding p running w owed runs s = record {
  still = s;
  no_more = omega arith;
  nearer = omega arith;
}
loop_step-IsEnding p (behind rc) w owed runs s = record {
  still = s;
  no_more = omega arith;
  nearer = omega arith;
}

-- The stop stays, and so does the number of runs, whatever comes in between.
Reach-still :
    {l m : Loop}
    → Reach l m
    → l.watch.stop ≡ true
    → (m.watch.stop ≡ true) × (m.runs + due m.place ≤ l.runs + due l.place)
unfolding watch_nlmon_cb stop_asked netrec_watch_stop wake_watch
Reach-still here s = (s, omega arith)
Reach-still (next {m = n} r (moved p h)) s =
    let (still, few) = Reach-still r s in
    let e = loop_step-IsEnding p n.place n.watch n.owed n.runs still in
    (e.still, let more = e.no_more in omega arith)
Reach-still (next r woken) s = Reach-still r s
Reach-still (next r told) s = let (still, few) = Reach-still r s in (refl, few)

-- Behind a stop no run begins, but one that was already past the last test of it, whatever events and
-- waits follow.
pub Reach-runs : (l m : Loop) → Reach l m → l.watch.stop ≡ true → m.runs ≤ l.runs + due l.place
Reach-runs l m r s = let few = (Reach-still r s).1 in omega arith

-- The loop's own steps, with what its waits give.
abbrev pub drive : List Poll → Loop → Loop
drive [] l = l
drive (p ∷ ps) l = drive ps (loop_step p l)

drive-left :
    (ps : List Poll) (l : Loop)
    → l.watch.stop ≡ true
    → left l.place ≤ length ps
    → left (drive ps l).place ≡ 0
drive-left [] l s h = omega arith
drive-left (p ∷ ps) l s h =
    let e = loop_step-IsEnding p l.place l.watch l.owed l.runs s in
    let near = e.nearer in drive-left ps (loop_step p l) e.still (omega arith)

left-behind : (place : Place) → left place ≡ 0 → (rc : ℕ) × (place ≡ behind rc)
left-behind at_top h = absurd (omega arith)
left-behind first_wait h = absurd (omega arith)
left-behind first_drain h = absurd (omega arith)
left-behind first_test h = absurd (omega arith)
left-behind quiet_wait h = absurd (omega arith)
left-behind quiet_drain h = absurd (omega arith)
left-behind quiet_test h = absurd (omega arith)
left-behind last_test h = absurd (omega arith)
left-behind starting h = absurd (omega arith)
left-behind running h = absurd (omega arith)
left-behind (behind rc) h = (rc, refl)

left-four : (place : Place) → left place ≤ 4
left-four at_top = omega arith
left-four first_wait = omega arith
left-four first_drain = omega arith
left-four first_test = omega arith
left-four quiet_wait = omega arith
left-four quiet_drain = omega arith
left-four quiet_test = omega arith
left-four last_test = omega arith
left-four starting = omega arith
left-four running = omega arith
left-four (behind rc) = omega arith

-- Once a stop is asked for, the loop is left after at most four of its own steps, whatever its waits
-- give.
pub drive-behind :
    (p q r s : Poll) (l : Loop)
    → l.watch.stop ≡ true
    → (rc : ℕ) × ((drive (p ∷ q ∷ r ∷ s ∷ []) l).place ≡ behind rc)
drive-behind p q r s l stop =
    let steps = p ∷ q ∷ r ∷ s ∷ [] in
    left-behind (drive steps l).place (drive-left steps l stop (left-four l.place))
