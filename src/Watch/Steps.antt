-- ===== src/Watch/Steps.antt =====
-- watch.c: the loop and what happens beside it, one step after the other in any order.
use netrec.Prelude.{◌≡◌, true, false}
use netrec.Watch.{Loop, Poll, ready, timeout, failed, loop_step, watch_nlmon_cb, stop_asked}

-- `poll` gives 1 if there are bytes in the pipe, 0 if there are none, and may fail.
abbrev pub IsPoll : Poll → Loop → Type 0
IsPoll ready l = l.watch.pending ≡ true
IsPoll timeout l = l.watch.pending ≡ false
IsPoll failed l = Unit

pub data Step (l : Loop) : Loop → Type 0 where
  moved : (p : Poll) → IsPoll p l → Step l (loop_step p l)
  woken : Step l (watch_nlmon_cb l)
  told : Step l (stop_asked l)

pub data Reach (l : Loop) : Loop → Type 0 where
  here : Reach l l
  next : {m n : Loop} → Reach l m → Step m n → Reach l n
