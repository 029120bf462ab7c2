-- ===== src/Netlink/Returns.antt =====
-- netlink.c: `recv_dump` comes to its end.
use netrec.Prelude.{
  ℕ, zero, suc, ◌≡◌, refl, inl, inr, true, false, some, List, [], ◌∷◌, ◌++◌, Bytes, ◌==◌, Result,
  ret, err, eio,
}
use netrec.State.{RealState}
use netrec.Netlink.Attr.{u16, u32}
use netrec.Netlink.Dump.{
  Recv, interrupted, failed, received, finish, nlmsg_ok, handle_msg, msg_loop, recv_dump,
}
use netrec.Netlink.Limits.{Walk-cases}

handle_msg-done :
    (seq type : ℕ) (rs : RealState) (nh : Bytes)
    → (u32 8 nh == seq) ≡ true
    → (u16 4 nh == 3) ≡ true
    → handle_msg seq type rs nh ≡ finish (ret rs)
unfolding handle_msg
handle_msg-done seq type rs nh s t = rw (s, t, handle_msg) refl

-- The end of a dump, at the start of a buffer.
pub record StartsDone (seq n : ℕ) (buf : Bytes) : Type 0 where
  pub whole : nlmsg_ok (suc n) buf ≡ true
  pub same_seq : (u32 8 buf == seq) ≡ true
  pub done : (u16 4 buf == 3) ≡ true

-- If a receive starts with the end of this dump, `recv_dump` returns at it or before, whatever the
-- receives before it are.
pub recv_dump-StartsDone :
    (seq type n : ℕ) (rs : RealState) (buf : Bytes) (before after : List Recv)
    → StartsDone seq n buf
    → (out : Result RealState × List Recv) × (recv_dump seq type rs
          (before ++ received (suc n) buf ∷ after)
        ≡ some out)
unfolding recv_dump msg_loop
recv_dump-StartsDone seq type n rs buf [] after d =
    let ends = handle_msg-done seq type rs buf d.same_seq d.done in
    ((ret rs, after), rw (d.whole, ends, recv_dump, msg_loop) refl)
recv_dump-StartsDone seq type n rs buf (interrupted ∷ more) after d =
    recv_dump-StartsDone seq type n rs buf more after d
recv_dump-StartsDone seq type n rs buf (failed e ∷ more) after d = (_, refl)
recv_dump-StartsDone seq type n rs buf (received zero b ∷ more) after d = (_, refl)
recv_dump-StartsDone seq type n rs buf (received (suc m) b ∷ more) after d =
    elim (Walk-cases (msg_loop (suc m) seq type rs (suc m) b)) [
      | inl (r, e) ↦ ((r, more ++ received (suc n) buf ∷ after), rw (e, recv_dump) refl)
      | inr (false, r, e) ↦
          ((err eio, more ++ received (suc n) buf ∷ after), rw (e, recv_dump) refl)
      | inr (true, r, e) ↦
          let (out, f) = recv_dump-StartsDone seq type n r buf more after d in
          (out, rw (e, recv_dump) f)
    ]
