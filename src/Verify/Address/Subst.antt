-- ===== src/Verify/Address/Subst.antt =====
-- verify.c: `subst_iface`, which replaces `$iface` in a command by the interface's name.
use netrec.Prelude.{
  ℕ, zero, suc, ◌+◌, Bool, true, false, ◌&&◌, [], ◌∷◌, ◌++◌, Bytes, ◌==◌, leb, if◌then◌else◌,
  length, Result, ret, err, enospc, ◌>>=◌,
}

-- `!strncmp(src, key, klen)`
unfoldable pub starts_with : Bytes → Bytes → Bool
starts_with [] src = true
starts_with (k ∷ ks) [] = false
starts_with (k ∷ ks) (c ∷ cs) = k == c && starts_with ks cs

abbrev pub key : Bytes
key = b'$' ∷ b'i' ∷ b'f' ∷ b'a' ∷ b'c' ∷ b'e' ∷ []

-- The loop, with `n` bytes written to a buffer of `sz` bytes. `skip` counts the bytes of a matched
-- key that `src` has still to pass. What the round copies is the name or one byte.
unfoldable pub subst_loop : ℕ → Bytes → ℕ → ℕ → Bytes → Result Bytes
unfolding starts_with
subst_loop sz ifname n skip [] = ret []
subst_loop sz ifname n (suc skip) (c ∷ cs) = subst_loop sz ifname n skip cs
subst_loop sz ifname n zero (c ∷ cs) =
    let hit = starts_with key (c ∷ cs) in
    let piece = if hit then ifname else c ∷ [] in
    let rest = subst_loop sz ifname (n + length piece) (if hit then 5 else 0) cs in
    if leb sz (n + length piece) then err enospc else (rest >>= λ r. ret (piece ++ r))

unfoldable pub subst_iface : ℕ → Bytes → Bytes → Result Bytes
unfolding subst_loop
subst_iface sz src ifname = if sz == 0 then err enospc else subst_loop sz ifname 0 0 src
