-- ===== src/Uci/Added.antt =====
-- uci.c: the ports that a bridge gets from its device.
use netrec.Prelude.{
  ℕ, zero, suc, ◌+◌, ◌≤◌, ◌<◌, ◌≡◌, refl, subst, inl, inr, Bool-cases, Bool, true, false, not, ◌&&◌,
  is_empty, Option, none, some, List, [], ◌∷◌, ◌++◌, arith, Bytes, streq, streq_sym, any_of, ltb,
  leb, length, length-append, All, All-append, Result, ret, err, >>=-eq-ret,
}
use netrec.Cfg.Value.{ltrim}
use netrec.State.{DesiredState, nr_br_port_max, ifnamsiz}
use netrec.Uci.Words.{span_word, next_word, word_calls, words_of}
use netrec.Uci.Ports.{is_known_port, add_bridge_port, port_loop, skip_word, add_device_ports}
use netrec.Uci.Lookup.{uci_cpy-fits}

abbrev pub NoRepeat : List Bytes → Type 0
NoRepeat [] = Unit
NoRepeat (x ∷ xs) = (any_of (λ p. streq p x) xs ≡ false) × NoRepeat xs

-- A name that is not empty, and is not the uplink or the VXLAN.
abbrev pub IsOther : DesiredState → Bytes → Type 0
IsOther ds p =
    (is_empty p ≡ false) × (streq ds.up_ifname p ≡ false) × (streq ds.vx_ifname p ≡ false)

-- The ports of a bridge: no two the same, none of them empty, the uplink or the VXLAN, at most 32.
pub record IsPorts (ds : DesiredState) : Type 0 where
  pub no_repeat : NoRepeat ds.br_ports
  pub others : All (IsOther ds) ds.br_ports
  pub room : length ds.br_ports ≤ nr_br_port_max

any_of-append :
    (p : Bytes → Bool) (xs : List Bytes) (y : Bytes)
    → any_of p xs ≡ false
    → p y ≡ false
    → any_of p (xs ++ y ∷ []) ≡ false
unfolding any_of
any_of-append p [] y h k = rw k
any_of-append p (x ∷ xs) y h k = elim (Bool-cases (p x)) [
  | inl t ↦ cc (rw t at h)
  | inr f ↦ rw f (any_of-append p xs y (rw f at h) k)
]

NoRepeat-append :
    (xs : List Bytes) (y : Bytes)
    → NoRepeat xs
    → any_of (λ p. streq p y) xs ≡ false
    → NoRepeat (xs ++ y ∷ [])
unfolding any_of
NoRepeat-append [] y h k = (refl, tt)
NoRepeat-append (x ∷ xs) y h k = elim (Bool-cases (streq x y)) [
  | inl t ↦ cc (rw t at k)
  | inr f ↦ (
    any_of-append (λ p. streq p x) xs y h.0 (streq_sym x y f),
    NoRepeat-append xs y h.1 (rw f at k),
  )
]

named_other :
    (name : Bytes) (c : ℕ) (cs : Bytes)
    → not (is_empty name) && streq name (c ∷ cs) ≡ false
    → streq name (c ∷ cs) ≡ false
unfolding streq
named_other [] c cs h = refl
named_other (x ∷ xs) c cs h = h

-- The test of `add_bridge_port`, taken apart.
known_parts :
    (ds : DesiredState) (ifname : Bytes)
    → is_known_port ds ifname ≡ false
    → IsOther ds ifname × (any_of (λ port. streq port ifname) ds.br_ports ≡ false)
unfolding is_known_port any_of
known_parts ds [] h = cc h
known_parts ds (c ∷ cs) h =
    let up : not (is_empty ds.up_ifname) && streq ds.up_ifname (c ∷ cs) ≡ false = ground arith in
    let vx : not (is_empty ds.vx_ifname) && streq ds.vx_ifname (c ∷ cs) ≡ false = ground arith in
    ((refl, named_other ds.up_ifname c cs up, named_other ds.vx_ifname c cs vx), ground arith)

add_bridge_port-IsPorts :
    (ds d : DesiredState) (ifname : Bytes)
    → length ifname < ifnamsiz
    → IsPorts ds
    → add_bridge_port ds ifname ≡ ret d
    → IsPorts d
unfolding add_bridge_port
add_bridge_port-IsPorts ds d ifname short p h = elim (Bool-cases (is_known_port ds ifname)) [
  | inl y ↦ let same : ds ≡ d = cc (rw y at h) in subst IsPorts same p
  | inr n ↦ elim (Bool-cases (leb nr_br_port_max (length ds.br_ports))) [
    | inl full ↦ cc (rw (n, full) at h)
    | inr room ↦
        let added : List Bytes = ds.br_ports ++ ifname ∷ [] in
        let (other, fresh) = known_parts ds ifname n in
        let same : record ds { br_ports = added } ≡ d =
          cc (rw (n, room, uci_cpy-fits ifnamsiz ifname short) at h) in
        subst IsPorts same (record {
          no_repeat = NoRepeat-append ds.br_ports ifname p.no_repeat fresh;
          others = All-append _ ds.br_ports (ifname ∷ []) p.others (other, tt);
          room = rw (length-append ds.br_ports (ifname ∷ [])) (ground arith);
        })
  ]
]

-- A word of a loop, if it is one, has fewer bytes than the buffer.
abbrev IsFitting : ℕ → Result Bytes → Type 0
IsFitting sz (ret w) = length w < sz
IsFitting sz (err e) = Unit

word_step-fit :
    (fuel sz : ℕ) (s t : Bytes)
    → ((u : Bytes) → All (IsFitting sz) (word_calls fuel sz u))
    → ltrim s ≡ t
    → All (IsFitting sz) (word_calls (suc fuel) sz s)
unfolding word_calls next_word
word_step-fit fuel sz s [] ih e = rw (e, word_calls, next_word) tt
word_step-fit fuel sz s (c ∷ cs) ih e =
    elim (Bool-cases (ltb sz (length (span_word (c ∷ cs)).0 + 1))) [
      | inl long ↦ rw (e, long, word_calls, next_word) (tt, tt)
      | inr fits ↦ rw (e, fits, word_calls, next_word) (ground arith, ih (span_word (c ∷ cs)).1)
    ]

word_calls-fit : (fuel sz : ℕ) (s : Bytes) → All (IsFitting sz) (word_calls fuel sz s)
unfolding word_calls
word_calls-fit zero sz s = tt
word_calls-fit (suc fuel) sz s = word_step-fit fuel sz s (ltrim s) (word_calls-fit fuel sz) refl

port_loop-IsPorts :
    (ws : List (Result Bytes)) (ds d : DesiredState)
    → All (IsFitting ifnamsiz) ws
    → IsPorts ds
    → port_loop ws ds ≡ ret d
    → IsPorts d
unfolding port_loop
port_loop-IsPorts [] ds d f p h = let same : ds ≡ d = cc h in subst IsPorts same p
port_loop-IsPorts (err e ∷ ws) ds d f p h = cc h
port_loop-IsPorts (ret w ∷ ws) ds d f p h =
    let (m, e, k) = >>=-eq-ret (add_bridge_port ds w) (port_loop ws) h in
    port_loop-IsPorts ws m d f.1 (add_bridge_port-IsPorts ds m w f.0 p e) k

skip_word-fit :
    (b : Bool) (ws : List (Result Bytes))
    → All (IsFitting ifnamsiz) ws
    → All (IsFitting ifnamsiz) (skip_word b ws)
unfolding skip_word
skip_word-fit true (ret w ∷ ws) h = h.1
skip_word-fit true (err e ∷ ws) h = h
skip_word-fit true [] h = tt
skip_word-fit false ws h = h

-- The ports that a bridge takes from its device keep its ports in order: no two the same, none of them
-- empty, the uplink or the VXLAN, and at most 32 of them.
pub add_device_ports-IsPorts :
    (ports : Option Bytes) (ds d : DesiredState) (skip_first : Bool)
    → IsPorts ds
    → add_device_ports ports ds skip_first ≡ ret d
    → IsPorts d
unfolding add_device_ports
add_device_ports-IsPorts none ds d b p h = let same : ds ≡ d = cc h in subst IsPorts same p
add_device_ports-IsPorts (some ports) ds d b p h =
    port_loop-IsPorts (skip_word b (words_of ifnamsiz ports)) ds d
      (skip_word-fit b (words_of ifnamsiz ports) (word_calls-fit (length ports) ifnamsiz ports)) p h
