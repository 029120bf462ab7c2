-- ===== src/Uci/Kept.antt =====
-- uci.c: what the ports of a bridge leave of its desired state, and how long the texts are.
use netrec.Prelude.{
  ℕ, zero, suc, ◌+◌, ◌-◌, ◌≤◌, ◌<◌, ◌≡◌, refl, sym, ◌∙◌, ap, subst, inl, inr, Bool-cases,
  Option-cases, Bool, false, Option, none, some, List, [], ◌∷◌, ◌++◌, arith, Bytes, is_blank,
  is_empty, length, length-append, length-take, ltb, leb, All, All-append, Result, Result-cases,
  ret, err, ◌>>=◌, >>=-eq-ret,
}
use netrec.Cfg.Value.{ltrim}
use netrec.State.{DesiredState, nr_br_port_max, ifnamsiz, inet_addrstrlen}
use netrec.Uci.Words.{uci_cpy, span_word, next_word, words_of}
use netrec.Uci.Db.{UciItem, UciDb}
use netrec.Uci.Ports.{
  is_known_port, add_bridge_port, wireless_port, wireless_loop, add_wireless_ports, port_loop,
  skip_word, add_device_ports, first_device_port,
}
use netrec.Uci.Proto.{ip_loop, split_ip_list}
use netrec.Uci.Read.{IsShortName}

pub length-uci_cpy : (sz : ℕ) (s : Bytes) → 1 ≤ sz → length (uci_cpy sz (some s)) < sz
unfolding uci_cpy
length-uci_cpy sz s h = elim (Bool-cases (leb sz (length s))) [
  | inl y ↦ rw y (omega (arith, length-take (sz - 1) s))
  | inr n ↦ rw n (ground arith)
]

pub uci_cpy-is_empty :
    (s : Bytes) → is_empty s ≡ false → is_empty (uci_cpy ifnamsiz (some s)) ≡ false
unfolding uci_cpy
uci_cpy-is_empty [] h = cc h
uci_cpy-is_empty (c ∷ cs) h = elim (Bool-cases (leb ifnamsiz (length (c ∷ cs)))) [
  | inl y ↦ rw y refl
  | inr n ↦ rw n refl
]

-- Only the ports of a state have changed, and they fit.
pub record WithPorts (base ds : DesiredState) : Type 0 where
  pub ports : List Bytes
  pub same : ds ≡ record base { br_ports = ports }
  pub short : All IsShortName ports
  pub room : length ports ≤ nr_br_port_max

add_bridge_port-WithPorts :
    (base ds d : DesiredState) (w : Bytes)
    → WithPorts base ds
    → add_bridge_port ds w ≡ ret d
    → WithPorts base d
unfolding add_bridge_port
add_bridge_port-WithPorts base ds d w p h = elim (Bool-cases (is_known_port ds w)) [
  | inl y ↦ let same : ds ≡ d = cc (rw y at h) in subst (WithPorts base) same p
  | inr n ↦ elim (Bool-cases (leb nr_br_port_max (length ds.br_ports))) [
    | inl full ↦ cc (rw (n, full) at h)
    | inr room ↦
        let name = uci_cpy ifnamsiz (some w) in
        let add : DesiredState → DesiredState =
          λ z. record z { br_ports = z.br_ports ++ name ∷ [] } in
        let same : add ds ≡ d = cc (rw (n, room) at h) in
        let was : ds.br_ports ≡ p.ports = ap (λ z. z.br_ports) p.same in
        record {
          ports = p.ports ++ name ∷ [];
          same = sym same ∙ ap add p.same;
          short =
              All-append IsShortName p.ports (name ∷ []) p.short
                (length-uci_cpy ifnamsiz w (omega arith), tt);
          room =
              rw (length-append p.ports (name ∷ [])) (
                let x = subst (λ z. leb nr_br_port_max (length z) ≡ false) was room in
                ground arith);
        }
  ]
]

port_loop-WithPorts :
    (base ds d : DesiredState) (ws : List (Result Bytes))
    → WithPorts base ds
    → port_loop ws ds ≡ ret d
    → WithPorts base d
unfolding port_loop
port_loop-WithPorts base ds d [] p h = let same : ds ≡ d = cc h in subst (WithPorts base) same p
port_loop-WithPorts base ds d (err e ∷ ws) p h = cc h
port_loop-WithPorts base ds d (ret w ∷ ws) p h =
    let (m, e, k) = >>=-eq-ret (add_bridge_port ds w) (port_loop ws) h in
    port_loop-WithPorts base m d ws (add_bridge_port-WithPorts base ds m w p e) k

pub add_device_ports-WithPorts :
    (base ds d : DesiredState) (ports : Option Bytes) (b : Bool)
    → WithPorts base ds
    → add_device_ports ports ds b ≡ ret d
    → WithPorts base d
unfolding add_device_ports
add_device_ports-WithPorts base ds d none b p h =
    let same : ds ≡ d = cc h in subst (WithPorts base) same p
add_device_ports-WithPorts base ds d (some ports) b p h =
    port_loop-WithPorts base ds d (skip_word b (words_of ifnamsiz ports)) p h

wireless_loop-WithPorts :
    (base ds d : DesiredState) (db : UciDb) (name : Bytes) (items : List UciItem)
    → WithPorts base ds
    → wireless_loop db name items ds ≡ ret d
    → WithPorts base d
unfolding wireless_loop
wireless_loop-WithPorts base ds d db name [] p h =
    let same : ds ≡ d = cc h in subst (WithPorts base) same p
wireless_loop-WithPorts base ds d db name (it ∷ items) p h =
    elim (Option-cases (wireless_port db name it)) [
      | inl e ↦ wireless_loop-WithPorts base ds d db name items p (rw (e, wireless_loop) at h)
      | inr (w, e) ↦
          let (m, f, k) =
            >>=-eq-ret (add_bridge_port ds w) (wireless_loop db name items)
              (rw (e, wireless_loop) at h) in
          wireless_loop-WithPorts base m d db name items (add_bridge_port-WithPorts base ds m w p f)
            k
    ]

pub add_wireless_ports-WithPorts :
    (base ds d : DesiredState) (db : UciDb) (name : Bytes)
    → WithPorts base ds
    → add_wireless_ports db name ds ≡ ret d
    → WithPorts base d
unfolding add_wireless_ports
add_wireless_ports-WithPorts base ds d db name p h =
    wireless_loop-WithPorts base ds d db name db p h

-- The addresses of name servers.
ip_loop-short :
    (room : ℕ) (ws : List (Result Bytes)) (ips : List Bytes)
    → ip_loop room ws ≡ ret ips
    → All IsShortName ips × (length ips ≤ room)
unfolding ip_loop
ip_loop-short room [] ips h =
    let same : ◌≡◌ {A = List Bytes} [] ips = cc h in
    subst (λ z. All IsShortName z × (length z ≤ room)) same (tt, omega arith)
ip_loop-short room (err e ∷ ws) ips h = cc h
ip_loop-short zero (ret w ∷ ws) ips h = cc h
ip_loop-short (suc room) (ret w ∷ ws) ips h =
    let name = uci_cpy inet_addrstrlen (some w) in
    let (rest, e, f) =
      >>=-eq-ret {B = List Bytes} (ip_loop room ws) (λ rest. ret (name ∷ rest)) h in
    let same : name ∷ rest ≡ ips = cc f in
    let (short, few) = ip_loop-short room ws rest e in
    subst (λ z. All IsShortName z × (length z ≤ suc room)) same
      ((length-uci_cpy inet_addrstrlen w (omega arith), short), omega arith)

pub split_ip_list-short :
    (src : Option Bytes) (max : ℕ) (ips : List Bytes)
    → split_ip_list src max ≡ ret ips
    → All IsShortName ips × (length ips ≤ max)
unfolding split_ip_list
split_ip_list-short none max ips h =
    let same : ◌≡◌ {A = List Bytes} [] ips = cc h in
    subst (λ z. All IsShortName z × (length z ≤ max)) same (tt, omega arith)
split_ip_list-short (some src) max ips h = ip_loop-short max (words_of 32 src) ips h

ltrim-solid : (s cs : Bytes) (c : ℕ) → ltrim s ≡ c ∷ cs → is_blank c ≡ false
unfolding ltrim
ltrim-solid [] cs c h = cc h
ltrim-solid (d ∷ s) cs c h = elim (Bool-cases (is_blank d)) [
  | inl y ↦ ltrim-solid s cs c (rw y at h)
  | inr n ↦ let same : d ≡ c = cc (rw n at h) in subst (λ z. is_blank z ≡ false) same n
]

-- A word is not empty, and fits with its NUL.
next_word-short :
    (sz : ℕ) (s t w r : Bytes)
    → ltrim s ≡ t
    → next_word sz s ≡ ret (some (w, r))
    → (is_empty w ≡ false) × (length w < sz)
unfolding next_word span_word
next_word-short sz s [] w r e h = cc (rw (e, next_word) at h)
next_word-short sz s (c ∷ cs) w r e h =
    let solid = ltrim-solid s cs c e in
    let word = c ∷ (span_word cs).0 in
    elim (Bool-cases (ltb sz (length word + 1))) [
      | inl long ↦ cc (rw (e, solid, long, next_word) at h)
      | inr fits ↦
          let same : word ≡ w = cc (rw (e, solid, fits, next_word) at h) in
          subst (λ z. (is_empty z ≡ false) × (length z < sz)) same (refl, ground arith)
    ]

pub first_device_port-short :
    (ports : Option Bytes) (sz : ℕ) (w : Bytes)
    → first_device_port ports sz ≡ ret w
    → (is_empty w ≡ false) × (length w < sz)
unfolding first_device_port
first_device_port-short none sz w h = cc h
first_device_port-short (some s) sz w h = elim (Result-cases (next_word sz s)) [
  | inl (x, e) ↦ cc (rw (e, ◌>>=◌) at h)
  | inr (o, e) ↦ elim (Option-cases o) [
    | inl f ↦ cc (rw (e, f, ◌>>=◌) at h)
    | inr ((v, r), f) ↦
        let same : v ≡ w = cc (rw (e, f, ◌>>=◌) at h) in
        next_word-short sz s (ltrim s) w r refl (e ∙ ap ret (f ∙ ap (λ z. some (z, r)) same))
  ]
]
