-- ===== src/Verify/Links.antt =====
-- verify.c: the checks that an interface exists, is up and has its master, and of the bridge's
-- ports.
use netrec.Prelude.{
  ℕ, ◌+◌, Bool, false, Option, none, some, List, [], ◌∷◌, Bytes, codes, text, ◌==ℤ◌, if◌then◌else◌,
}
use netrec.State.{DesiredState, RealState, Iface, rs_find_iface}
use netrec.Verify.Calls.{Check, ◌>>=◌, ◌>>◌, pure, say_ok, say_miss, do_act}
use netrec.Verify.Bridge.{is_up}

unfoldable pub check_iface_exists : Bytes → Bytes → Option Iface → Check ℕ
check_iface_exists tag name iface =
    let line = text (tag ∷ codes " " ∷ name ∷ codes " exists" ∷ []) in
    elim iface [ none ↦ say_miss line | some _ ↦ do say_ok line; pure 0 ]

unfoldable pub check_iface_up : Bytes → Option Iface → Check ℕ
check_iface_up name iface = elim iface [
  | none ↦ do say_miss (text (codes "iface " ∷ name ∷ [])); pure 1
  | some i ↦
      let line = text (codes "iface " ∷ name ∷ codes " up" ∷ []) in
      if is_up i
      then (do say_ok line; pure 0)
      else do say_miss line; do_act (text (codes "ip link set " ∷ name ∷ codes " up" ∷ [])); pure 1
]

-- `br && iface->master == br->ifindex`
unfoldable pub has_master : Iface → Option Iface → Bool
has_master iface none = false
has_master iface (some br) = iface.master ==ℤ br.ifindex

unfoldable pub check_master : Bytes → Option Iface → Bytes → RealState → Check ℕ
check_master ifname iface br_name rs = elim iface [
  | none ↦ pure 0
  | some i ↦
      let line = text (codes "iface " ∷ ifname ∷ codes " master " ∷ br_name ∷ []) in
      if has_master i (rs_find_iface rs br_name) then (do say_ok line; pure 0) else do
        say_miss line
        do_act (text (codes "ip link set " ∷ ifname ∷ codes " master " ∷ br_name ∷ []))
        pure 1
]

-- One round of the loop in `check_bridge_ports`.
unfoldable pub check_one_port : DesiredState → RealState → Bytes → Check ℕ
check_one_port ds rs name =
    let port = rs_find_iface rs name in
    do
      a ← check_iface_exists (codes "bridge-port") name port
      elim port [
        | none ↦ do do_act (text (codes "# provide bridge port iface " ∷ name ∷ [])); pure a
        | some i ↦ do
          b ← check_iface_up name (some i)
          c ← check_master name (some i) ds.br_name rs
          pure (a + b + c)
      ]

unfoldable pub ports_loop : DesiredState → RealState → List Bytes → Check ℕ
ports_loop ds rs [] = pure 0
ports_loop ds rs (p ∷ more) = do a ← check_one_port ds rs p; b ← ports_loop ds rs more; pure (a + b)

unfoldable pub check_bridge_ports : DesiredState → RealState → Check ℕ
check_bridge_ports ds rs = ports_loop ds rs ds.br_ports
