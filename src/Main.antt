-- ===== src/Main.antt =====
-- main.c: the arguments, their checks, and the exit status.
pub mod Args
pub mod Status
use netrec.Prelude.{
  ℕ, zero, suc, ◌-◌, ◌%◌, ◌^◌, Bool, true, false, not, ◌&&◌, ◌||◌, Option, none, some, List, [],
  ◌∷◌, Bytes, codes, streq, is_empty, if◌then◌else◌, ℤ, pos, negsuc, ret, err,
}
use netrec.Prelude.Libc.{Parsed, strtol}
use netrec.Netlink.Attr.{int32}
use netrec.Run.{System, NetrecRunCfg, netrec_run_once}
use netrec.Watch.{WatchHost}
use netrec.Watch.Drive.{Event, netrec_watch}

-- The variables of `main` that the arguments set.
pub record Options : Type 0 where
  pub run : NetrecRunCfg
  pub debounce_s : Option Bytes
  pub watch : Bool

abbrev pub defaults : Options
defaults = record {
  run = record {
    cfg_path = none;
    source = codes "yaml";
    uci_bin = codes "uci";
    uci_network = none;
    uci_wireless = none;
    apply = false;
  };
  debounce_s = none;
  watch = false;
}

-- An argument without a value.
unfoldable pub flag : Bytes → Options → Option Options
unfolding codes
flag arg o =
    if streq arg (codes "-a") || streq arg (codes "--apply")
    then some (record o { run = record o.run { apply = true } })
    else if streq arg (codes "-w") || streq arg (codes "--watch") || streq arg (codes "--daemon")
    then some (record o { watch = true })
    else none

-- An argument with the value that follows it.
unfoldable pub valued : Bytes → Bytes → Options → Option Options
unfolding codes
valued arg v o =
    if streq arg (codes "-c")
    then some (record o { run = record o.run { cfg_path = some v } })
    else if streq arg (codes "--debounce-ms")
    then some (record o { debounce_s = some v })
    else if streq arg (codes "--source")
    then some (record o { run = record o.run { source = v } })
    else if streq arg (codes "--uci-bin")
    then some (record o { run = record o.run { uci_bin = v } })
    else if streq arg (codes "--uci-network")
    then some (record o { run = record o.run { uci_network = some v } })
    else if streq arg (codes "--uci-wireless")
    then some (record o { run = record o.run { uci_wireless = some v } })
    else none

-- The loop over the arguments behind the program's name; `none` is the usage.
unfoldable pub arg_loop : Options → List Bytes → Option Options
unfolding flag valued
arg_loop o [] = some o
arg_loop o (a ∷ []) = flag a o
arg_loop o (a ∷ v ∷ args) = elim (flag a o) [
  | some p ↦ arg_loop p (v ∷ args)
  | none ↦ elim (valued a v o) [ some p ↦ arg_loop p args | none ↦ none ]
]

abbrev pub given_text : Option Bytes → Bool
given_text none = false
given_text (some _) = true

-- The three checks of the source.
unfoldable pub source_fits : NetrecRunCfg → Bool
unfolding codes
source_fits run =
    if streq run.source (codes "yaml") && not (given_text run.cfg_path)
    then false
    else if not (streq run.source (codes "yaml")) && not (streq run.source (codes "uci"))
    then false
    else not (
        streq run.source (codes "uci")
        && (if given_text run.uci_network
            then not (given_text run.uci_wireless)
            else given_text run.uci_wireless))

-- `(int)` of the `long` that `strtol` returns: its low 32 bits. Out of range it is LONG_MAX or LONG_MIN.
unfoldable pub int_of_long : Parsed → ℤ
unfolding int32
int_of_long p =
    if p.overflow
    then int32 (if p.negative then 0 else 2 ^ 32 - 1)
    else int32 (if p.negative then (2 ^ 64 - p.magnitude) % 2 ^ 32 else p.magnitude % 2 ^ 32)

-- `debounce_ms`, -1 without the option; `none` is the usage.
unfoldable pub debounce_of : Option Bytes → Option ℤ
unfolding int_of_long strtol
debounce_of none = some (negsuc 0)
debounce_of (some s) =
    let p = strtol s in
    elim (int_of_long p) [
      | negsuc n ↦ none
      | pos n ↦ if is_empty s || not (is_empty p.rest) then none else some (pos n)
    ]

-- What `main` goes on to do.
pub data Start : Type 0 where
  usage : Start
  watching : NetrecRunCfg → ℤ → Start
  once : NetrecRunCfg → Start

unfoldable pub start_of : Options → Start
unfolding source_fits debounce_of
start_of o = if not (source_fits o.run) then usage else elim (debounce_of o.debounce_s) [
  | none ↦ usage
  | some ms ↦ if o.watch then watching o.run ms else once o.run
]

unfoldable pub main_start : List Bytes → Start
unfolding arg_loop start_of
main_start args = elim (arg_loop defaults args) [ none ↦ usage | some o ↦ start_of o ]

-- The exit status; `none` while it watches.
unfoldable pub main : System → WatchHost → List Event → List Bytes → Option ℕ
unfolding main_start netrec_run_once netrec_watch
main sys host events args = elim (main_start args) [
  | usage ↦ some 2
  | watching run ms ↦ netrec_watch host events run ms
  | once run ↦ elim (netrec_run_once sys run).rc [
    | err e ↦ some 1
    | ret n ↦ some (elim n [ zero ↦ 0 | suc _ ↦ 1 ])
  ]
]
