-- ===== src/Main/Status.antt =====
-- main.c: what the exit status says, and which configurations are run.
use netrec.Prelude.{
  ℕ, zero, suc, ◌≡◌, refl, inl, inr, ◌⊎◌, Bool-cases, Option-cases, Result-cases, Bool, true, false,
  not, ◌&&◌, if◌then◌else◌, Option, some, List, arith, Bytes, codes, streq, streq_iff, ret,
}
use netrec.State.{DesiredSet, RealState}
use netrec.Run.{System, NetrecRunCfg, load_desired_set, load_real, netrec_run_once}
use netrec.Watch.{WatchHost}
use netrec.Watch.Drive.{Event}
use netrec.Run.Post.{AllSatisfied, netrec_run_once-zero}
use netrec.Main.{
  Options, Start, given_text, source_fits, debounce_of, start_of, main_start, arg_loop, defaults,
  main, usage, watching, once,
}

-- Without --watch, an exit status of 0 says that the desired states were loaded and that the snapshot of
-- the host taken behind the last command that was run satisfies every one of them.
pub main-zero :
    (sys : System) (host : WatchHost) (events : List Event) (args : List Bytes) (run : NetrecRunCfg)
    → main_start args ≡ once run
    → main sys host events args ≡ some 0
    → (set : DesiredSet) × (rs : RealState) × (load_desired_set sys run ≡ ret set)
      × (load_real sys (netrec_run_once sys run).ran ≡ ret rs)
      × AllSatisfied sys set rs
unfolding main
main-zero sys host events args run s h = elim (Result-cases (netrec_run_once sys run).rc) [
  | inl (e, f) ↦ cc (rw (s, f, main) at h)
  | inr (zero, f) ↦ netrec_run_once-zero sys run f
  | inr (suc n, f) ↦
      let e : ◌≡◌ {A = Option ℕ} (some 1) (some 0) = rw (s, f, main) at h in ground arith
]

-- A source that can be loaded: a YAML file with its path, or UCI, live or from both of its files.
abbrev pub IsSource : NetrecRunCfg → Type 0
IsSource run =
    ((run.source ≡ codes "yaml") × (given_text run.cfg_path ≡ true))
    ⊎ ((run.source ≡ codes "uci") × (given_text run.uci_network ≡ given_text run.uci_wireless))

-- The configuration that is run or watched, if one is.
abbrev pub StartsSource : Start → Type 0
StartsSource usage = Unit
StartsSource (watching run ms) = IsSource run
StartsSource (once run) = IsSource run

same_given : (a b : Bool) → not (true && (if a then not b else b)) ≡ true → a ≡ b
same_given true true h = refl
same_given true false h = cc h
same_given false true h = cc h
same_given false false h = refl

source_fits-IsSource : (run : NetrecRunCfg) → source_fits run ≡ true → IsSource run
unfolding source_fits
source_fits-IsSource run h = elim (Bool-cases (streq run.source (codes "yaml"))) [
  | inl y ↦ elim (Bool-cases (given_text run.cfg_path)) [
    | inl g ↦ inl ((streq_iff run.source (codes "yaml")).0 y, g)
    | inr n ↦ cc (rw (y, n, source_fits) at h)
  ]
  | inr n ↦ elim (Bool-cases (streq run.source (codes "uci"))) [
    | inr m ↦ cc (rw (n, m, source_fits) at h)
    | inl u ↦ inr (
      (streq_iff run.source (codes "uci")).0 u,
      same_given (given_text run.uci_network) (given_text run.uci_wireless)
          (rw (n, u, source_fits) at h),
    )
  ]
]

start_of-StartsSource : (o : Options) → StartsSource (start_of o)
unfolding start_of
start_of-StartsSource o = elim (Bool-cases (source_fits o.run)) [
  | inr n ↦ rw (n, start_of) tt
  | inl y ↦
      let fits = source_fits-IsSource o.run y in
      elim (Option-cases (debounce_of o.debounce_s)) [
        | inl e ↦ rw (y, e, start_of) tt
        | inr (ms, e) ↦ elim (Bool-cases o.watch) [
          | inl w ↦ rw (y, e, w, start_of) fits
          | inr w ↦ rw (y, e, w, start_of) fits
        ]
      ]
]

-- A configuration that is run or watched has a source that can be loaded: a YAML file with its path, or
-- UCI with both of its files or none.
pub main_start-StartsSource : (args : List Bytes) → StartsSource (main_start args)
unfolding main_start
main_start-StartsSource args = elim (Option-cases (arg_loop defaults args)) [
  | inl e ↦ rw (e, main_start) tt
  | inr (o, e) ↦ rw (e, main_start) (start_of-StartsSource o)
]
