-- ===== src/Run/Source.antt =====
-- run.c: what the desired states of a run are, from either source.
use netrec.Prelude.{
  ◌≡◌, ◌≢◌, inl, inr, Bool-cases, Option-cases, Option, none, some, [], ◌∷◌, Bytes, codes, streq,
  All, ret, ℕ, ◌>>=◌, >>=-eq-ret, ◌≤◌, ◌<◌, length,
}
use netrec.State.{DesiredState, DesiredSet, RealState, nr_des_state_max}
use netrec.Verify.Scenario.{verify_scenario}
use netrec.Yaml.Load.{yaml_load_desired_set}
use netrec.Yaml.Loaded.{IsFit}
use netrec.Yaml.Sets.{IsLoaded, IsLoadedSet, known_supported, yaml_load_desired_set-IsLoadedSet}
use netrec.Uci.Load.{UciHost, build_from, uci_load_desired_set}
use netrec.Uci.Dump.{cfg_set}
use netrec.Run.{System, NetrecRunCfg, load_desired_set}

uci_load_desired_set-IsLoadedSet :
    (host : UciHost) (bin network wireless : Option Bytes) (set : DesiredSet)
    → uci_load_desired_set host bin network wireless ≡ ret set
    → IsLoadedSet set
unfolding uci_load_desired_set
uci_load_desired_set-IsLoadedSet host bin network wireless set h =
    let (u, a, b) =
      >>=-eq-ret {B = DesiredSet} host.mkstemp
        (λ _. build_from host bin network wireless >>= λ s. cfg_set s >>= yaml_load_desired_set)
        h in
    let (built, c, d) =
      >>=-eq-ret {B = DesiredSet} (build_from host bin network wireless)
        (λ s. cfg_set s >>= yaml_load_desired_set) b in
    let (tmp, e, f) = >>=-eq-ret {B = DesiredSet} (cfg_set built) yaml_load_desired_set d in
    yaml_load_desired_set-IsLoadedSet tmp set f

load_desired_set-IsLoadedSet :
    (sys : System) (cfg : NetrecRunCfg) (set : DesiredSet)
    → load_desired_set sys cfg ≡ ret set
    → IsLoadedSet set
unfolding load_desired_set
load_desired_set-IsLoadedSet sys cfg set h = elim (Bool-cases (streq cfg.source (codes "yaml"))) [
  | inl y ↦ elim (Option-cases cfg.cfg_path) [
    | inl e ↦ cc (rw (y, e, load_desired_set) at h)
    | inr (path, e) ↦
        let (file, f, g) =
          >>=-eq-ret {B = DesiredSet} (sys.uci.read_file path) yaml_load_desired_set
            (rw (y, e, load_desired_set) at h) in
        yaml_load_desired_set-IsLoadedSet file set g
  ]
  | inr n ↦ elim (Bool-cases (streq cfg.source (codes "uci"))) [
    | inl u ↦
        uci_load_desired_set-IsLoadedSet sys.uci (some cfg.uci_bin) cfg.uci_network cfg.uci_wireless
          set (rw (n, u, load_desired_set) at h)
    | inr v ↦ cc (rw (n, v, load_desired_set) at h)
  ]
]

module _ (net : Bytes → Option ℕ) (rs : RealState) where
  -- What a run asks of a desired state.
  abbrev pub IsRunnable : DesiredState → Type 0
  IsRunnable ds = IsFit ds × (verify_scenario net ds rs ≢ none)

  runnable : (set : DesiredSet) → All IsLoaded set → All IsRunnable set
  runnable [] h = tt
  runnable (ds ∷ set) h = ((h.0.fit, known_supported net ds rs h.0.known), runnable set h.1)

  -- The desired states of a run, from a file or from UCI, are between one and 16; every one of them has a
  -- scenario that `verify_state` supports, and a bridge whose mode fits its address, its DHCP command, its
  -- gateway and its name servers.
  pub load_desired_set-IsRunnable :
      (sys : System) (cfg : NetrecRunCfg) (set : DesiredSet)
      → load_desired_set sys cfg ≡ ret set
      → All IsRunnable set × (0 < length set) × (length set ≤ nr_des_state_max)
  load_desired_set-IsRunnable sys cfg set h =
      let loaded = load_desired_set-IsLoadedSet sys cfg set h in
      (runnable set loaded.states, loaded.some_state, loaded.room)
