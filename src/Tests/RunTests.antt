-- ===== src/Tests/RunTests.antt =====
-- The theorems about run.c and the reading of resolv.conf at concrete inputs.
use netrec.Prelude.{
  ◌≡◌, refl, true, false, none, some, List, [], ◌∷◌, Bytes, codes, streq, All, arith, ret, err,
  enospc,
}
use netrec.State.{RealState, DesiredState, DesiredSet}
use netrec.State.Resolv.{rs_load_resolv_conf}
use netrec.State.Resolv.Print.{Entry, server, other, blank, FitsLine, rs_load_resolv_conf-print}
use netrec.Prelude.Libc.{is_space}
use netrec.Verify.Exec.{verify_state}
use netrec.Verify.Effects.{has_fail}
use netrec.Uci.Db.{captured}
use netrec.Verify.Exec.{exited}
use netrec.Run.{
  System, NetrecRunCfg, load_real, load_desired_set, apply_lock, run_verify_set, netrec_run_once,
}
use netrec.Run.Post.{AllSatisfied, netrec_run_once-zero, netrec_run_once-idle}
use netrec.Run.Fail.{run_verify_set-last_fail}
use netrec.Tests.Sample.{pton, all_fail, snapshot, wanted}
use netrec.Tests.VerifyTests.{wanted-Satisfies, wanted_supported}
use netrec.Prelude.{split_first, is_blank, ◌++◌}
use netrec.Prelude.Libc.{is_digit}
use netrec.Yaml.Load.{yaml_load_desired_set, load_state, load_scenario}
use netrec.Yaml.Parts.{
  load_bridge, load_uplink, load_routes, load_route, route_items, required, mode_of, static_only,
}
use netrec.Yaml.Fields.{cpy, get_str, get_items}
use netrec.Cfg.File.{cfg_load, load_lines, load_line, lines, assign}
use netrec.Cfg.Value.{
  trim, trim_eol, rest_ok, parse_value, value_of, unquote, unescape, cut_hash, is_eol, ltrim, rtrim,
}
use netrec.Cfg.Path.{
  path_file_ok, parse_path, parse_key_tok, key_loop, path_loop, next_tok, toks_file_ok,
  is_key_start, is_key_char, is_alpha,
}
use netrec.Cfg.Set.{cfg_set_str, set_walk, set_last, set_str_plain, enter_key}
use netrec.Cfg.Node.{obj_find, find_child, child_add, put_child}
use netrec.Prelude.{◌<◌, ◌≤◌, All}
use netrec.Run.Source.{IsRunnable, load_desired_set-IsRunnable}

-- What `wanted` is written as.
abbrev config : Bytes
config =
    codes
      "# the bridge\nscenario = \"uplink_bridge\"\nbridge.name = br-lan\nbridge.addr = \"10.0.0.1/24\"\n"
    ++ codes
        "uplink.ifname = \"eth0\"\nroutes.r0.dst = \"10.1.0.0/16\"\nroutes.r0.dev = \"br-lan\"\n"
    ++ codes "routes.r0.via = \"10.0.0.254\"\n"

-- A host on which no command works and which has what `wanted` wants.
abbrev pub host : System
host = record {
  uci = record {
    inet_pton = pton;
    read_file = λ path. ret config;
    capture = λ argv. captured (ret []) (exited 1);
    mkstemp = err enospc;
  };
  spawn = all_fail;
  nl_load_state = λ ran. ret snapshot;
  resolv_conf = λ ran. none;
  open_lock = ret 3;
  flock = true;
}

abbrev pub run_cfg : NetrecRunCfg
run_cfg = record {
  cfg_path = some (codes "net.yaml");
  source = codes "yaml";
  uci_bin = codes "uci";
  uci_network = none;
  uci_wireless = none;
  apply = true;
}

-- The bridge with another address.
abbrev moved : DesiredState
moved = record wanted { br_addr = codes "10.0.0.254/24" }

loads : load_desired_set host run_cfg ≡ ret (wanted ∷ [])
unfolding load_desired_set codes streq yaml_load_desired_set cfg_load load_lines load_line lines
    trim_eol trim rest_ok split_first assign path_file_ok parse_path parse_key_tok key_loop
    path_loop next_tok toks_file_ok is_key_start is_key_char is_alpha is_digit parse_value value_of
    unquote unescape cut_hash cfg_set_str set_walk set_last set_str_plain enter_key obj_find
    find_child child_add put_child load_state load_scenario load_bridge load_uplink load_routes
    load_route route_items get_str get_items required mode_of static_only cpy is_blank is_eol ltrim
    rtrim
loads = refl

sees : load_real host [] ≡ ret snapshot
unfolding load_real rs_load_resolv_conf
sees = refl

locks : (apply_lock host).0 ≡ ret 3
unfolding apply_lock
locks = refl

netrec_run_once-idle_example :
    ((netrec_run_once host run_cfg).rc ≡ ret 0)
    × ((netrec_run_once host run_cfg).ran ≡ [])
    × ((netrec_run_once host run_cfg).post ≡ none)
    × ((netrec_run_once host run_cfg).closed ≡ 3 ∷ [])
netrec_run_once-idle_example =
    netrec_run_once-idle host run_cfg (wanted ∷ []) snapshot 3 loads sees locks
      (wanted-Satisfies, tt)

pub returns_zero : (netrec_run_once host run_cfg).rc ≡ ret 0
returns_zero =
    (netrec_run_once-idle host run_cfg (wanted ∷ []) snapshot 3 loads sees locks
      (wanted-Satisfies, tt)).0

netrec_run_once-zero_example :
    (set : DesiredSet) × (rs : RealState) × (load_desired_set host run_cfg ≡ ret set)
    × (load_real host (netrec_run_once host run_cfg).ran ≡ ret rs)
    × AllSatisfied host set rs
netrec_run_once-zero_example = netrec_run_once-zero host run_cfg returns_zero

run_verify_set-last_fail_example :
    (run_verify_set host (moved ∷ wanted ∷ []) true false []).act_fail
    ≡ has_fail
        (verify_state pton all_fail wanted snapshot true
          (run_verify_set host (moved ∷ []) true false []).act_fail
          (run_verify_set host (moved ∷ []) true false []).ran).out
run_verify_set-last_fail_example =
    run_verify_set-last_fail host (moved ∷ []) wanted snapshot true false [] sees wanted_supported

abbrev resolv_entries : List Entry
resolv_entries =
    other [] (codes "#") (codes " local")
    ∷ server [] (codes " ") (codes "10.0.0.1") []
    ∷ blank (codes " ")
    ∷ server [] (codes "  ") (codes "10.0.0.254") (codes " # backup")
    ∷ []

abbrev resolv_file : Bytes
resolv_file = codes "# local\nnameserver 10.0.0.1\n \nnameserver  10.0.0.254 # backup\n"

resolv_entries-FitsLine : All FitsLine resolv_entries
unfolding codes is_space
resolv_entries-FitsLine = (
  (
    (tt, (refl, (refl, tt), omega arith), (λ e. cc e), refl),
    (refl, (refl, (refl, (refl, (refl, (refl, (refl, tt))))))),
    omega arith,
  ),
  (
    (
      (
        tt,
        (refl, tt),
        refl,
        (refl, (refl, (refl, (refl, (refl, (refl, (refl, (refl, (refl, tt)))))))), omega arith),
        tt,
      ),
      (
        refl,
        (
          refl,
          (
            refl,
            (
              refl,
              (
                refl,
                (
                  refl,
                  (
                    refl,
                    (
                      refl,
                      (
                        refl,
                        (
                          refl,
                          (
                            refl,
                            (refl, (refl, (refl, (refl, (refl, (refl, (refl, (refl, tt)))))))),
                          ),
                        ),
                      ),
                    ),
                  ),
                ),
              ),
            ),
          ),
        ),
      ),
      omega arith,
    ),
    (
      ((refl, tt), (refl, tt), omega arith),
      (
        (
          (
            tt,
            (refl, (refl, tt)),
            refl,
            (
              refl,
              (refl, (refl, (refl, (refl, (refl, (refl, (refl, (refl, (refl, (refl, tt)))))))))),
              omega arith,
            ),
            refl,
          ),
          (
            refl,
            (
              refl,
              (
                refl,
                (
                  refl,
                  (
                    refl,
                    (
                      refl,
                      (
                        refl,
                        (
                          refl,
                          (
                            refl,
                            (
                              refl,
                              (
                                refl,
                                (
                                  refl,
                                  (
                                    refl,
                                    (
                                      refl,
                                      (
                                        refl,
                                        (
                                          refl,
                                          (
                                            refl,
                                            (
                                              refl,
                                              (
                                                refl,
                                                (
                                                  refl,
                                                  (
                                                    refl,
                                                    (
                                                      refl,
                                                      (
                                                        refl,
                                                        (
                                                          refl,
                                                          (
                                                            refl,
                                                            (
                                                            refl,
                                                            (
                                                            refl,
                                                            (refl, (refl, (refl, (refl, tt)))),
                                                            ),
                                                            ),
                                                          ),
                                                        ),
                                                      ),
                                                    ),
                                                  ),
                                                ),
                                              ),
                                            ),
                                          ),
                                        ),
                                      ),
                                    ),
                                  ),
                                ),
                              ),
                            ),
                          ),
                        ),
                      ),
                    ),
                  ),
                ),
              ),
            ),
          ),
          omega arith,
        ),
        tt,
      ),
    ),
  ),
)

rs_load_resolv_conf-print_example :
    rs_load_resolv_conf pton snapshot (some resolv_file)
    ≡ ret (record snapshot { dns4 = 0x0100000a ∷ 0xfe00000a ∷ [] })
unfolding codes streq
rs_load_resolv_conf-print_example =
    rs_load_resolv_conf-print pton snapshot resolv_entries resolv_entries-FitsLine

load_desired_set-IsRunnable_example :
    All (IsRunnable pton snapshot) (wanted ∷ []) × (0 < 1) × (1 ≤ 16)
load_desired_set-IsRunnable_example =
    load_desired_set-IsRunnable pton snapshot host run_cfg (wanted ∷ []) loads
