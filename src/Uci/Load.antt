-- ===== src/Uci/Load.antt =====
-- uci.c: `uci2yml` and `uci_load_desired_set`.
use netrec.Prelude.{ℕ, Option, none, some, List, Bytes, codes, Result, ◌>>=◌}
use netrec.State.{DesiredSet}
use netrec.Yaml.Load.{yaml_load_desired_set}
use netrec.Uci.Db.{UciDb, Captured, db_load_file, db_load_live}
use netrec.Uci.Build.{uci_build_desired_set}
use netrec.Uci.Dump.{cfg_set}

-- The host, as uci.c uses it: the address parser, the files that can be read, the commands whose output
-- is captured, and whether a temporary file can be made.
pub record UciHost : Type 0 where
  pub inet_pton : Bytes → Option ℕ
  pub read_file : Bytes → Result Bytes
  pub capture : List Bytes → Captured
  pub mkstemp : Result (Unit {0})

-- From a file if there is a path, and from the command otherwise.
unfoldable pub db_load : UciHost → Option Bytes → Option Bytes → Bytes → Result UciDb
db_load host uci_bin none pkg = db_load_live host.capture uci_bin pkg
db_load host uci_bin (some path) pkg = db_load_file (host.read_file path)

unfoldable pub build_from : UciHost → Option Bytes → Option Bytes → Option Bytes → Result DesiredSet
unfolding db_load codes
build_from host uci_bin network_path wireless_path =
    uci_build_desired_set host.inet_pton (db_load host uci_bin network_path (codes "network"))
      (db_load host uci_bin wireless_path (codes "wireless"))

-- What the file at the path holds behind the call, if it is there.
unfoldable pub uci2yml : UciHost → Option Bytes → Option Bytes → Result Bytes
unfolding build_from
uci2yml host network_path wireless_path =
    build_from host none network_path wireless_path >>= cfg_set

unfoldable pub uci_load_desired_set :
    UciHost → Option Bytes → Option Bytes → Option Bytes → Result DesiredSet
unfolding build_from
uci_load_desired_set host uci_bin network_path wireless_path = do
  _ ← host.mkstemp
  set ← build_from host uci_bin network_path wireless_path
  tmp ← cfg_set set
  yaml_load_desired_set tmp
