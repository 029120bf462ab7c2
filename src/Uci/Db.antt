-- ===== src/Uci/Db.antt =====
-- uci.c: the items of `uci show`, how they are read and how they are looked up.
use netrec.Prelude.{
  ℕ, ◌+◌, Bool, true, false, not, ◌&&◌, Option, none, some, List, [], ◌∷◌, ◌++◌, Bytes, codes,
  streq, is_empty, split_first, ◌==◌, ltb, leb, length, if◌then◌else◌, Result, ret, err, Errno,
  einval, e2big, ◌>>=◌,
}
use netrec.State.Resolv.{onto_first}
use netrec.Cfg.Value.{ltrim, trim_eol}
use netrec.Cfg.File.{lines}
use netrec.Verify.Exec.{Outcome, no_fork, no_wait, exited, signaled, stopped}
use netrec.Uci.Words.{uci_cpy, strip_quotes}

pub record UciItem : Type 0 where
  pub pkg : Bytes
  pub sect : Bytes
  pub opt : Bytes
  pub val : Bytes
  pub is_type : Bool

abbrev pub UciDb : Type 0
UciDb = List UciItem

abbrev pub nr_uci_item_max : ℕ
nr_uci_item_max = 1024

abbrev pub uci_pkg_sz : ℕ
uci_pkg_sz = 16

abbrev pub uci_sect_sz : ℕ
uci_sect_sz = 64

abbrev pub uci_opt_sz : ℕ
uci_opt_sz = 64

abbrev pub uci_val_sz : ℕ
uci_val_sz = 256

unfoldable pub db_add : UciDb → Bytes → Bytes → Bytes → Bytes → Bool → Result UciDb
db_add db pkg sect opt val is_type =
    if leb nr_uci_item_max (length db)
    then err e2big
    else ret (
        db
        ++ record {
          pkg = uci_cpy uci_pkg_sz (some pkg);
          sect = uci_cpy uci_sect_sz (some sect);
          opt = uci_cpy uci_opt_sz (some opt);
          val = uci_cpy uci_val_sz (some val);
          is_type = is_type;
        }
          ∷ [])

-- The section and the option in front of the `=`: with a second dot they are an option's, without one a
-- section's alone.
unfoldable pub add_parts : UciDb → Bytes → Bytes → Bytes → Result UciDb
add_parts db pkg name val = elim (split_first b'.' name) [
  | some (sect, opt) ↦
      if ltb uci_sect_sz (length sect + 1)
      then err e2big
      else if ltb uci_opt_sz (length opt + 1)
      then err e2big
      else db_add db pkg sect opt val false
  | none ↦ if ltb uci_sect_sz (length name + 1) then err e2big else db_add db pkg name [] val true
]

-- `db_load_line`, on a line that is not empty.
unfoldable pub add_line : UciDb → Bytes → Result UciDb
add_line db line = elim (split_first b'=' line) [
  | none ↦ err einval
  | some (name, val) ↦ elim (split_first b'.' name) [
    | none ↦ err einval
    | some (pkg, more) ↦
        if ltb uci_pkg_sz (length pkg + 1)
        then err e2big
        else add_parts db pkg more (strip_quotes (ltrim val))
  ]
]

unfoldable pub db_load_line : UciDb → Bytes → Result UciDb
unfolding trim_eol
db_load_line db line = if is_empty (trim_eol line) then ret db else add_line db (trim_eol line)

-- The loops of `db_load_file` and `db_load_buf`, with the length that is too long.
unfoldable pub db_load_lines : ℕ → UciDb → List Bytes → Result UciDb
db_load_lines max db [] = ret db
db_load_lines max db (l ∷ ls) =
    let go = db_load_line db l >>= λ d. db_load_lines max d ls in
    if leb max (length l) then err e2big else go

-- `file` is what `fopen` and the reads give. `char line[1024]` holds 1022 bytes before the newline.
unfoldable pub db_load_file : Result Bytes → Result UciDb
unfolding lines
db_load_file file = file >>= λ bytes. db_load_lines 1023 [] (lines bytes)

-- The lines of `db_load_buf`: `\n`, `\r` or `\r\n` ends one.
unfoldable pub buf_lines : Bool → Bytes → List Bytes
buf_lines after_cr [] = []
buf_lines after_cr (c ∷ cs) =
    let feed = if after_cr then buf_lines false cs else [] ∷ buf_lines false cs in
    let ends = [] ∷ buf_lines true cs in
    let more = onto_first c (buf_lines false cs) in
    if c == b'\n' then feed else if c == b'\r' then ends else more

unfoldable pub db_load_buf : Bytes → Result UciDb
unfolding buf_lines
db_load_buf buf = db_load_lines 1024 [] (buf_lines false buf)

-- How a captured command ends: `pipe` fails, or what the parent has read and the child's end.
pub data Captured : Type 0 where
  no_pipe : Errno → Captured
  captured : Result Bytes → Outcome → Captured

-- A failed read is told only if the child was waited for.
unfoldable pub run_capture : (List Bytes → Captured) → List Bytes → Result Bytes
run_capture capture argv = elim (capture argv) [
  | no_pipe e ↦ err e
  | captured out end ↦ elim end [
    | no_fork e ↦ err e
    | no_wait e ↦ err e
    | exited n ↦ out >>= λ buf. if n == 0 then ret buf else err einval
    | signaled n ↦ out >>= λ buf. err einval
    | stopped ↦ out >>= λ buf. err einval
  ]
]

-- `uci_bin ? uci_bin : "uci"`
unfoldable pub bin_of : Option Bytes → Bytes
unfolding codes
bin_of none = codes "uci"
bin_of (some bin) = bin

unfoldable pub db_load_live : (List Bytes → Captured) → Option Bytes → Bytes → Result UciDb
unfolding codes
db_load_live capture uci_bin pkg =
    run_capture capture (bin_of uci_bin ∷ codes "show" ∷ pkg ∷ []) >>= db_load_buf

abbrev pub is_option : Bytes → Bytes → Bytes → UciItem → Bool
is_option pkg sect opt it =
    not it.is_type && streq it.pkg pkg && streq it.sect sect && streq it.opt opt

-- The value of the last item that the loop from the end meets.
unfoldable pub db_get : UciDb → Bytes → Bytes → Bytes → Option Bytes
db_get [] pkg sect opt = none
db_get (it ∷ items) pkg sect opt = elim (db_get items pkg sect opt) [
  | some v ↦ some v
  | none ↦ if is_option pkg sect opt it then some it.val else none
]

-- A section of the type in the package.
abbrev pub is_section : Bytes → Bytes → UciItem → Bool
is_section pkg type it = it.is_type && streq it.pkg pkg && streq it.val type

-- `!v || !v[0]` fails: the value, if it is there and not empty.
abbrev pub some_text : Option Bytes → Option Bytes
some_text none = none
some_text (some []) = none
some_text (some (c ∷ cs)) = some (c ∷ cs)

abbrev pub holds : Option Bytes → Bytes → Bool
holds none text = false
holds (some v) text = streq v text

unfoldable pub binds_device : UciDb → Bytes → UciItem → Bool
unfolding codes
binds_device db br_name it =
    is_section (codes "network") (codes "interface") it
    && holds (db_get db (codes "network") it.sect (codes "device")) br_name
    && (elim (some_text (db_get db (codes "network") it.sect (codes "proto"))) [
      | none ↦ false
      | some _ ↦ true
    ])

-- The loop of `find_iface_by_device`.
unfoldable pub device_loop : UciDb → Bytes → List UciItem → Option Bytes
device_loop db br_name [] = none
device_loop db br_name (it ∷ items) =
    let rest = device_loop db br_name items in
    if binds_device db br_name it then some it.sect else rest

unfoldable pub find_iface_by_device : UciDb → Bytes → Option Bytes
unfolding device_loop
find_iface_by_device db br_name = device_loop db br_name db
