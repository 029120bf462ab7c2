-- ===== src/Main/Args.antt =====
-- main.c: the options that the usage names, spelled as arguments.
use netrec.Prelude.{◌∙◌, ◌≡◌, refl, true, none, some, List, [], ◌∷◌, ◌++◌, Bytes, codes, streq}
use netrec.Main.{Options, flag, valued, arg_loop}

-- An option of the usage, in each of its spellings.
pub data Opt : Type 0 where
  a_short apply_long w_short watch_long daemon : Opt
  config debounce source bin network wireless : Bytes → Opt

abbrev pub spell : Opt → List Bytes
spell a_short = codes "-a" ∷ []
spell apply_long = codes "--apply" ∷ []
spell w_short = codes "-w" ∷ []
spell watch_long = codes "--watch" ∷ []
spell daemon = codes "--daemon" ∷ []
spell (config v) = codes "-c" ∷ v ∷ []
spell (debounce v) = codes "--debounce-ms" ∷ v ∷ []
spell (source v) = codes "--source" ∷ v ∷ []
spell (bin v) = codes "--uci-bin" ∷ v ∷ []
spell (network v) = codes "--uci-network" ∷ v ∷ []
spell (wireless v) = codes "--uci-wireless" ∷ v ∷ []

abbrev pub spell_all : List Opt → List Bytes
spell_all [] = []
spell_all (x ∷ xs) = spell x ++ spell_all xs

abbrev asks_apply : Options → Options
asks_apply o = record o { run = record o.run { apply = true } }

abbrev asks_watch : Options → Options
asks_watch o = record o { watch = true }

-- What an option means.
abbrev pub means : Opt → Options → Options
means a_short o = asks_apply o
means apply_long o = asks_apply o
means w_short o = asks_watch o
means watch_long o = asks_watch o
means daemon o = asks_watch o
means (config v) o = record o { run = record o.run { cfg_path = some v } }
means (debounce v) o = record o { debounce_s = some v }
means (source v) o = record o { run = record o.run { source = v } }
means (bin v) o = record o { run = record o.run { uci_bin = v } }
means (network v) o = record o { run = record o.run { uci_network = some v } }
means (wireless v) o = record o { run = record o.run { uci_wireless = some v } }

abbrev pub means_all : List Opt → Options → Options
means_all [] o = o
means_all (x ∷ xs) o = means_all xs (means x o)

arg_loop-flag :
    (o p : Options) (a : Bytes) (rest : List Bytes)
    → flag a o ≡ some p
    → arg_loop o (a ∷ rest) ≡ arg_loop p rest
unfolding arg_loop
arg_loop-flag o p a [] h = h
arg_loop-flag o p a (v ∷ rest) h = rw (h, arg_loop) refl

arg_loop-valued :
    (o p : Options) (a v : Bytes) (rest : List Bytes)
    → flag a o ≡ none
    → valued a v o ≡ some p
    → arg_loop o (a ∷ v ∷ rest) ≡ arg_loop p rest
unfolding arg_loop
arg_loop-valued o p a v rest h k = rw (h, k, arg_loop) refl

arg_loop-spell :
    (o : Options) (x : Opt) (rest : List Bytes)
    → arg_loop o (spell x ++ rest) ≡ arg_loop (means x o) rest
unfolding flag valued codes streq
arg_loop-spell o a_short rest = arg_loop-flag o _ (codes "-a") rest refl
arg_loop-spell o apply_long rest = arg_loop-flag o _ (codes "--apply") rest refl
arg_loop-spell o w_short rest = arg_loop-flag o _ (codes "-w") rest refl
arg_loop-spell o watch_long rest = arg_loop-flag o _ (codes "--watch") rest refl
arg_loop-spell o daemon rest = arg_loop-flag o _ (codes "--daemon") rest refl
arg_loop-spell o (config v) rest = arg_loop-valued o _ (codes "-c") v rest refl refl
arg_loop-spell o (debounce v) rest = arg_loop-valued o _ (codes "--debounce-ms") v rest refl refl
arg_loop-spell o (source v) rest = arg_loop-valued o _ (codes "--source") v rest refl refl
arg_loop-spell o (bin v) rest = arg_loop-valued o _ (codes "--uci-bin") v rest refl refl
arg_loop-spell o (network v) rest = arg_loop-valued o _ (codes "--uci-network") v rest refl refl
arg_loop-spell o (wireless v) rest = arg_loop-valued o _ (codes "--uci-wireless") v rest refl refl

-- Options in any order and number, each in any of its spellings (`-a`, `--apply`, `-w`, `--watch`,
-- `--daemon`, and the six with a value), are read as what they mean one after the other, the last value
-- of an option wins, and whatever the value of an option is, it is not taken for an option.
pub arg_loop-spell_all :
    (xs : List Opt) (o : Options) → arg_loop o (spell_all xs) ≡ some (means_all xs o)
unfolding arg_loop
arg_loop-spell_all [] o = refl
arg_loop-spell_all (x ∷ xs) o =
    arg_loop-spell o x (spell_all xs) ∙ arg_loop-spell_all xs (means x o)
