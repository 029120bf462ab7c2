-- ===== src/Uci/RoundTrip.antt =====
-- uci.c and yaml.c: a set of desired states that `cfg_set` writes is loaded by `yaml_load_desired_set`.
use netrec.Prelude.{
  ℕ, zero, suc, ◌+◌, ◌*◌, ◌≤◌, ◌<◌, ◌≡◌, ◌≢◌, refl, sym, ◌∙◌, ap, subst, inl, inr, Bool-cases, none,
  some, List, [], ◌∷◌, ◌++◌, arith, Bytes, codes, streq, streq_iff, length, length-append, All,
  All-append, Result, ret, ◌>>=◌, >>=-eq-ret,
}
use netrec.State.{DesiredState, DesiredSet}
use netrec.Cfg.Path.{key, append, index}
use netrec.Cfg.Node.{Nodes, nil, find_child}
use netrec.Cfg.Value.{quote, quote_loop, quote_byte}
use netrec.Cfg.File.{child_path}
use netrec.Cfg.Bounds.{IsKey}
use netrec.Cfg.Assigns.{Assign, under_key}
use netrec.Cfg.Spell.{under, IsFilePath}
use netrec.Cfg.Tree.{IsTree, empty, object, assigns}
use netrec.Cfg.Replay.{line_of, text_of}
use netrec.Cfg.RoundTrip.{under-child_path, text_of-append, text_of-under_key, assigns-IsFilePath}
use netrec.Yaml.Load.{state_items}
use netrec.Uci.Dump.{state_fields, put_fields, cfg_state_id, cfg_state, cfg_set_from}
use netrec.Uci.Tree.{leaf, branch}
use netrec.Uci.Lines.{tails, dumped, dumped-tails, state_path, put_fields-dumped}
use netrec.Uci.Read.{Small, Stored}

-- The children of `state`, and the desired states that they hold.
pub data IsSaved : ℕ → DesiredSet → Nodes → Type 0 where
  no_state : {idx : ℕ} → IsSaved idx [] nil
  a_state :
      {idx : ℕ} {id : Bytes} {ds : DesiredState} {set : DesiredSet} {next : Nodes}
      → IsKey id
      → cfg_state_id ds idx ≡ ret id
      → (s : Stored ds) → find_child next id ≡ none
      → IsSaved (idx + 1) set next
      → IsSaved idx (ds ∷ set) (branch id (leaf (codes "scenario") ds.scenario s.rest) next)

pub IsSaved-IsTree : {idx : ℕ} {set : DesiredSet} {ns : Nodes} → IsSaved idx set ns → IsTree ns
IsSaved-IsTree no_state = empty
IsSaved-IsTree (a_state x e s f h) = object x f s.is_tree (IsSaved-IsTree h)

pub state_items-IsSaved :
    (room : ℕ) {idx : ℕ} {set : DesiredSet} {ns : Nodes}
    → IsSaved idx set ns
    → length set ≤ room
    → state_items room ns ≡ ret set
unfolding state_items
state_items-IsSaved room no_state l = refl
state_items-IsSaved zero (a_state x e s f h) l = absurd (omega arith)
state_items-IsSaved (suc room) (a_state {id} x e s f h) l =
    rw (s.reads (some id), state_items-IsSaved room h (omega arith), ◌>>=◌) refl

-- No state behind has the id.
abbrev pub IsFree : Result Bytes → ℕ → DesiredSet → Type 0
IsFree r j [] = Unit
IsFree r j (d ∷ set) = (cfg_state_id d j ≢ r) × IsFree r (j + 1) set

-- The ids of the states, with the index that the first has, differ.
abbrev pub HaveOwnIds : ℕ → DesiredSet → Type 0
HaveOwnIds idx [] = Unit
HaveOwnIds idx (ds ∷ set) = IsFree (cfg_state_id ds idx) (idx + 1) set × HaveOwnIds (idx + 1) set

pub find_child-IsFree :
    (id : Bytes) {idx : ℕ} {set : DesiredSet} {ns : Nodes}
    → IsSaved idx set ns
    → IsFree (ret id) idx set
    → find_child ns id ≡ none
unfolding find_child
find_child-IsFree id no_state f = refl
find_child-IsFree id (a_state {id = other} x e s y h) f = elim (Bool-cases (streq other id)) [
  | inl z ↦ absurd (f.0 (e ∙ ap ret ((streq_iff other id).0 z)))
  | inr z ↦ rw z (find_child-IsFree id h f.1)
]

-- The text of a state.
cfg_state-text :
    (ds : DesiredState) (idx : ℕ) (id out : Bytes) (s : Stored ds)
    → cfg_state_id ds idx ≡ ret id
    → cfg_state ds idx ≡ ret out
    → (out ≡ text_of (state_path id) (assigns (leaf (codes "scenario") ds.scenario s.rest)))
      × All
          (λ l. length (state_path id ++ b'.' ∷ l.0) < 256)
          (tails [] (assigns (leaf (codes "scenario") ds.scenario s.rest)))
unfolding cfg_state codes
cfg_state-text ds idx id out s e h =
    let put : put_fields id (state_fields ds) ≡ ret out = rw (e, cfg_state, ◌>>=◌) at h in
    let (text, short) = put_fields-dumped id out (state_fields ds) put in
    (
      text
          ∙ ap (dumped (state_path id)) s.lines
          ∙ dumped-tails b's' (codes "tate." ++ id)
              (assigns (leaf (codes "scenario") ds.scenario s.rest)) (assigns-IsFilePath s.is_tree),
      subst (All (λ l. length (state_path id ++ b'.' ∷ l.0) < 256)) s.lines short,
    )

pub cfg_set_from-text :
    (idx : ℕ) (out : Bytes) {set : DesiredSet} {ns : Nodes}
    → IsSaved idx set ns
    → cfg_set_from idx set ≡ ret out
    → out ≡ text_of (codes "state") (assigns ns)
unfolding cfg_set_from codes child_path
cfg_set_from-text idx out no_state h = let same : ◌≡◌ {A = Bytes} [] out = cc h in sym same
cfg_set_from-text idx out (a_state {id} {ds} {set} {next} x e s f h) w =
    let (text, a, b) =
      >>=-eq-ret {B = Bytes} (cfg_state ds idx)
        (λ text. cfg_set_from (idx + 1) set >>= λ rest. ret (text ++ rest)) w in
    let (rest, c, d) =
      >>=-eq-ret {B = Bytes} (cfg_set_from (idx + 1) set) (λ rest. ret (text ++ rest)) b in
    let whole : text ++ rest ≡ out = cc d in
    let tree = leaf (codes "scenario") ds.scenario s.rest in
    sym whole
    ∙ ap (λ z. z ++ rest) (cfg_state-text ds idx id text s e a).0
    ∙ ap (λ z. text_of (state_path id) (assigns tree) ++ z) (cfg_set_from-text (idx + 1) rest h c)
    ∙ ap (λ z. z ++ text_of (codes "state") (assigns next))
        (sym (text_of-under_key (codes "state") id (assigns tree) x))
    ∙ sym (text_of-append (codes "state") (under_key id (assigns tree)) (assigns next))

-- An assignment below a path: at most so many tokens more, and a line that fits.
abbrev pub FitsAt : Bytes → ℕ → Assign → Type 0
FitsAt p d a = (length a.0 ≤ d) × (length (line_of (under p a.0) a.1) < 4095)

pub under_key-FitsAt :
    (p k : Bytes) (d : ℕ) (xs : List Assign)
    → IsKey k
    → All (FitsAt (child_path p (some k)) d) xs
    → All (FitsAt p (d + 1)) (under_key k xs)
under_key-FitsAt p k d [] x h = tt
under_key-FitsAt p k d (a ∷ xs) x h =
    let line =
      subst (λ z. length (line_of z a.1) < 4095) (sym (under-child_path p k a.0 x)) h.0.1 in
    ((omega (arith, h.0.0), line), under_key-FitsAt p k d xs x h.1)

quote_byte-length : (c : ℕ) → length (quote_byte c) ≤ 2
unfolding quote_byte
quote_byte-length c = ground arith

quote_loop-length : (s : Bytes) → length (quote_loop s) ≤ 2 * length s + 1
unfolding quote_loop
quote_loop-length [] = omega arith
quote_loop-length (c ∷ s) =
    rw (length-append (quote_byte c) (quote_loop s))
      (omega (arith, quote_byte-length c, quote_loop-length s))

length-line_of : (path v : Bytes) → length (line_of path v) ≤ length path + 2 * length v + 5
unfolding codes quote
length-line_of path v =
    rw (length-append path (codes " = " ++ quote v)) (omega (arith, quote_loop-length v))

-- A state's lines fit, as their paths do and their values are short.
state-FitsAt :
    (c : ℕ) (p : Bytes) (xs : List Assign)
    → All (λ a. IsFilePath a.0) xs
    → All (Small 3) xs
    → All (λ l. length ((c ∷ p) ++ b'.' ∷ l.0) < 256) (tails [] xs)
    → All (FitsAt (c ∷ p) 3) xs
state-FitsAt c p [] f s l = tt
state-FitsAt c p (([], v) ∷ xs) f s l = absurd f.0
state-FitsAt c p ((append ∷ ts, v) ∷ xs) f s l = absurd f.0
state-FitsAt c p ((index i ∷ ts, v) ∷ xs) f s l = absurd f.0
state-FitsAt c p ((key k ∷ ts, v) ∷ xs) f s l =
    let path : length (under (c ∷ p) (key k ∷ ts)) < 256 = l.0 in
    let line = length-line_of (under (c ∷ p) (key k ∷ ts)) v in
    let room : length v < 512 = s.0.1 in
    ((s.0.0, omega (arith, path, line, room)), state-FitsAt c p xs f.1 s.1 l.1)

pub IsSaved-FitsAt :
    (idx : ℕ) (out : Bytes) {set : DesiredSet} {ns : Nodes}
    → IsSaved idx set ns
    → cfg_set_from idx set ≡ ret out
    → All (FitsAt (codes "state") 4) (assigns ns)
unfolding cfg_set_from codes child_path
IsSaved-FitsAt idx out no_state h = tt
IsSaved-FitsAt idx out (a_state {id} {ds} {set} {next} x e s f h) w =
    let (text, a, b) =
      >>=-eq-ret {B = Bytes} (cfg_state ds idx)
        (λ text. cfg_set_from (idx + 1) set >>= λ rest. ret (text ++ rest)) w in
    let (rest, c, d) =
      >>=-eq-ret {B = Bytes} (cfg_set_from (idx + 1) set) (λ rest. ret (text ++ rest)) b in
    let xs = assigns (leaf (codes "scenario") ds.scenario s.rest) in
    All-append (FitsAt (codes "state") 4) (under_key id xs) (assigns next)
      (under_key-FitsAt (codes "state") id 3 xs x (
        state-FitsAt b's' (codes "tate." ++ id) xs (assigns-IsFilePath s.is_tree) s.small
          (cfg_state-text ds idx id text s e a).1))
      (IsSaved-FitsAt (idx + 1) rest h c)
