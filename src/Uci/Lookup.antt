-- ===== src/Uci/Lookup.antt =====
-- uci.c: a line of `uci show` that is loaded is what `db_get` finds.
use netrec.Prelude.{
  ℕ, ◌+◌, ◌-◌, ◌≤◌, sym, take, take-of_le, ◌<◌, ◌≡◌, refl, subst, inl, inr, Bool-cases, true, false,
  ◌&&◌, some, [], ◌∷◌, ◌++◌, append_assoc, arith, Bytes, is_blank, streq, is_empty, split_first,
  ◌==◌, ltb, leb, length, if◌then◌else◌, All, All-append, ret,
}
use netrec.Cfg.Value.{is_eol, ltrim, trim_eol}
use netrec.Uci.Words.{uci_cpy, closed_quote, strip_quotes}
use netrec.Uci.Db.{
  UciItem, UciDb, nr_uci_item_max, uci_pkg_sz, uci_sect_sz, uci_opt_sz, uci_val_sz, db_add,
  add_parts, add_line, db_load_line, is_option, db_get,
}

-- A text without the byte.
abbrev pub Free : ℕ → Bytes → Type 0
Free c = All (λ b. (b == c) ≡ false)

pub split_first-Free :
    (c : ℕ) (xs ys : Bytes) → Free c xs → split_first c (xs ++ c ∷ ys) ≡ some (xs, ys)
unfolding split_first
split_first-Free c [] ys h = let same : (c == c) ≡ true = ground arith in rw same
split_first-Free c (x ∷ xs) ys h = rw (h.0, split_first-Free c xs ys h.1)

-- A text that ends in a byte which ends no line.
record Stays (s : Bytes) : Type 0 where
  whole : trim_eol s ≡ s
  some_byte : is_empty s ≡ false

Stays-append : (xs : Bytes) (c : ℕ) → is_eol c ≡ false → Stays (xs ++ c ∷ [])
unfolding trim_eol
Stays-append [] c e = record { whole = rw e; some_byte = refl }
Stays-append (x ∷ xs) c e =
    let rest = Stays-append xs c e in
    record { whole = rw (rest.whole, rest.some_byte); some_byte = refl }

closed_quote-append : (val : Bytes) → closed_quote (val ++ b'\'' ∷ []) ≡ some val
unfolding closed_quote
closed_quote-append [] = refl
closed_quote-append (c ∷ []) = refl
closed_quote-append (c ∷ d ∷ cs) = rw (closed_quote-append (d ∷ cs))

strip_quotes-quoted : (val : Bytes) → strip_quotes (ltrim (b'\'' ∷ (val ++ b'\'' ∷ []))) ≡ val
unfolding strip_quotes ltrim is_blank
strip_quotes-quoted val = rw (closed_quote-append val)

pub uci_cpy-fits : (sz : ℕ) (s : Bytes) → length s < sz → uci_cpy sz (some s) ≡ s
unfolding uci_cpy
uci_cpy-fits sz s h = ground arith

uci_cpy-take : (sz : ℕ) (s : Bytes) → 1 ≤ sz → uci_cpy sz (some s) ≡ take (sz - 1) s
unfolding uci_cpy
uci_cpy-take sz s l = elim (Bool-cases (leb sz (length s))) [
  | inl y ↦ rw y refl
  | inr n ↦ rw n (sym (take-of_le (sz - 1) s (ground arith)))
]

-- `pkg.sect.opt='val'`
abbrev pub option_line : Bytes → Bytes → Bytes → Bytes → Bytes
option_line pkg sect opt val =
    (pkg ++ (b'.' ∷ (sect ++ (b'.' ∷ opt)))) ++ (b'=' ∷ b'\'' ∷ (val ++ b'\'' ∷ []))

-- The parts of a line that are the names, and lengths that the fields of an item have room for.
pub record IsLine (pkg sect opt : Bytes) : Type 0 where
  pub pkg_dots : Free b'.' pkg
  pub pkg_eqs : Free b'=' pkg
  pub sect_dots : Free b'.' sect
  pub sect_eqs : Free b'=' sect
  pub opt_eqs : Free b'=' opt
  pub pkg_fits : length pkg < uci_pkg_sz
  pub sect_fits : length sect < uci_sect_sz
  pub opt_fits : length opt < uci_opt_sz

db_get-append :
    (db : UciDb) (it : UciItem) (pkg sect opt : Bytes)
    → db_get (db ++ it ∷ []) pkg sect opt
      ≡ (if is_option pkg sect opt it then some it.val else db_get db pkg sect opt)
unfolding db_get
db_get-append [] it pkg sect opt = refl
db_get-append (x ∷ db) it pkg sect opt = elim (Bool-cases (is_option pkg sect opt it)) [
  | inl y ↦ rw y (rw (db_get-append db it pkg sect opt, y))
  | inr n ↦ rw n (rw (db_get-append db it pkg sect opt, n))
]

-- The item that an option's line makes.
abbrev option_item : Bytes → Bytes → Bytes → Bytes → UciItem
option_item pkg sect opt val = record {
  pkg = pkg;
  sect = sect;
  opt = opt;
  val = take 255 val;
  is_type = false;
}

module _ {pkg sect opt : Bytes} (val : Bytes) (h : IsLine pkg sect opt) (db : UciDb)
    (room : length db < nr_uci_item_max) where
  db_add-option : db_add db pkg sect opt val false ≡ ret (db ++ option_item pkg sect opt val ∷ [])
  unfolding db_add
  db_add-option =
      let space : leb nr_uci_item_max (length db) ≡ false = ground arith in
      rw (
        space,
        uci_cpy-fits uci_pkg_sz pkg h.pkg_fits,
        uci_cpy-fits uci_sect_sz sect h.sect_fits,
        uci_cpy-fits uci_opt_sz opt h.opt_fits,
        uci_cpy-take uci_val_sz val (omega arith),
      )

  add_parts-option :
      add_parts db pkg (sect ++ (b'.' ∷ opt)) val ≡ ret (db ++ option_item pkg sect opt val ∷ [])
  unfolding add_parts
  add_parts-option =
      let a : ltb uci_sect_sz (length sect + 1) ≡ false = ground (arith, h.sect_fits) in
      let b : ltb uci_opt_sz (length opt + 1) ≡ false = ground (arith, h.opt_fits) in
      rw (split_first-Free b'.' sect opt h.sect_dots, a, b, add_parts) db_add-option

  add_line-option :
      add_line db (option_line pkg sect opt val) ≡ ret (db ++ option_item pkg sect opt val ∷ [])
  unfolding add_line
  add_line-option =
      let name : Bytes = pkg ++ (b'.' ∷ (sect ++ (b'.' ∷ opt))) in
      let eqs : Free b'=' name =
        All-append _ pkg (b'.' ∷ (sect ++ (b'.' ∷ opt))) h.pkg_eqs
          (refl, All-append _ sect (b'.' ∷ opt) h.sect_eqs (refl, h.opt_eqs)) in
      let a : ltb uci_pkg_sz (length pkg + 1) ≡ false = ground (arith, h.pkg_fits) in
      rw
        (
          split_first-Free b'=' name (b'\'' ∷ (val ++ b'\'' ∷ [])) eqs,
          split_first-Free b'.' pkg (sect ++ (b'.' ∷ opt)) h.pkg_dots,
          a,
          strip_quotes-quoted val,
          add_line,
        )
        add_parts-option

  db_load_line-option :
      db_load_line db (option_line pkg sect opt val) ≡ ret (db ++ option_item pkg sect opt val ∷ [])
  unfolding db_load_line is_eol
  db_load_line-option =
      let name : Bytes = pkg ++ (b'.' ∷ (sect ++ (b'.' ∷ opt))) in
      let ends : Stays (option_line pkg sect opt val) =
        subst Stays (append_assoc name (b'=' ∷ b'\'' ∷ val) (b'\'' ∷ []))
          (Stays-append (name ++ (b'=' ∷ b'\'' ∷ val)) b'\'' refl) in
      rw (ends.whole, ends.some_byte) add_line-option

-- Behind the line of an option `db_get` finds the first 255 bytes of its value under its package, section
-- and option, whatever bytes these are and whatever was there before, and under every other name what it
-- found before; if the table has room, the package and the section have no dot and no `=`, the option has
-- no `=`, and the three are shorter than the fields of an item.
pub db_get-db_load_line :
    (db : UciDb) (pkg sect opt val p s o : Bytes)
    → IsLine pkg sect opt
    → length db < nr_uci_item_max
    → (db' : UciDb) × (db_load_line db (option_line pkg sect opt val) ≡ ret db')
      × (db_get db' p s o ≡ (
          if streq pkg p && streq sect s && streq opt o
          then some (take 255 val)
          else db_get db p s o))
db_get-db_load_line db pkg sect opt val p s o h room = (
  db ++ option_item pkg sect opt val ∷ [],
  db_load_line-option val h db room,
  db_get-append db (option_item pkg sect opt val) p s o,
)
