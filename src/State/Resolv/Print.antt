-- ===== src/State/Resolv/Print.antt =====
-- resolv.conf as a list of entries, each with its line, and what `rs_load_resolv_conf` reads from the
-- file that has these lines.
use netrec.Prelude.{
  ℕ, ◌≡◌, ◌≢◌, ◌<◌, refl, ap, ◌∙◌, inl, inr, Option-cases, true, false, Option, none, some, List,
  [], ◌∷◌, ◌++◌, append_assoc, Bytes, codes, streq_refl, length, ◌==◌, leb, is_empty, if◌then◌else◌,
  arith, ret, err, enospc, All,
}
use netrec.Prelude.Libc.{is_space}
use netrec.State.{RealState, nr_dns4_max}
use netrec.State.Resolv.{
  fgets_loop, scan_bytes, scan_two, nameserver, nameservers, rs_load_resolv_conf,
  rs_load_resolv_conf-nameservers,
}
use netrec.State.Resolv.Scan.{
  IsGap, IsWordOf, fgets_loop-line, skip_space-gap, second_word, scan_two-second_word, scan_two-key,
  server_of, nameserver-server_of, server_of-other, nameserver_key, second_word-addr,
}

-- A line: white space, a keyword, and what follows it. For `nameserver` this is white space, an
-- address, and anything behind a further white space.
pub data Entry : Type 0 where
  blank : (before : Bytes) → Entry
  server : (before gap addr tail : Bytes) → Entry
  other : (before key tail : Bytes) → Entry

abbrev pub line_of : Entry → Bytes
line_of (blank before) = before
line_of (server before gap addr tail) = before ++ (codes "nameserver" ++ (gap ++ (addr ++ tail)))
line_of (other before key tail) = before ++ (key ++ tail)

abbrev pub print : List Entry → Bytes
print [] = []
print (e ∷ es) = line_of e ++ b'\n' ∷ print es

-- The server that an entry names, and those of all entries.
abbrev pub server_in : (Bytes → Option ℕ) → Entry → Option ℕ
server_in net (server before gap addr tail) = net addr
server_in net _ = none

abbrev pub and_server : Option ℕ → List ℕ → List ℕ
and_server none more = more
and_server (some a) more = a ∷ more

abbrev pub servers : (Bytes → Option ℕ) → List Entry → List ℕ
servers net [] = []
servers net (e ∷ es) = and_server (server_in net e) (servers net es)

-- Nothing, or white space and anything.
abbrev pub IsTail : Bytes → Type 0
IsTail [] = Unit
IsTail (c ∷ cs) = is_space c ≡ true

abbrev pub IsEntry : Entry → Type 0
IsEntry (blank before) = IsGap before
IsEntry (server before gap addr tail) =
    IsGap before × IsGap gap × (is_empty gap ≡ false) × IsWordOf 63 addr × IsTail tail
IsEntry (other before key tail) =
    IsGap before × IsWordOf 31 key × (key ≢ codes "nameserver") × IsTail tail

-- The entry has the form above, its line has no newline in it, and `fgets` reads it at once.
abbrev pub FitsLine : Entry → Type 0
FitsLine e = IsEntry e × All (λ c. (c == b'\n') ≡ false) (line_of e) × (length (line_of e) < 255)

-- Behind a tail stands white space, at least the newline.
tail-cons :
    (t : Bytes)
    → IsTail t
    → (s : ℕ) × (rest : Bytes) × (t ++ b'\n' ∷ [] ≡ s ∷ rest) × (is_space s ≡ true)
unfolding is_space
tail-cons [] h = (b'\n', [], refl, refl)
tail-cons (c ∷ t) h = (c, t ++ b'\n' ∷ [], refl, h)

nameserver-blank :
    (net : Bytes → Option ℕ) (before : Bytes)
    → IsGap before
    → nameserver net (before ++ b'\n' ∷ []) ≡ none
unfolding scan_bytes is_space
nameserver-blank net before h =
    nameserver-server_of net (before ++ b'\n' ∷ [])
    ∙ ap (server_of net) (
        scan_two-second_word (before ++ b'\n' ∷ [])
        ∙ ap (λ l. second_word (scan_bytes 31 l)) (skip_space-gap before (b'\n' ∷ []) h))

nameserver-other :
    (net : Bytes → Option ℕ) (before key tail : Bytes)
    → IsEntry (other before key tail)
    → nameserver net (before ++ (key ++ (tail ++ b'\n' ∷ []))) ≡ none
nameserver-other net before key tail (hb, hk, differs, ht) =
    let (s, rest, e, hs) = tail-cons tail ht in
    nameserver-server_of net (before ++ (key ++ (tail ++ b'\n' ∷ [])))
    ∙ ap (λ l. server_of net (scan_two (before ++ (key ++ l)))) e
    ∙ ap (server_of net) (scan_two-key before key s rest hb hk hs)
    ∙ server_of-other net key (s ∷ rest) differs

nameserver-server :
    (net : Bytes → Option ℕ) (before gap addr tail : Bytes)
    → IsEntry (server before gap addr tail)
    → nameserver net (before ++ (codes "nameserver" ++ (gap ++ (addr ++ (tail ++ b'\n' ∷ [])))))
      ≡ net addr
nameserver-server net before [] addr tail (_, _, h, _, _) = absurd (ground arith)
nameserver-server net before (g ∷ gap) addr tail (hb, hg, _, ha, ht) =
    let (s, rest, e, hs) = tail-cons tail ht in
    nameserver-server_of net
      (before ++ (codes "nameserver" ++ ((g ∷ gap) ++ (addr ++ (tail ++ b'\n' ∷ [])))))
    ∙ ap
        (λ l.
          server_of net (scan_two (before ++ (codes "nameserver" ++ ((g ∷ gap) ++ (addr ++ l))))))
        e
    ∙ ap (server_of net) (
        scan_two-key before (codes "nameserver") g (gap ++ (addr ++ s ∷ rest)) hb nameserver_key
          hg.0
        ∙ second_word-addr (g ∷ gap) addr s rest hg ha hs)
    ∙ rw (streq_refl (codes "nameserver"))

-- A line with its newline gives the server that its entry names.
nameserver-line_of :
    (net : Bytes → Option ℕ) (e : Entry)
    → IsEntry e
    → nameserver net (line_of e ++ b'\n' ∷ []) ≡ server_in net e
nameserver-line_of net (blank before) h = nameserver-blank net before h
nameserver-line_of net (server before gap addr tail) h =
    rw (append_assoc, append_assoc, append_assoc, append_assoc)
      (nameserver-server net before gap addr tail h)
nameserver-line_of net (other before key tail) h =
    rw (append_assoc, append_assoc) (nameserver-other net before key tail h)

nameservers-cons :
    (net : Bytes → Option ℕ) (l : Bytes) (ls : List Bytes)
    → nameservers net (l ∷ ls) ≡ and_server (nameserver net l) (nameservers net ls)
unfolding nameservers
nameservers-cons net l ls = elim (Option-cases (nameserver net l)) [
  | inl n ↦ rw (n, nameservers)
  | inr (a, n) ↦ rw (n, nameservers)
]

nameservers-print :
    (net : Bytes → Option ℕ) (es : List Entry)
    → All FitsLine es
    → nameservers net (fgets_loop 255 (print es)) ≡ servers net es
unfolding nameservers fgets_loop
nameservers-print net [] h = refl
nameservers-print net (e ∷ es) ((form, one, fits), hs) =
    ap (nameservers net) (fgets_loop-line 255 (line_of e) (print es) one fits)
    ∙ nameservers-cons net (line_of e ++ b'\n' ∷ []) (fgets_loop 255 (print es))
    ∙ ap (λ o. and_server o (nameservers net (fgets_loop 255 (print es))))
        (nameserver-line_of net e form)
    ∙ ap (and_server (server_in net e)) (nameservers-print net es hs)

-- From a file of lines that `fgets` reads whole, each of white space only or a keyword of at most 31
-- bytes and what follows it, where every `nameserver` line has an address of at most 63 bytes, the
-- snapshot gets the addresses that `inet_pton` takes, of the `nameserver` lines in order and of no other
-- line, if there are at most 16; the call fails with ENOSPC otherwise.
pub rs_load_resolv_conf-print :
    (net : Bytes → Option ℕ) (rs : RealState) (es : List Entry)
    → All FitsLine es
    → rs_load_resolv_conf net rs (some (print es)) ≡ (
        if leb (length (servers net es)) nr_dns4_max
        then ret (record rs { dns4 = servers net es })
        else err enospc)
rs_load_resolv_conf-print net rs es h =
    rs_load_resolv_conf-nameservers net rs (print es)
    ∙ ap
        (λ found.
          if leb (length found) nr_dns4_max then ret (record rs { dns4 = found }) else err enospc)
        (nameservers-print net es h)
