-- ===== src/Tests/CfgTests.antt =====
-- The theorems about cfg.c at concrete inputs.
use netrec.Prelude.{
  negsuc, ◌≡◌, refl, [], ◌∷◌, ◌++◌, codes, streq, is_blank, split_first, All, length, ◌≤◌, ret,
  Bytes, none, arith,
}
use netrec.Prelude.Libc.{is_digit, strtol}
use netrec.Cfg.Path.{
  key, index, is_alpha, is_key_start, is_key_char, key_loop, parse_key_tok, parse_index_tok,
  digits_ok, skip_minus, int_of, close_index, next_tok, path_loop, parse_path, path_file_ok,
  toks_file_ok,
}
use netrec.Cfg.Node.{
  child_add, find_child, obj_find, put_child, arr_nth, arr_idx, put_nth, Node, Nodes, nil, link,
  obj, arr,
}
use netrec.Cfg.Access.{cfg_init, cfg_get_str}
use netrec.Cfg.Set.{
  cfg_set_str, set_walk, set_last, set_arr_append, set_arr_idx, enter_key, enter_index, write_nth,
}
use netrec.Cfg.Value.{
  quote, parse_value, ltrim, rtrim, trim, is_eol, trim_eol, unescape, unquote, cut_hash, rest_ok,
  value_of, quote_byte, quote_loop,
}
use netrec.Cfg.File.{
  load_line, lines, load_lines, assign, cfg_load, dump_line, dump_items, child_path, dump_nodes,
  cfg_dump_file,
}
use netrec.Cfg.RoundTrip.{cfg_load-cfg_dump_file}
use netrec.Cfg.LoadedLines.{root_of, IsLoaded, cfg_load-IsLoaded, cfg_load-cfg_dump_file-cfg_load}
use netrec.Cfg.Tree.{last, empty, list, object}
use netrec.Cfg.GetSet.{cfg_get_str-cfg_set_str}
use netrec.Cfg.Assign.{load_line-quote}
use netrec.Cfg.Bounds.{IsTok, parse_path-bounds}
use netrec.Prelude.{inl, inr, some}
use netrec.Cfg.Frame.{cfg_get_node-cfg_set_str}
use netrec.Cfg.Access.{cfg_get_node, walk_get}
use netrec.Cfg.Node.{node_new, str, child_add, find_child, obj_find, put_child}
use netrec.Cfg.Set.{set_str_plain}

-- A tree with one list of servers.
abbrev one_server : Node
one_server = (cfg_set_str cfg_init (codes "dns[]") (codes "1.1.1.1")).0

cfg_get_str-cfg_set_str_example :
    cfg_get_str (cfg_set_str one_server (codes "dns[-1]") (codes "9.9.9.9")).0 (codes "dns[-1]")
    ≡ ret (codes "9.9.9.9")
unfolding codes streq parse_path parse_key_tok is_key_start is_alpha key_loop is_key_char is_digit
    path_loop next_tok parse_index_tok digits_ok skip_minus strtol int_of close_index cfg_set_str
    set_walk enter_key obj_find find_child set_last set_arr_append child_add enter_index set_arr_idx
    arr_idx arr_nth write_nth put_nth put_child
cfg_get_str-cfg_set_str_example =
    cfg_get_str-cfg_set_str one_server b'd' (codes "ns[-1]") (codes "9.9.9.9")
      (key (codes "dns") ∷ index (negsuc 0) ∷ []) refl refl refl

load_line-quote_example :
    load_line cfg_init (b'd' ∷ codes "ns[]" ++ (codes " = " ++ quote (codes "1.1.1.1")))
    ≡ cfg_set_str cfg_init (b'd' ∷ codes "ns[]") (codes "1.1.1.1")
unfolding codes path_file_ok parse_path parse_key_tok is_key_start is_alpha key_loop is_key_char
    is_digit path_loop next_tok parse_index_tok toks_file_ok
load_line-quote_example = load_line-quote cfg_init b'd' (codes "ns[]") (codes "1.1.1.1") refl

parse_path-bounds_example :
    All IsTok (key (codes "wg0") ∷ key (codes "mtu") ∷ [])
    × (length (key (codes "wg0") ∷ key (codes "mtu") ∷ []) ≤ 64)
unfolding codes parse_path parse_key_tok is_key_start is_alpha key_loop is_key_char is_digit
    path_loop next_tok
parse_path-bounds_example =
    parse_path-bounds (codes "wg0.mtu") 64 (key (codes "wg0") ∷ key (codes "mtu") ∷ []) refl

-- An object with two values.
abbrev two_values : Node
two_values =
    (cfg_set_str (cfg_set_str cfg_init (codes "wg.mtu") (codes "1420")).0 (codes "wg.port")
      (codes "51820")).0

cfg_get_node-cfg_set_str_example :
    cfg_get_node (cfg_set_str two_values (codes "wg.mtu") (codes "1380")).0 (codes "wg.port")
    ≡ ret (record (node_new str (some (codes "port"))) { val = some (codes "51820") })
unfolding codes streq parse_path parse_key_tok is_key_start is_alpha key_loop is_key_char is_digit
    path_loop next_tok cfg_set_str set_walk enter_key obj_find find_child set_last set_str_plain
    child_add put_child cfg_get_node walk_get
cfg_get_node-cfg_set_str_example =
    cfg_get_node-cfg_set_str two_values
      (record (node_new str (some (codes "port"))) { val = some (codes "51820") }) b'w' b'w'
      (codes "g.mtu") (codes "g.port") (codes "1380") (key (codes "wg") ∷ key (codes "mtu") ∷ [])
      (key (codes "wg") ∷ key (codes "port") ∷ []) refl refl (inr (refl, inl refl)) refl

-- A file with an object, an array and a comment.
abbrev server_file : Bytes
server_file =
    codes
      "# servers\n\nwg.mtu = 1420\nwg.dns[] = 1.1.1.1\nwg.dns[] = \"9.9.9.9\" # two\nid = \"a \\\"b\\\"\"\n"

abbrev server_nodes : Nodes
server_nodes =
    link obj (some (codes "wg")) none
      (link str (some (codes "mtu")) (some (codes "1420")) nil (
        link arr (some (codes "dns")) none
          (link str none (some (codes "1.1.1.1")) nil
            (link str none (some (codes "9.9.9.9")) nil nil))
          nil))
      (link str (some (codes "id")) (some (codes "a \"b\"")) nil nil)

cfg_load-IsLoaded_example : IsLoaded (root_of server_nodes)
unfolding codes streq is_blank split_first cfg_load lines load_lines load_line assign trim ltrim
    rtrim is_eol trim_eol rest_ok parse_value value_of unquote unescape cut_hash path_file_ok
    toks_file_ok parse_path parse_key_tok is_key_start is_alpha key_loop is_key_char is_digit
    path_loop next_tok parse_index_tok cfg_set_str set_walk enter_key obj_find find_child set_last
    set_str_plain set_arr_append child_add put_child
cfg_load-IsLoaded_example = cfg_load-IsLoaded server_file (root_of server_nodes) refl

cfg_load-cfg_dump_file-cfg_load_example :
    cfg_load (cfg_dump_file (root_of server_nodes)).0 ≡ ret (root_of server_nodes)
unfolding codes streq is_blank split_first cfg_load lines load_lines load_line assign trim ltrim
    rtrim is_eol trim_eol rest_ok parse_value value_of unquote unescape cut_hash path_file_ok
    toks_file_ok parse_path parse_key_tok is_key_start is_alpha key_loop is_key_char is_digit
    path_loop next_tok parse_index_tok cfg_set_str set_walk enter_key obj_find find_child set_last
    set_str_plain set_arr_append child_add put_child cfg_dump_file dump_nodes dump_items dump_line
    child_path quote quote_loop quote_byte
cfg_load-cfg_dump_file-cfg_load_example =
    cfg_load-cfg_dump_file-cfg_load server_file (root_of server_nodes) refl
      (
        (omega arith, omega arith),
        (
          (omega arith, omega arith),
          ((omega arith, omega arith), ((omega arith, omega arith), tt)),
        ),
      )
      refl

-- A tree built by hand: an array in an object.
abbrev list_nodes : Nodes
list_nodes =
    link obj (some (codes "a")) none
      (link arr (some (codes "b")) none (link str none (some (codes "1")) nil nil) nil) nil

cfg_load-cfg_dump_file_example :
    cfg_load (cfg_dump_file (root_of list_nodes)).0 ≡ ret (root_of list_nodes)
unfolding codes find_child cfg_dump_file dump_nodes dump_items dump_line child_path quote quote_loop
    quote_byte is_key_start is_alpha is_key_char is_digit
cfg_load-cfg_dump_file_example =
    cfg_load-cfg_dump_file list_nodes
      (object (refl, (refl, tt), omega arith) refl
        (list (refl, (refl, tt), omega arith) refl last empty) empty)
      ((omega arith, omega arith), tt) refl
