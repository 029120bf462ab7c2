-- ===== src/Lib.antt =====
-- netrec compares the network state of a Linux or OpenWrt host with a desired state, prints
-- what is there and what is missing, and under --apply runs the commands that repair it. This
-- library models its core, with theorems about it.
--
-- The parts and how they interact. main (main.c) reads the arguments and starts one run or a
-- watch. netrec_run_once (run.c) loads the desired states (yaml.c or uci.c), takes a lock
-- under --apply, and makes a pass: load_real reads a snapshot of the kernel's state
-- (netlink.c) and the name servers of resolv.conf (state.c), and verify_state (verify.c)
-- checks every desired state against the snapshot. A check prints OK or MISS and, for what is
-- missing, an ACT command, which is run at once under --apply. Behind a pass that changed
-- something a dry pass follows on a new snapshot. netrec_watch (watch.c) makes such runs again
-- and again, each behind an event of the kernel and a quiet time. cfg.c is the store of the
-- configuration that yaml.c reads: a tree of objects, arrays and strings, with paths such as
-- dns[-1], loaded from and dumped to a line-based file. uci.c builds desired states from
-- OpenWrt's UCI settings, writes them into such a tree, and loads them from it as yaml.c does.
--
-- Which file models which part:
--   State          state.h and the lookups of state.c: the records, with a list for an array
--                  and its counter
--   State/Resolv   rs_load_resolv_conf of state.c, with what fgets and sscanf do; Scan: what they
--                  read of a line of words; Print: a file as the lines of a list of entries
--   Verify         verify.c. A check is a value of a writer monad (Verify/Calls): the number that
--                  it returns, with its calls of ok, miss and act in order. Bridge, Links, Routes,
--                  Vxlan, Vlan and Address hold the checks, Scenario the dispatch of verify_state,
--                  Exec the context (struct vctx) and the running of a command
--   Verify/Spec    what a desired state asks of a snapshot, without the code's order, counters
--                  and messages; Sound and Sound/* relate the checks to it
--   Verify/Documented  what README.md and ctx.md ask of the uplink of wg_vxlan_bridge
--   Verify/*       Tally, Acts, Report, Effects, Idle: what is printed and run; Words: cmd_split;
--                  Address/Laws: addresses and the substitution of $iface
--   Cfg            cfg.c and cfg.h. Path: parse_path and its tokens; Node: struct cfg_node, as a
--                  chain of children, and the searches; Access: the readers; Set: cfg_set_str and
--                  cfg_del; Value and File: the file format. Bounds, Quoted, Assign, Children,
--                  Steps, GetSet and Frame hold the lemmas and theorems on one write or one line;
--                  Assigns, Tree, Spell, Replay and RoundTrip those on a dump that is loaded again;
--                  Shape, Loaded and LoadedLines those on the trees that a load gives
--   Yaml           yaml.c. Fields: the readers of a field; Parts: the parts of a desired state;
--                  Load: load_state and the sets that a file holds; Loaded, Keeps, Sets: what holds
--                  of them
--   Uci            uci.c. Words: the texts and their words; Db: lines, files and captured output as
--                  items, and the searches; Ports and Proto: the ports and addresses of a bridge;
--                  Build: desired states from the items; Dump: desired states as lines of a
--                  configuration; Load: uci2yml and uci_load_desired_set. Lookup, Tokens, Mask, Added
--                  and Id hold the theorems; Tree, Lines, Read, Stored, StoredDhcp, Vxlan, RoundTrip and Reload
--                  those on a set that is written and loaded again; Kept, Built, Filled and EndToEnd
--                  those on the sets that are built, up to uci_load_desired_set
--   Netlink        netlink.c. Attr: numbers and attributes in a buffer; Messages: a message as entries
--                  of the snapshot; Dump: the requests, the answers and nl_load_state. Unroll, Encode,
--                  Address, Link, Within, Limits and Returns hold the theorems
--   Run            run.c: a pass, the lock and netrec_run_once. Post: what its value says;
--                  Fail: which failures it tells of; Source: the desired states of a run; Snapshot:
--                  the snapshot of a pass
--   Main           main.c: arguments and exit status. Args: the options as arguments; Status: what
--                  the status says
--   Watch          watch.c: opening a watch, and the loop as steps between places. Drive: the loop
--                  along a list of what happens; Steps: the loop with events and stops in any order;
--                  Wakes and Stops: what they lead to
--   Prelude        byte lists for C strings, 64-bit strtol and strtoul, printed numbers (Decimal),
--                  error results, lists
--   Tests          the theorems at concrete inputs, and runs of the models
--
-- What stands for the world. inet_pton is a function from texts to addresses; fork, execvp and
-- waitpid on an argument vector are a function of the commands run before, and the snapshot
-- and resolv.conf depend on those commands too. What a command's output and end are, what a
-- file holds and whether mkstemp succeeds are functions in the record UciHost; socket, bind,
-- sendto and the receives are the record NlHost, where a recv behind the last receive waits,
-- which is the result none; pipe, sigaction and nlmon are the record WatchHost, and poll gives
-- what the state of the pipe allows. Nothing else is assumed of them. The record System of
-- run.c holds the host's answers; its snapshots are a field, and Run/Snapshot relates them to
-- the sockets.
--
-- Bounds and fuel. Most loops are structural recursions, so every function of the models is
-- total; the recursion of path_loop on the room in the token array is the code's own bound, 64
-- tokens, with its own error. The loop over the words of a text has the text's length as fuel,
-- and every word has a byte; the loops over attributes and messages have the number of bytes
-- that are left, and every round takes at least four of them; the count of a netmask's ones
-- has 32 rounds, for 32 bits. The buffers that cut a text keep their sizes: 256 bytes of a
-- command, 64 of an address, 128 of a key, 512 of a dumped path, 4096 of a line of a
-- configuration, 256 of a line of resolv.conf. The number of digits for %u is ten, enough for
-- 32 bits. The counters of the diff are natural numbers: they count the entries of arrays with
-- fixed limits, far below the range of an int. Numbers in a message stand in the host's byte
-- order, little-endian here.
--
-- Not modelled: the failure of malloc, fopen, fputc and fflush, and the release of memory; the
-- bytes of a file are not NUL. The texts of error messages (nl_errstr, the usage) and log.h,
-- which write logs; the callback behind a watched run. deps/libyaml is another project's code.
mod Prelude
pub mod State
pub mod Netlink
pub mod Verify
pub mod Cfg
pub mod Yaml
pub mod Uci
pub mod Run
pub mod Main
pub mod Watch
mod Tests
