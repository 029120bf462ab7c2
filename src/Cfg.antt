-- ===== src/Cfg.antt =====
-- cfg.c and cfg.h: the line-based configuration, as a tree of nodes.
pub mod Path
pub mod Node
pub mod Access
pub mod Set
pub mod Value
pub mod File
pub mod Quoted
pub mod Assign
pub mod Bounds
pub mod Children
pub mod Steps
pub mod GetSet
pub mod Frame
pub mod Assigns
pub mod Tree
pub mod Spell
pub mod Replay
pub mod RoundTrip
pub mod Shape
pub mod Loaded
pub mod LoadedLines
