-- ===== src/Nodes.antt =====
-- The tree of nodes and the pipes: src/flexetl/nodes.h, nodes.cpp, pipeline.cpp, pipeset.cpp and
-- pipebase.cpp. A handler is what its call does to a state of everything, and what it returns.
pub mod Pipes
pub mod Tree
pub mod MoveFile
pub mod Create
pub mod Start
pub mod Sub
pub mod Params
mod Tests
