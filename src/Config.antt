-- ===== src/Config.antt =====
-- src/config_parser.cc and include/config_parser.h: the configuration file's tokens, its tree,
-- the parser that builds the tree, and the queries on it.
pub mod Tokens
mod Lengths
pub mod Words
pub mod Tree
pub mod Parser
pub mod Port
pub mod Paths
mod Tests
mod Examples
