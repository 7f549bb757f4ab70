-- ===== src/Filter.antt =====
-- The display filter, genet-filter/src: values and their order, expressions and their evaluation,
-- the parser's tree and the printer.
pub mod Value
pub mod Expr
pub mod Stored
pub mod Unparser
pub mod Parser
