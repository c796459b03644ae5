-- ===== src/Parsing.antt =====
-- The parser's own parts (src/parsing, include/fluidloom/parsing).
pub mod SymbolTable
pub mod Semantic
