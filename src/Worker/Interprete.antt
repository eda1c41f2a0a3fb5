-- ===== src/Worker/Interprete.antt =====
-- worker/src/query_interpreter.c: the interpreter of a query. The children hold the reading of the
-- instructions from the file of the query, and the parsing of one.
pub mod Fetch
pub mod Decode
