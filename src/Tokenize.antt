-- ===== src/Tokenize.antt =====
-- src/preprocessor/tokenize.c: preprocessing tokens from a line, and their conversion. A line is
-- the list of its bytes in front of the terminating NUL; reading behind the end gives 0, as the
-- terminator does. The result is the token and the number of bytes consumed (`*endptr - in`).
pub mod Token
pub mod Kind
pub mod Table
pub mod Number
pub mod Escape
pub mod Literal
pub mod Ident
pub mod Operator
pub mod Line
