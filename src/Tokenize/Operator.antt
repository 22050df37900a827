-- ===== src/Tokenize/Operator.antt =====
-- `strtoop`: operators and punctuation.
pub mod Longest
use lacc.Base.{
  ℕ, ◌&&◌, ltb, ◌==◌, not, if◌then◌else◌, Text, length, Run, ok, diagnostic, undefined, ◌>>◌, guard,
}
use lacc.Tokenize.Kind.{
  kind_end, kind_mul_assign, kind_div_assign, kind_mod_assign, kind_increment, kind_plus_assign,
  kind_arrow, kind_decrement, kind_minus_assign, kind_leq, kind_lshift_assign, kind_lshift,
  kind_geq, kind_rshift_assign, kind_rshift, kind_and_assign, kind_logical_and, kind_xor_assign,
  kind_or_assign, kind_logical_or, kind_dots, kind_eq, kind_neq, kind_token_paste,
}
use lacc.Tokenize.Table.{basic_token}
use lacc.Tokenize.Token.{Token, at}

-- The kind that the `switch` matches on the three characters, 0 where it falls through to the
-- single character.
unfoldable pub operator_kind : ℕ → ℕ → ℕ → ℕ
operator_kind c d e =
    if c == b'*'
    then (if d == b'=' then kind_mul_assign else 0)
    else if c == b'/'
    then (if d == b'=' then kind_div_assign else 0)
    else if c == b'%'
    then (if d == b'=' then kind_mod_assign else 0)
    else if c == b'+'
    then (if d == b'+' then kind_increment else if d == b'=' then kind_plus_assign else 0)
    else if c == b'-'
    then (if d == b'>'
        then kind_arrow
        else if d == b'-'
        then kind_decrement
        else if d == b'='
        then kind_minus_assign
        else 0)
    else if c == b'<'
    then (if d == b'='
        then kind_leq
        else if d == b'<' && e == b'='
        then kind_lshift_assign
        else if d == b'<'
        then kind_lshift
        else 0)
    else if c == b'>'
    then (if d == b'='
        then kind_geq
        else if d == b'>' && e == b'='
        then kind_rshift_assign
        else if d == b'>'
        then kind_rshift
        else 0)
    else if c == b'&'
    then (if d == b'=' then kind_and_assign else if d == b'&' then kind_logical_and else 0)
    else if c == b'^'
    then (if d == b'=' then kind_xor_assign else 0)
    else if c == b'|'
    then (if d == b'=' then kind_or_assign else if d == b'|' then kind_logical_or else 0)
    else if c == b'.'
    then (if d == b'.' && e == b'.' then kind_dots else 0)
    else if c == b'='
    then (if d == b'=' then kind_eq else 0)
    else if c == b'!'
    then (if d == b'=' then kind_neq else 0)
    else if c == b'#'
    then (if d == b'#' then kind_token_paste else 0)
    else 0

-- The table has no entry for a negative index, which a byte from 128 on is as a `char`.
unfoldable pub strtoop : Text → Run (Token × ℕ)
unfolding operator_kind basic_token
strtoop s =
    let k = operator_kind (at s 0) (at s 1) (at s 2) in
    if not (k == 0) then ok (basic_token k, length (basic_token k).text) else (do
      guard (ltb (at s 0) 128) undefined
      guard (not ((basic_token (at s 0)).token == kind_end)) diagnostic
      ok (basic_token (at s 0), 1))
