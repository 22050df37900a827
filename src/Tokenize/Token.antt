-- ===== src/Tokenize/Token.antt =====
-- include/lacc/token.h: tokens. The kind of a token is its number in `enum token_type`.
use Prim.Native.Char.{code}
use Prim.Native.String.{String}
use lacc.Base.{ℕ, Bool, true, false, [], ◌∷◌, Text, get_or}
use lacc.Types.Defs.{CType, basic as basic_type, void}

-- The bytes of a text.
abbrev pub codes : String → Text
codes String.[] = []
codes (String.◌∷◌ c s) = code c ∷ codes s

-- `text` and `val` are the two members of the union `d`; a floating point value is its bits.
pub record Token : Type 0 where
  pub token : ℕ
  pub leading_whitespace : ℕ
  pub is_expandable : Bool
  pub disable_expand : Bool
  pub type : CType
  pub text : Text
  pub val : ℕ

-- `struct token tok = {k}`
abbrev pub blank_token : ℕ → Token
blank_token k = record {
  token = k;
  leading_whitespace = 0;
  is_expandable = false;
  disable_expand = false;
  type = basic_type void false;
  text = [];
  val = 0;
}

-- A token that holds a string.
abbrev pub text_token : ℕ → Text → Token
text_token k s = let plain = blank_token k in record plain { text = s }

-- The macros `TOK` and `IDN`.
abbrev pub tok : ℕ → String → Token
tok k s = text_token k (codes s)

abbrev pub idn : ℕ → String → Token
idn k s = let plain = tok k s in record plain { is_expandable = true }

-- `in[i]`
abbrev pub at : Text → ℕ → ℕ
at s i = get_or s i 0
