-- ===== src/Strings/Char.antt =====
-- <ctype.h> in the C locale, on bytes. No byte from 128 on is in a class.
use lacc.Base.{ℕ, ◌+◌, Bool, ◌&&◌, ◌||◌, leb, ◌==◌, if◌then◌else◌}

abbrev within : ℕ → ℕ → ℕ → Bool
within lo hi c = leb lo c && leb c hi

abbrev pub isdigit : ℕ → Bool
isdigit c = within b'0' b'9' c

abbrev pub isupper : ℕ → Bool
isupper c = within b'A' b'Z' c

abbrev pub isalpha : ℕ → Bool
isalpha c = isupper c || within b'a' b'z' c

abbrev pub isalnum : ℕ → Bool
isalnum c = isalpha c || isdigit c

abbrev pub isxdigit : ℕ → Bool
isxdigit c = isdigit c || within b'A' b'F' c || within b'a' b'f' c

abbrev pub isspace : ℕ → Bool
isspace c = c == 32 || within 9 13 c

abbrev pub isprint : ℕ → Bool
isprint c = within 32 126 c

abbrev pub tolower : ℕ → ℕ
tolower c = if isupper c then c + 32 else c
