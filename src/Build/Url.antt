-- ===== src/Build/Url.antt =====
-- Go's `net/url`, as far as the machine uses it: printing a URL without user, query and fragment.
use ovm_next.Base.{
  ℕ, ◌+◌, ◌/◌, ◌%◌, ltb, leb, eqb, Text, codes, ◌==◌, starts_with_char, if◌then◌else◌, Bool, not,
  ◌&&◌, ◌||◌, List, [], ◌∷◌, ◌++◌,
}

pub record Url : Type 0 where
  pub scheme : Text
  pub host : Text
  pub path : Text

-- The bytes of a character in UTF-8.
utf8 : ℕ → List ℕ
utf8 c =
    if ltb c 0x80
    then c ∷ []
    else if ltb c 0x800
    then (0xc0 + c / 64) ∷ (0x80 + c % 64) ∷ []
    else if ltb c 0x10000
    then (0xe0 + c / 4096) ∷ (0x80 + c / 64 % 64) ∷ (0x80 + c % 64) ∷ []
    else (0xf0 + c / 262144) ∷ (0x80 + c / 4096 % 64) ∷ (0x80 + c / 64 % 64) ∷ (0x80 + c % 64) ∷ []

hex : ℕ → ℕ
hex n = if ltb n 10 then b'0' + n else 55 + n

-- A character that a path shows as it is.
abbrev is_plain : ℕ → Bool
is_plain c =
    (leb b'a' c && leb c b'z')
    || (leb b'A' c && leb c b'Z')
    || (leb b'0' c && leb c b'9')
    || eqb c b'-'
    || eqb c b'_'
    || eqb c b'.'
    || eqb c b'~'
    || eqb c b'$'
    || eqb c b'&'
    || eqb c b'+'
    || eqb c b','
    || eqb c b'/'
    || eqb c b':'
    || eqb c b';'
    || eqb c b'='
    || eqb c b'@'

percent : List ℕ → Text
percent [] = []
percent (b ∷ bs) = b'%' ∷ hex (b / 16) ∷ hex (b % 16) ∷ percent bs

abbrev escape_char : ℕ → Text → Text
escape_char c s = if is_plain c then c ∷ s else percent (utf8 c) ++ s

escape : Text → Text
escape [] = []
escape (c ∷ s) = escape_char c (escape s)

-- `EscapedPath`
escaped_path : Text → Text
escaped_path path = if path == codes "*" then path else escape path

-- `URL.String`, where there is a scheme, and a host or a path.
unfoldable pub string_of_url : Url → Text
unfolding utf8 hex percent escape escaped_path ◌==◌
string_of_url url =
    let path = escaped_path url.path in
    let rooted =
      if not (path == []) && not (starts_with_char b'/' path) && not (url.host == [])
      then b'/' ∷ path
      else path in
    url.scheme ++ codes "://" ++ url.host ++ rooted

-- `&url.URL{Scheme: "unix", Path: path}`
abbrev pub unix_url : Text → Url
unix_url path = record { scheme = codes "unix"; host = []; path = path }
