-- ===== src/Canonical/Printed.antt =====
-- Python's `str()` of the values of canonical.py, as oat/integration/host_sink.py calls it. A
-- character above U+00FF is taken to be printable, and an integer to have no more digits than Python
-- converts.
use Prim.Native.Char.{Char, code}
use Prim.Native.String
use open_authority_trials_oa.Canonical.Text.{decimal}
use open_authority_trials_oa.Prelude.{
  [], ◌∷◌, String, List, ℕ, Bool, ◌/◌, if◌then◌else◌, suc, false, ◌%◌, ltb, eqb, ◌&&◌, zero, ◌||◌,
  not, true,
}
use open_authority_trials_oa.Canonical.Json.{
  Json, bool, num, str, arr, obj, Items, cons, Fields, field, null, nil, end,
}

-- the character at a place, as a text
abbrev char_at : String → ℕ → String
char_at String.[] i = ""
char_at (String.◌∷◌ c s) zero = String.◌∷◌ c ""
char_at (String.◌∷◌ c s) (suc i) = char_at s i

-- the text of a number's decimal codes
unfoldable pub decimal_text : List ℕ → String
decimal_text [] = ""
decimal_text (c ∷ cs) =
    let rest = decimal_text cs in
    String.◌++◌ (if eqb c 45 then "-" else char_at "0123456789" (c % 48)) rest

abbrev has_code : ℕ → String → Bool
has_code n String.[] = false
has_code n (String.◌∷◌ c s) = eqb (code c) n || has_code n s

abbrev hex_text : ℕ → String
hex_text n = String.◌++◌ (char_at "0123456789abcdef" (n / 16)) (char_at "0123456789abcdef" (n % 16))

-- what `repr` does not print as it is: control characters, the no-break space, the soft hyphen
abbrev unprinted : ℕ → Bool
unprinted n = ltb n 32 || (ltb 126 n && ltb n 161) || eqb n 173

-- a character between quotes of the given code
unfoldable pub repr_char : ℕ → Char → String
repr_char q c =
    if eqb (code c) 92
    then "\\\\"
    else if eqb (code c) q
    then String.◌++◌ "\\" (String.◌∷◌ c "")
    else if eqb (code c) 10
    then "\\n"
    else if eqb (code c) 13
    then "\\r"
    else if eqb (code c) 9
    then "\\t"
    else if unprinted (code c)
    then String.◌++◌ "\\x" (hex_text (code c))
    else String.◌∷◌ c ""

unfoldable pub repr_chars : ℕ → String → String
unfolding repr_char
repr_chars q String.[] = ""
repr_chars q (String.◌∷◌ c s) = String.◌++◌ (repr_char q c) (repr_chars q s)

-- single quotes, but double ones around a text with single quotes and no double one
unfoldable pub repr_text : String → String
unfolding repr_chars
repr_text s =
    if has_code 39 s && not (has_code 34 s)
    then String.◌++◌ "\"" (String.◌++◌ (repr_chars 34 s) "\"")
    else String.◌++◌ "'" (String.◌++◌ (repr_chars 39 s) "'")

unfoldable mutual
  unfolding repr_text decimal_text decimal

  pub repr_of : Json → String
  repr_of null = "None"
  repr_of (bool true) = "True"
  repr_of (bool false) = "False"
  repr_of (num n) = decimal_text (decimal n)
  repr_of (str s) = repr_text s
  repr_of (arr xs) = String.◌++◌ "[" (String.◌++◌ (repr_items "" xs) "]")
  repr_of (obj fs) = String.◌++◌ "{" (String.◌++◌ (repr_fields "" fs) "}")

  -- the elements, with a separator before the first
  pub repr_items : String → Items → String
  repr_items sep nil = ""
  repr_items sep (cons x xs) = String.◌++◌ sep (String.◌++◌ (repr_of x) (repr_items ", " xs))

  pub repr_fields : String → Fields → String
  repr_fields sep end = ""
  repr_fields sep (field k v fs) =
      String.◌++◌ sep (
        String.◌++◌ (repr_text k)
          (String.◌++◌ ": " (String.◌++◌ (repr_of v) (repr_fields ", " fs))))

-- `str(v)`
unfoldable pub str_of : Json → String
unfolding repr_of
str_of null = repr_of null
str_of (bool b) = repr_of (bool b)
str_of (num n) = repr_of (num n)
str_of (str s) = s
str_of (arr xs) = repr_of (arr xs)
str_of (obj fs) = repr_of (obj fs)
