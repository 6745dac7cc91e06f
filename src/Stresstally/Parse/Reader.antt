-- ===== src/Stresstally/Parse/Reader.antt =====
-- The lines of a log: `readLine` over what the buffered reader gives, each piece with whether the
-- line goes on; and the pairs on a line of keys and values.
use Prim.Native.Char.{code}
use text.Mathlib.Text.{◌==◌ as str_eq}
use Prim.Native.String.{◌++◌ as ◌+++◌}
use probatorium.Base.{
  Fields, ℕ, zero, suc, ◌-◌, ltb, ◌==◌, if◌then◌else◌, Bool, true, false, List, [], ◌∷◌, String,
  Option, none, some,
}
use probatorium.Stresstally.Parse.{put}

abbrev pub max_line_bytes : ℕ
max_line_bytes = 65536

text_length : String → ℕ
text_length String.[] = 0
text_length (String.◌∷◌ c s) = suc (text_length s)

take_text : ℕ → String → String
take_text n String.[] = ""
take_text zero (String.◌∷◌ c s) = ""
take_text (suc n) (String.◌∷◌ c s) = String.◌∷◌ c (take_text n s)

unfoldable pub grow_line : String → String → String
unfolding text_length take_text
grow_line b chunk =
    if ltb (text_length b) max_line_bytes
    then b +++ take_text (max_line_bytes - text_length b) chunk
    else b

-- The lines that the loop handles: what the reader ends with is one if it is not empty.
unfoldable pub read_lines : String → List (String × Bool) → List String
unfolding grow_line
read_lines b [] = if str_eq b "" then [] else b ∷ []
read_lines b ((chunk, is_prefix) ∷ chunks) = elim is_prefix [
  | true ↦ read_lines (grow_line b chunk) chunks
  | false ↦ grow_line b chunk ∷ read_lines "" chunks
]

-- `strings.Cut` at an equals sign.
unfoldable pub cut_equals : String → Option (String × String)
cut_equals String.[] = none
cut_equals (String.◌∷◌ c s) =
    let rest = cut_equals s in
    if code c == 61
    then some ("", s)
    else elim rest [ none ↦ none | some (k, v) ↦ some (String.◌∷◌ c k, v) ]

put_token : String → Fields → Fields
unfolding cut_equals put
put_token token fields = elim (cut_equals token) [ none ↦ fields | some (k, v) ↦ put fields k v ]

-- `fields`, from the tokens of a line.
unfoldable pub fields_of : List String → Fields → Fields
unfolding put_token
fields_of [] fields = fields
fields_of (token ∷ tokens) fields = fields_of tokens (put_token token fields)
