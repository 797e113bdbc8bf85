-- ===== src/Text.antt =====
-- Go texts where the code looks into them: a text is the list of its characters, by number. What the
-- standard library does with such a text: strings.TrimSpace, IndexByte, LastIndexByte, Split, Fields.
use Prim.Native.Char.{code}
use go_max_tech_stack.Prelude.{
  ◌&&◌, ◌==◌, Bool, List, String, [], false, if◌then◌else◌, leb, true, ◌||◌, ℕ, ◌∷◌, reverse,
  Option, none, some, suc,
}
pub mod Laws
pub mod Search

abbrev pub Text : Type 0
Text = List ℕ

abbrev pub codes : String → Text
codes String.[] = []
codes (String.◌∷◌ c s) = code c ∷ codes s

-- unicode.IsSpace.
abbrev pub is_space : ℕ → Bool
is_space c =
    (leb 9 c && leb c 13)
    || c == 32
    || c == 133
    || c == 160
    || c == 5760
    || (leb 8192 c && leb c 8202)
    || c == 8232
    || c == 8233
    || c == 8239
    || c == 8287
    || c == 12288

unfoldable pub trim_left : Text → Text
trim_left [] = []
trim_left (c ∷ s) = if is_space c then trim_left s else c ∷ s

unfoldable pub trim_space : Text → Text
unfolding trim_left
trim_space s = reverse (trim_left (reverse (trim_left s)))

unfoldable pub text_eq : Text → Text → Bool
text_eq [] [] = true
text_eq [] (d ∷ t) = false
text_eq (c ∷ s) [] = false
text_eq (c ∷ s) (d ∷ t) = if c == d then text_eq s t else false

-- Whether the last character is that one.
unfoldable pub last_is : ℕ → Text → Bool
last_is x [] = false
last_is x (c ∷ []) = c == x
last_is x (c ∷ d ∷ s) = last_is x (d ∷ s)

-- strings.IndexByte and strings.LastIndexByte; `none` is -1.
unfoldable pub index_byte : ℕ → Text → Option ℕ
index_byte x [] = none
index_byte x (c ∷ s) =
    if c == x then some 0 else elim (index_byte x s) [ none ↦ none | some i ↦ some (suc i) ]

unfoldable pub last_index_byte : ℕ → Text → Option ℕ
last_index_byte x [] = none
last_index_byte x (c ∷ s) = elim (last_index_byte x s) [
  | some i ↦ some (suc i)
  | none ↦ if c == x then some 0 else none
]
