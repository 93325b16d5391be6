-- ===== src/Base/Words.antt =====
-- Further functions of Rust's `str`: `lines`, `trim`, `split_whitespace` and its ASCII version.
use Prim.Native.Char.{Char, code}
use Prim.Native.String.{String}
use mathlib.Core.Bool.{Bool, true, false, ◌||◌, ◌&&◌, not}
use mathlib.Core.Path.{◌≡◌, refl}
use mathlib.Core.List.{List, [], ◌∷◌}
use Prim.Native.Nat.{ℕ}
use dnsliar_rs.Base.Tests.{leb, ◌==◌, if◌then◌else◌}
use dnsliar_rs.Base.Text.{cons_head}

-- The code points of Unicode's White_Space.
abbrev pub is_whitespace : ℕ → Bool
is_whitespace c =
    (leb 9 c && leb c 13)
    || (c == 32)
    || (c == 133)
    || (c == 160)
    || (c == 5760)
    || (leb 8192 c && leb c 8202)
    || (c == 8232)
    || (c == 8233)
    || (c == 8239)
    || (c == 8287)
    || (c == 12288)

-- Space, tab, line feed, form feed and carriage return.
abbrev pub is_ascii_whitespace : ℕ → Bool
is_ascii_whitespace c = (c == 32) || (c == 9) || (c == 10) || (c == 12) || (c == 13)

abbrev pub is_empty_text : String → Bool
is_empty_text String.[] = true
is_empty_text (String.◌∷◌ c s) = false

-- The first character is one that the test holds of.
abbrev pub starts : (ℕ → Bool) → String → Bool
starts p String.[] = false
starts p (String.◌∷◌ c s) = p (code c)

-- `lines`: a line ends with a line feed, or a carriage return and a line feed, or the text.
unfoldable pub lines : String → List String
lines String.[] = []
lines (String.◌∷◌ c s) =
    let rest = lines s in
    if code c == 10
    then "" ∷ rest
    else if (code c == 13) && starts (λ d. d == 10) s
    then rest
    else cons_head c rest

module _ (is_space : ℕ → Bool) where
  -- A character in front of the words: it begins one, or belongs to the first.
  abbrev pub cons_word : Char → Bool → List String → List String
  cons_word c true rest = cons_head c rest
  cons_word c false rest = String.◌∷◌ c "" ∷ rest

  -- `split_whitespace` and `split_ascii_whitespace`
  unfoldable pub words : String → List String
  words String.[] = []
  words (String.◌∷◌ c s) =
      let rest = words s in
      if is_space (code c) then rest else cons_word c (starts (λ d. not (is_space d)) s) rest

-- `trim`
abbrev pub trim_start : String → String
trim_start String.[] = ""
trim_start (String.◌∷◌ c s) = if is_whitespace (code c) then trim_start s else String.◌∷◌ c s

abbrev pub keep_char : Char → String → String
keep_char c rest = if is_whitespace (code c) && is_empty_text rest then "" else String.◌∷◌ c rest

abbrev pub trim_end : String → String
trim_end String.[] = ""
trim_end (String.◌∷◌ c s) = keep_char c (trim_end s)

abbrev pub trim : String → String
trim s = trim_end (trim_start s)

words_test : words is_whitespace " 0.0.0.0\tads.example  " ≡ "0.0.0.0" ∷ "ads.example" ∷ []
unfolding words
words_test = refl

lines_test : lines "a\r\n\nb c\r" ≡ "a" ∷ "" ∷ "b c\r" ∷ []
unfolding lines
lines_test = refl

trim_test : trim "  # a b \n" ≡ "# a b"
trim_test = refl
