-- ===== src/Base/Text.antt =====
-- The functions of Rust's `str` and `String` that the program calls: `pop`, `split` on a character,
-- `join`, and comparison. `<>` joins two texts, as `format!` does.
use Prim.Native.Char.{Char, code}
pub use Prim.Native.String.{String, ◌++◌ as ◌<>◌}
pub use text.Mathlib.Text.{◌==◌ as str_eq}
pub use text.Mathlib.TextEquality.{eq_iff}
use text.Mathlib.TextEquality.{Char-path}
pub use text.Mathlib.TextPositions.{eq_refl}
use text.Mathlib.TextLemmas.{cons-append, nil-append}
use Prim.Native.Nat.{ℕ, ◌-◌}
use mathlib.Core.Path.{◌≡◌, refl, sym, ◌∙◌, ap, ap₂}
use mathlib.Core.Bool.{true}
use mathlib.Core.Logic.{inl, inr}
use mathlib.Core.List.{List, [], ◌∷◌}
use native.Mathlib.Omega.{arith}
use Prim.Native.String.{char_at}
use mathlib.Core.Bool.{◌&&◌}
use dnsliar_rs.Base.Tests.{leb, ◌==◌, if◌then◌else◌, Bool-cases}

-- `String::pop`: the text without its last character.
unfoldable pub pop : String → String
pop String.[] = ""
pop (String.◌∷◌ c String.[]) = ""
pop (String.◌∷◌ c (String.◌∷◌ d s)) = String.◌∷◌ c (pop (String.◌∷◌ d s))

-- A character in front of the first part.
abbrev pub cons_head : Char → List String → List String
cons_head c [] = String.◌∷◌ c "" ∷ []
cons_head c (w ∷ ws) = String.◌∷◌ c w ∷ ws

-- `str::split(sep).collect()`: always one part or more.
unfoldable pub split : ℕ → String → List String
split sep String.[] = "" ∷ []
split sep (String.◌∷◌ c s) =
    let rest = split sep s in if code c == sep then "" ∷ rest else cons_head c rest

-- `[&str]::join(sep)`
unfoldable pub join : String → List String → String
join sep [] = ""
join sep (w ∷ []) = w
join sep (w ∷ v ∷ ws) = w <> (sep <> join sep (v ∷ ws))

-- A text has a first part, whatever it is split on.
pub split-cons : (sep : ℕ) (s : String) → (w : String) × (ws : List String) × (split sep s ≡ w ∷ ws)
unfolding split
split-cons sep String.[] = ("", [], refl)
split-cons sep (String.◌∷◌ c s) = elim (Bool-cases (code c == sep)) [
  | inl e ↦ ("", split sep s, rw e)
  | inr e ↦ let (w, ws, p) = split-cons sep s in (String.◌∷◌ c w, ws, rw (e, p))
]

codes_eq : (c d : Char) → (code c == code d) ≡ true → c ≡ d
codes_eq c d e = Char-path c d (ground arith)

join-cons_head :
    (sep : String) (c : Char) (w : String) (ws : List String)
    → join sep (cons_head c (w ∷ ws)) ≡ String.◌∷◌ c (join sep (w ∷ ws))
unfolding join
join-cons_head sep c w [] = refl
join-cons_head sep c w (v ∷ ws) = cons-append c w (sep <> join sep (v ∷ ws))

-- An empty first part is the separator in front of the others.
join-nil-cons :
    (c : Char) (w : String) (ws : List String)
    → join (String.◌∷◌ c "") ("" ∷ w ∷ ws) ≡ String.◌∷◌ c (join (String.◌∷◌ c "") (w ∷ ws))
unfolding join
join-nil-cons c w ws = simp (nil-append, cons-append)

-- Joining the parts by the character that they were split on gives the text back.
join-split : (c : Char) (s : String) → join (String.◌∷◌ c "") (split (code c) s) ≡ s
unfolding split
join-split c String.[] = unfold join in refl
join-split c (String.◌∷◌ d s) =
    let ih = join-split c s in
    let (w, ws, p) = split-cons (code c) s in
    elim (Bool-cases (code d == code c)) [
      | inl e ↦
          rw (e, p) (join-nil-cons c w ws ∙ ap₂ String.◌∷◌ (sym (codes_eq d c e)) (rw p at ih))
      | inr e ↦ rw (e, p) (join-cons_head (String.◌∷◌ c "") d w ws ∙ ap (String.◌∷◌ d) (rw p at ih))
    ]

split_test : split b'.' "a.bc." ≡ "a" ∷ "bc" ∷ "" ∷ []
unfolding split
split_test = refl

join_test : join "." ("a" ∷ "bc" ∷ "" ∷ []) ≡ "a.bc."
unfolding join
join_test = refl

pop_test : pop "a.bc." ≡ "a.bc"
unfolding pop
pop_test = refl

-- `str::to_lowercase`, on ASCII letters; other characters are left alone.
abbrev lower_char : Char → Char
lower_char c =
    if leb 65 (code c) && leb (code c) 90
    then char_at "abcdefghijklmnopqrstuvwxyz" (code c - 65)
    else c

unfoldable pub to_lowercase : String → String
to_lowercase String.[] = ""
to_lowercase (String.◌∷◌ c s) = String.◌∷◌ (lower_char c) (to_lowercase s)

to_lowercase_test : to_lowercase "TcP=1" ≡ "tcp=1"
unfolding to_lowercase
to_lowercase_test = refl
