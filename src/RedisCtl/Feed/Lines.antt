-- ===== src/RedisCtl/Feed/Lines.antt =====
-- The lines of a downloaded list.
use Prim.Native.Char.{Char, code}
use Prim.Native.String.{char_at}
use text.Mathlib.TextLemmas.{cons-append, nil-append}
use dnsliar_rs.Base.{
  ℕ, String, ◌≡◌, refl, sym, ap, ◌∙◌, Bool, true, false, none, some, List, [], ◌∷◌, ◌==◌,
}
use dnsliar_rs.Base.Text.{◌<>◌, cons_head}
use dnsliar_rs.Base.Words.{is_whitespace, starts, words, trim}
use dnsliar_rs.RedisCtl.Feed.{parse_line, pick}

module _ (is_space : ℕ → Bool) where
  -- A text of one character or more, none of them a space.
  abbrev pub IsWord : String → Type 0
  IsWord String.[] = ⊥
  IsWord (String.◌∷◌ c String.[]) = is_space (code c) ≡ false
  IsWord (String.◌∷◌ c (String.◌∷◌ d s)) = (is_space (code c) ≡ false) × IsWord (String.◌∷◌ d s)

  -- A word begins with no space.
  first-word : (c : Char) (s : String) → IsWord (String.◌∷◌ c s) → is_space (code c) ≡ false
  first-word c String.[] h = h
  first-word c (String.◌∷◌ d s) h = h.0

  -- A character of a word in front of another.
  words-cons :
      (c d : Char) (s : String)
      → is_space (code c) ≡ false
      → is_space (code d) ≡ false
      → words is_space (String.◌∷◌ c (String.◌∷◌ d s))
        ≡ cons_head c (words is_space (String.◌∷◌ d s))
  unfolding words
  words-cons c d s h k = rw (h, k) refl

  words-word : (w : String) → IsWord w → words is_space w ≡ w ∷ []
  words-word String.[] h = absurd h
  words-word (String.◌∷◌ c String.[]) h = unfold words in rw h refl
  words-word (String.◌∷◌ c (String.◌∷◌ d s)) h =
      words-cons c d s h.0 (first-word d s h.1) ∙ ap (cons_head c) (words-word (String.◌∷◌ d s) h.1)

  words-append :
      (w : String) (c : Char) (rest : String)
      → IsWord w
      → is_space (code c) ≡ true
      → words is_space (w <> String.◌∷◌ c rest) ≡ w ∷ words is_space rest
  words-append String.[] c rest h sp = absurd h
  words-append (String.◌∷◌ d String.[]) c rest h sp =
      unfold words in
      rw (cons-append d "" (String.◌∷◌ c rest), nil-append (String.◌∷◌ c rest), h, sp) refl
  words-append (String.◌∷◌ d (String.◌∷◌ e s)) c rest h sp =
      let ih = words-append (String.◌∷◌ e s) c rest h.1 sp in
      rw (cons-append d (String.◌∷◌ e s) (String.◌∷◌ c rest), cons-append e s (String.◌∷◌ c rest))
        (words-cons d e (s <> String.◌∷◌ c rest) h.0 (first-word e s h.1)
          ∙ ap (cons_head d) (rw (cons-append e s (String.◌∷◌ c rest)) at ih))

-- What `trim` leaves begins with the first character, if that is no space.
trim-starts :
    (p : ℕ → Bool) (c : Char) (s : String)
    → is_whitespace (code c) ≡ false
    → starts p (trim (String.◌∷◌ c s)) ≡ p (code c)
trim-starts p c s h = rw h (rw h refl)

abbrev starts_hash : String → Bool
starts_hash = starts (λ c. c == b'#')

parse_words :
    (c : Char) (s : String)
    → is_whitespace (code c) ≡ false
    → (code c == b'#') ≡ false
    → parse_line (String.◌∷◌ c s) ≡ pick (words is_whitespace (String.◌∷◌ c s))
unfolding parse_line
parse_words c s h k = rw (trim-starts (λ c. c == b'#') c s h, k) refl

abbrev space : Char
space = char_at " " 0

space-append : (s : String) → " " <> s ≡ String.◌∷◌ space s
space-append s = rw (cons-append, nil-append) refl

-- A line that is a domain gives the domain; so does one like those of "hosts.txt", with an address
-- and a space before the domain; a line that begins with `#` gives nothing. The domain and the
-- address are without white space, and the line does not begin with `#` in the first two cases.
pub parse_line-domain :
    (ip domain comment : String)
    → IsWord is_whitespace ip
    → IsWord is_whitespace domain
    → starts_hash ip ≡ false
    → starts_hash domain ≡ false
    → (parse_line domain ≡ some domain)
      × (parse_line (ip <> (" " <> domain)) ≡ some domain)
      × (parse_line ("#" <> comment) ≡ none)
parse_line-domain ip domain comment hi hd ni nd = (plain domain hd nd, hosts ip hi ni, hash)
  where
    plain : (d : String) → IsWord is_whitespace d → starts_hash d ≡ false → parse_line d ≡ some d
    plain String.[] h n = absurd h
    plain (String.◌∷◌ c s) h n =
        parse_words c s (first-word is_whitespace c s h) n
        ∙ ap pick (words-word is_whitespace (String.◌∷◌ c s) h)

    hosts :
        (i : String)
        → IsWord is_whitespace i
        → starts_hash i ≡ false
        → parse_line (i <> (" " <> domain)) ≡ some domain
    hosts String.[] h n = absurd h
    hosts (String.◌∷◌ c s) h n =
        let apart : words is_whitespace (String.◌∷◌ c s <> (" " <> domain))
            ≡ String.◌∷◌ c s ∷ domain ∷ [] =
          rw (space-append domain) (
            words-append is_whitespace (String.◌∷◌ c s) space domain h refl
            ∙ ap (λ (ws : List String). String.◌∷◌ c s ∷ ws)
                (words-word is_whitespace domain hd)) in
        let joined : String.◌∷◌ c s <> (" " <> domain) ≡ String.◌∷◌ c (s <> (" " <> domain)) =
          cons-append c s (" " <> domain) in
        ap parse_line joined
        ∙ (parse_words c (s <> (" " <> domain)) (first-word is_whitespace c s h) n
            ∙ ap pick (ap (words is_whitespace) (sym joined) ∙ apart))

    hash : parse_line ("#" <> comment) ≡ none
    hash = unfold parse_line in rw (cons-append) refl
