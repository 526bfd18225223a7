-- ===== src/Util/Shell/Reading.antt =====
-- What a shell reads from the quoted words. The reader follows the POSIX shell's rules for blanks and
-- quotes; a character that it may treat specially where it stands makes the reader give up.
use gearbox.Base.{
  ℕ, ◌≡◌, refl, sym, ap, ◌∙◌, true, false, ◌||◌, List, [], ◌∷◌, ◌++◌, Bytes, is_empty, ◌==◌,
  if◌then◌else◌, Option, some, none, arith, append_assoc, append-nil, Bool-cases, inl, inr, ◌⊎◌,
  ==_iff,
}
use gearbox.Util.Shell.{
  neutrals, squote, squote_replacement, contains, has_other, has_squote, replace_squotes,
  quote_word, quote_from, shellquote_list,
}

data Mode : Type 0 where
  plain single double : Mode

abbrev dquote : ℕ
dquote = b'"'

-- the word so far; `none` stands between two words
abbrev begun : Option Bytes → Bytes
begun none = []
begun (some p) = p

-- the end of a word, in front of the words that follow
close : Option Bytes → Option (List Bytes) → Option (List Bytes)
close none rest = rest
close (some w) none = none
close (some w) (some ws) = some (w ∷ ws)

read : Bytes → Mode → Option Bytes → Option (List Bytes)
read [] plain word = close word (some [])
read [] single word = none
read [] double word = none
read (c ∷ s) plain word =
    let blank = close word (read s plain none) in
    let to_single = read s single (some (begun word)) in
    let to_double = read s double (some (begun word)) in
    let copy = read s plain (some (begun word ++ c ∷ [])) in
    if c == b' '
    then blank
    else if c == squote
    then to_single
    else if c == dquote
    then to_double
    else if contains c neutrals
    then copy
    else none
read (c ∷ s) single word =
    let end = read s plain word in
    let copy = read s single (some (begun word ++ c ∷ [])) in if c == squote then end else copy
read (c ∷ s) double word =
    let end = read s plain word in
    let copy = read s double (some (begun word ++ c ∷ [])) in
    if c == dquote then end else if c == b'$' || c == b'`' || c == b'\\' then none else copy

-- the words that a shell makes of a line
pub shell_words : Bytes → Option (List Bytes)
unfolding read close
shell_words line = read line plain none

-- a character that is no neutral one differs from every neutral one
differs : (c x : ℕ) → contains x neutrals ≡ false → contains c neutrals ≡ true → (c == x) ≡ false
differs c x hx h = elim (Bool-cases (c == x)) [
  | inl e ↦ (let same : c ≡ x = (==_iff c x).0 e in cc (same, hx, h))
  | inr e ↦ e
]

blank_other : contains b' ' neutrals ≡ false
unfolding contains
blank_other = refl

squote_other : contains squote neutrals ≡ false
unfolding contains
squote_other = refl

dquote_other : contains dquote neutrals ≡ false
unfolding contains
dquote_other = refl

step-neutral :
    (c : ℕ) (s : Bytes) (word : Option Bytes)
    → contains c neutrals ≡ true
    → read (c ∷ s) plain word ≡ read s plain (some (begun word ++ c ∷ []))
unfolding read
step-neutral c s word h = rw (
  differs c b' ' blank_other h,
  differs c squote squote_other h,
  differs c dquote dquote_other h,
  h,
)

read-neutral :
    (w rest p : Bytes)
    → has_other w ≡ false
    → read (w ++ rest) plain (some p) ≡ read rest plain (some (p ++ w))
unfolding has_other
read-neutral [] rest p h = rw append-nil
read-neutral (c ∷ w) rest p h =
    step-neutral c (w ++ rest) (some p) (ground arith)
    ∙ read-neutral w rest (p ++ c ∷ []) (ground arith)
    ∙ ap (λ q. read rest plain (some q)) (append_assoc p (c ∷ []) w)

-- inside the quotes: the replaced quotes are read as quotes
step-replaced :
    (c : ℕ) (s : Bytes) (p : Bytes)
    → read ((if c == squote then squote_replacement else c ∷ []) ++ s) single (some p)
      ≡ read s single (some (p ++ c ∷ []))
unfolding read
step-replaced c s p = elim (Bool-cases (c == squote)) [
  | inl e ↦ rw (e, (==_iff c squote).0 e)
  | inr e ↦ rw (e, e)
]

read-replace_squotes :
    (w rest p : Bytes)
    → read (replace_squotes w ++ squote ∷ rest) single (some p) ≡ read rest plain (some (p ++ w))
unfolding replace_squotes
read-replace_squotes [] rest p = unfold read in rw append-nil
read-replace_squotes (c ∷ w) rest p =
    ap (λ s. read s single (some p))
      (append_assoc (if c == squote then squote_replacement else c ∷ []) (replace_squotes w)
        (squote ∷ rest))
    ∙ step-replaced c (replace_squotes w ++ squote ∷ rest) p
    ∙ read-replace_squotes w rest (p ++ c ∷ [])
    ∙ ap (λ q. read rest plain (some q)) (append_assoc p (c ∷ []) w)

-- a word with no quote is not changed by the replacement
replace_squotes_none : (w : Bytes) → has_squote w ≡ false → replace_squotes w ≡ w
unfolding has_squote replace_squotes
replace_squotes_none [] h = refl
replace_squotes_none (c ∷ w) h = ground (arith, replace_squotes_none w)

single_quoted :
    (w : Bytes)
    → quote_word w ≡ squote ∷ (replace_squotes w ++ squote ∷ [])
      ⊎ ((is_empty w ≡ false) × (has_other w ≡ false) × (quote_word w ≡ w))
unfolding quote_word
single_quoted w = ground (arith, replace_squotes_none w)

open_quote : (s : Bytes) → read (squote ∷ s) plain none ≡ read s single (some [])
unfolding read
open_quote s = refl

read-quoted :
    (w rest : Bytes)
    → read ((squote ∷ (replace_squotes w ++ squote ∷ [])) ++ rest) plain none
      ≡ read rest plain (some w)
read-quoted w rest =
    open_quote _
    ∙ ap (λ s. read s single (some [])) (append_assoc (replace_squotes w) (squote ∷ []) rest)
    ∙ read-replace_squotes w rest []

read-bare :
    (w rest : Bytes)
    → is_empty w ≡ false
    → has_other w ≡ false
    → read (w ++ rest) plain none ≡ read rest plain (some w)
unfolding has_other
read-bare [] rest e h = cc
read-bare (c ∷ w) rest e h =
    step-neutral c (w ++ rest) none (ground arith) ∙ read-neutral w rest (c ∷ []) (ground arith)

read-quote_word :
    (w rest : Bytes) → read (quote_word w ++ rest) plain none ≡ read rest plain (some w)
read-quote_word w rest = elim (single_quoted w) [
  | inl q ↦ rw q (read-quoted w rest)
  | inr (e, h, q) ↦ rw q (read-bare w rest e h)
]

-- the words behind the first one, each behind a blank
spaced : List Bytes → Bytes
spaced [] = []
spaced (w ∷ ws) = b' ' ∷ (quote_word w ++ spaced ws)

quote_word-ne-nil : (w : Bytes) → is_empty (quote_word w) ≡ false
quote_word-ne-nil w = elim (single_quoted w) [ inl q ↦ rw q | inr (e, h, q) ↦ rw q e ]

is_empty-append : (r s : Bytes) → is_empty r ≡ false → is_empty (r ++ s) ≡ false
is_empty-append [] s h = cc
is_empty-append (c ∷ r) s h = refl

quote_from-spaced :
    (res : Bytes) (ws : List Bytes) → is_empty res ≡ false → quote_from res ws ≡ res ++ spaced ws
unfolding quote_from spaced
quote_from-spaced res [] h = sym (append-nil res)
quote_from-spaced res (w ∷ ws) h = rw h (
    quote_from-spaced ((res ++ b' ' ∷ []) ++ quote_word w) ws
      (is_empty-append (res ++ b' ' ∷ []) (quote_word w) (is_empty-append res (b' ' ∷ []) h))
    ∙ append_assoc (res ++ b' ' ∷ []) (quote_word w) (spaced ws)
    ∙ append_assoc res (b' ' ∷ []) (quote_word w ++ spaced ws))

read_blank : (s p : Bytes) → read (b' ' ∷ s) plain (some p) ≡ close (some p) (read s plain none)
unfolding read
read_blank s p = refl

read_end : (p : Bytes) → read [] plain (some p) ≡ some (p ∷ [])
unfolding read close
read_end p = refl

close-some : (p w : Bytes) (ws : List Bytes) → close (some p) (some (w ∷ ws)) ≡ some (p ∷ w ∷ ws)
unfolding close
close-some p w ws = refl

read-spaced : (ws : List Bytes) (p : Bytes) → read (spaced ws) plain (some p) ≡ some (p ∷ ws)
unfolding spaced
read-spaced [] p = read_end p
read-spaced (w ∷ ws) p =
    read_blank (quote_word w ++ spaced ws) p
    ∙ ap (close (some p)) (read-quote_word w (spaced ws) ∙ read-spaced ws w)
    ∙ close-some p w ws

-- A shell that splits the quoted list reads back exactly the words, whatever bytes they hold: empty
-- words, blanks, quotes, dollar signs and all other special characters come back unchanged.
pub shell_words-shellquote_list :
    (words : List Bytes) → shell_words (shellquote_list words) ≡ some words
unfolding shell_words shellquote_list
shell_words-shellquote_list [] = refl
shell_words-shellquote_list (w ∷ ws) =
    ap (λ s. read s plain none) (quote_from-spaced (quote_word w) ws (quote_word-ne-nil w))
    ∙ read-quote_word w (spaced ws)
    ∙ read-spaced ws w
