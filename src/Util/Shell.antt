-- ===== src/Util/Shell.antt =====
-- `shellquote_list` of gearbox/core/util.cc.
pub mod Reading
use gearbox.Base.{
  ℕ, Bool, true, false, not, ◌||◌, List, [], ◌∷◌, ◌++◌, Bytes, codes, is_empty, ◌==◌, if◌then◌else◌,
}

-- the characters that stand for themselves in a word without quotes
abbrev pub neutrals : Bytes
neutrals = codes "+,-./0123456789=ABCDEFGHIJKLMNOPQRSTUVWXYZ_abcdefghijklmnopqrstuvwxyz"

abbrev pub squote : ℕ
squote = b'\''

abbrev pub squote_replacement : Bytes
squote_replacement = codes "'\"'\"'"

pub contains : ℕ → Bytes → Bool
contains c [] = false
contains c (b ∷ s) = b == c || contains c s

-- `w.find_first_not_of(NEUTRALS) != npos`
pub has_other : Bytes → Bool
has_other [] = false
has_other (c ∷ w) = not (contains c neutrals) || has_other w

-- `w.find(SQUOTE) != npos`
pub has_squote : Bytes → Bool
has_squote [] = false
has_squote (c ∷ w) = c == squote || has_squote w

-- The loop that builds `w2`: the runs between the quotes are copied, and every quote is replaced.
pub replace_squotes : Bytes → Bytes
replace_squotes [] = []
replace_squotes (c ∷ w) = (if c == squote then squote_replacement else c ∷ []) ++ replace_squotes w

-- what one round appends for the word
pub quote_word : Bytes → Bytes
quote_word w =
    if is_empty w || has_other w
    then (if has_squote w
        then squote ∷ (replace_squotes w ++ squote ∷ [])
        else squote ∷ (w ++ squote ∷ []))
    else w

quote_from : Bytes → List Bytes → Bytes
quote_from res [] = res
quote_from res (w ∷ words) =
    quote_from ((if is_empty res then res else res ++ codes " ") ++ quote_word w) words

unfoldable pub shellquote_list : List Bytes → Bytes
unfolding quote_from quote_word replace_squotes has_squote has_other contains
shellquote_list words = quote_from [] words
