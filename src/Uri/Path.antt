-- ===== src/Uri/Path.antt =====
-- `Uri::canonicalize_path` of gearbox/core/Uri.cc.
pub mod Canonical
use gearbox.Base.{
  Bool, true, false, ◌||◌, List, [], ◌∷◌, ◌++◌, reverse, Bytes, codes, bytes_eq, is_empty,
  if◌then◌else◌, ◌==◌,
}
use gearbox.Uri.Text.{split_slash}

abbrev pop : List Bytes → List Bytes
pop [] = []
pop (k ∷ kept) = kept

-- one round of the loop over `parts`; `kept` are the parts before the iterator, the last one first
pub resolve : List Bytes → Bytes → List Bytes
resolve kept part =
    if is_empty part || bytes_eq part (codes ".")
    then kept
    else if bytes_eq part (codes "..")
    then pop kept
    else part ∷ kept

pub resolve_all : List Bytes → List Bytes → List Bytes
resolve_all kept [] = reverse kept
resolve_all kept (part ∷ parts) = resolve_all (resolve kept part) parts

-- the loop that writes the parts
pub render : List Bytes → Bytes
render [] = []
render (p ∷ ps) = b'/' ∷ (p ++ render ps)

pub ends_with_slash : Bytes → Bool
ends_with_slash [] = false
ends_with_slash (c ∷ []) = c == b'/'
ends_with_slash (c ∷ d ∷ s) = ends_with_slash (d ∷ s)

unfoldable pub canonicalize_path : Bytes → Bytes
unfolding resolve_all resolve render ends_with_slash split_slash bytes_eq
canonicalize_path path =
    if is_empty path
    then codes "/"
    else render (resolve_all [] (split_slash [] path))
      ++ (if ends_with_slash path then codes "/" else [])
