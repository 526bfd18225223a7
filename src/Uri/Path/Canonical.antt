-- ===== src/Uri/Path/Canonical.antt =====
-- What `canonicalize_path` returns, and that it settles after one more round.
use mathlib.Core.List.{reverse-cons}
use gearbox.Base.{
  ℕ, ◌≡◌, ◌≢◌, refl, sym, ap, ◌∙◌, Bool, true, false, ◌||◌, List, [], ◌∷◌, ◌++◌, reverse, Bytes,
  codes, bytes_eq_iff, is_empty, if◌then◌else◌, ◌==◌, ==_iff, All, All-append, append_assoc,
  append-nil, arith, Bool-cases, inl, inr,
}
use gearbox.Uri.Text.{split_slash}
use gearbox.Uri.Path.{resolve, resolve_all, render, ends_with_slash, canonicalize_path}

abbrev pub NoSlash : Bytes → Type 0
NoSlash = All (λ c. c ≢ b'/')

-- a part that names neither nothing, nor the same, nor the parent directory, and holds no slash
abbrev pub IsPlain : Bytes → Type 0
IsPlain part = (is_empty part ≡ false) × (part ≢ codes ".") × (part ≢ codes "..") × NoSlash part

abbrev slash_if : Bool → Bytes
slash_if b = if b then codes "/" else []

All-reverse : (P : Bytes → Type 0) (xs : List Bytes) → All P xs → All P (reverse xs)
All-reverse P [] h = tt
All-reverse P (x ∷ xs) (p, h) =
    rw reverse-cons (All-append P (reverse xs) (x ∷ []) (All-reverse P xs h) (p, tt))

split_at_slash :
    (c : ℕ) (cur s : Bytes) → (c == b'/') ≡ true → split_slash cur (c ∷ s) ≡ cur ∷ split_slash [] s
unfolding split_slash
split_at_slash c cur s e = rw (e, split_slash)

split_at_other :
    (c : ℕ) (cur s : Bytes)
    → (c == b'/') ≡ false
    → split_slash cur (c ∷ s) ≡ split_slash (cur ++ c ∷ []) s
unfolding split_slash
split_at_other c cur s e = rw (e, split_slash)

split_slash-NoSlash : (cur s : Bytes) → NoSlash cur → All NoSlash (split_slash cur s)
split_slash-NoSlash cur [] h = unfold split_slash in (h, tt)
split_slash-NoSlash cur (c ∷ s) h = elim (Bool-cases (c == b'/')) [
  | inl e ↦ rw (split_at_slash c cur s e) (h, split_slash-NoSlash [] s tt)
  | inr e ↦ rw (split_at_other c cur s e) (
      split_slash-NoSlash (cur ++ c ∷ []) s
        (All-append _ cur (c ∷ []) h ((λ same. cc (e, (==_iff c b'/').1 same)), tt)))
]

resolve-IsPlain :
    (kept : List Bytes) (part : Bytes)
    → All IsPlain kept
    → NoSlash part
    → All IsPlain (resolve kept part)
unfolding resolve
resolve-IsPlain [] part h n =
    ground (arith, bytes_eq_iff part (codes "."), bytes_eq_iff part (codes ".."))
resolve-IsPlain (k ∷ kept) part h n =
    ground (arith, bytes_eq_iff part (codes "."), bytes_eq_iff part (codes ".."))

resolve_all-IsPlain :
    (kept parts : List Bytes)
    → All IsPlain kept
    → All NoSlash parts
    → All IsPlain (resolve_all kept parts)
unfolding resolve_all
resolve_all-IsPlain kept [] h n = All-reverse IsPlain kept h
resolve_all-IsPlain kept (part ∷ parts) h (n, ns) =
    resolve_all-IsPlain (resolve kept part) parts (resolve-IsPlain kept part h n) ns

-- A canonical path is a list of plain parts, each behind a slash, and one more slash at the end
-- exactly if the path was empty or ended with one. No part is empty, "." or ".." or holds a slash:
-- it never leads out of the root.
pub canonicalize_path-IsPlain :
    (path : Bytes)
    → (parts : List Bytes) × All IsPlain parts
      × (canonicalize_path path
          ≡ render parts ++ (if is_empty path || ends_with_slash path then codes "/" else []))
unfolding canonicalize_path
canonicalize_path-IsPlain [] = ([], tt, refl)
canonicalize_path-IsPlain (c ∷ s) = (
  resolve_all [] (split_slash [] (c ∷ s)),
  resolve_all-IsPlain [] (split_slash [] (c ∷ s)) tt (split_slash-NoSlash [] (c ∷ s) tt),
  refl,
)

split_slash-append :
    (p cur s : Bytes) → NoSlash p → split_slash cur (p ++ s) ≡ split_slash (cur ++ p) s
split_slash-append [] cur s h = rw append-nil
split_slash-append (c ∷ p) cur s (n, h) =
    split_at_other c cur (p ++ s) (ground arith)
    ∙ split_slash-append p (cur ++ c ∷ []) s h
    ∙ ap (λ r. split_slash r s) (append_assoc cur (c ∷ []) p)

split_slash_end : (cur : Bytes) → split_slash cur [] ≡ cur ∷ []
unfolding split_slash
split_slash_end cur = refl

-- the parts of a rendered path, in front of what follows a slash
split_slash-render :
    (parts : List Bytes) (cur : Bytes) (slash : Bool)
    → All IsPlain parts
    → split_slash cur (render parts ++ slash_if slash)
      ≡ cur ∷ (parts ++ (if slash then [] ∷ [] else []))
unfolding render
split_slash-render [] cur true h =
    split_at_slash b'/' cur [] refl ∙ ap (λ r. cur ∷ r) (split_slash_end [])
split_slash-render [] cur false h = split_slash_end cur
split_slash-render (p ∷ ps) cur slash ((_, _, _, n), h) =
    split_at_slash b'/' cur ((p ++ render ps) ++ slash_if slash) refl
    ∙ ap (λ r. cur ∷ r)
        (ap (split_slash []) (append_assoc p (render ps) (slash_if slash))
          ∙ split_slash-append p [] (render ps ++ slash_if slash) n
          ∙ split_slash-render ps p slash h)

resolve_of_IsPlain : (kept : List Bytes) (p : Bytes) → IsPlain p → resolve kept p ≡ p ∷ kept
unfolding resolve
resolve_of_IsPlain kept p h =
    ground (arith, bytes_eq_iff p (codes "."), bytes_eq_iff p (codes ".."))

resolve_of_nil : (kept : List Bytes) → resolve kept [] ≡ kept
unfolding resolve
resolve_of_nil kept = refl

resolve_all-cons :
    (kept : List Bytes) (p : Bytes) (ps : List Bytes)
    → resolve_all kept (p ∷ ps) ≡ resolve_all (resolve kept p) ps
unfolding resolve_all
resolve_all-cons kept p ps = refl

resolve_all_of_IsPlain :
    (kept parts : List Bytes) (slash : Bool)
    → All IsPlain parts
    → resolve_all kept (parts ++ (if slash then [] ∷ [] else [])) ≡ reverse kept ++ parts
resolve_all_of_IsPlain kept [] true h =
    unfold resolve_all resolve in sym (append-nil (reverse kept))
resolve_all_of_IsPlain kept [] false h = unfold resolve_all in sym (append-nil (reverse kept))
resolve_all_of_IsPlain kept (p ∷ ps) slash (plain, h) =
    resolve_all-cons kept p (ps ++ (if slash then [] ∷ [] else []))
    ∙ ap (λ k. resolve_all k (ps ++ (if slash then [] ∷ [] else [])))
        (resolve_of_IsPlain kept p plain)
    ∙ resolve_all_of_IsPlain (p ∷ kept) ps slash h
    ∙ rw reverse-cons (append_assoc (reverse kept) (p ∷ []) ps)

ends-concat : (s : Bytes) → ends_with_slash (s ++ codes "/") ≡ true
unfolding ends_with_slash
ends-concat [] = refl
ends-concat (c ∷ []) = refl
ends-concat (c ∷ d ∷ s) = ends-concat (d ∷ s)

ends-append : (s t : Bytes) → is_empty t ≡ false → ends_with_slash (s ++ t) ≡ ends_with_slash t
unfolding ends_with_slash
ends-append [] t h = refl
ends-append (c ∷ []) [] h = cc
ends-append (c ∷ []) (d ∷ t) h = refl
ends-append (c ∷ d ∷ s) t h = ends-append (d ∷ s) t h

ends-NoSlash : (p : Bytes) → NoSlash p → ends_with_slash p ≡ false
unfolding ends_with_slash
ends-NoSlash [] h = refl
ends-NoSlash (c ∷ []) (n, _) = ground arith
ends-NoSlash (c ∷ d ∷ p) (_, h) = ends-NoSlash (d ∷ p) h

ends-render : (parts : List Bytes) → All IsPlain parts → ends_with_slash (render parts) ≡ false
unfolding render
ends-render [] h = unfold ends_with_slash in refl
ends-render (p ∷ []) ((e, _, _, n), _) =
    rw append-nil (ends-append (b'/' ∷ []) p e ∙ ends-NoSlash p n)
ends-render (p ∷ q ∷ ps) (_, h) =
    ends-append (b'/' ∷ p) (render (q ∷ ps)) refl ∙ ends-render (q ∷ ps) h

ends_rendered :
    (parts : List Bytes) (slash : Bool)
    → All IsPlain parts
    → ends_with_slash (render parts ++ slash_if slash) ≡ slash
ends_rendered parts true h = ends-concat (render parts)
ends_rendered parts false h = rw append-nil (ends-render parts h)

resolve_rendered :
    (parts : List Bytes) (slash : Bool)
    → All IsPlain parts
    → resolve_all [] (split_slash [] (render parts ++ slash_if slash)) ≡ parts
resolve_rendered parts slash h =
    ap (resolve_all []) (split_slash-render parts [] slash h)
    ∙ (unfold resolve_all resolve in resolve_all_of_IsPlain [] parts slash h)

-- a rendered path that is not empty is canonical
canonical_render :
    (parts : List Bytes) (slash : Bool)
    → All IsPlain parts
    → is_empty (render parts ++ slash_if slash) ≡ false
    → canonicalize_path (render parts ++ slash_if slash) ≡ render parts ++ slash_if slash
unfolding canonicalize_path
canonical_render parts slash h e =
    rw (e, resolve_rendered parts slash h, ends_rendered parts slash h)

canonical_empty : (p : Bytes) → is_empty p ≡ true → canonicalize_path p ≡ codes "/"
unfolding canonicalize_path
canonical_empty [] h = refl
canonical_empty (c ∷ p) h = cc

-- Making a canonical path canonical again changes nothing, unless the canonical path is empty (as for
-- "/a/.."): that one becomes "/".
pub canonicalize_path_twice :
    (path : Bytes)
    → canonicalize_path (canonicalize_path path)
      ≡ (if is_empty (canonicalize_path path) then codes "/" else canonicalize_path path)
canonicalize_path_twice path =
    let (parts, plain, e) = canonicalize_path-IsPlain path in
    let slash = is_empty path || ends_with_slash path in
    rw e (elim (Bool-cases (is_empty (render parts ++ slash_if slash))) [
      | inl empty ↦ rw empty (canonical_empty _ empty)
      | inr full ↦ rw full (canonical_render parts slash plain full)
    ])
