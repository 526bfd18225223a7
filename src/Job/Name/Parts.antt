-- ===== src/Job/Name/Parts.antt =====
-- The properties of a job are the parts of its name.
use gearbox.Base.{
  ◌≡◌, ◌≢◌, refl, ap, ◌∙◌, true, false, [], ◌∷◌, ◌++◌, Bytes, codes, starts_with, none, some, ◌==◌,
  All, arith,
}
use gearbox.Errors.{ok}
use gearbox.Uri.Text.{cut_at, cut, cut_last}
use gearbox.Job.Name.{
  JobImpl, operation_of, is_version, set_resource, set_parts, set_job_from_name, last_part,
  behind_last,
}

-- a part of a name holds no underscore
abbrev pub NoUnderscore : Bytes → Type 0
NoUnderscore = All (λ c. c ≢ b'_')

cut-append : (p s : Bytes) → NoUnderscore p → cut b'_' (p ++ b'_' ∷ s) ≡ some (p, s)
unfolding cut_at
cut-append [] s h = refl
cut-append (c ∷ p) s (n, ns) =
    let other : (c == b'_') ≡ false = ground arith in rw (other, cut_at, cut-append p s ns)

cut_last-none : (p : Bytes) → NoUnderscore p → cut_last b'_' p ≡ none
unfolding cut_last
cut_last-none [] h = refl
cut_last-none (c ∷ p) (n, ns) =
    let other : (c == b'_') ≡ false = ground arith in rw (cut_last-none p ns, cut_last, other)

cut_last-append : (s p : Bytes) → NoUnderscore p → cut_last b'_' (s ++ b'_' ∷ p) ≡ some (s, p)
unfolding cut_last
cut_last-append [] p h = rw (cut_last-none p h, cut_last)
cut_last-append (c ∷ s) p h = rw (cut_last-append s p h, cut_last)

cut_last_behind :
    (p s a v : Bytes) → cut_last b'_' s ≡ some (a, v) → cut_last b'_' (p ++ s) ≡ some (p ++ a, v)
unfolding cut_last
cut_last_behind [] s a v e = e
cut_last_behind (c ∷ p) s a v e = rw (cut_last_behind p s a v e, cut_last)

-- the name of an operation on a resource of a component
abbrev pub job_name : Bytes → Bytes → Bytes → Bytes → Bytes
job_name op component resource version =
    codes "do_" ++ (op ++ b'_' ∷ (component ++ b'_' ∷ (resource ++ b'_' ∷ version)))

module _ (op component resource version : Bytes) (j : JobImpl) (v : NoUnderscore version) where
  last_part_lem : last_part (job_name op component resource version) ≡ version
  last_part_lem =
      let end = cut_last-append resource version v in
      let whole = cut_last_behind (codes "do_") _ _ version (
        cut_last_behind op _ _ version (
          cut_last_behind (b'_' ∷ []) _ _ version (
            cut_last_behind component _ _ version
              (cut_last_behind (b'_' ∷ []) _ _ version end)))) in
      ap (behind_last (job_name op component resource version)) whole

  module _ (o : NoUnderscore op) (c : NoUnderscore component) (r : NoUnderscore resource) where
    set_resource_lem :
        (name : Bytes) (k : JobImpl)
        → set_resource name (component ++ b'_' ∷ (resource ++ b'_' ∷ version)) k
          ≡ ok tt (record k { component = component; resource_type = resource })
    unfolding set_resource
    set_resource_lem name k = rw (
      cut-append component (resource ++ b'_' ∷ version) c,
      set_resource,
      cut-append resource version r,
    )

    set_parts_lem :
        is_version version ≡ true
        → set_parts
            (job_name op component resource version)
            (op ++ b'_' ∷ (component ++ b'_' ∷ (resource ++ b'_' ∷ version)))
            j
          ≡ set_resource
              (job_name op component resource version)
              (component ++ b'_' ∷ (resource ++ b'_' ∷ version))
              (record j { version = version; operation = operation_of op })
    unfolding set_parts
    set_parts_lem is = rw (
      cut-append op (component ++ b'_' ∷ (resource ++ b'_' ∷ version)) o,
      set_parts,
      last_part_lem,
      is,
    )

    -- A job that is given the name "do_<op>_<component>_<resource>_<version>", whose parts hold no
    -- underscore and whose version begins with "v" and a digit, gets these parts as its properties,
    -- with "create" for the operation "put" and "update" for "post".
    pub set_job_from_name_lem :
        is_version version ≡ true
        → set_job_from_name (job_name op component resource version) j
          ≡ ok tt (record j {
            version = version;
            operation = operation_of op;
            component = component;
            resource_type = resource;
          })
    unfolding set_job_from_name cut_at starts_with
    set_job_from_name_lem is =
        set_parts_lem is ∙ set_resource_lem (job_name op component resource version) _
