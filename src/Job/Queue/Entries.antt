-- ===== src/Job/Queue/Entries.antt =====
-- The entries of a configuration that can run, and the jobs that `make_nodes` makes of them.
use gearbox.Base.{
  ◌∙◌, sym, subst, ℕ, zero, suc, ◌<◌, ◌≡◌, refl, inl, inr, ◌⊎◌, false, Bool-cases, ℤ, List, [], ◌∷◌,
  pos, Bool, true, Bytes, bytes_eq, bytes_eq_iff, codes, Option, none, some,
}
use gearbox.Json.Value.{Json, Fields, find}
use gearbox.Json.Access.{item_at}
use gearbox.Schema.{key_of, as_text, as_integer, to_i32}
use gearbox.Worker.Env.{unknown}
use gearbox.Job.Nodes.{
  Node, job_type, returned, named_job, uri_job, text_at, timeout_at, start_node, make_node,
  make_nodes,
}
use gearbox.Job.Queue.{index_of, required}
use Json.{int, string}
use Fields.{end, field}

-- the name of the job with that index
unfoldable pub name_at : List Node → ℕ → Bytes
name_at [] k = []
name_at (n ∷ ns) zero = n.name
name_at (n ∷ ns) (suc k) = name_at ns k

module _ (context : List Bytes → Bytes) (known : Bytes → Bool) where
  -- An entry that can run: the map has it under its key; the texts it has are texts, and its timeout is
  -- a whole number; its job can be made, and has the key as its name; and its requirements are texts,
  -- each the key of an entry of lower rank.
  pub record CanRun (sa : Fields) (rank : Bytes → ℕ) (key : Bytes) (v : Json) : Type 0 where
    pub found : find key sa ≡ some v
    pub type :
        (key_of (codes "type") v ≡ none)
        ⊎ ((s : Bytes) × (key_of (codes "type") v ≡ some (string s)))
    pub job :
        ((key_of (codes "method") v ≡ none) × (named_job context known key ≡ returned key))
        ⊎ ((s : Bytes) × (key_of (codes "method") v ≡ some (string s))
            × (uri_job key ≡ returned key))
    pub timeout :
        (key_of (codes "timeout") v ≡ none)
        ⊎ ((n : ℤ) × (key_of (codes "timeout") v ≡ some (int n)))
    pub wants :
        (m : ℕ) (r : Json)
        → item_at m (required (key_of (codes "require") v)) ≡ some r
        → (req : Bytes) × (r ≡ string req)
          × ((w : Json) × (find req sa ≡ some w))
          × (rank req < rank key)

  module _ (sa : Fields) (rank : Bytes → ℕ) where
    abbrev pub AllRun : Fields → Type 0
    AllRun end = Unit
    AllRun (field k v fs) = CanRun sa rank k v × AllRun fs

    text_at_lem :
        (key what : Bytes) (v : Json)
        → (key_of what v ≡ none) ⊎ ((s : Bytes) × (key_of what v ≡ some (string s)))
        → (o : Option Bytes) × (text_at context known key what v ≡ returned o)
    unfolding text_at as_text
    text_at_lem key what v (inl e) = (none, rw (e, text_at) refl)
    text_at_lem key what v (inr (s, e)) = (some s, rw (e, text_at) refl)

    timeout_at_lem :
        (key : Bytes) (v : Json)
        → (key_of (codes "timeout") v ≡ none)
          ⊎ ((n : ℤ) × (key_of (codes "timeout") v ≡ some (int n)))
        → (t : ℤ) × (timeout_at context known key v ≡ returned t)
    unfolding timeout_at as_integer
    timeout_at_lem key v (inl e) = (pos 0, rw (e, timeout_at) refl)
    timeout_at_lem key v (inr (n, e)) = (to_i32 n, rw (e, timeout_at) refl)

    make_node_lem :
        (key : Bytes) (v : Json)
        → CanRun sa rank key v
        → (n : Node) × (make_node context known key v ≡ returned n) × (n.name ≡ key)
    unfolding make_node start_node text_at as_text
    make_node_lem key v h =
        let (type, typed) = text_at_lem key (codes "type") v h.type in
        let (t, timed) = timeout_at_lem key v h.timeout in
        let untold : key_of (codes "method") v ≡ none
            → text_at context known key (codes "method") v ≡ returned none =
          λ e. rw (e, text_at) refl in
        let told : (s : Bytes)
            → key_of (codes "method") v ≡ some (string s)
            → text_at context known key (codes "method") v ≡ returned (some s) =
          λ s e. rw (e, text_at) refl in
        elim h.job [
          | inl (e, made) ↦ (
            record { name = key; type = job_type type; timeout = t },
            rw (typed, untold e, start_node, made, timed, make_node) refl,
            refl,
          )
          | inr (s, e, made) ↦ (
            record { name = key; type = unknown; timeout = t },
            rw (typed, told s e, start_node, made, timed, make_node) refl,
            refl,
          )
        ]

    -- what is known of the nodes of entries that can run
    abbrev pub NodesRun : List Node → Type 0
    NodesRun [] = Unit
    NodesRun (n ∷ ns) = ((v : Json) × CanRun sa rank n.name v) × NodesRun ns

    pub make_nodes_lem :
        (fs : Fields)
        → AllRun fs
        → (ns : List Node) × (make_nodes context known fs ≡ returned ns)
          × NodesRun ns
          × ((req : Bytes) (w : Json)
              → find req fs ≡ some w
              → (k : ℕ) × (index_of req ns ≡ some k) × (name_at ns k ≡ req))
    unfolding make_nodes find index_of name_at
    make_nodes_lem end h = ([], refl, tt, λ req w e. cc)
    make_nodes_lem (field key v fs) (first, rest) =
        let (n, made, name) = make_node_lem key v first in
        let (ns, all_made, run, index) = make_nodes_lem fs rest in
        (
          n ∷ ns,
          rw (made, all_made) refl,
          ((v, subst (λ x. CanRun sa rank x v) (sym name) first), run),
          λ req w e. elim (Bool-cases (bytes_eq key req)) [
            | inl same ↦
                let here : req ≡ n.name = sym ((bytes_eq_iff key req).0 same) ∙ sym name in
                (0, rw ((bytes_eq_iff req n.name).1 here) refl, sym here)
            | inr other ↦
                let (k, at, named) = index req w (rw (other, find) at e) in
                let apart : bytes_eq req n.name ≡ false = elim (Bool-cases (bytes_eq req n.name)) [
                  | inl here ↦
                      let same : bytes_eq key req ≡ true =
                        (bytes_eq_iff key req).1 (sym ((bytes_eq_iff req n.name).0 here ∙ name)) in
                      cc
                  | inr there ↦ there
                ] in
                (suc k, rw (apart, at) refl, named)
          ],
        )
