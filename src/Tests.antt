-- ===== src/Tests.antt =====
-- The theorems at concrete inputs: texts, error classes, states.
mod Gearbox
mod Job
mod Json
mod Schema
mod Sql
mod Status
mod Worker
use gearbox.Base.{
  ℕ, ◌≡◌, ◌≢◌, refl, ◌↔◌, ◌⊎◌, ◌<◌, ◌≤◌, ◌++◌, List, [], ◌∷◌, map, reverse, Bytes, codes, is_empty,
  Option, some, none, All, arith, ◌||◌, if◌then◌else◌, to_upper, length,
}
use gearbox.Errors.{make_error, buffer_size, throw_from_code, error_classes, class_name}
use gearbox.Errors.Laws.{what-lt-buffer_size, throw_from_code_lem}
use gearbox.Util.Base32.{u64, encode_b32c, decode_b32c, uuid_b32c}
use gearbox.Util.Base32.RoundTrip.{decode_b32c-encode_b32c, encode_b32c_append, uuid_b32c_lem}
use gearbox.Util.Shell.{shellquote_list}
use gearbox.Util.Shell.Reading.{shell_words, shell_words-shellquote_list}
use gearbox.Uri.Path.{canonicalize_path, render, ends_with_slash}
use gearbox.Uri.Path.Canonical.{IsPlain, canonicalize_path-IsPlain, canonicalize_path_twice}
use gearbox.Status.State.{
  valid_state_transition, unknown, State, str2state, state2str, running, stopping, stopped,
  cancelling, cancelled, completed, pending,
}
use gearbox.Status.State.Names.{str2state_iff}
use gearbox.Status.Transitions.{
  requests, rank, IsStarted, IsKnown, rank-requests, cancelled_needs_cancelling,
}
use mathlib.Core.List.{Memᴰ}

decode_b32c-encode_b32c_example : decode_b32c (encode_b32c 123456789 []) ≡ (0, 123456789)
decode_b32c-encode_b32c_example = decode_b32c-encode_b32c 123456789 (omega arith)

shellquote_list_example :
    shell_words (shellquote_list (codes "echo" ∷ codes "it's $HOME" ∷ [] ∷ []))
    ≡ some (codes "echo" ∷ codes "it's $HOME" ∷ [] ∷ [])
shellquote_list_example = shell_words-shellquote_list (codes "echo" ∷ codes "it's $HOME" ∷ [] ∷ [])

canonicalize_path-IsPlain_example :
    (parts : List Bytes) × All IsPlain parts
    × (canonicalize_path (codes "/a/./b/../c/")
        ≡ render parts
          ++ (if is_empty (codes "/a/./b/../c/") || ends_with_slash (codes "/a/./b/../c/")
              then codes "/"
              else []))
canonicalize_path-IsPlain_example = canonicalize_path-IsPlain (codes "/a/./b/../c/")

abbrev life : List State
life = running ∷ stopping ∷ pending ∷ stopped ∷ cancelling ∷ running ∷ cancelled ∷ []

life-IsKnown : All IsKnown life
life-IsKnown = ground arith

rank-requests_example : rank pending ≤ rank (requests pending life)
rank-requests_example = rank-requests pending life life-IsKnown

cancelled_needs_cancelling_example : Memᴰ cancelling life
cancelled_needs_cancelling_example =
    cancelled_needs_cancelling running life (ground arith) life-IsKnown
      (unfold requests valid_state_transition in refl)
