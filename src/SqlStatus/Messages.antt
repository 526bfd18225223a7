-- ===== src/SqlStatus/Messages.antt =====
-- `add_message` of plugins/status/sql/SQLStatusImpl.cc, when statements fail: it inserts the message and
-- notes the time in two statements without a transaction, and repeats both when the second one fails.
use gearbox.Base.{
  ℕ, zero, suc, ◌≤◌, Bool, true, false, List, [], ◌∷◌, ◌++◌, Bytes, ◌≡◌, ap, ◌∙◌, arith,
  if◌then◌else◌, append_assoc,
}
use gearbox.Status.Impl
use gearbox.Status.Impl.{Impl}
use gearbox.SqlStatus.Tables.{Tables, Laws, persist, keep_trying}
use gearbox.SqlStatus.Object.{Sql}
use gearbox.SqlStatus.Lists.{add_message, load_messages, touch}

-- how often a message is inserted: once for the round that succeeds, and once for each round in which
-- the UPDATE failed behind the INSERT
pub inserts : List Bool → ℕ
inserts [] = 1
inserts (true ∷ faults) = inserts faults
inserts (false ∷ []) = 1
inserts (false ∷ false ∷ faults) = 1
inserts (false ∷ true ∷ faults) = suc (inserts faults)

abbrev pub copies {ℓ} : {A : Type ℓ} → ℕ → A → List A
copies zero a = []
copies (suc n) a = a ∷ copies n a

inserts_pos : (faults : List Bool) → 1 ≤ inserts faults
unfolding inserts
inserts_pos [] = omega arith
inserts_pos (true ∷ faults) = inserts_pos faults
inserts_pos (false ∷ []) = omega arith
inserts_pos (false ∷ false ∷ faults) = omega arith
inserts_pos (false ∷ true ∷ faults) = omega arith

module _ {T : Type 0} (tb : Tables T) (now : ℕ) (m : Bytes) (s : Sql T) where
  -- the read at the beginning is made only where there is nothing to read
  reads_nothing : (if s.messages_loaded then load_messages tb s else s) ≡ s
  unfolding load_messages
  reads_nothing = ground arith

  abbrev noted : Sql T
  noted = record s { super = record s.super { messages = s.super.messages ++ m ∷ []; mtime = now } }

  -- the two statements
  abbrev pub add_statements : List (T → T)
  add_statements = tb.insert_message s.super.name m ∷ touch tb noted ∷ []

  pub add_message-eq : add_message tb now m s ≡ record noted { db = persist add_statements s.db }
  unfolding add_message Impl.add_message
  add_message-eq =
      ap
        (λ s'.
          let s'' : Sql T = record s' { super = Impl.add_message now m s'.super } in
          record s'' {
            db = persist (tb.insert_message s''.super.name m ∷ touch tb s'' ∷ []) s''.db;
          })
        reads_nothing

  module _ (laws : Laws tb) where
    abbrev name : Bytes
    name = s.super.name

    -- a round inserts the message, and its UPDATE leaves the messages alone
    stored_by_round :
        (t : T)
        → tb.messages name (touch tb noted (tb.insert_message name m t))
          ≡ tb.messages name t ++ m ∷ []
    stored_by_round t = laws.messages-update name name _ _ ∙ laws.messages-insert_message name m t

    stored_messages :
        (faults : List Bool) (t : T)
        → tb.messages name (keep_trying (λ u. u) add_statements faults add_statements t).tables
          ≡ tb.messages name t ++ copies (inserts faults) m
    unfolding keep_trying inserts
    stored_messages [] t = stored_by_round t
    stored_messages (true ∷ faults) t = stored_messages faults t
    stored_messages (false ∷ []) t = stored_by_round t
    stored_messages (false ∷ false ∷ faults) t = stored_by_round t
    stored_messages (false ∷ true ∷ faults) t =
        stored_messages faults (tb.insert_message name m t)
        ∙ ap (λ l. l ++ copies (inserts faults) m) (laws.messages-insert_message name m t)
        ∙ append_assoc (tb.messages name t) (m ∷ []) (copies (inserts faults) m)

    -- A message arrives, whichever statements fail: `add_message` stores it at least once, behind those
    -- that were there. It stores it once more for each round in which the INSERT succeeded and the
    -- UPDATE behind it failed.
    pub messages-add_message :
        (tb.messages s.super.name (add_message tb now m s).db.tables
          ≡ tb.messages s.super.name s.db.tables ++ copies (inserts s.db.faults) m)
        × (1 ≤ inserts s.db.faults)
    messages-add_message = (
      ap (λ s'. tb.messages s.super.name s'.db.tables) add_message-eq
          ∙ unfold persist in stored_messages s.db.faults s.db.tables,
      inserts_pos s.db.faults,
    )
