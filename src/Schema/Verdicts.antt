-- ===== src/Schema/Verdicts.antt =====
-- Reading an accepted check from its end.
use gearbox.Base.{Bool, true, false, Bytes, ◌≡◌, refl}
use gearbox.Schema.{Verdict, accepts, rejects, ◌>>>◌, pass, reject_if}

module _ {A B : Type 0} where
  -- a sequence is accepted if its parts are
  pub accepted :
      (m : Verdict A) (k : A → Verdict B) (b : B)
      → (m >>> k) ≡ accepts b
      → (a : A) × (m ≡ accepts a) × (k a ≡ accepts b)
  accepted (accepts a) k b h = (a, refl, h)
  accepted (rejects msg) k b h = cc

-- an accepted value is unique
pub accepts_inj : {A : Type 0} (a b : A) → accepts a ≡ accepts b → a ≡ b
accepts_inj a b h = cc

pub reject_if-accepts : (bad : Bool) (msg : Bytes) → reject_if bad msg ≡ accepts tt → bad ≡ false
reject_if-accepts true msg h = cc
reject_if-accepts false msg h = refl

-- a sequence whose first part only checks
pub accepted_check :
    {B : Type 0} (m : Verdict (Unit {0})) (k : Verdict B) (b : B)
    → (m >>> λ _. k) ≡ accepts b
    → (m ≡ pass) × (k ≡ accepts b)
accepted_check (accepts tt) k b h = (refl, h)
accepted_check (rejects msg) k b h = cc
