-- ===== src/Ber/Session.antt =====
-- An encoder or a decoder object beside the view that a call is given.
use asn1pp.Result.{Outcome, returns, fault, Op}
use asn1pp.Buffer.{BufferView}
use asn1pp.Batch.{BatchBuffer}

-- `pending_` of the object, and `buf`.
pub record Session {ℓ} (A : Type ℓ) : Type ℓ where
  pub pending : BatchBuffer A
  pub buf : BufferView

module _ {ℓ} {A : Type ℓ} where
  abbrev pub session : BatchBuffer A → BufferView → Session A
  session q v = record { pending = q; buf = v }

  module _ {κ} {B : Type κ} where
    abbrev pub with_buf : BatchBuffer A → Outcome BufferView B → Outcome (Session A) B
    with_buf q (returns r v) = returns r (session q v)
    with_buf q fault = fault

    abbrev pub with_pending : BufferView → Outcome (BatchBuffer A) B → Outcome (Session A) B
    with_pending v (returns r q) = returns r (session q v)
    with_pending v fault = fault

    -- A step that touches the view alone, and one that touches the batch alone.
    abbrev pub on_buf : Op BufferView B → Op (Session A) B
    on_buf m s = with_buf s.pending (m s.buf)

    abbrev pub on_pending : Op (BatchBuffer A) B → Op (Session A) B
    on_pending m s = with_pending s.buf (m s.pending)
