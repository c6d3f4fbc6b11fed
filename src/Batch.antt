-- ===== src/Batch.antt =====
-- libs/codec/batch_buffer.hpp: `batch_buffer<T, N>`, whose items are a list of length N.
use asn1pp.Prelude.{
  ℕ, ◌+◌, Bool, List, none, some, if◌then◌else◌, leb, ltb, ◌==◌, length, get_elem?, set, take,
}
use asn1pp.Result.{ok, returns, fault, Op}

pub record BatchBuffer {ℓ} (A : Type ℓ) : Type ℓ where
  pub items : List A
  pub count : ℕ

module _ {ℓ} {A : Type ℓ} where
  -- `items_[count_++] = item;`
  unfoldable pub push : A → Op (BatchBuffer A) (Unit {0})
  push item q =
      if ltb q.count (length q.items)
      then returns (ok tt) (record { items = set q.items q.count item; count = q.count + 1 })
      else fault

  unfoldable pub is_full : BatchBuffer A → Bool
  is_full q = q.count == length q.items

  unfoldable pub empty : BatchBuffer A → Bool
  empty q = q.count == 0

  unfoldable pub clear : BatchBuffer A → BatchBuffer A
  clear q = record { items = q.items; count = 0 }

  -- The items behind the span stay in the array.
  unfoldable pub drain : Op (BatchBuffer A) (List A)
  drain q =
      if leb q.count (length q.items)
      then returns (ok (take q.count q.items)) (record { items = q.items; count = 0 })
      else fault

  unfoldable pub flush : Op (BatchBuffer A) (List A)
  flush = drain

  -- `operator[]`
  unfoldable pub item_at : ℕ → Op (BatchBuffer A) A
  item_at i q = elim (get_elem? q.items i) [ none ↦ fault | some x ↦ returns (ok x) q ]
