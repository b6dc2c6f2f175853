-- ===== src/Serve/Outbox.antt =====
-- `AccountingOutbox`: a directory with one file for a receipt. The directory is a dictionary from
-- receipt ids; `none` is a file that cannot be read as a receipt. A receipt is any type with an id and
-- a time, since the outbox only passes it on.
pub mod Order
use maxtoken.Prelude.{
  ℕ, ◌+◌, List, [], ◌∷◌, Option, none, some, Bool, true, false, ltb, leb, ◌==◌, ◌&&◌, ◌||◌,
  if◌then◌else◌, find, has, put, remove,
}

-- What the outbox reads of a receipt: `receiptId` and `createdAt`.
pub record Document (R : Type 0) : Type 0 where
  pub receipt_id : ℕ
  pub created_at : ℕ
  pub rest : R

abbrev pub Directory : Type 0 → Type 0
Directory R = List (ℕ × Option (Document R))

module _ {R : Type 0} where
  -- `persist`, where `written` says whether the file could be written and moved to its place. `none`
  -- is an `AccountingOutboxError`.
  unfoldable pub persist : Directory R → Document R → Bool → Directory R × Option (Document R)
  persist files receipt written = elim (find receipt.receipt_id files) [
    | some (some existing) ↦ (files, some existing)
    | some none ↦ (files, none)
    | none ↦
        if written
        then (put receipt.receipt_id (some receipt) files, some receipt)
        else (files, none)
  ]

  -- `_read_one` of every file; one that is unreadable fails the whole call.
  unfoldable pub read_all : Directory R → Option (List (Document R))
  read_all [] = some []
  read_all ((h, none) ∷ files) = none
  read_all ((h, some r) ∷ files) = elim (read_all files) [ none ↦ none | some rs ↦ some (r ∷ rs) ]

  -- The order of the keys `(createdAt, receiptId)`.
  unfoldable pub not_after : Document R → Document R → Bool
  not_after r q =
      ltb r.created_at q.created_at
      || (r.created_at == q.created_at && leb r.receipt_id q.receipt_id)

  unfoldable pub insert_receipt : Document R → List (Document R) → List (Document R)
  insert_receipt r [] = r ∷ []
  insert_receipt r (q ∷ qs) = if not_after r q then r ∷ q ∷ qs else q ∷ insert_receipt r qs

  unfoldable pub sort_receipts : List (Document R) → List (Document R)
  sort_receipts [] = []
  sort_receipts (r ∷ rs) = insert_receipt r (sort_receipts rs)

  unfoldable pub pending : Directory R → Option (List (Document R))
  pending files = elim (read_all files) [ none ↦ none | some rs ↦ some (sort_receipts rs) ]

  -- `ack`, where `removed` says whether a file that is there can be removed. The answer is `already`.
  unfoldable pub ack : Directory R → ℕ → Bool → Directory R × Option Bool
  ack files receipt_id removed =
      if has receipt_id files
      then (if removed then (remove receipt_id files, some false) else (files, none))
      else (files, some true)
