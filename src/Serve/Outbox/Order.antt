-- ===== src/Serve/Outbox/Order.antt =====
-- What the outbox gives back: each receipt once, in the order of creation, until it is acknowledged.
use maxtoken.Prelude.{
  ℕ, ◌+◌, ◌≤◌, ◌<◌, ◌⊎◌, ◌≡◌, ◌∙◌, refl, ap, sym, inl, inr, List, [], ◌∷◌, none, some, Bool, true,
  false, ◌==◌, arith, count, keys, find, put, find-put, Bool-cases, Option-cases, All, to_bit,
}
use maxtoken.Serve.Outbox.{
  Document, Directory, persist, read_all, not_after, insert_receipt, sort_receipts, pending,
}

module _ {R : Type 0} where
  -- How many of the receipts have the id.
  unfoldable pub with_id : ℕ → List (Document R) → ℕ
  with_id k [] = 0
  with_id k (r ∷ rs) = to_bit (r.receipt_id == k) + with_id k rs

  abbrev Sorted : List (Document R) → Type 0
  Sorted [] = Unit
  Sorted (r ∷ rs) = All (λ q. not_after r q ≡ true) rs × Sorted rs

  -- Created before the other, or at the same time and with an id that is not larger.
  abbrev pub NotLater : Document R → Document R → Type 0
  NotLater r q =
      (r.created_at < q.created_at)
      ⊎ ((r.created_at ≡ q.created_at) × (r.receipt_id ≤ q.receipt_id))

  abbrev pub InOrder : List (Document R) → Type 0
  InOrder [] = Unit
  InOrder (r ∷ rs) = All (NotLater r) rs × InOrder rs

  not_after-NotLater : (r q : Document R) → not_after r q ≡ true → NotLater r q
  unfolding not_after
  not_after-NotLater r q h = ground arith

  All-NotLater :
      (r : Document R) (rs : List (Document R))
      → All (λ q. not_after r q ≡ true) rs
      → All (NotLater r) rs
  All-NotLater r [] all = tt
  All-NotLater r (q ∷ rs) all = (not_after-NotLater r q all.0, All-NotLater r rs all.1)

  Sorted-InOrder : (rs : List (Document R)) → Sorted rs → InOrder rs
  Sorted-InOrder [] o = tt
  Sorted-InOrder (r ∷ rs) o = (All-NotLater r rs o.0, Sorted-InOrder rs o.1)

  with_id-insert :
      (k : ℕ) (r : Document R) (rs : List (Document R))
      → with_id k (insert_receipt r rs) ≡ with_id k (r ∷ rs)
  unfolding with_id insert_receipt
  with_id-insert k r [] = refl
  with_id-insert k r (q ∷ qs) = ground (arith, with_id-insert k r qs)

  with_id-sort : (k : ℕ) (rs : List (Document R)) → with_id k (sort_receipts rs) ≡ with_id k rs
  unfolding with_id sort_receipts
  with_id-sort k [] = refl
  with_id-sort k (r ∷ rs) =
      let a = with_id-insert k r (sort_receipts rs) in omega (arith, a, with_id-sort k rs)

  not_after_trans :
      (p q r : Document R) → not_after p q ≡ true → not_after q r ≡ true → not_after p r ≡ true
  unfolding not_after
  not_after_trans p q r x y = ground arith

  not_after_total : (p q : Document R) → not_after p q ≡ false → not_after q p ≡ true
  unfolding not_after
  not_after_total p q x = ground arith

  All-insert :
      (p r : Document R) (rs : List (Document R))
      → not_after p r ≡ true
      → All (λ q. not_after p q ≡ true) rs
      → All (λ q. not_after p q ≡ true) (insert_receipt r rs)
  unfolding insert_receipt
  All-insert p r [] h a = (h, tt)
  All-insert p r (q ∷ qs) h a = elim (Bool-cases (not_after r q)) [
    | inl y ↦ rw y (h, a)
    | inr n ↦ rw n (a.0, All-insert p r qs h a.1)
  ]

  All-later :
      (p r : Document R) (rs : List (Document R))
      → not_after p r ≡ true
      → All (λ q. not_after r q ≡ true) rs
      → All (λ q. not_after p q ≡ true) rs
  All-later p r [] h a = tt
  All-later p r (q ∷ qs) h a = (not_after_trans p r q h a.0, All-later p r qs h a.1)

  insert-Sorted :
      (r : Document R) (rs : List (Document R)) → Sorted rs → Sorted (insert_receipt r rs)
  unfolding insert_receipt
  insert-Sorted r [] o = (tt, tt)
  insert-Sorted r (q ∷ qs) o = elim (Bool-cases (not_after r q)) [
    | inl y ↦ rw y ((y, All-later r q qs y o.0), o)
    | inr n ↦ rw n (All-insert q r qs (not_after_total r q n) o.0, insert-Sorted r qs o.1)
  ]

  sort-Sorted : (rs : List (Document R)) → Sorted (sort_receipts rs)
  unfolding sort_receipts
  sort-Sorted [] = tt
  sort-Sorted (r ∷ rs) = insert-Sorted r (sort_receipts rs) (sort-Sorted rs)

  -- A directory as the outbox keeps it: every file is readable, and named by its receipt's id.
  abbrev pub IsKept : Directory R → Type 0
  IsKept [] = Unit
  IsKept ((h, none) ∷ files) = ⊥
  IsKept ((h, some r) ∷ files) = (r.receipt_id ≡ h) × IsKept files

  read_all-kept :
      (files : Directory R)
      → IsKept files
      → (rs : List (Document R)) × (read_all files ≡ some rs)
        × ((k : ℕ) → with_id k rs ≡ count k (keys files))
  unfolding read_all with_id
  read_all-kept [] kept = ([], refl, λ k. refl)
  read_all-kept ((h, none) ∷ files) kept = absurd kept
  read_all-kept ((h, some r) ∷ files) (e, kept) =
      let (rs, found, counted) = read_all-kept files kept in
      (r ∷ rs, rw found refl, λ k. omega (arith, counted k, ap (λ j. to_bit (j == k)) e))

  -- Over a directory of readable files, each named by its receipt's id, the list of pending receipts
  -- has each receipt exactly once, in the order of creation, and of the ids where the times agree.
  pub pending-InOrder :
      (files : Directory R)
      → IsKept files
      → (rs : List (Document R)) × (pending files ≡ some rs)
        × InOrder rs
        × ((k : ℕ) → with_id k rs ≡ count k (keys files))
  unfolding pending
  pending-InOrder files kept =
      let (rs, found, counted) = read_all-kept files kept in
      (
        sort_receipts rs,
        rw (found, pending) refl,
        Sorted-InOrder (sort_receipts rs) (sort-Sorted rs),
        λ k. with_id-sort k rs ∙ counted k,
      )

  -- A receipt that was persisted is what every later attempt to persist one of the same id returns,
  -- whatever that one holds, and the attempt changes nothing.
  pub persist-persist :
      (files : Directory R) (r q kept : Document R) (later : Bool)
      → q.receipt_id ≡ r.receipt_id
      → (persist files r true).1 ≡ some kept
      → persist (persist files r true).0 q later ≡ ((persist files r true).0, some kept)
  unfolding persist
  persist-persist files r q kept later e h = elim (Option-cases (find r.receipt_id files)) [
    | inl n ↦
        let a : persist files r true ≡ (put r.receipt_id (some r) files, some r) =
          rw (n, persist) refl in
        let k : some r ≡ some kept = ap (λ x. x.1) (sym a) ∙ h in
        let f : find q.receipt_id (put r.receipt_id (some r) files) ≡ some (some kept) =
          ground (arith, find-put r.receipt_id q.receipt_id (some r) files) in
        rw (a, f, persist) (ap (λ x. (x.0, some kept)) a)
    | inr (none, n) ↦
        let a : persist files r true ≡ (files, none) = rw (n, persist) refl in
        absurd (let x = ap (λ x. x.1) (sym a) ∙ h in ground arith)
    | inr (some old, n) ↦
        let a : persist files r true ≡ (files, some old) = rw (n, persist) refl in
        let k : some old ≡ some kept = ap (λ x. x.1) (sym a) ∙ h in
        let f : find q.receipt_id files ≡ some (some kept) =
          ap (λ j. find j files) e ∙ n ∙ ap some k in
        rw (a, f, persist) (ap (λ x. (x.0, some kept)) a)
  ]
