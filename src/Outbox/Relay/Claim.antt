-- ===== src/Outbox/Relay/Claim.antt =====
-- The batch that a dispatch claims, against a plain description: the first rows that are free.
use rush_delivery_engine.Prelude.{
  ℕ, zero, suc, ◌≤◌, ◌<◌, ◌≡◌, refl, ap, ◌∙◌, inl, inr, Bool, true, false, List, [], ◌∷◌, ◌++◌, map,
  arith, take, select, update_where, if◌then◌else◌, Bool-cases, All,
}
use rush_delivery_engine.Store.{OutboxRow}
use rush_delivery_engine.Outbox.Relay.{sort_by_id, is_free, claim, is_in}

-- The ids grow along the table, from `n` on.
abbrev pub From : ℕ → List OutboxRow → Type 0
From n [] = Unit {0}
From n (row ∷ rows) = (n ≤ row.id) × From (suc row.id) rows

pub From-mono : (m n : ℕ) (rows : List OutboxRow) → m ≤ n → From n rows → From m rows
From-mono m n [] h f = tt
From-mono m n (row ∷ rows) h f = (omega arith, f.1)

pub From-append :
    (n : ℕ) (rows : List OutboxRow) (row : OutboxRow)
    → n ≤ row.id
    → All (λ (r : OutboxRow). r.id < row.id) rows
    → From n rows
    → From n (rows ++ row ∷ [])
From-append n [] row h below f = (h, tt)
From-append n (r ∷ rows) row h below f = (f.0, From-append (suc r.id) rows row below.0 below.1 f.1)

module _ (p : OutboxRow → Bool) where
  From-select : (n : ℕ) (rows : List OutboxRow) → From n rows → From n (select p rows)
  From-select n [] f = tt
  From-select n (row ∷ rows) f =
      ground (arith, From-select (suc row.id) rows f.1, From-mono n (suc row.id) (select p rows))

From-take : (n k : ℕ) (rows : List OutboxRow) → From n rows → From n (take k rows)
From-take n zero rows f = tt
From-take n (suc k) [] f = tt
From-take n (suc k) (row ∷ rows) f = (f.0, From-take (suc row.id) k rows f.1)

sort-ascending : (n : ℕ) (rows : List OutboxRow) → From n rows → sort_by_id rows ≡ rows
unfolding sort_by_id
sort-ascending n [] f = refl
sort-ascending n (row ∷ []) f = refl
sort-ascending n (row ∷ r ∷ rows) f = rw (sort-ascending (suc row.id) (r ∷ rows) f.1) (ground arith)

-- In a table whose ids grow the claim is the first `limit` rows that are unsent and not locked.
pub claim-eq-take :
    (n limit : ℕ) (locked : OutboxRow → Bool) (rows : List OutboxRow)
    → From n rows
    → claim limit locked rows ≡ take limit (select (is_free locked) rows)
unfolding claim
claim-eq-take n limit locked rows f =
    ap (take limit) (sort-ascending n _ (From-select (is_free locked) n rows f))

abbrev pub ids_of : List OutboxRow → List ℕ
ids_of = map (λ row. row.id)

-- `f` applied to the first `limit` rows that pass `p`.
abbrev pub update_first :
    ℕ → (OutboxRow → Bool) → (OutboxRow → OutboxRow) → List OutboxRow → List OutboxRow
update_first zero p f rows = rows
update_first (suc limit) p f [] = []
update_first (suc limit) p f (row ∷ rows) =
    let hit = update_first limit p f rows in
    let miss = update_first (suc limit) p f rows in if p row then f row ∷ hit else row ∷ miss

module _ (p : OutboxRow → Bool) (f : OutboxRow → OutboxRow) where
  pub update_none : (rows : List OutboxRow) → update_where (is_in []) f rows ≡ rows
  update_none [] = refl
  update_none (row ∷ rows) = rw (update_none rows)

  update-skip :
      (k : ℕ) (ids : List ℕ) (rows : List OutboxRow)
      → From (suc k) rows
      → update_where (is_in (k ∷ ids)) f rows ≡ update_where (is_in ids) f rows
  update-skip k ids [] h = refl
  update-skip k ids (row ∷ rows) h =
      ground (arith, update-skip k ids rows (From-mono (suc k) (suc row.id) rows (omega arith) h.1))

  not_in :
      (row : OutboxRow) (rows : List OutboxRow)
      → From (suc row.id) rows
      → is_in (ids_of rows) row ≡ false
  not_in row [] h = refl
  not_in row (r ∷ rows) h =
      ground (arith, not_in row rows (From-mono (suc row.id) (suc r.id) rows (omega arith) h.1))

  abbrev claimed : ℕ → List OutboxRow → List ℕ
  claimed limit rows = ids_of (take limit (select p rows))

  claimed-hit :
      (limit : ℕ) (row : OutboxRow) (rows : List OutboxRow)
      → p row ≡ true
      → claimed (suc limit) (row ∷ rows) ≡ row.id ∷ claimed limit rows
  claimed-hit limit row rows hit = rw hit

  claimed-miss :
      (limit : ℕ) (row : OutboxRow) (rows : List OutboxRow)
      → p row ≡ false
      → claimed limit (row ∷ rows) ≡ claimed limit rows
  claimed-miss limit row rows miss = rw miss

  abbrev mark : List ℕ → List OutboxRow → List OutboxRow
  mark ids rows = update_where (is_in ids) f rows

  -- Marking the ids of the claimed rows marks those rows and no other.
  pub update_where-claimed :
      (n limit : ℕ) (rows : List OutboxRow)
      → From n rows
      → update_where (is_in (ids_of (take limit (select p rows)))) f rows
        ≡ update_first limit p f rows
  update_where-claimed n zero rows h = update_none rows
  update_where-claimed n (suc limit) [] h = refl
  update_where-claimed n (suc limit) (row ∷ rows) h = elim (Bool-cases (p row)) [
    | inl hit ↦
        ap (λ ids. mark ids (row ∷ rows)) (claimed-hit limit row rows hit)
        ∙ ground (
          arith,
          update-skip row.id (claimed limit rows) rows h.1,
          update_where-claimed (suc row.id) limit rows h.1,
        )
    | inr miss ↦
        ap (λ ids. mark ids (row ∷ rows)) (claimed-miss (suc limit) row rows miss)
        ∙ ground (
          arith,
          not_in row (take (suc limit) (select p rows)) (
              From-take (suc row.id) (suc limit) (select p rows)
                (From-select p (suc row.id) rows h.1)),
          update_where-claimed (suc row.id) (suc limit) rows h.1,
        )
  ]
