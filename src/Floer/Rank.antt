-- ===== src/Floer/Rank.antt =====
-- `gaussian_rank_z2`, engine/math/floer_homology.cu. The row-major array is the list of its rows,
-- and the loops over the columns of a swap and of an addition are one step on whole rows.
use Prim.Native.Nat.{bit_xor}
use holographic_market.Base.{
  ℕ, zero, suc, ◌+◌, ◌-◌, ◌%◌, ◌≤◌, ◌<◌, ◌≡◌, refl, ap, ◌∙◌, Bool, true, false, not, ◌&&◌, List, [],
  ◌∷◌, Option, none, some, arith, ltb, ◌==◌, if◌then◌else◌, length, get_or, set, length-set,
  replicate, ltb→lt,
}

abbrev pub Rows : Type 0
Rows = List (List ℕ)

-- `mat[r * cols + col] & 1`
abbrev pub has_bit : ℕ → List ℕ → Bool
has_bit col row = get_or row col 0 % 2 == 1

-- The first row with the bit, from row `r` on and not before row `pivot_row`.
unfoldable pub find_pivot : ℕ → ℕ → ℕ → Rows → Option ℕ
find_pivot col pivot_row r [] = none
find_pivot col pivot_row r (row ∷ rows) =
    if not (ltb r pivot_row) && has_bit col row
    then some r
    else find_pivot col pivot_row (suc r) rows

abbrev pub swap_rows : ℕ → ℕ → Rows → Rows
swap_rows i j rows = set (set rows i (get_or rows j [])) j (get_or rows i [])

unfoldable pub add_row : List ℕ → List ℕ → List ℕ
add_row [] pivot = []
add_row (a ∷ row) [] = a ∷ row
add_row (a ∷ row) (b ∷ pivot) = bit_xor a b ∷ add_row row pivot

-- The rows from row `r` on, but for the pivot's, with the bit cleared.
unfoldable pub clear_from : ℕ → ℕ → List ℕ → ℕ → Rows → Rows
unfolding add_row
clear_from col pivot_row pivot r [] = []
clear_from col pivot_row pivot r (row ∷ rows) =
    (if not (r == pivot_row) && has_bit col row then add_row row pivot else row)
    ∷ clear_from col pivot_row pivot (suc r) rows

abbrev pub eliminate : ℕ → ℕ → ℕ → Rows → Rows
eliminate col pivot_row pivot rows =
    let swapped = swap_rows pivot_row pivot rows in
    clear_from col pivot_row (get_or swapped pivot_row []) 0 swapped

-- The loop from column `col` on, with `more` columns to go. The rank counts along with the pivot
-- row, as in the code.
unfoldable pub rank_from : ℕ → ℕ → ℕ → ℕ → Rows → ℕ
unfolding find_pivot clear_from
rank_from zero col pivot_row rank rows = rank
rank_from (suc more) col pivot_row rank rows = elim (ltb pivot_row (length rows)) [
  | false ↦ rank
  | true ↦ elim (find_pivot col pivot_row 0 rows) [
    | none ↦ rank_from more (suc col) pivot_row rank rows
    | some pivot ↦
        rank_from more (suc col) (suc pivot_row) (suc rank) (eliminate col pivot_row pivot rows)
  ]
]

unfoldable pub gaussian_rank_z2 : Rows → ℕ → ℕ
unfolding rank_from
gaussian_rank_z2 rows cols = rank_from cols 0 0 0 rows

length-clear :
    (col pivot_row : ℕ) (pivot : List ℕ) (r : ℕ) (rows : Rows)
    → length (clear_from col pivot_row pivot r rows) ≡ length rows
unfolding clear_from
length-clear col pivot_row pivot r [] = refl
length-clear col pivot_row pivot r (row ∷ rows) =
    ap suc (length-clear col pivot_row pivot (suc r) rows)

length-eliminate :
    (col pivot_row pivot : ℕ) (rows : Rows)
    → length (eliminate col pivot_row pivot rows) ≡ length rows
length-eliminate col pivot_row pivot rows =
    length-clear col pivot_row (get_or (swap_rows pivot_row pivot rows) pivot_row []) 0
      (swap_rows pivot_row pivot rows)
    ∙ length-set (set rows pivot_row (get_or rows pivot [])) pivot (get_or rows pivot_row [])
    ∙ length-set rows pivot_row (get_or rows pivot [])

-- The rank grows by at most one at each column, and by at most one for each row that is left.
rank_from-le :
    (more col pivot_row rank : ℕ) (rows : Rows)
    → (rank_from more col pivot_row rank rows ≤ rank + more)
      × (rank_from more col pivot_row rank rows ≤ rank + (length rows - pivot_row))
unfolding rank_from
rank_from-le zero col pivot_row rank rows = omega arith
rank_from-le (suc more) col pivot_row rank rows =
    by_room (ltb pivot_row (length rows))
      (λ room.
        by_pivot (find_pivot col pivot_row 0 rows) room
          (rank_from-le more (suc col) pivot_row rank rows)
          (λ p.
            rank_from-le more (suc col) (suc pivot_row) (suc rank)
              (eliminate col pivot_row p rows)))
      refl
  where
    Below : ℕ → Type 0
    Below n = (n ≤ rank + suc more) × (n ≤ rank + (length rows - pivot_row))

    next : ℕ → ℕ
    next p = rank_from more (suc col) (suc pivot_row) (suc rank) (eliminate col pivot_row p rows)

    on_pivot : Option ℕ → ℕ
    on_pivot o = elim o [ none ↦ rank_from more (suc col) pivot_row rank rows | some p ↦ next p ]

    by_pivot :
        (o : Option ℕ)
        → pivot_row < length rows
        → (rank_from more (suc col) pivot_row rank rows ≤ rank + more)
          × (rank_from more (suc col) pivot_row rank rows ≤ rank + (length rows - pivot_row))
        → ((p : ℕ)
            → (next p ≤ suc rank + more)
              × (next p ≤ suc rank + (length (eliminate col pivot_row p rows) - suc pivot_row)))
        → Below (on_pivot o)
    by_pivot none room h k = omega (arith, h.0, h.1)
    by_pivot (some p) room h k =
        omega (arith, (k p).0, (k p).1, length-eliminate col pivot_row p rows)

    by_room :
        (b : Bool)
        → (pivot_row < length rows → Below (on_pivot (find_pivot col pivot_row 0 rows)))
        → ltb pivot_row (length rows) ≡ b
        → Below (elim b as (λ _. ℕ) [
          | false ↦ rank
          | true ↦ on_pivot (find_pivot col pivot_row 0 rows)
        ])
    by_room true h e = h (ltb→lt pivot_row (length rows) e)
    by_room false h e = omega arith

pub gaussian_rank_z2-le :
    (rows : Rows) (cols : ℕ)
    → (gaussian_rank_z2 rows cols ≤ cols) × (gaussian_rank_z2 rows cols ≤ length rows)
unfolding gaussian_rank_z2
gaussian_rank_z2-le rows cols =
    omega (arith, (rank_from-le cols 0 0 0 rows).0, (rank_from-le cols 0 0 0 rows).1)

abbrev pub ZeroRow : List ℕ → Type 0
ZeroRow [] = Unit {0}
ZeroRow (a ∷ row) = (a ≡ 0) × ZeroRow row

abbrev pub AllZero : Rows → Type 0
AllZero [] = Unit {0}
AllZero (row ∷ rows) = ZeroRow row × AllZero rows

pub ZeroRow-replicate : (n : ℕ) → ZeroRow (replicate n 0)
ZeroRow-replicate zero = tt
ZeroRow-replicate (suc n) = (refl, ZeroRow-replicate n)

pub AllZero-replicate : (n cols : ℕ) → AllZero (replicate n (replicate cols 0))
AllZero-replicate zero cols = tt
AllZero-replicate (suc n) cols = (ZeroRow-replicate cols, AllZero-replicate n cols)

has_bit-zero : (col : ℕ) (row : List ℕ) → ZeroRow row → has_bit col row ≡ false
has_bit-zero col [] z = refl
has_bit-zero zero (a ∷ row) z = rw z.0 refl
has_bit-zero (suc col) (a ∷ row) z = has_bit-zero col row z.1

find_pivot-zero :
    (col pivot_row r : ℕ) (rows : Rows) → AllZero rows → find_pivot col pivot_row r rows ≡ none
unfolding find_pivot
find_pivot-zero col pivot_row r [] z = refl
find_pivot-zero col pivot_row r (row ∷ rows) z =
    ground (arith, has_bit-zero col row z.0, find_pivot-zero col pivot_row (suc r) rows z.1)

rank_from-zero :
    (more col pivot_row rank : ℕ) (rows : Rows)
    → AllZero rows
    → rank_from more col pivot_row rank rows ≡ rank
unfolding rank_from
rank_from-zero zero col pivot_row rank rows z = refl
rank_from-zero (suc more) col pivot_row rank rows z =
    elim (ltb pivot_row (length rows))
      as (λ b.
        elim b as (λ _. ℕ) [ false ↦ rank | true ↦ on_pivot (find_pivot col pivot_row 0 rows) ]
        ≡ rank) [
          | false ↦ refl
          | true ↦
              ap on_pivot (find_pivot-zero col pivot_row 0 rows z)
              ∙ rank_from-zero more (suc col) pivot_row rank rows z
        ]
  where
    on_pivot : Option ℕ → ℕ
    on_pivot o = elim o [
      | none ↦ rank_from more (suc col) pivot_row rank rows
      | some p ↦
          rank_from more (suc col) (suc pivot_row) (suc rank) (eliminate col pivot_row p rows)
    ]

pub gaussian_rank_z2-zero : (rows : Rows) (cols : ℕ) → AllZero rows → gaussian_rank_z2 rows cols ≡ 0
unfolding gaussian_rank_z2
gaussian_rank_z2-zero rows cols z = rank_from-zero cols 0 0 0 rows z
