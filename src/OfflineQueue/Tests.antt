-- ===== src/OfflineQueue/Tests.antt =====
-- The theorems on the queue at a table with a corrupt row.
use nightfury.Prelude.{
  ℕ, List, [], ◌∷◌, map, ◌≡◌, refl, Option, none, some, ltb, if◌then◌else◌, take, drop, arith,
}
use nightfury.OfflineQueue.{Row, Table, OfflineQueue, peek_batch, delete}
use nightfury.OfflineQueue.Rows.{IsValid, decoded, peek_batch-delete}

abbrev row : ℕ → ℕ → Row ℕ
row i p = record { id = i; payload = p; attempts = 0 }

abbrev table : Table ℕ
table = record { rows = row 4 40 ∷ row 5 0 ∷ row 7 70 ∷ []; next_id = 8 }

abbrev queue : OfflineQueue ℕ
queue = record { max_rows = 3; conn = some table }

-- A payload of 0 is corrupt.
abbrev loads : ℕ → Option ℕ
loads p = if ltb 0 p then some p else none

table-IsValid : IsValid 3 table
table-IsValid = ground arith

peek_batch-delete_example :
    (out : List (ℕ × ℕ)) × (q' : OfflineQueue ℕ) × (peek_batch loads 2 queue ≡ some (out, q'))
    × (out ≡ decoded loads (take 2 table.rows))
    × (delete (map (λ e. e.0) out) q'
        ≡ some (record queue { conn = some (record table { rows = drop 2 table.rows }) }))
peek_batch-delete_example = peek_batch-delete loads 2 queue table refl table-IsValid
