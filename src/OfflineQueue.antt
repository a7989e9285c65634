-- ===== src/OfflineQueue.antt =====
-- The offline event queue of the agent: agent/pipeline/offline_queue.py. The SQLite table is the
-- list of its rows in the order of insertion, with the next AUTOINCREMENT id; a payload is what
-- `json.dumps` gave, and `json.loads` of a stored text is a parameter.
pub mod Rows
mod Tests
use nightfury.Prelude.{
  ℕ, ◌+◌, ◌-◌, List, [], ◌∷◌, ◌++◌, map, Option, none, some, Bool, true, false, not, ltb, ◌==◌,
  if◌then◌else◌, keep, elem, length, take,
}
use mathlib.Core.Option
use nightfury.Prelude.Sort.{sorted}

module _ (Payload : Type 0) where
  pub record Row : Type 0 where
    pub id : ℕ
    pub payload : Payload
    pub attempts : ℕ

  pub record Table : Type 0 where
    pub rows : List Row
    pub next_id : ℕ

  -- `conn` is `none` once the queue is closed.
  pub record OfflineQueue : Type 0 where
    pub max_rows : ℕ
    pub conn : Option Table

module _ {Payload : Type 0} where
  -- `SELECT … ORDER BY id ASC LIMIT n`
  abbrev pub select_oldest : ℕ → List (Row Payload) → List (Row Payload)
  select_oldest n rows = take n (sorted (λ r. r.id) rows)

  -- `DELETE … WHERE id IN ids`
  abbrev pub delete_ids : List ℕ → List (Row Payload) → List (Row Payload)
  delete_ids ids = keep (λ r. not (elem r.id ids))

  -- The INSERT, and the DELETE of what is over the cap.
  pub enqueue_table : ℕ → Payload → Table Payload → Table Payload
  enqueue_table max_rows p t =
      let inserted = t.rows ++ record { id = t.next_id; payload = p; attempts = 0 } ∷ [] in
      let count = length inserted in
      record {
        rows =
            if ltb max_rows count
            then delete_ids (map (λ r. r.id) (select_oldest (count - max_rows) inserted)) inserted
            else inserted;
        next_id = t.next_id + 1;
      }

  -- `for row in rows` of `_peek_batch_sync`: what decodes is handed out, and a corrupt row is
  -- deleted on the way. The second list is the table.
  pub peek_rows :
      {E : Type 0}
      → (Payload → Option E)
      → List (Row Payload)
      → List (Row Payload)
      → List (ℕ × E) × List (Row Payload)
  peek_rows loads [] rows = ([], rows)
  peek_rows loads (r ∷ rs) rows = elim (loads r.payload) [
    | some e ↦ let (out, rows') = peek_rows loads rs rows in ((r.id, e) ∷ out, rows')
    | none ↦ peek_rows loads rs (delete_ids (r.id ∷ []) rows)
  ]

  -- One statement of `executemany("UPDATE … attempts = attempts + 1 WHERE id = ?")`.
  pub increment_one : ℕ → List (Row Payload) → List (Row Payload)
  increment_one id = map (λ r. if r.id == id then record r { attempts = r.attempts + 1 } else r)

  pub increment_rows : List ℕ → List (Row Payload) → List (Row Payload)
  unfolding increment_one
  increment_rows [] rows = rows
  increment_rows (id ∷ ids) rows = increment_rows ids (increment_one id rows)

  -- The methods: `none` is the failed `assert self._conn is not None`.
  pub enqueue : Payload → OfflineQueue Payload → Option (OfflineQueue Payload)
  unfolding enqueue_table
  enqueue p q = Option.map (λ t. record q { conn = some (enqueue_table q.max_rows p t) }) q.conn

  pub peek_batch :
      {E : Type 0}
      → (Payload → Option E)
      → ℕ
      → OfflineQueue Payload
      → Option (List (ℕ × E) × OfflineQueue Payload)
  unfolding peek_rows
  peek_batch loads limit q =
      Option.map
        (λ t.
          let (out, rows) = peek_rows loads (select_oldest limit t.rows) t.rows in
          (out, record q { conn = some (record t { rows = rows }) }))
        q.conn

  pub delete : List ℕ → OfflineQueue Payload → Option (OfflineQueue Payload)
  delete [] q = some q
  delete (id ∷ ids) q =
      Option.map (λ t. record q { conn = some (record t { rows = delete_ids (id ∷ ids) t.rows }) })
        q.conn

  pub increment_attempts : List ℕ → OfflineQueue Payload → Option (OfflineQueue Payload)
  unfolding increment_rows
  increment_attempts [] q = some q
  increment_attempts (id ∷ ids) q =
      Option.map
        (λ t. record q { conn = some (record t { rows = increment_rows (id ∷ ids) t.rows }) })
        q.conn

  pub size : OfflineQueue Payload → Option ℕ
  size q = Option.map (λ t. length t.rows) q.conn

  pub close : OfflineQueue Payload → OfflineQueue Payload
  close q = record q { conn = none }
