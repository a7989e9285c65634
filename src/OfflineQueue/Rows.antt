-- ===== src/OfflineQueue/Rows.antt =====
-- The queue is first in, first out, and holds the newest rows up to its cap.
use nightfury.Prelude.{
  ℕ, zero, suc, ◌+◌, ◌-◌, ◌≤◌, ◌<◌, List, [], ◌∷◌, ◌++◌, map, ◌≡◌, ◌∙◌, ap, refl, sym, Option, none,
  some, ltb, length, take, drop, All, All-append, All-map, length-append, length-drop, Bool-cases,
  Option-cases, inl, inr, arith,
}
use nightfury.Prelude.Sort.{Ascending, sorted-Ascending}
use nightfury.OfflineQueue.{
  Row, Table, OfflineQueue, delete_ids, enqueue_table, peek_rows, enqueue, peek_batch, delete,
}

module _ {Payload : Type 0} where
  abbrev pub key : Row Payload → ℕ
  key r = r.id

  delete_ids-nil : (rows : List (Row Payload)) → delete_ids [] rows ≡ rows
  delete_ids-nil [] = refl
  delete_ids-nil (r ∷ rows) = rw (delete_ids-nil rows)

  delete_ids-front :
      (k : ℕ) (ids : List ℕ) (rows : List (Row Payload))
      → delete_ids (k ∷ ids) rows ≡ delete_ids (k ∷ []) (delete_ids ids rows)
  delete_ids-front k ids [] = refl
  delete_ids-front k ids (r ∷ rows) = ground (arith, delete_ids-front k ids rows)

  delete_ids-back :
      (k : ℕ) (ids : List ℕ) (rows : List (Row Payload))
      → delete_ids (k ∷ ids) rows ≡ delete_ids ids (delete_ids (k ∷ []) rows)
  delete_ids-back k ids [] = refl
  delete_ids-back k ids (r ∷ rows) = ground (arith, delete_ids-back k ids rows)

  delete_ids-absent :
      (k : ℕ) (ids : List ℕ) (rows : List (Row Payload))
      → All (λ r. k < r.id) rows
      → delete_ids (k ∷ ids) rows ≡ delete_ids ids rows
  delete_ids-absent k ids [] h = refl
  delete_ids-absent k ids (r ∷ rows) h = ground (arith, delete_ids-absent k ids rows h.1)

  -- Deleting the first `n` rows by their ids.
  pub delete_ids-take :
      (n : ℕ) (rows : List (Row Payload))
      → Ascending key rows
      → delete_ids (map key (take n rows)) rows ≡ drop n rows
  delete_ids-take zero rows h = delete_ids-nil rows
  delete_ids-take (suc n) [] h = refl
  delete_ids-take (suc n) (r ∷ rows) h =
      ground
        (arith, delete_ids-absent r.id (map key (take n rows)) rows h.0, delete_ids-take n rows h.1)

  -- What a peek and the deletion of the peeked batch leave.
  peek_rows-delete :
      {E : Type 0} (loads : Payload → Option E) (rs rows : List (Row Payload))
      → let (out, rows') = peek_rows loads rs rows in
        delete_ids (map (λ e. e.0) out) rows' ≡ delete_ids (map key rs) rows
  unfolding peek_rows
  peek_rows-delete loads [] rows = refl
  peek_rows-delete loads (r ∷ rs) rows = elim (Option-cases (loads r.payload)) [
    | inl e ↦
        rw (e, peek_rows)
          (peek_rows-delete loads rs (delete_ids (r.id ∷ []) rows)
            ∙ sym (delete_ids-back r.id (map key rs) rows))
    | inr (ev, e) ↦
        rw (e, peek_rows)
          (delete_ids-front r.id (map (λ e. e.0) (peek_rows loads rs rows).0)
              (peek_rows loads rs rows).1
            ∙ ap (delete_ids (r.id ∷ [])) (peek_rows-delete loads rs rows)
            ∙ sym (delete_ids-front r.id (map key rs) rows))
  ]

  -- The ids rise, all below the next one, and there are at most `max_rows` rows.
  pub record IsValid (max_rows : ℕ) (t : Table Payload) : Type 0 where
    pub ascending : Ascending key t.rows
    pub below : All (λ r. r.id < t.next_id) t.rows
    pub capped : length t.rows ≤ max_rows

  Ascending-snoc :
      (rows : List (Row Payload)) (r : Row Payload)
      → Ascending key rows
      → All (λ x. x.id < r.id) rows
      → Ascending key (rows ++ r ∷ [])
  Ascending-snoc [] r h l = (tt, tt)
  Ascending-snoc (x ∷ rows) r h l =
      (All-append _ rows (r ∷ []) h.0 (l.0, tt), Ascending-snoc rows r h.1 l.1)

  Ascending-drop :
      (n : ℕ) (rows : List (Row Payload)) → Ascending key rows → Ascending key (drop n rows)
  Ascending-drop zero rows h = h
  Ascending-drop (suc n) [] h = tt
  Ascending-drop (suc n) (r ∷ rows) h = Ascending-drop n rows h.1

  All-drop :
      (P : Row Payload → Type 0) (n : ℕ) (rows : List (Row Payload))
      → All P rows
      → All P (drop n rows)
  All-drop P zero rows h = h
  All-drop P (suc n) [] h = tt
  All-drop P (suc n) (r ∷ rows) h = All-drop P n rows h.1

  abbrev new_row : Payload → Table Payload → Row Payload
  new_row p t = record { id = t.next_id; payload = p; attempts = 0 }

  enqueue_table-rows :
      (max_rows : ℕ) (p : Payload) (t : Table Payload)
      → IsValid max_rows t
      → (enqueue_table max_rows p t).rows
        ≡ drop (length t.rows + 1 - max_rows) (t.rows ++ new_row p t ∷ [])
  unfolding enqueue_table
  enqueue_table-rows max_rows p t v =
      let inserted = t.rows ++ new_row p t ∷ [] in
      let rising = Ascending-snoc t.rows (new_row p t) v.ascending v.below in
      let count : length inserted ≡ length t.rows + 1 = length-append t.rows _ ∙ omega arith in
      elim (Bool-cases (ltb max_rows (length inserted))) [
        | inl e ↦
            rw (e, sorted-Ascending key inserted rising, count)
              (delete_ids-take (length t.rows + 1 - max_rows) inserted rising)
        | inr e ↦
            let none_over : length t.rows + 1 - max_rows ≡ 0 = ground arith in
            rw (e, none_over) refl
      ]

  enqueue_table-IsValid :
      (max_rows : ℕ) (p : Payload) (t : Table Payload)
      → IsValid max_rows t
      → IsValid max_rows (enqueue_table max_rows p t)
  enqueue_table-IsValid max_rows p t v =
      let inserted = t.rows ++ new_row p t ∷ [] in
      let over = length t.rows + 1 - max_rows in
      let rising = Ascending-snoc t.rows (new_row p t) v.ascending v.below in
      let rows = enqueue_table-rows max_rows p t v in
      record {
        ascending = rw rows (Ascending-drop over inserted rising);
        below = rw rows (
            All-drop _ over inserted (
              unfold enqueue_table in
              All-append _ t.rows (new_row p t ∷ [])
                (All-map _ _ t.rows (λ r l. omega arith) v.below) (omega arith, tt)));
        capped =
            rw rows
              (rw (length-drop over inserted, length-append t.rows) (omega (arith, v.capped)));
      }

  -- An enqueue on an open queue succeeds, appends the row with the next id and drops the oldest rows
  -- that are over the cap, so that the ids keep rising and the cap holds.
  pub enqueue-newest :
      (q : OfflineQueue Payload) (t : Table Payload) (p : Payload)
      → q.conn ≡ some t
      → IsValid q.max_rows t
      → (t' : Table Payload) × (enqueue p q ≡ some (record q { conn = some t' }))
        × (t'.rows
            ≡ drop
                (length t.rows + 1 - q.max_rows)
                (t.rows ++ record { id = t.next_id; payload = p; attempts = 0 } ∷ []))
        × IsValid q.max_rows t'
  unfolding enqueue
  enqueue-newest q t p open_ v = (
    enqueue_table q.max_rows p t,
    simp open_,
    enqueue_table-rows q.max_rows p t v,
    enqueue_table-IsValid q.max_rows p t v,
  )

  -- The rows of a batch that decode, in their order.
  abbrev pub decoded : {E : Type 0} → (Payload → Option E) → List (Row Payload) → List (ℕ × E)
  decoded loads [] = []
  decoded loads (r ∷ rs) = elim (loads r.payload) [
    | none ↦ decoded loads rs
    | some e ↦ (r.id, e) ∷ decoded loads rs
  ]

  peek_rows-decoded :
      {E : Type 0} (loads : Payload → Option E) (rs rows : List (Row Payload))
      → (peek_rows loads rs rows).0 ≡ decoded loads rs
  unfolding peek_rows
  peek_rows-decoded loads [] rows = refl
  peek_rows-decoded loads (r ∷ rs) rows = elim (Option-cases (loads r.payload)) [
    | inl e ↦ rw (e, peek_rows, decoded) (peek_rows-decoded loads rs (delete_ids (r.id ∷ []) rows))
    | inr (ev, e) ↦
        rw (e, peek_rows, decoded) (ap (λ l. (r.id, ev) ∷ l) (peek_rows-decoded loads rs rows))
  ]

  delete-rows :
      (ids : List ℕ) (q : OfflineQueue Payload) (t : Table Payload)
      → delete ids (record q { conn = some t })
        ≡ some (record q { conn = some (record t { rows = delete_ids ids t.rows }) })
  unfolding delete
  delete-rows [] q t = rw (delete_ids-nil t.rows) refl
  delete-rows (id ∷ ids) q t = refl

  -- A peek at an open queue hands out those of the oldest `limit` rows whose payload decodes, oldest
  -- first; deleting what it handed out leaves exactly the rows behind those `limit`, so corrupt rows
  -- are gone as well.
  pub peek_batch-delete :
      {E : Type 0} (loads : Payload → Option E) (limit : ℕ) (q : OfflineQueue Payload)
      (t : Table Payload)
      → q.conn ≡ some t
      → IsValid q.max_rows t
      → (out : List (ℕ × E)) × (q' : OfflineQueue Payload) × (peek_batch loads limit q
          ≡ some (out, q'))
        × (out ≡ decoded loads (take limit t.rows))
        × (delete (map (λ e. e.0) out) q'
            ≡ some (record q { conn = some (record t { rows = drop limit t.rows }) }))
  unfolding peek_batch
  peek_batch-delete loads limit q t open_ v =
      let oldest = take limit t.rows in
      let found = peek_rows loads oldest t.rows in
      let fixed = sorted-Ascending key t.rows v.ascending in
      (
        found.0,
        record q { conn = some (record t { rows = found.1 }) },
        simp (open_, fixed),
        peek_rows-decoded loads oldest t.rows,
        delete-rows (map (λ e. e.0) found.0) q (record t { rows = found.1 })
            ∙ ap (λ rows. some (record q { conn = some (record t { rows = rows }) }))
                (peek_rows-delete loads oldest t.rows ∙ delete_ids-take limit t.rows v.ascending),
      )
