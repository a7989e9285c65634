-- ===== src/Journeys/Links.antt =====
-- The graph of connections, and the candidates that the walk takes from it.
use nightfury.Prelude.{
  ℕ, ◌+◌, ◌≤◌, ◌<◌, List, [], ◌∷◌, ◌≡◌, ◌⊎◌, refl, sym, ap, ◌∙◌, inl, inr, Option, some, true,
  false, In, In-cons, here, there, In-append, keep, In-keep, elem, ◌==◌, ==_iff, arith, Bool-cases,
}
use mathlib.Core.Path.{subst}
use nightfury.Prelude.Dict.{Dict, lookup, insert, has, get_or, lookup-insert, has-insert}
use nightfury.Prelude.Sort.{sorted-In}
use nightfury.Journeys.{
  CameraConnection, Event, Neighbours, add_edge, add_connections, adjacency, by_id_from, follows,
  head, candidate, normalise_pair,
}

-- A connection of the site between two cameras, in either direction.
pub record Joins (rows : List CameraConnection) (site_id a b : ℕ) : Type 0 where
  pub connection : CameraConnection
  pub listed : In connection rows
  pub at_site : connection.site_id ≡ site_id
  pub ends :
      ((connection.camera_a_id ≡ a) × (connection.camera_b_id ≡ b))
      ⊎ ((connection.camera_b_id ≡ a) × (connection.camera_a_id ≡ b))

abbrev edges : Dict Neighbours → ℕ → Neighbours
edges graph a = get_or [] (lookup a graph)

add_edge-In :
    (a b : ℕ) (label : Option ℕ) (graph : Dict Neighbours) (x : ℕ) {e : ℕ × Option ℕ}
    → In e (edges (add_edge a b label graph) x)
    → In e (edges graph x) ⊎ ((a ≡ x) × (b ≡ e.0))
unfolding add_edge
add_edge-In a b label graph x m = elim (Bool-cases (x == a)) [
  | inr f ↦ inl (rw (lookup-insert, f) at m)
  | inl f ↦
      let same : x ≡ a = (==_iff x a).0 f in
      elim (In-append (edges graph a) (rw (lookup-insert, f) at m)) [
        | inl old ↦ inl (rw same old)
        | inr new ↦ elim (In-cons new) [
          | inl eq ↦ inr (sym same, ap (λ p. p.0) eq)
          | inr n ↦ elim n [ ]
        ]
      ]
]

add_connections-In :
    (rows : List CameraConnection) (graph : Dict Neighbours) (x : ℕ) {e : ℕ × Option ℕ}
    → In e (edges (add_connections rows graph) x)
    → In e (edges graph x)
      ⊎ ((c : CameraConnection) × In c rows
          × (((c.camera_a_id ≡ x) × (c.camera_b_id ≡ e.0))
              ⊎ ((c.camera_b_id ≡ x) × (c.camera_a_id ≡ e.0))))
unfolding add_connections
add_connections-In [] graph x m = inl m
add_connections-In (c ∷ rows) graph x m = elim (add_connections-In rows _ x m) [
  | inr (d, n, ends) ↦ inr (d, there n, ends)
  | inl n ↦ elim (add_edge-In c.camera_b_id c.camera_a_id c.label _ x n) [
    | inr ends ↦ inr (c, here, inr ends)
    | inl k ↦ elim (add_edge-In c.camera_a_id c.camera_b_id c.label graph x k) [
      | inr ends ↦ inr (c, here, inl ends)
      | inl old ↦ inl old
    ]
  ]
]

pub adjacency-Joins :
    (rows : List CameraConnection) (site_id a : ℕ) {e : ℕ × Option ℕ}
    → In e (edges (adjacency rows site_id) a)
    → Joins rows site_id a e.0
unfolding adjacency lookup
adjacency-Joins rows site_id a m =
    elim (add_connections-In (keep (λ c. c.site_id == site_id) rows) [] a m) [
      | inl none_left ↦ elim none_left [ ]
      | inr (c, n, ends) ↦
          let (listed, at) = In-keep (λ c. c.site_id == site_id) rows n in
          record {
            connection = c;
            listed = listed;
            at_site = (==_iff c.site_id site_id).0 at;
            ends = ends;
          }
    ]

-- The keys of `by_id` are the neighbours.
has-by_id_from :
    (es : Neighbours) (d : Dict (Option ℕ)) (k : ℕ)
    → has k (by_id_from es d) ≡ true
    → (has k d ≡ true) ⊎ ((label : Option ℕ) × In (k, label) es)
unfolding by_id_from
has-by_id_from [] d k h = inl h
has-by_id_from ((c, label) ∷ es) d k h = elim (has-by_id_from es (insert c label d) k h) [
  | inr (l, m) ↦ inr (l, there m)
  | inl set ↦ elim (Bool-cases (k == c)) [
    | inl e ↦ inr (label, rw ((==_iff k c).0 e) here)
    | inr e ↦ inl (sym (rw (has-insert, e) refl) ∙ set)
  ]
]

-- What the walk knows of the event that it goes to.
pub record Follows (events : List Event) (time window : ℕ) (seen : List ℕ) (ns : Neighbours)
    (e : Event) : Type 0 where
  pub known : In e events
  pub label : Option ℕ
  pub neighbour : In (e.camera_id, label) ns
  pub later : time < e.timestamp
  pub soon : e.timestamp ≤ time + window
  pub unseen : elem e.id seen ≡ false

head-In : (es : List Event) (e : Event) → head es ≡ some e → In e es
head-In [] e h = cc
head-In (x ∷ es) e h = let same : x ≡ e = cc in subst (λ y. In y (x ∷ es)) same here

pub candidate-Follows :
    (events : List Event) (time window : ℕ) (seen : List ℕ) (ns : Neighbours) (e : Event)
    → candidate events (by_id_from ns []) seen time window ≡ some e
    → Follows events time window seen ns e
unfolding candidate has
candidate-Follows events time window seen ns e h =
    let by_id = by_id_from ns [] in
    let (m, q) =
      In-keep (follows by_id seen time window) events
        (sorted-In (λ x. x.timestamp) _ (head-In _ e h)) in
    let key : has e.camera_id by_id ≡ true = ground arith in
    elim (has-by_id_from ns [] e.camera_id key) [
      | inl nothing ↦ cc
      | inr (label, n) ↦ record {
        known = m;
        label = label;
        neighbour = n;
        later = ground arith;
        soon = ground arith;
        unseen = ground arith;
      }
    ]

pub normalise_pair-lt :
    (a b : ℕ) → (a == b) ≡ false → (normalise_pair a b).0 < (normalise_pair a b).1
unfolding normalise_pair
normalise_pair-lt a b h = ground arith
