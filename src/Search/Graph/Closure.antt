-- ===== src/Search/Graph/Closure.antt =====
-- What the walk over cross-references in search/indexer.py reaches.
use yadakchi.Prelude.{
  ◌≡◌, refl, sym, ◌∙◌, ◌↔◌, ◌⊎◌, inl, inr, ℕ, zero, suc, ◌+◌, ◌≤◌, ◌<◌, String, true, false, List,
  [], ◌∷◌, ◌++◌, arith, if◌then◌else◌, str_eq, str_eq_iff, str_eq_refl, Bool-cases, length,
  has_text, distinct,
}
use yadakchi.Search.Graph.{adjacent, visit_all, walk, endpoints, closure}

-- The codes that the seeds are connected to.
pub data IsConnected (edges : List (String × String)) (seeds : List String) : String → Type 0 where
  seed : (c : String) → has_text c seeds ≡ true → IsConnected edges seeds c
  step :
      (c d : String)
      → IsConnected edges seeds c
      → has_text d (adjacent edges c) ≡ true
      → IsConnected edges seeds d

-- Every text of the one list is in the other.
abbrev IsSubset : List String → List String → Type 0
IsSubset xs ys = (c : String) → has_text c xs ≡ true → has_text c ys ≡ true

has_text-append :
    (c : String) (xs ys : List String)
    → (has_text c (xs ++ ys) ≡ true) ↔ ((has_text c xs ≡ true) ⊎ (has_text c ys ≡ true))
has_text-append c [] ys = (inr, λ h. elim h [ inl e ↦ absurd (cc e) | inr e ↦ e ])
has_text-append c (x ∷ xs) ys = ground (arith, has_text-append c xs ys)

has_text-cons :
    (c x : String) (xs : List String)
    → (has_text c (x ∷ xs) ≡ true) ↔ ((x ≡ c) ⊎ (has_text c xs ≡ true))
has_text-cons c x xs = ground (arith, str_eq_iff x c)

has_text-distinct : (c : String) (xs : List String) → has_text c (distinct xs) ≡ has_text c xs
has_text-distinct c [] = refl
has_text-distinct c (x ∷ xs) = elim (Bool-cases (has_text x xs)) [
  | inl known ↦ rw known (ground (arith, has_text-distinct c xs, str_eq_iff x c, known))
  | inr new ↦ rw new (ground (arith, has_text-distinct c xs))
]

-- What the inner loop does to what is visited and to the queue.
record IsVisit (cs visited queue visited' queue' : List String) : Type 0 where
  kept : IsSubset visited visited'
  reached : IsSubset cs visited'
  source :
      (c : String)
      → has_text c visited' ≡ true
      → (has_text c visited ≡ true) ⊎ (has_text c cs ≡ true)
  waiting : IsSubset queue queue'
  fresh :
      (c : String)
      → has_text c visited' ≡ true
      → (has_text c visited ≡ true) ⊎ (has_text c queue' ≡ true)
  queued :
      (c : String) → has_text c queue' ≡ true → (has_text c queue ≡ true) ⊎ (has_text c cs ≡ true)

cons_right :
    (c x : String) (xs : List String) (A : Type 0)
    → A ⊎ (has_text c xs ≡ true)
    → A ⊎ (has_text c (x ∷ xs) ≡ true)
cons_right c x xs A (inl a) = inl a
cons_right c x xs A (inr h) = inr ((has_text-cons c x xs).1 (inr h))

visit_all-IsVisit :
    (cs visited queue : List String)
    → IsVisit cs visited queue (visit_all cs visited queue).0 (visit_all cs visited queue).1
unfolding visit_all
visit_all-IsVisit [] visited queue = record {
  kept = λ c h. h;
  reached = λ c h. absurd (cc h);
  source = λ c h. inl h;
  waiting = λ c h. h;
  fresh = λ c h. inl h;
  queued = λ c h. inl h;
}
visit_all-IsVisit (x ∷ cs) visited queue = elim (Bool-cases (has_text x visited)) [
  | inl known ↦
      let ih = visit_all-IsVisit cs visited queue in
      rw (visit_all, known)
        (record {
          kept = ih.kept;
          reached = λ c h. elim ((has_text-cons c x cs).0 h) [
            | inl e ↦ ih.kept c (rw e at known)
            | inr k ↦ ih.reached c k
          ];
          source = λ c h. cons_right c x cs (has_text c visited ≡ true) (ih.source c h);
          waiting = ih.waiting;
          fresh = ih.fresh;
          queued = λ c h. cons_right c x cs (has_text c queue ≡ true) (ih.queued c h);
        })
  | inr new ↦
      let ih = visit_all-IsVisit cs (x ∷ visited) (queue ++ x ∷ []) in
      rw (visit_all, new)
        (record {
          kept = λ c h. ih.kept c ((has_text-cons c x visited).1 (inr h));
          reached = λ c h. elim ((has_text-cons c x cs).0 h) [
            | inl e ↦ ih.kept c ((has_text-cons c x visited).1 (inl e))
            | inr k ↦ ih.reached c k
          ];
          source = λ c h. elim (ih.source c h) [
            | inl k ↦ elim ((has_text-cons c x visited).0 k) [
              | inl e ↦ inr ((has_text-cons c x cs).1 (inl e))
              | inr v ↦ inl v
            ]
            | inr k ↦ inr ((has_text-cons c x cs).1 (inr k))
          ];
          waiting = λ c h. ih.waiting c ((has_text-append c queue (x ∷ [])).1 (inl h));
          fresh = λ c h. elim (ih.fresh c h) [
            | inl k ↦ elim ((has_text-cons c x visited).0 k) [
              | inl e ↦ inr (
                  ih.waiting c
                    ((has_text-append c queue (x ∷ [])).1 (inr ((has_text-cons c x []).1 (inl e)))))
              | inr v ↦ inl v
            ]
            | inr k ↦ inr k
          ];
          queued = λ c h. elim (ih.queued c h) [
            | inl k ↦ elim ((has_text-append c queue (x ∷ [])).0 k) [
              | inl q ↦ inl q
              | inr k' ↦ elim ((has_text-cons c x []).0 k') [
                | inl e ↦ inr ((has_text-cons c x cs).1 (inl e))
                | inr none ↦ absurd (cc none)
              ]
            ]
            | inr k ↦ inr ((has_text-cons c x cs).1 (inr k))
          ];
        })
]

-- The nodes that are not visited, each as often as it is listed.
abbrev unvisited : List String → List String → ℕ
unvisited [] visited = 0
unvisited (n ∷ nodes) visited = (if has_text n visited then 0 else 1) + unvisited nodes visited

unvisited-cons-le :
    (nodes visited : List String) (x : String)
    → unvisited nodes (x ∷ visited) ≤ unvisited nodes visited
unvisited-cons-le [] visited x = omega arith
unvisited-cons-le (n ∷ nodes) visited x = ground (arith, unvisited-cons-le nodes visited x)

unvisited-cons-lt :
    (nodes visited : List String) (x : String)
    → has_text x nodes ≡ true
    → has_text x visited ≡ false
    → unvisited nodes (x ∷ visited) < unvisited nodes visited
unvisited-cons-lt [] visited x h new = absurd (cc h)
unvisited-cons-lt (n ∷ nodes) visited x h new = elim (Bool-cases (str_eq n x)) [
  | inl same ↦
      let e : n ≡ x = (str_eq_iff n x).0 same in
      rw (e, str_eq_refl x, new) (omega (arith, unvisited-cons-le nodes visited x))
  | inr other ↦
      let below : unvisited nodes (x ∷ visited) < unvisited nodes visited =
        unvisited-cons-lt nodes visited x (rw other at h) new in
      ground (arith, below, str_eq_iff n x, str_eq_iff x n)
]

length-snoc : (xs : List String) (x : String) → length (xs ++ x ∷ []) ≡ length xs + 1
length-snoc [] x = omega arith
length-snoc (y ∷ xs) x = omega (arith, length-snoc xs x)

-- The inner loop adds to the queue no more than it takes from the unvisited nodes.
visit_all-le :
    (nodes cs visited queue : List String)
    → IsSubset cs nodes
    → length (visit_all cs visited queue).1 + unvisited nodes (visit_all cs visited queue).0
      ≤ length queue + unvisited nodes visited
unfolding visit_all
visit_all-le nodes [] visited queue sub = omega arith
visit_all-le nodes (x ∷ cs) visited queue sub =
    let sub' : IsSubset cs nodes = λ c h. sub c ((has_text-cons c x cs).1 (inr h)) in
    elim (Bool-cases (has_text x visited)) [
      | inl known ↦ rw (visit_all, known) (visit_all-le nodes cs visited queue sub')
      | inr new ↦
          let fewer =
            unvisited-cons-lt nodes visited x (sub x ((has_text-cons x x cs).1 (inl refl))) new in
          let ih = visit_all-le nodes cs (x ∷ visited) (queue ++ x ∷ []) sub' in
          rw (visit_all, new) (omega (arith, fewer, ih, length-snoc queue x))
    ]

adjacent-IsSubset :
    (edges : List (String × String)) (code : String)
    → IsSubset (adjacent edges code) (endpoints edges)
unfolding adjacent
adjacent-IsSubset [] code c h = absurd (cc h)
adjacent-IsSubset ((a, b) ∷ es) code c h =
    let rest : has_text c (adjacent es code) ≡ true → has_text c (endpoints ((a, b) ∷ es)) ≡ true =
      λ k.
        (has_text-cons c a (b ∷ endpoints es)).1
          (inr ((has_text-cons c b (endpoints es)).1 (inr (adjacent-IsSubset es code c k)))) in
    elim (Bool-cases (str_eq a code)) [
      | inl p ↦ elim (Bool-cases (str_eq b code)) [
        | inl q ↦ ground (arith, rest, rw (adjacent, p, q) at h)
        | inr q ↦ ground (arith, rest, rw (adjacent, p, q) at h)
      ]
      | inr p ↦ elim (Bool-cases (str_eq b code)) [
        | inl q ↦ ground (arith, rest, rw (adjacent, p, q) at h)
        | inr q ↦ ground (arith, rest, rw (adjacent, p, q) at h)
      ]
    ]

-- What every step of the walk keeps: what is visited and waits no more has its neighbours visited.
abbrev IsExplored : List (String × String) → List String → List String → Type 0
IsExplored edges visited queue =
    (c : String)
    → has_text c visited ≡ true
    → (has_text c queue ≡ true) ⊎ IsSubset (adjacent edges c) visited

IsExplored-visit_all :
    (edges : List (String × String)) (code : String) (queue visited : List String)
    → IsExplored edges visited (code ∷ queue)
    → IsExplored edges
        (visit_all (adjacent edges code) visited queue).0
        (visit_all (adjacent edges code) visited queue).1
IsExplored-visit_all edges code queue visited h c v =
    let done = visit_all-IsVisit (adjacent edges code) visited queue in
    elim (done.fresh c v) [
      | inr waits ↦ inl waits
      | inl old ↦ elim (h c old) [
        | inr k ↦ inr (λ d m. done.kept d (k d m))
        | inl q ↦ elim ((has_text-cons c code queue).0 q) [
          | inl e ↦ inr (rw (← e) done.reached)
          | inr q' ↦ inl (done.waiting c q')
        ]
      ]
    ]

-- The walk keeps what is visited, and ends with every neighbour visited.
walk-closed :
    (fuel : ℕ) (edges : List (String × String)) (visited queue : List String)
    → length queue + unvisited (endpoints edges) visited < fuel
    → IsExplored edges visited queue
    → IsSubset visited (walk fuel edges visited queue)
      × ((c : String)
          → has_text c (walk fuel edges visited queue) ≡ true
          → IsSubset (adjacent edges c) (walk fuel edges visited queue))
unfolding walk
walk-closed zero edges visited queue enough h = absurd (omega arith)
walk-closed (suc fuel) edges visited [] enough h =
    (λ c v. v, λ c v. elim (h c v) [ inl q ↦ absurd (cc q) | inr k ↦ k ])
walk-closed (suc fuel) edges visited (code ∷ queue) enough h =
    let cs = adjacent edges code in
    let done = visit_all-IsVisit cs visited queue in
    let less = visit_all-le (endpoints edges) cs visited queue (adjacent-IsSubset edges code) in
    let (kept, closed) =
      walk-closed fuel edges (visit_all cs visited queue).0 (visit_all cs visited queue).1
        (omega (arith, less)) (IsExplored-visit_all edges code queue visited h) in
    (λ c v. kept c (done.kept c v), closed)

-- Whatever holds of the visited codes and of the neighbours of such codes, holds of what is reached.
walk-IsConnected :
    (edges : List (String × String)) (seeds : List String) (fuel : ℕ) (visited queue : List String)
    → ((c : String) → has_text c visited ≡ true → IsConnected edges seeds c)
    → ((c : String) → has_text c queue ≡ true → IsConnected edges seeds c)
    → (c : String) → has_text c (walk fuel edges visited queue) ≡ true
    → IsConnected edges seeds c
unfolding walk
walk-IsConnected edges seeds zero visited queue hv hq c h = hv c h
walk-IsConnected edges seeds (suc fuel) visited [] hv hq c h = hv c h
walk-IsConnected edges seeds (suc fuel) visited (code ∷ queue) hv hq c h =
    let done = visit_all-IsVisit (adjacent edges code) visited queue in
    let near : (d : String) → has_text d (adjacent edges code) ≡ true → IsConnected edges seeds d =
      λ d m. step code d (hq code ((has_text-cons code code queue).1 (inl refl))) m in
    walk-IsConnected edges seeds fuel _ _
      (λ d v. elim (done.source d v) [ inl k ↦ hv d k | inr m ↦ near d m ])
      (λ d q. elim (done.queued d q) [
        | inl k ↦ hq d ((has_text-cons d code queue).1 (inr k))
        | inr m ↦ near d m
      ])
      c h

unvisited-le-length : (nodes visited : List String) → unvisited nodes visited ≤ length nodes
unvisited-le-length [] visited = omega arith
unvisited-le-length (n ∷ nodes) visited = ground (arith, unvisited-le-length nodes visited)

module _ (edges : List (String × String)) (seeds : List String) where
  abbrev begin : List String
  begin = distinct seeds

  closure-closed :
      IsSubset begin (closure edges seeds)
      × ((c : String)
          → has_text c (closure edges seeds) ≡ true
          → IsSubset (adjacent edges c) (closure edges seeds))
  unfolding closure
  closure-closed =
      walk-closed (suc (length begin + length (endpoints edges))) edges begin begin
        (omega (arith, unvisited-le-length (endpoints edges) begin)) (λ c v. inl v)

  IsConnected-reached :
      (c : String) → IsConnected edges seeds c → has_text c (closure edges seeds) ≡ true
  IsConnected-reached c (seed _ h) = closure-closed.0 c (has_text-distinct c seeds ∙ h)
  IsConnected-reached d (step c _ h m) = closure-closed.1 c (IsConnected-reached c h) d m

  -- The walk over the cross-references finds a code exactly if a chain of edges connects it to one
  -- of the seeds; so its fuel is enough.
  pub closure-IsConnected :
      (c : String) → (has_text c (closure edges seeds) ≡ true) ↔ IsConnected edges seeds c
  unfolding closure
  closure-IsConnected c = (
    walk-IsConnected edges seeds (suc (length begin + length (endpoints edges))) begin begin
        (λ d v. seed d (sym (has_text-distinct d seeds) ∙ v))
        (λ d v. seed d (sym (has_text-distinct d seeds) ∙ v)) c,
    IsConnected-reached c,
  )
