-- ===== src/Whittle/Enumerate.antt =====
-- crates/gz-engine-whittle/src/rules.rs: the enumeration never fails, and each candidate that it gives
-- can be applied and keeps what the graph computes.
use mathlib.Core.Path.{fun_ext}
use graphzero.Base.{
  ℕ, zero, suc, ◌+◌, ◌<◌, ◌≤◌, ◌≡◌, refl, ap, ◌∙◌, subst, inl, inr, Bool, false, not, ◌&&◌, Option,
  some, List, [], ◌∷◌, ltb, length, get_elem?, All, All-append, All-map, All-get_elem?, Bool-cases,
  arith,
}
use graphzero.Base.Result.{ok}
use graphzero.Whittle.Graph.{GraphBody, no_node}
use graphzero.Whittle.Graph.Meaning.{Valuation, Solves, WellFormed, Preserves}
use graphzero.Whittle.RuleTable.{reverse_constant_folding_rule, replacement_extra_nodes}
use graphzero.Whittle.Rules.{RawCandidate, matched_at, apply_graph}
use graphzero.Whittle.Rules.Meaning.{rule_value}
use graphzero.Whittle.Candidates.{Request, forward_requests, inverse_requests}
use graphzero.Whittle.Candidates.Facts.{Good}
use graphzero.Whittle.Candidates.Requests.{forward_requests-Good, inverse_requests-Good}
use graphzero.Whittle.Builder.{
  Builder, is_full, padded, max_matched, candidate_of, candidate_key, contains_key, push, add,
  add_all, add_roots, enumerate_graph_limited,
}
use graphzero.Whittle.Rewrite.{Sound, apply_graph_lem}

matched_at-padded :
    (size : ℕ) (xs : List ℕ) (k : ℕ)
    → length xs ≤ size
    → matched_at (padded size xs) k ≡ matched_at xs k
unfolding padded
matched_at-padded zero [] k l = refl
matched_at-padded zero (x ∷ xs) k l = absurd (omega (arith, l))
matched_at-padded (suc size) [] zero l = refl
matched_at-padded (suc size) [] (suc k) l = matched_at-padded size [] k (omega arith)
matched_at-padded (suc size) (x ∷ xs) zero l = refl
matched_at-padded (suc size) (x ∷ xs) (suc k) l = matched_at-padded size xs k (omega (arith, l))

All-padded :
    (n size : ℕ) (xs : List ℕ) → 0 < n → All (λ c. c < n) xs → All (λ c. c < n) (padded size xs)
unfolding padded
All-padded n zero xs l h = tt
All-padded n (suc size) [] l h = (l, All-padded n size [] l h)
All-padded n (suc size) (x ∷ xs) l h = (h.0, All-padded n size xs l h.1)

module _ (g : GraphBody) where
  -- A good request for which the graph has room makes a sound candidate.
  Good-Sound :
      (r : Request)
      → Good g r
      → length g.op + replacement_extra_nodes r.rule ≤ g.capacity
      → Sound g (candidate_of r)
  Good-Sound r h room =
      let short : length (r.root ∷ r.rest) ≤ max_matched = omega (arith, h.short) in
      let same : (λ k. matched_at (padded max_matched (r.root ∷ r.rest)) k)
          ≡ (λ k. matched_at (r.root ∷ r.rest) k) =
        fun_ext (λ k. matched_at-padded max_matched (r.root ∷ r.rest) k short) in
      record {
        rule = r.rule;
        known = refl;
        root_in = h.root_in;
        matched_in =
            All-padded (length g.op) max_matched (r.root ∷ r.rest) (omega (arith, h.root_in))
              (h.root_in, h.rest_in);
        room = room;
        valued = λ x v s.
            ap (λ (m : ℕ → ℕ). rule_value r.rule (v r.root) (λ k. v (m k))) same ∙ h.valued x v s;
      }

  record Held (b : Builder) : Type 0 where
    capacity : b.capacity ≡ g.capacity
    nodes : b.nodes ≡ length g.op
    sound : All (Sound g) b.items

  push_good : (b : Builder) (c : RawCandidate) → Sound g c → Held b → Held (push b c)
  unfolding push
  push_good b c h held = elim (Bool-cases (contains_key (candidate_key c) b.seen)) [
    | inl old ↦ rw old held
    | inr fresh ↦ rw fresh (record {
      capacity = held.capacity;
      nodes = held.nodes;
      sound = All-append (Sound g) b.items (c ∷ []) held.sound (h, tt);
    })
  ]

  -- A good request never fails, and what is collected stays sound.
  add-Good :
      (b : Builder) (r : Request) → Good g r → Held b → (b' : Builder) × (add b r ≡ ok b') × Held b'
  unfolding add
  add-Good b r h held = elim (Bool-cases (is_full b)) [
    | inl full ↦ (b, rw full refl, held)
    | inr free ↦
        elim (Bool-cases
          (not b.include_reverse_constant_folding && reverse_constant_folding_rule r.rule)) [
            | inl out ↦ (b, rw (free, out) refl, held)
            | inr wanted ↦
                elim (Bool-cases (ltb b.capacity (b.nodes + replacement_extra_nodes r.rule))) [
                  | inl large ↦ (b, rw (free, wanted, large) refl, held)
                  | inr room ↦ (
                    push b (candidate_of r),
                    rw (free, wanted, room, short_enough) refl,
                    push_good b (candidate_of r)
                        (Good-Sound r h (ground (arith, room, held.capacity, held.nodes))) held,
                  )
                ]
          ]
  ]
    where
      short_enough : ltb max_matched (length r.rest + 1) ≡ false
      short_enough = ground (arith, h.short)

  add_all-Good :
      (b : Builder) (requests : List Request)
      → All (Good g) requests
      → Held b
      → (b' : Builder) × (add_all b requests ≡ ok b') × Held b'
  unfolding add_all
  add_all-Good b [] h held = (b, refl, held)
  add_all-Good b (r ∷ requests) h held =
      let (b1, e1, held1) = add-Good b r h.0 held in
      let (b2, e2, held2) = add_all-Good b1 requests h.1 held1 in (b2, rw (e1, e2) refl, held2)

  add_roots-Good :
      (requests : ℕ → List Request) (rounds root : ℕ) (b : Builder)
      → ((i : ℕ) → i < length g.op → All (Good g) (requests i))
      → root + rounds ≤ length g.op
      → Held b
      → (b' : Builder) × (add_roots requests rounds root b ≡ ok b') × Held b'
  unfolding add_roots
  add_roots-Good requests zero root b good l held = (b, refl, held)
  add_roots-Good requests (suc rounds) root b good l held =
      let (b1, e1, held1) = add_all-Good b (requests root) (good root (omega (arith, l))) held in
      let (b2, e2, held2) =
        add_roots-Good requests rounds (suc root) b1 good (omega (arith, l)) held1 in
      elim (Bool-cases (is_full b)) [
        | inl full ↦ (b, rw (full, add_roots) refl, held)
        | inr free ↦ (b2, rw (free, e1, add_roots) e2, held2)
      ]

  -- Enumeration never fails, whatever the limit, and its candidates are sound.
  enumerate-Sound :
      (include : Bool) (limit : Option ℕ)
      → (items : List RawCandidate) × (enumerate_graph_limited g include limit ≡ ok items)
        × All (Sound g) items
  unfolding enumerate_graph_limited
  enumerate-Sound include limit =
      let (b1, e1, held1) =
        add_roots-Good (forward_requests g) (length g.op) 0
          (record {
            include_reverse_constant_folding = include;
            capacity = g.capacity;
            nodes = length g.op;
            limit = limit;
            items = [];
            seen = [];
          })
          (forward_requests-Good g) (omega arith)
          (record { capacity = refl; nodes = refl; sound = tt }) in
      let (b2, e2, held2) =
        add_roots-Good (inverse_requests g) (length g.op) 0 b1 (inverse_requests-Good g)
          (omega arith) held1 in
      (b2.items, rw (e1, e2) refl, held2.sound)

-- The candidates of a well-formed graph are enumerated with no error, whatever the limit and the flag,
-- and each of them is applied with no error to give a well-formed graph of the same arity and capacity.
pub candidates_apply :
    (g : GraphBody) (include : Bool) (limit : Option ℕ)
    → WellFormed g
    → g.capacity ≤ no_node
    → (items : List RawCandidate) × (enumerate_graph_limited g include limit ≡ ok items)
      × All
          (λ c.
            (g' : GraphBody) × (apply_graph g c ≡ ok g')
            × WellFormed g'
            × (g'.arity ≡ g.arity)
            × (g'.capacity ≡ g.capacity))
          items
candidates_apply g include limit w small =
    let (items, e, sound) = enumerate-Sound g include limit in
    (
      items,
      e,
      All-map (Sound g)
          (λ c.
            (g' : GraphBody) × (apply_graph g c ≡ ok g')
            × WellFormed g'
            × (g'.arity ≡ g.arity)
            × (g'.capacity ≡ g.capacity))
          items
          (λ c s.
            let (g', a, p) = apply_graph_lem g c w s small in
            (g', a, p.well_formed, p.same_arity, p.same_capacity))
          sound,
    )

-- What an enumerated candidate makes of a graph.
pub candidate-Preserves :
    (g g' : GraphBody) (include : Bool) (limit : Option ℕ) (items : List RawCandidate) (k : ℕ)
    (c : RawCandidate)
    → WellFormed g
    → g.capacity ≤ no_node
    → enumerate_graph_limited g include limit ≡ ok items
    → get_elem? items k ≡ some c
    → apply_graph g c ≡ ok g'
    → Preserves g g'
candidate-Preserves g g' include limit items k c w small e at applied =
    let (items', e', sound) = enumerate-Sound g include limit in
    let same : items' ≡ items = cc in
    let s = All-get_elem? (Sound g) items k c at (subst (All (Sound g)) same sound) in
    let (g1, a, p) = apply_graph_lem g c w s small in
    let same' : g1 ≡ g' = cc in subst (Preserves g) same' p

-- An enumerated candidate keeps what a well-formed graph computes: each solution of the graph gives a
-- solution of the rewritten graph at the same inputs and with the same output.
pub candidate_keeps_solutions :
    (g g' : GraphBody) (include : Bool) (limit : Option ℕ) (items : List RawCandidate) (k : ℕ)
    (c : RawCandidate) (x v : Valuation)
    → WellFormed g
    → g.capacity ≤ no_node
    → enumerate_graph_limited g include limit ≡ ok items
    → get_elem? items k ≡ some c
    → apply_graph g c ≡ ok g'
    → Solves g x v
    → (v' : Valuation) × Solves g' x v' × (v' g'.output_node ≡ v g.output_node)
candidate_keeps_solutions g g' include limit items k c x v w small e at applied s =
    (candidate-Preserves g g' include limit items k c w small e at applied).solved x v s
