-- ===== src/Whittle/Listing.antt =====
-- crates/gz-engine-whittle/src/rules.rs: how many candidates the enumeration gives, which rules they
-- take, and that its set of keys keeps each of them from standing twice in the list.
use graphzero.Base.{
  ℕ, zero, suc, ◌+◌, ◌≤◌, ◌≡◌, refl, sym, ◌∙◌, subst, inl, inr, Bool, true, false, not, ◌&&◌, ◌||◌,
  Option, none, some, List, [], ◌∷◌, ◌++◌, ltb, leb, length, length-append, All, All-append,
  All-map, Bool-cases, arith,
}
use graphzero.Base.Bytes.{same}
use graphzero.Base.Result.{ok, ◌>>=◌, >>=-eq-ok}
use graphzero.Whittle.Graph.{GraphBody}
use graphzero.Whittle.RuleTable.{
  RuleId, as_u16, reverse_constant_folding_rule, replacement_extra_nodes,
}
use graphzero.Whittle.Rules.{RawCandidate}
use graphzero.Whittle.Candidates.{Request, forward_requests, inverse_requests}
use graphzero.Whittle.Builder.{
  Builder, is_full, max_matched, candidate_of, candidate_key, contains_key, push, add, add_all,
  add_roots, enumerate_graph_limited,
}

-- No more than the limit, if there is one.
abbrev pub Within : Option ℕ → List RawCandidate → Type 0
Within none items = Unit
Within (some limit) items = length items ≤ limit

abbrev pub NoRepeats : List RawCandidate → Type 0
NoRepeats [] = Unit
NoRepeats (c ∷ items) = All (λ d. ¬ (c ≡ d)) items × NoRepeats items

-- The candidate's rule, which is of reverse constant folding only where those are included.
abbrev pub Wanted : Bool → RawCandidate → Type 0
Wanted include c =
    (rule : RuleId) × (c.rule_id ≡ as_u16 rule)
    × ((include || not (reverse_constant_folding_rule rule)) ≡ true)

NoRepeats-append :
    (items : List RawCandidate) (c : RawCandidate)
    → NoRepeats items
    → All (λ d. ¬ (d ≡ c)) items
    → NoRepeats (items ++ (c ∷ []))
NoRepeats-append [] c h new = (tt, tt)
NoRepeats-append (d ∷ items) c h new =
    (All-append (λ e. ¬ (d ≡ e)) items (c ∷ []) h.0 (new.0, tt), NoRepeats-append items c h.1 new.1)

same_refl : (xs : List ℕ) → same xs xs ≡ true
unfolding same
same_refl [] = refl
same_refl (x ∷ xs) = ground (arith, same_refl xs)

-- Every item's key is in the set.
abbrev Seen : List (List ℕ) → RawCandidate → Type 0
Seen seen c = contains_key (candidate_key c) seen ≡ true

Seen-new : (seen : List (List ℕ)) (c : RawCandidate) → Seen (candidate_key c ∷ seen) c
unfolding contains_key
Seen-new seen c = rw (same_refl (candidate_key c)) refl

Seen-more :
    (key : List ℕ) (seen : List (List ℕ)) (c : RawCandidate) → Seen seen c → Seen (key ∷ seen) c
unfolding contains_key
Seen-more key seen c h = ground (arith, h)

Within-append :
    (limit : Option ℕ) (items : List RawCandidate) (c : RawCandidate)
    → elim limit [ none ↦ false | some n ↦ leb n (length items) ] ≡ false
    → Within limit (items ++ (c ∷ []))
Within-append none items c free = tt
Within-append (some n) items c free = ground (arith, free, length-append items (c ∷ []))

add_roots-next :
    (requests : ℕ → List Request) (rounds root : ℕ) (b : Builder)
    → is_full b ≡ false
    → add_roots requests (suc rounds) root b
      ≡ (add_all b (requests root) >>= add_roots requests rounds (suc root))
unfolding add_roots
add_roots-next requests rounds root b free = rw (free, add_roots) refl

none_yet : (limit : Option ℕ) → Within limit []
none_yet none = tt
none_yet (some n) = omega arith

module _ (include : Bool) (limit : Option ℕ) where
  record Listed (b : Builder) : Type 0 where
    flag : b.include_reverse_constant_folding ≡ include
    bound : b.limit ≡ limit
    within : Within b.limit b.items
    no_repeats : NoRepeats b.items
    wanted : All (Wanted include) b.items
    keyed : All (Seen b.seen) b.items

  push-Listed :
      (b : Builder) (c : RawCandidate)
      → is_full b ≡ false
      → Wanted include c
      → Listed b
      → Listed (push b c)
  unfolding push is_full
  push-Listed b c free wanted l = elim (Bool-cases (contains_key (candidate_key c) b.seen)) [
    | inl old ↦ rw old l
    | inr fresh ↦ rw fresh (record {
      flag = l.flag;
      bound = l.bound;
      within = Within-append b.limit b.items c free;
      no_repeats =
          NoRepeats-append b.items c l.no_repeats
            (All-map (Seen b.seen) (λ d. ¬ (d ≡ c)) b.items (λ d known e. cc) l.keyed);
      wanted = All-append (Wanted include) b.items (c ∷ []) l.wanted (wanted, tt);
      keyed =
          All-append (Seen (candidate_key c ∷ b.seen)) b.items (c ∷ [])
            (All-map (Seen b.seen) (Seen (candidate_key c ∷ b.seen)) b.items
              (Seen-more (candidate_key c) b.seen) l.keyed)
            (Seen-new b.seen c, tt);
    })
  ]

  push_wanted :
      (b : Builder) (r : Request)
      → is_full b ≡ false
      → (not b.include_reverse_constant_folding && reverse_constant_folding_rule r.rule) ≡ false
      → Listed b
      → Listed (push b (candidate_of r))
  push_wanted b r free out l =
      push-Listed b (candidate_of r) free (r.rule, refl, ground (arith, out, l.flag)) l

  add-Listed : (b b' : Builder) (r : Request) → add b r ≡ ok b' → Listed b → Listed b'
  unfolding add
  add-Listed b b' r e l = elim (Bool-cases (is_full b)) [
    | inl full ↦ subst Listed (ground (arith, e, full)) l
    | inr free ↦
        elim (Bool-cases
          (not b.include_reverse_constant_folding && reverse_constant_folding_rule r.rule)) [
            | inl out ↦ subst Listed (ground (arith, e, free, out)) l
            | inr wanted ↦
                elim (Bool-cases (ltb b.capacity (b.nodes + replacement_extra_nodes r.rule))) [
                  | inl large ↦ subst Listed (ground (arith, e, free, wanted, large)) l
                  | inr room ↦ elim (Bool-cases (ltb max_matched (length r.rest + 1))) [
                    | inl long ↦ absurd (ground (arith, e, free, wanted, room, long))
                    | inr short ↦
                        subst Listed (ground (arith, e, free, wanted, room, short))
                          (push_wanted b r free wanted l)
                  ]
                ]
          ]
  ]

  add_all-Listed :
      (requests : List Request) (b b' : Builder) → add_all b requests ≡ ok b' → Listed b → Listed b'
  unfolding add_all
  add_all-Listed [] b b' e l = subst Listed (cc) l
  add_all-Listed (r ∷ requests) b b' e l =
      let (b1, e1, rest) = >>=-eq-ok (add b r) (λ b1. add_all b1 requests) e in
      add_all-Listed requests b1 b' rest (add-Listed b b1 r e1 l)

  add_roots-Listed :
      (requests : ℕ → List Request) (rounds root : ℕ) (b b' : Builder)
      → add_roots requests rounds root b ≡ ok b'
      → Listed b
      → Listed b'
  unfolding add_roots
  add_roots-Listed requests zero root b b' e l = subst Listed (cc) l
  add_roots-Listed requests (suc rounds) root b b' e l = elim (Bool-cases (is_full b)) [
    | inl full ↦ subst Listed (ground (arith, e, full)) l
    | inr free ↦
        let (b1, e1, rest) =
          >>=-eq-ok (add_all b (requests root)) (add_roots requests rounds (suc root))
            (sym (add_roots-next requests rounds root b free) ∙ e) in
        add_roots-Listed requests rounds (suc root) b1 b' rest
          (add_all-Listed (requests root) b b1 e1 l)
  ]

-- Whatever the graph, the enumeration gives no more candidates than its limit, none of them twice, and
-- each under the number of a rule, which is of reverse constant folding only if those are included.
pub enumerate_graph_limited-Within :
    (g : GraphBody) (include : Bool) (limit : Option ℕ) (items : List RawCandidate)
    → enumerate_graph_limited g include limit ≡ ok items
    → Within limit items × NoRepeats items × All (Wanted include) items
unfolding enumerate_graph_limited
enumerate_graph_limited-Within g include limit items e =
    let (b1, e1, rest) = >>=-eq-ok (add_roots (forward_requests g) (length g.op) 0 start) _ e in
    let (b2, e2, last) = >>=-eq-ok (add_roots (inverse_requests g) (length g.op) 0 b1) _ rest in
    let l1 =
      add_roots-Listed include limit (forward_requests g) (length g.op) 0 start b1 e1 (record {
        flag = refl;
        bound = refl;
        within = none_yet limit;
        no_repeats = tt;
        wanted = tt;
        keyed = tt;
      }) in
    let l2 = add_roots-Listed include limit (inverse_requests g) (length g.op) 0 b1 b2 e2 l1 in
    let same : b2.items ≡ items = cc in
    subst (λ xs. Within limit xs × NoRepeats xs × All (Wanted include) xs) same
      (subst (λ n. Within n b2.items) l2.bound l2.within, l2.no_repeats, l2.wanted)
  where
    start : Builder
    start = record {
      include_reverse_constant_folding = include;
      capacity = g.capacity;
      nodes = length g.op;
      limit = limit;
      items = [];
      seen = [];
    }
