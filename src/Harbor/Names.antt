-- ===== src/Harbor/Names.antt =====
-- The names of service_harbor.c: what `update_name` does to the hash map.
use sdy.Base.{
  ==_refl, ==→eq, Bool-cases, List, Option, Option-cases, [], ap, arith, false, inl, inr, none,
  refl, some, some-eq_iff, subst, true, ℕ, ◌%◌, ◌/◌, ◌==◌, ◌^◌, ◌∙◌, ◌∷◌, ◌≡◌,
}
use sdy.Harbor.{MsgQueue}
use sdy.Harbor.Node.{
  KeyValue, Harbor, hash_size, name_hash, same_name, matches, chain_search, hash_search,
  hash_insert, chain_store, set_at, store_node, node_of, set_peer, is_down, dispatch_name_queue,
  dispatch_pending, update_name,
}

same_name_self : (a : List ℕ) → same_name a a ≡ true
unfolding same_name
same_name_self [] = refl
same_name_self (x ∷ xs) =
    rw (==_refl x)
      (elim (Bool-cases (x == 0)) [ inl e ↦ rw e refl | inr e ↦ rw (e, same_name_self xs) refl ])

-- Two names that match a third match each other.
same_name_join :
    (a b c : List ℕ) → same_name a b ≡ true → same_name a c ≡ true → same_name b c ≡ true
unfolding same_name
same_name_join [] [] c p q = q
same_name_join [] (y ∷ ys) c p q = absurd (cc)
same_name_join (x ∷ xs) [] c p q = absurd (cc)
same_name_join (x ∷ xs) (y ∷ ys) [] p q = absurd (cc)
same_name_join (x ∷ xs) (y ∷ ys) (z ∷ zs) p q = let ih = same_name_join xs ys zs in ground arith

module _ (h : ℕ) (name : List ℕ) where
  chain_search-matches :
      (nodes : List KeyValue) (node : KeyValue)
      → chain_search h name nodes ≡ some node
      → matches h name node ≡ true
  unfolding chain_search
  chain_search-matches [] node e = absurd (cc)
  chain_search-matches (n ∷ nodes) node e = elim (Bool-cases (matches h name n)) [
    | inl m ↦ subst (λ x. matches h name x ≡ true) ((some-eq_iff n node).0 (rw m at e)) m
    | inr m ↦ chain_search-matches nodes node (rw m at e)
  ]

  -- The stored node is found by its name.
  search_stored :
      (nodes : List KeyValue) (old new : KeyValue)
      → chain_search h name nodes ≡ some old
      → matches h name new ≡ true
      → chain_search h name (chain_store h name new nodes) ≡ some new
  unfolding chain_search chain_store
  search_stored [] old new e m = absurd (cc)
  search_stored (n ∷ nodes) old new e m = elim (Bool-cases (matches h name n)) [
    | inl t ↦ rw (t, m) refl
    | inr f ↦ rw (f, f) (search_stored nodes old new (rw f at e) m)
  ]

  -- Other names find what they found.
  search_other :
      (h2 : ℕ) (name2 : List ℕ) (nodes : List KeyValue) (old new : KeyValue)
      → chain_search h name nodes ≡ some old
      → matches h2 name2 old ≡ false
      → matches h2 name2 new ≡ false
      → chain_search h2 name2 (chain_store h name new nodes) ≡ chain_search h2 name2 nodes
  unfolding chain_search chain_store
  search_other h2 name2 [] old new e p q = refl
  search_other h2 name2 (n ∷ nodes) old new e p q = elim (Bool-cases (matches h name n)) [
    | inl t ↦
        let same : n ≡ old = (some-eq_iff n old).0 (rw t at e) in
        let miss : matches h2 name2 n ≡ false = ap (matches h2 name2) same ∙ p in
        rw (t, q, miss) refl
    | inr f ↦ rw (f, search_other h2 name2 nodes old new (rw f at e) p q) refl
  ]

matches-key :
    (h : ℕ) (name : List ℕ) (node : KeyValue)
    → matches h name node ≡ true
    → same_name node.key name ≡ true
matches-key h name node e = ground arith

-- A node of a name does not match another name.
other_matches :
    (h h2 : ℕ) (name name2 : List ℕ) (node : KeyValue)
    → same_name name name2 ≡ false
    → matches h name node ≡ true
    → matches h2 name2 node ≡ false
other_matches h h2 name name2 node ne m = elim (Bool-cases (matches h2 name2 node)) [
  | inr e ↦ e
  | inl e ↦
      let both =
        same_name_join node.key name name2 (matches-key h name node m)
          (matches-key h2 name2 node e) in
      absurd (cc)
]

pub node_of-matches :
    (table : ℕ → List KeyValue) (name : List ℕ)
    → matches (name_hash name) name (node_of name (hash_search table name)) ≡ true
unfolding hash_search node_of hash_insert
node_of-matches table name =
    elim (Option-cases (chain_search (name_hash name) name (table (name_hash name % hash_size)))) [
      | inl e ↦ rw (e, ==_refl (name_hash name), same_name_self name) refl
      | inr e ↦ rw (e.1) (chain_search-matches (name_hash name) name _ e.0 e.1)
    ]

set_at_self : (table : ℕ → List KeyValue) (i : ℕ) (xs : List KeyValue) → set_at table i xs i ≡ xs
set_at_self table i xs = rw (==_refl i) refl

-- A stored node is found again.
pub hash_search-store_node :
    (table : ℕ → List KeyValue) (name : List ℕ) (new : KeyValue)
    → matches (name_hash name) name new ≡ true
    → hash_search (store_node table name (hash_search table name) new) name ≡ some new
unfolding hash_search store_node
hash_search-store_node table name new m =
    let h = name_hash name in
    let nodes = table (h % hash_size) in
    elim (Option-cases (chain_search h name nodes)) [
      | inl e ↦ rw e (
          ap (chain_search h name) (set_at_self table (h % hash_size) (new ∷ nodes))
          ∙ unfold chain_search in rw m refl)
      | inr e ↦ rw (e.1) (
          ap (chain_search h name)
            (set_at_self table (h % hash_size) (chain_store h name new nodes))
          ∙ search_stored h name nodes e.0 new e.1 m)
    ]

chain_by :
    (table : ℕ → List KeyValue) (i : ℕ) (xs : List KeyValue) (h : ℕ) (name : List ℕ) (j : ℕ)
    → chain_search h name xs ≡ chain_search h name (table i)
    → chain_search h name (set_at table i xs j) ≡ chain_search h name (table j)
chain_by table i xs h name j e = elim (Bool-cases (i == j)) [
  | inl t ↦ rw t (e ∙ ap (λ (k : ℕ). chain_search h name (table k)) (==→eq i j t))
  | inr f ↦ rw f refl
]

-- Storing a node leaves the other names alone.
pub store_node_other :
    (table : ℕ → List KeyValue) (name name2 : List ℕ) (new : KeyValue)
    → same_name name name2 ≡ false
    → matches (name_hash name) name new ≡ true
    → hash_search (store_node table name (hash_search table name) new) name2
      ≡ hash_search table name2
unfolding hash_search store_node
store_node_other table name name2 new ne m =
    let h = name_hash name in
    let i = h % hash_size in
    let h2 = name_hash name2 in
    let miss = other_matches h h2 name name2 new ne m in
    elim (Option-cases (chain_search h name (table i))) [
      | inl e ↦ rw e (
          chain_by table i (new ∷ table i) h2 name2 (h2 % hash_size)
            (unfold chain_search in rw miss refl))
      | inr e ↦
          let old = chain_search-matches h name (table i) e.0 e.1 in
          rw (e.1) (
            chain_by table i (chain_store h name new (table i)) h2 name2 (h2 % hash_size) (
              search_other h name h2 name2 (table i) e.0 new e.1
                (other_matches h h2 name name2 e.0 ne old) miss))
    ]

dispatch-hash_map :
    (h : Harbor) (value : ℕ) (o : Option MsgQueue)
    → (dispatch_pending h value o).1.hash_map ≡ h.hash_map
unfolding dispatch_name_queue set_peer
dispatch-hash_map h value none = refl
dispatch-hash_map h value (some q) =
    let s = h.peers (value / 2 ^ 24) in
    elim (Bool-cases (s.fd == 0)) [
      | inr f ↦ rw f refl
      | inl t ↦ rw t (elim (Bool-cases (is_down s.status)) [
        | inl d ↦ rw d refl
        | inr d ↦ rw d (elim (Bool-cases (value / 2 ^ 24 == h.slave / 2 ^ 24)) [
          | inl l ↦ rw l refl
          | inr l ↦ rw l refl
        ])
      ])
    ]

-- After `update_name`, the name stands for the handle and no message waits for it; every name that
-- differs from it, as `strncmp` compares names, stands for what it stood for.
pub update_name_lem :
    (h : Harbor) (name name2 : List ℕ) (handle : ℕ)
    → same_name name name2 ≡ false
    → let after = (update_name h name handle).1 in
      (hash_search after.hash_map name
        ≡ some (record (node_of name (hash_search h.hash_map name)) {
          value = handle;
          pending = none;
        }))
      × (hash_search after.hash_map name2 ≡ hash_search h.hash_map name2)
unfolding update_name
update_name_lem h name name2 handle ne =
    let node = node_of name (hash_search h.hash_map name) in
    let new : KeyValue = record node { value = handle; pending = none } in
    let m : matches (name_hash name) name new ≡ true = node_of-matches h.hash_map name in
    let map2 = store_node h.hash_map name (hash_search h.hash_map name) new in
    let kept = dispatch-hash_map (record h { hash_map = map2 }) handle node.pending in
    (
      ap (λ (f : ℕ → List KeyValue). hash_search f name) kept
          ∙ hash_search-store_node h.hash_map name new m,
      ap (λ (f : ℕ → List KeyValue). hash_search f name2) kept
          ∙ store_node_other h.hash_map name name2 new ne m,
    )
