-- ===== src/Locking/Redlock/Counting.antt =====
-- How many nodes of src/common/locking/redlock.service.ts have a property, pass by pass.
use boilerplate_nestjs_api.Prelude.{
  ℕ, ◌+◌, ◌≤◌, ◌≡◌, refl, inl, inr, Bool, true, List, [], ◌∷◌, Option, some, arith, ◌<◌, length,
  Option-cases, Bool-cases, if◌then◌else◌,
}
use boilerplate_nestjs_api.Locking.Redlock.{
  Node, Contact, obey_all, on_every_node, answers, claimed, greatest,
}

abbrev pub count : (Node → Bool) → List Node → ℕ
count p [] = 0
count p (node ∷ nodes) = (if p node then 1 else 0) + count p nodes

pub count-le : (p : Node → Bool) (nodes : List Node) → count p nodes ≤ length nodes
count-le p [] = omega arith
count-le p (node ∷ nodes) = ground (arith, count-le p nodes)

module _ {R : Type 0} (command : ℕ → Node → R × Node) (contact : ℕ → Contact) where
  pub length-on_every_node :
      (index : ℕ) (nodes : List Node)
      → length (on_every_node command contact index nodes).1 ≡ length nodes
  unfolding on_every_node
  length-on_every_node index [] = refl
  length-on_every_node index (node ∷ nodes) = ground (arith, length-on_every_node (index + 1) nodes)

  -- A property that the commands of others and the command keep, no node loses.
  pub count-on_every_node :
      (p : Node → Bool) (index : ℕ) (nodes : List Node)
      → ((i : ℕ) (node : Node) → p node ≡ true → p (obey_all (contact i).before node) ≡ true)
      → ((i : ℕ) (node : Node) → p node ≡ true → p (command (contact i).at node).1 ≡ true)
      → count p nodes ≤ count p (on_every_node command contact index nodes).1
  unfolding on_every_node
  count-on_every_node p index [] held keeps = omega arith
  count-on_every_node p index (node ∷ nodes) held keeps =
      let found : Node = obey_all (contact index).before node in
      ground (
        arith,
        count-on_every_node p (index + 1) nodes held keeps,
        held index node,
        keeps index found,
      )

  -- The nodes that answered have what the command leaves.
  pub answers-count :
      (p : Node → Bool) (index : ℕ) (nodes : List Node)
      → ((i : ℕ) (node : Node) → p (command (contact i).at node).1 ≡ true)
      → answers (on_every_node command contact index nodes).0
        ≤ count p (on_every_node command contact index nodes).1
  unfolding on_every_node answers
  answers-count p index [] leaves = omega arith
  answers-count p index (node ∷ nodes) leaves = ground (
    arith,
    answers-count p (index + 1) nodes leaves,
    leaves index (obey_all (contact index).before node),
  )

module _ (command : ℕ → Node → Option ℕ × Node) (contact : ℕ → Contact) where
  -- The nodes that voted have what a vote leaves.
  pub claimed-count :
      (p : Node → Bool) (index : ℕ) (nodes : List Node)
      → ((i : ℕ) (node : Node) (token : ℕ)
          → (command (contact i).at node).0 ≡ some token
          → p (command (contact i).at node).1 ≡ true)
      → claimed (on_every_node command contact index nodes).0
        ≤ count p (on_every_node command contact index nodes).1
  unfolding on_every_node claimed
  claimed-count p index [] leaves = omega arith
  claimed-count p index (node ∷ nodes) leaves =
      let ih = claimed-count p (index + 1) nodes leaves in
      let found : Node = obey_all (contact index).before node in
      elim (Option-cases (command (contact index).at found).0) [
        | inl refused ↦ ground (arith, ih, refused)
        | inr (token, voted) ↦ ground (arith, ih, voted, leaves index found token voted)
      ]

  -- Where the nodes with a property vote only for a token above the greatest, they do not vote.
  pub claimed-others :
      (p : Node → Bool) (least : ℕ) (index : ℕ) (nodes : List Node)
      → ((i : ℕ) (node : Node) → p node ≡ true → p (obey_all (contact i).before node) ≡ true)
      → ((i : ℕ) (node : Node) (token : ℕ)
          → p node ≡ true
          → (command (contact i).at node).0 ≡ some token
          → least < token)
      → greatest (on_every_node command contact index nodes).0 ≤ least
      → claimed (on_every_node command contact index nodes).0 + count p nodes ≤ length nodes
  unfolding on_every_node claimed greatest
  claimed-others p least index [] held above most = omega arith
  claimed-others p least index (node ∷ nodes) held above most =
      let ih = claimed-others p least (index + 1) nodes held above in
      let found : Node = obey_all (contact index).before node in
      elim (Option-cases (command (contact index).at found).0) [
        | inl refused ↦ ground (arith, ih, refused)
        | inr (token, voted) ↦ elim (Bool-cases (p node)) [
          | inl has ↦ ground (arith, ih, voted, above index found token (held index node has) voted)
          | inr has_not ↦ ground (arith, ih, voted, has_not)
        ]
      ]
