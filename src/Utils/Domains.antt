-- ===== src/Utils/Domains.antt =====
-- utils/utils.go, DomainRoot: a trie over the labels of host names, the last label first. A pointer to
-- a node has one owner, its parent's map, so a change of a node is a new node in its place.
pub mod Entries
pub mod Laws
pub mod Found
pub mod Local
use Prim.Native.Char.{code}
use rawcon.Common.{
  ℕ, suc, ◌+◌, ◌<◌, ◌≡◌, Bool, true, false, ◌&&◌, Option, none, some, List, [], ◌∷◌, ◌++◌, ltb,
  length, if◌then◌else◌,
}
use rawcon.Common.Bytes.{Bytes}
use rawcon.Common.Text.{bytes_eq, split}

-- `hit`, `any`, `domain`, and the map `nodes` as a list of its entries; the nil map of a node that is
-- marked with `any` is `nil`, and no entry is ever put into it.
mutual
  pub data DomainNode : Type 0 where
    node : Bool → Bool → Bytes → Kids → DomainNode

  pub data Kids : Type 0 where
    nil : Kids
    kid : Bytes → DomainNode → Kids → Kids

abbrev pub hit : DomainNode → Bool
hit (node h a d ks) = h

abbrev pub any : DomainNode → Bool
any (node h a d ks) = a

abbrev pub nodes : DomainNode → Kids
nodes (node h a d ks) = ks

-- `node.nodes[domain]`, `node.nodes[domain] = v` and `len(node.nodes)`
abbrev pub find : Bytes → Kids → Option DomainNode
find l nil = none
find l (kid k v ks) = if bytes_eq k l then some v else find l ks

abbrev pub assign : Bytes → DomainNode → Kids → Kids
assign l v nil = kid l v nil
assign l v (kid k w ks) = if bytes_eq k l then kid k v ks else kid k w (assign l v ks)

abbrev pub count : Kids → ℕ
count nil = 0
count (kid k v ks) = suc (count ks)

abbrev pub new_node : Bytes → DomainNode
new_node d = node false false d nil

-- `NewDomainRoot`
abbrev pub new_domain_root : DomainNode
new_domain_root = new_node []

-- `for i < len/2 { ss[i], ss[last-i] = ss[last-i], ss[i] }`
abbrev pub reverse_onto : List Bytes → List Bytes → List Bytes
reverse_onto [] acc = acc
reverse_onto (l ∷ ls) acc = reverse_onto ls (l ∷ acc)

abbrev pub reverse : List Bytes → List Bytes
reverse ls = reverse_onto ls []

-- The nodes below are marked too, and then taken out of the map: nothing reaches them any more.
unfoldable pub mark_any : DomainNode → DomainNode
mark_any (node h a d ks) = node true true d nil

-- The byte of "*", and that of ".".
abbrev pub is_star : Bytes → Bool
is_star l = bytes_eq l (42 ∷ [])

abbrev pub dot : ℕ
dot = 46

-- The loop of Put at one node, `deep` being `it > 0`.
unfoldable pub put_at : Bool → DomainNode → List Bytes → DomainNode
put_at deep (node h a d ks) [] = node true a d ks
put_at deep n ([] ∷ ls) = put_at true n ls
put_at deep (node h a d ks) ((c ∷ l) ∷ ls) =
    if a
    then node h a d ks
    else if is_star (c ∷ l)
    then mark_any (node h a d ks)
    else elim (find (c ∷ l) ks) [
      | none ↦ node h a d (assign (c ∷ l) (put_at true (new_node (c ∷ l)) ls) ks)
      | some v ↦
          if any v
          then node h a d ks
          else if ltb 10 (count (nodes v)) && deep
          then node h a d (assign (c ∷ l) (mark_any v) ks)
          else node h a d (assign (c ∷ l) (put_at true v ls) ks)
    ]

-- The loop of Test at one node.
unfoldable pub test_at : DomainNode → List Bytes → Bool
test_at n [] = hit n
test_at n ([] ∷ ls) = test_at n ls
test_at (node h a d ks) ((c ∷ l) ∷ ls) =
    if a then true else elim (find (c ∷ l) ks) [ none ↦ false | some v ↦ test_at v ls ]

unfoldable pub put : DomainNode → Bytes → DomainNode
put root host =
    let domains = split dot host in
    if ltb (length domains) 2 then root else put_at false root (reverse domains)

unfoldable pub test : DomainNode → Bytes → Bool
test root host =
    let domains = split dot host in
    if ltb (length domains) 2 then false else test_at root (reverse domains)

-- strings.Join with a dot.
abbrev pub join : List Bytes → Bytes
join [] = []
join (l ∷ []) = l
join (l ∷ k ∷ ls) = l ++ (dot ∷ join (k ∷ ls))

-- Get: the hosts of the nodes below, with the labels above, in the order of the entries. Go's order of
-- a map's entries is not fixed.
abbrev pub hosts_of : DomainNode → List Bytes → List Bytes
hosts_of (node h true d ks) domains = (42 ∷ dot ∷ join domains) ∷ []
hosts_of (node true false d ks) domains = join domains ∷ []
hosts_of (node false false d ks) domains = []

unfoldable mutual
  pub get_at : DomainNode → List Bytes → List Bytes
  get_at (node h a [] ks) domains = get_kids ks domains
  get_at (node h a (c ∷ d) ks) domains =
      hosts_of (node h a (c ∷ d) ks) ((c ∷ d) ∷ domains) ++ get_kids ks ((c ∷ d) ∷ domains)

  pub get_kids : Kids → List Bytes → List Bytes
  get_kids nil domains = []
  get_kids (kid k v ks) domains = get_at v domains ++ get_kids ks domains

unfoldable pub get : DomainNode → List Bytes
get root = get_at root []
