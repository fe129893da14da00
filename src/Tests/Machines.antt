-- ===== src/Tests/Machines.antt =====
-- Element trees, and a machine that powers off one round after it was asked to.
use idsproject.Base.{
  Text, ℕ, zero, suc, codes, ℤ, pos, text_eq, text_eq_refl, lookup, insert, lookup-insert, true,
  Option, none, some, List, [], ◌∷◌, ◌≡◌, refl, ap, if◌then◌else◌,
}
use idsproject.Host.{Domains, Tinyxml}
use idsproject.VmUtils.Devices.{first_named, IsTree}

mutual
  pub data Tree : Type 0 where
    node : Text → List (Text × Text) → Forest → Tree

  pub data Forest : Type 0 where
    nil : Forest
    cons : Tree → Forest → Forest

abbrev trees : Forest → List Tree
trees nil = []
trees (cons t f) = t ∷ trees f

abbrev forest : List Tree → Forest
forest [] = nil
forest (t ∷ ts) = cons t (forest ts)

trees-forest : (ts : List Tree) → trees (forest ts) ≡ ts
trees-forest [] = refl
trees-forest (t ∷ ts) = ap (◌∷◌ t) (trees-forest ts)

abbrev children : Tree → List Tree
children (node n attrs f) = trees f

abbrev with_children : List Tree → Tree → Tree
with_children ts (node n attrs f) = node n attrs (forest ts)

abbrev name : Tree → Text
name (node n attrs f) = n

abbrev attribute : Text → Tree → Option Text
attribute k (node n attrs f) = lookup k attrs

abbrev set_attribute : Text → Text → Tree → Tree
set_attribute k v (node n attrs f) = node n (insert k v attrs) f

abbrev named : Text → List Tree → Option Tree
named tag [] = none
named tag (t ∷ ts) = if text_eq (name t) tag then some t else named tag ts

abbrev child_named : Tree → Text → Option Tree
child_named (node n attrs f) tag = named tag (trees f)

-- A machine's devices: the default network alone.
abbrev pub bare : Tree
bare = node (codes "devices") [] (
    cons
      (node (codes "interface") ((codes "type", codes "network") ∷ [])
        (cons (node (codes "source") ((codes "network", codes "default") ∷ []) nil) nil))
      nil)

-- A document is the devices; the text "none" has none.
abbrev pub tree_xml : Tree → Tinyxml Tree Tree
tree_xml doc = record {
  parse = λ t. doc;
  top_element = λ d tag. some (node (codes "domain") [] (cons d nil));
  first_child_element = child_named;
  children = children;
  with_children = with_children;
  name = name;
  attribute = attribute;
  set_attribute = set_attribute;
  new_element = λ tag. node tag [] nil;
  put_devices = λ e d. e;
  print = λ d. codes "new";
}

named-first :
    (doc : Tree) (tag : Text) (ts : List Tree) → named tag ts ≡ first_named (tree_xml doc) tag ts
named-first doc tag [] = refl
named-first doc tag (t ∷ ts) = rw (named-first doc tag ts)

first-children :
    (doc e : Tree) (tag : Text) → child_named e tag ≡ first_named (tree_xml doc) tag (children e)
first-children doc (node n attrs f) tag = named-first doc tag (trees f)

children-with : (es : List Tree) (e : Tree) → children (with_children es e) ≡ es
children-with es (node n attrs f) = trees-forest es

name-with : (es : List Tree) (e : Tree) → name (with_children es e) ≡ name e
name-with es (node n attrs f) = refl

attribute-with :
    (k : Text) (es : List Tree) (e : Tree) → attribute k (with_children es e) ≡ attribute k e
attribute-with k es (node n attrs f) = refl

attribute-set : (k v : Text) (e : Tree) → attribute k (set_attribute k v e) ≡ some v
attribute-set k v (node n attrs f) = rw (lookup-insert, text_eq_refl k)

name-set : (k v : Text) (e : Tree) → name (set_attribute k v e) ≡ name e
name-set k v (node n attrs f) = refl

children-set : (k v : Text) (e : Tree) → children (set_attribute k v e) ≡ children e
children-set k v (node n attrs f) = refl

pub tree_xml-IsTree : (doc : Tree) → IsTree (tree_xml doc)
tree_xml-IsTree doc = record {
  first-children = first-children doc;
  children-with = children-with;
  name-with = name-with;
  attribute-with = attribute-with;
  attribute-set = attribute-set;
  name-set = name-set;
  children-set = children-set;
  name-new = λ tag. refl;
  children-new = λ tag. refl;
}

abbrev state_of : ℕ → ℤ
state_of zero = pos 5
state_of (suc n) = pos 1

abbrev before : ℕ → ℕ
before zero = zero
before (suc n) = n

-- The state is the number of rounds until the machine is off.
abbrev pub slow_domains : Domains ℕ Unit
slow_domains = record {
  virt = record {
    lookup_by_name = λ n s. (some tt, s);
    domain_free = λ d s. s;
    agent_command = λ d c t s. (none, s);
  };
  get_xml_desc = λ d s. (some (codes "old"), s);
  free_text = λ t s. s;
  get_state = λ d s. (some (state_of s), s);
  shutdown = λ d s. (pos 0, 1);
  create = λ d s. (pos 0, 7);
  define_xml = λ t s. (true, s);
  sleep_ms = λ n s. before s;
}

-- A machine that never powers off.
abbrev pub stubborn_domains : Domains ℕ Unit
stubborn_domains = record slow_domains { get_state = λ d s. (some (pos 1), s) }
