-- ===== src/Base/Xml.antt =====
-- The events of an XML reader (the package quick-xml), which a `Reader` gives for a text: the results
-- of its calls of `read_event` up to the end of the file, an error on the left.
use dian_service.Base.{◌⊎◌, inr, List, ◌∷◌, String}

pub data Event : Type 0 where
  -- A name with its attributes, or the reason why one of these is refused.
  start empty : String → List (String ⊎ (String × String)) → Event
  end : String → Event
  text cdata general_ref pi : String → Event
  doctype : Event
  -- The declaration and comments.
  other : Event

abbrev pub Reader : Type 0
Reader = String → List (String ⊎ Event)

mutual
  -- An element with its qualified name, its attributes and its children, an element without content
  -- that has one tag, text, a CDATA section, or a comment or the declaration.
  pub data Node : Type 0 where
    element : String → List (String ⊎ (String × String)) → Nodes → Node
    leaf : String → List (String ⊎ (String × String)) → Node
    chars raw : String → Node
    comment : Node

  pub data Nodes : Type 0 where
    no_more : Nodes
    more : Node → Nodes → Nodes

-- The events that a reader gives for nodes, in front of those that follow.
unfoldable mutual
  pub events : Node → List (String ⊎ Event) → List (String ⊎ Event)
  events (element name attributes children) rest =
      inr (start name attributes) ∷ events_of children (inr (end name) ∷ rest)
  events (leaf name attributes) rest = inr (empty name attributes) ∷ rest
  events (chars t) rest = inr (text t) ∷ rest
  events (raw t) rest = inr (cdata t) ∷ rest
  events comment rest = inr other ∷ rest

  pub events_of : Nodes → List (String ⊎ Event) → List (String ⊎ Event)
  events_of no_more rest = rest
  events_of (more n ns) rest = events n (events_of ns rest)
