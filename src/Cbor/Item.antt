-- ===== src/Cbor/Item.antt =====
-- CBOR data items, and the item that a sequence of QCBOR calls describes: containers nest, a labelled
-- item stands in a map and an unlabelled one in an array or alone, and a tag goes to the next item.
use optee_ra_fork.Base.{ℕ, Option, none, some, List, [], ◌∷◌, ◌++◌, Bytes, ℤ, ◌≡◌}
use optee_ra_fork.Cbor.{
  Call, add_tag, open_map, close_map, open_array, close_array, open_array_in_map, add_text_to_map,
  add_bytes_to_map, add_int64_to_map, add_bytes, add_sz_string,
}

mutual
  pub data Item : Type 0 where
    int : ℤ → Item
    text : Bytes → Item
    bytes : Bytes → Item
    array : Items → Item
    map : Entries → Item
    tagged : ℕ → Item → Item

  pub data Items : Type 0 where
    nil : Items
    cons : Item → Items → Items

  pub data Entries : Type 0 where
    end : Entries
    entry : ℕ → Item → Entries → Entries

unfoldable pub snoc : Items → Item → Items
snoc nil i = cons i nil
snoc (cons j js) i = cons j (snoc js i)

unfoldable pub snoc_entry : Entries → ℕ → Item → Entries
snoc_entry end k i = entry k i end
snoc_entry (entry l j es) k i = entry l j (snoc_entry es k i)

unfoldable pub tag_all : List ℕ → Item → Item
tag_all [] i = i
tag_all (t ∷ ts) i = tagged t (tag_all ts i)

-- What a container that is still open holds so far.
pub data Open : Type 0 where
  in_array : Items → Open
  in_map : Entries → Open

-- An open container, with its label and tags.
pub record Frame : Type 0 where
  pub label : Option ℕ
  pub tags : List ℕ
  pub body : Open

-- The open containers, innermost first, the tags that wait for an item, and the finished items.
pub record Context : Type 0 where
  pub frames : List Frame
  pub tags : List ℕ
  pub root : Items

unfoldable pub place : Option ℕ → Item → Items → List Frame → Option Context
place none i root [] = some (record { frames = []; tags = []; root = snoc root i })
place (some k) i root [] = none
place label i root (f ∷ fs) = within label f.body
  where
    within : Option ℕ → Open → Option Context
    within none (in_array is) =
        some (record {
          frames = record f { body = in_array (snoc is i) } ∷ fs;
          tags = [];
          root = root;
        })
    within (some k) (in_map es) = some (record {
      frames = record f { body = in_map (snoc_entry es k i) } ∷ fs;
      tags = [];
      root = root;
    })
    within none (in_map es) = none
    within (some k) (in_array is) = none

unfoldable pub open_frame : Option ℕ → Open → Context → Option Context
open_frame label body c = some (record c {
  frames = record { label = label; tags = c.tags; body = body } ∷ c.frames;
  tags = [];
})

unfoldable pub close_map_frame : Items → List Frame → Option Context
unfolding place tag_all
close_map_frame root [] = none
close_map_frame root (f ∷ fs) = elim (f.body) [
  | in_map es ↦ place f.label (tag_all f.tags (map es)) root fs
  | in_array is ↦ none
]

unfoldable pub close_array_frame : Items → List Frame → Option Context
unfolding place tag_all
close_array_frame root [] = none
close_array_frame root (f ∷ fs) = elim (f.body) [
  | in_array is ↦ place f.label (tag_all f.tags (array is)) root fs
  | in_map es ↦ none
]

unfoldable pub step : Call → Context → Option Context
unfolding place tag_all open_frame close_map_frame close_array_frame
step (add_tag t) c = some (record c { tags = c.tags ++ (t ∷ []) })
step open_map c = open_frame none (in_map end) c
step open_array c = open_frame none (in_array nil) c
step (open_array_in_map k) c = open_frame (some k) (in_array nil) c
step close_map c = close_map_frame c.root c.frames
step close_array c = close_array_frame c.root c.frames
step (add_text_to_map k t) c = place (some k) (tag_all c.tags (text t)) c.root c.frames
step (add_bytes_to_map k b) c = place (some k) (tag_all c.tags (bytes b)) c.root c.frames
step (add_int64_to_map k z) c = place (some k) (tag_all c.tags (int z)) c.root c.frames
step (add_bytes b) c = place none (tag_all c.tags (bytes b)) c.root c.frames
step (add_sz_string t) c = place none (tag_all c.tags (text t)) c.root c.frames

unfoldable pub run : List Call → Context → Option Context
run [] c = some c
run (x ∷ xs) c = elim (step x c) [ none ↦ none | some c' ↦ run xs c' ]

abbrev pub empty : Context
empty = record { frames = []; tags = []; root = nil }

-- The calls describe exactly this one item, with no container left open and no tag left over.
abbrev pub Describes : List Call → Item → Type 0
Describes calls item =
    run calls empty ≡ some (record { frames = []; tags = []; root = cons item nil })
