-- ===== src/Cbor/Token.antt =====
-- The data item of the evidence, a PSA token, and the calls of cbor.c that describe it.
use optee_ra_fork.Base.{
  ℕ, Option, none, some, List, [], ◌∷◌, ◌++◌, Bytes, ◌≡◌, refl, sym, ap, ◌∙◌, append_assoc,
}
use optee_ra_fork.Cbor.{
  SwComponent, Evidence, Call, component_calls, components_calls, evidence_calls,
}
use optee_ra_fork.Cbor.Item.{
  Item, int, text, bytes, array, Items, nil, cons, Entries, end, entry, snoc, snoc_entry, Frame,
  in_array, Context, step, run, Describes,
}

-- The map of a component: type, value, the version if there is one, and signer.
unfoldable pub component_item : SwComponent → Item
component_item c = Item.map (
    entry 1 (text c.measurement_type) (
      entry 2 (bytes c.measurement_value)
        (with_version c.version (entry 5 (bytes c.signer_id) end))))
  where
    with_version : Option Bytes → Entries → Entries
    with_version none es = es
    with_version (some v) es = entry 4 (text v) es

unfoldable pub component_items : List SwComponent → Items
component_items [] = nil
component_items (c ∷ cs) = cons (component_item c) (component_items cs)

-- The claims: profile, client, lifecycle, implementation, components, nonce, instance.
unfoldable pub evidence_item : Evidence → Item
evidence_item e = Item.map (
    entry 265 (text e.eat_profile) (
      entry 2394 (int e.client_id) (
        entry 2395 (int e.security_lifecycle) (
          entry 2396 (bytes e.implementation_id) (
            entry 2399 (array (component_items e.components))
              (entry 10 (bytes e.nonce) (entry 256 (bytes e.instance_id) end)))))))

unfoldable pub extend : Items → Items → Items
extend nil js = js
extend (cons i is) js = cons i (extend is js)

extend-snoc : (is : Items) (j : Item) (js : Items) → extend (snoc is j) js ≡ extend is (cons j js)
unfolding extend snoc
extend-snoc nil j js = refl
extend-snoc (cons i is) j js = ap (cons i) (extend-snoc is j js)

extend-nil : (is : Items) → extend is nil ≡ is
unfolding extend
extend-nil nil = refl
extend-nil (cons i is) = ap (cons i) (extend-nil is)

module _ (label : Option ℕ) (tags : List ℕ) (fs : List Frame) (root : Items) where
  abbrev filling : Items → Context
  filling is = record {
    frames = record { label = label; tags = tags; body = in_array is } ∷ fs;
    tags = [];
    root = root;
  }

  run-component :
      (c : SwComponent) (rest : List Call) (is : Items)
      → run (component_calls c ++ rest) (filling is)
        ≡ run rest (filling (snoc is (component_item c)))
  unfolding run step component_calls component_item snoc_entry
  run-component c rest is = version_case c.version
    where
      version_case :
          (v : Option Bytes)
          → run (component_calls (record c { version = v }) ++ rest) (filling is)
            ≡ run rest (filling (snoc is (component_item (record c { version = v }))))
      version_case none = refl
      version_case (some v) = refl

  run-components :
      (cs : List SwComponent) (rest : List Call) (is : Items)
      → run (components_calls cs ++ rest) (filling is)
        ≡ run rest (filling (extend is (component_items cs)))
  unfolding components_calls component_items
  run-components [] rest is = ap (λ js. run rest (filling js)) (sym (extend-nil is))
  run-components (c ∷ cs) rest is =
      ap (λ calls. run calls (filling is))
        (append_assoc (component_calls c) (components_calls cs) rest)
      ∙ run-component c (components_calls cs ++ rest) is
      ∙ run-components cs rest (snoc is (component_item c))
      ∙ ap (λ js. run rest (filling js)) (extend-snoc is (component_item c) (component_items cs))

-- Whatever the claims and however many components, the calls of `encode_evidence_to_cbor` nest
-- correctly and describe one map: the seven claims under their labels, and under the components'
-- label an array with one map for each component in order, the version left out if it is NULL.
pub evidence_calls-Describes : (e : Evidence) → Describes (evidence_calls e) (evidence_item e)
unfolding evidence_calls evidence_item run step snoc snoc_entry extend
evidence_calls-Describes e = run-components _ _ _ _ e.components _ nil ∙ refl
