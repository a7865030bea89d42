-- ===== src/Controllers/ClusterStream/Order.antt =====
-- The `range` over the properties of a cluster stream: its order only reorders the metadata.
use streaming_runtime_go.Prelude.{
  Text, codes, false, List, [], ◌∷◌, ◌++◌, append_assoc, append-nil, Dict, ok, >>=-eq-ok,
  ok-injective, ◌≡◌, refl, sym, ap, ◌∙◌, subst,
}
use mathlib.Core.List.{Perm, Permᴰ}
use mathlib.Core.Logic.{∥∥₁_map}
use streaming_runtime_go.Api.{ObjectMeta, ClusterStreamResource, DaprComponent}
use streaming_runtime_go.Controllers.Client.{Client}
use streaming_runtime_go.Controllers.ClusterStream.{component_metadata, create_cluster_stream}
use streaming_runtime_go.Controllers.ClusterStream.Metadata.{
  Encodes, no_entries, an_entry, component_metadata-Encodes,
}

module _ (k : Client) where
  open k use {marshal_string}

  an_entry_at :
      (x : Text × Text) {value : Text} {properties : Dict Text} {metadata : List (Text × Text)}
      → marshal_string x.1 ≡ ok value
      → Encodes k properties metadata
      → Encodes k (x ∷ properties) ((x.0, value) ∷ metadata)
  an_entry_at (key, v) m e = an_entry m e

  marshal_same :
      {x y : Text × Text} {value : Text}
      → x ≡ y
      → marshal_string x.1 ≡ ok value
      → marshal_string y.1 ≡ ok value
  marshal_same h m = ap (λ (p : Text × Text). marshal_string p.1) (sym h) ∙ m

  Encodes-perm :
      {properties properties' : Dict Text} {metadata : List (Text × Text)}
      → Permᴰ properties properties'
      → Encodes k properties metadata
      → (metadata' : List (Text × Text)) × Encodes k properties' metadata'
        × Permᴰ metadata metadata'
  Encodes-perm Permᴰ.nil no_entries = ([], no_entries, Permᴰ.nil)
  Encodes-perm (Permᴰ.cons {b = y} h p) (an_entry {value = v} m e) =
      let (l, e', q) = Encodes-perm p e in
      ((y.0, v) ∷ l, an_entry_at y (marshal_same h m) e', Permᴰ.cons (ap (λ z. (z.0, v)) h) q)
  Encodes-perm (Permᴰ.swap {a' = y} {b' = x} h g)
        (an_entry {value = v} m (an_entry {value = w} {metadata = l} n e)) =
      (
        (y.0, w) ∷ (x.0, v) ∷ l,
        an_entry_at y (marshal_same g n) (an_entry_at x (marshal_same h m) e),
        Permᴰ.swap (ap (λ z. (z.0, v)) h) (ap (λ z. (z.0, w)) g),
      )
  Encodes-perm (Permᴰ.trans p q) e =
      let (l, e', r) = Encodes-perm p e in
      let (l', e'', r') = Encodes-perm q e' in (l', e'', Permᴰ.trans r r')

  component_metadata_of_Encodes :
      (properties : Dict Text) (items metadata : List (Text × Text))
      → Encodes k properties metadata
      → component_metadata k properties items ≡ ok (items ++ metadata)
  unfolding component_metadata
  component_metadata_of_Encodes [] items metadata no_entries = ap ok (sym (append-nil items))
  component_metadata_of_Encodes ((key, v) ∷ properties) items metadata (an_entry m e) = rw m (
      component_metadata_of_Encodes properties (items ++ (key, _) ∷ []) _ e
      ∙ ap ok (append_assoc items ((key, _) ∷ []) _))

  -- The cluster stream with its properties in another order.
  abbrev pub with_properties : ClusterStreamResource → Dict Text → ClusterStreamResource
  with_properties cs properties = record cs { spec = record (cs.spec) { properties = properties } }

  abbrev component_of : Text → ObjectMeta → List (Text × Text) → DaprComponent
  component_of component_type meta metadata = record {
    meta = meta;
    component_type = component_type;
    version = codes "v1";
    metadata = metadata;
  }

  abbrev unowned : ObjectMeta → ObjectMeta
  unowned meta = record meta { deleting = false; labels = []; annotations = []; owners = [] }

  created_lem :
      (component_type : Text) (cs : ClusterStreamResource) (metadata : List (Text × Text))
      (meta : ObjectMeta)
      → component_metadata k cs.spec.properties [] ≡ ok metadata
      → k.set_controller_reference cs.meta (unowned cs.meta) ≡ ok meta
      → create_cluster_stream k component_type cs ≡ ok (component_of component_type meta metadata)
  unfolding create_cluster_stream
  created_lem component_type cs metadata meta m r = rw m (rw r refl)

  created_cases :
      (component_type : Text) (cs : ClusterStreamResource) (d : DaprComponent)
      → create_cluster_stream k component_type cs ≡ ok d
      → (metadata : List (Text × Text)) × (meta : ObjectMeta) × (component_metadata k
            cs.spec.properties []
          ≡ ok metadata)
        × (k.set_controller_reference cs.meta (unowned cs.meta) ≡ ok meta)
        × (component_of component_type meta metadata ≡ d)
  unfolding create_cluster_stream
  created_cases component_type cs d h =
      let (metadata, m, h1) = >>=-eq-ok (component_metadata k cs.spec.properties []) _ h in
      let (meta, r, h2) = >>=-eq-ok (k.set_controller_reference cs.meta (unowned cs.meta)) _ h1 in
      (metadata, meta, m, r, ok-injective h2)

  reordered :
      (component_type : Text) (cs : ClusterStreamResource) (d : DaprComponent)
      (properties : Dict Text)
      → create_cluster_stream k component_type cs ≡ ok d
      → Permᴰ cs.spec.properties properties
      → (metadata : List (Text × Text)) × (create_cluster_stream k component_type
            (with_properties cs properties)
          ≡ ok (record d { metadata = metadata }))
        × Permᴰ d.metadata metadata
  reordered component_type cs d properties h p =
      let (metadata, meta, m, r, e) = created_cases component_type cs d h in
      let (added, q, enc) = component_metadata-Encodes k cs.spec.properties [] metadata m in
      let (l, enc', p') = Encodes-perm p enc in
      (
        l,
        created_lem component_type (with_properties cs properties) l meta
              (component_metadata_of_Encodes properties [] l enc') r
            ∙ ap (λ (c : DaprComponent). ok (record c { metadata = l })) e,
        subst (λ (items : List (Text × Text)). Permᴰ items l)
            (sym q ∙ ap (λ (c : DaprComponent). c.metadata) e) p',
      )

  -- If a component is created for a cluster stream, one is created for every order in which Go may range
  -- over the properties, and it differs in the order of its metadata alone.
  pub create_cluster_stream-Perm :
      (component_type : Text) (cs : ClusterStreamResource) (d : DaprComponent)
      (properties : Dict Text)
      → create_cluster_stream k component_type cs ≡ ok d
      → Perm cs.spec.properties properties
      → ∥ (
          (metadata : List (Text × Text)) × (create_cluster_stream k component_type
              (with_properties cs properties)
            ≡ ok (record d { metadata = metadata }))
          × Permᴰ d.metadata metadata) ∥₁
  create_cluster_stream-Perm component_type cs d properties h p =
      ∥∥₁_map p (reordered component_type cs d properties h)
