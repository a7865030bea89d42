-- ===== src/Controllers/ClusterStream/Metadata.antt =====
-- The dapr component that is created for a cluster stream.
use streaming_runtime_go.Prelude.{
  Text, codes, List, [], ◌∷◌, ◌++◌, append_assoc, append-nil, Dict, ok, >>=-eq-ok, wrap->>=-eq-ok,
  ok-injective, ◌≡◌, refl, sym, ◌∙◌, subst,
}
use streaming_runtime_go.Api.{ClusterStreamResource, DaprComponent}
use streaming_runtime_go.Controllers.Client.{Client}
use streaming_runtime_go.Controllers.Reconcile.{key_of}
use streaming_runtime_go.Controllers.Owned.{KeepsKey}
use streaming_runtime_go.Controllers.ClusterStream.{component_metadata, create_cluster_stream}

module _ (k : Client) where
  open k use {marshal_string, set_controller_reference}

  -- The entries of the second list are those of the first in their order, with the values encoded.
  pub data Encodes : Dict Text → List (Text × Text) → Type 0 where
    no_entries : Encodes [] []
    an_entry :
        {key v value : Text} {properties : Dict Text} {metadata : List (Text × Text)}
        → marshal_string v ≡ ok value
        → Encodes properties metadata
        → Encodes ((key, v) ∷ properties) ((key, value) ∷ metadata)

  pub component_metadata-Encodes :
      (properties : Dict Text) (items metadata : List (Text × Text))
      → component_metadata k properties items ≡ ok metadata
      → (added : List (Text × Text)) × (metadata ≡ items ++ added) × Encodes properties added
  unfolding component_metadata
  component_metadata-Encodes [] items metadata h =
      ([], sym (ok-injective h) ∙ sym (append-nil items), no_entries)
  component_metadata-Encodes ((key, v) ∷ properties) items metadata h =
      let (value, e, q) =
        wrap->>=-eq-ok (codes "component metadata encoding failed: ") (marshal_string v)
          (λ (value : Text). component_metadata k properties (items ++ (key, value) ∷ [])) h in
      let (added, p, enc) =
        component_metadata-Encodes properties (items ++ (key, value) ∷ []) metadata q in
      ((key, value) ∷ added, p ∙ append_assoc items ((key, value) ∷ []) added, an_entry e enc)

  pub record IsComponentOf (component_type : Text) (cs : ClusterStreamResource) (d : DaprComponent)
      : Type 0 where
    pub found : key_of d.meta ≡ key_of cs.meta
    pub typed : d.component_type ≡ component_type
    pub versioned : d.version ≡ codes "v1"
    pub encodes : Encodes cs.spec.properties d.metadata

  -- The component that is created for a cluster stream is found under its name, has the type that was
  -- asked for and the version v1, and its metadata are the properties of the cluster stream, each once
  -- and in their order, with the values encoded as JSON, if SetControllerReference keeps names and
  -- namespaces.
  pub create_cluster_stream-IsComponentOf :
      (component_type : Text) (cs : ClusterStreamResource) (d : DaprComponent)
      → KeepsKey k
      → create_cluster_stream k component_type cs ≡ ok d
      → IsComponentOf component_type cs d
  unfolding create_cluster_stream
  create_cluster_stream-IsComponentOf component_type cs d keeps h =
      let (metadata, m, h1) = >>=-eq-ok (component_metadata k cs.spec.properties []) _ h in
      let (meta, r, h2) = >>=-eq-ok (set_controller_reference cs.meta _) _ h1 in
      let (added, p, enc) = component_metadata-Encodes cs.spec.properties [] metadata m in
      subst (IsComponentOf component_type cs) (ok-injective h2) (record {
        found = keeps cs.meta _ meta r;
        typed = refl;
        versioned = refl;
        encodes = subst (Encodes cs.spec.properties) (sym p) enc;
      })
