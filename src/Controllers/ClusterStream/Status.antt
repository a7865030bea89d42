-- ===== src/Controllers/ClusterStream/Status.antt =====
-- The status that the controller gives a cluster stream.
use streaming_runtime_go.Prelude.{
  Text, codes, text_eq, text_eq_iff, List, [], ◌∷◌, All, Dict, lookup, join, Option, none, some,
  Bool-cases, inl, inr, ◌≡◌, ◌≢◌, refl, ap, arith, subst,
}
use streaming_runtime_go.Api.{ClusterStreamStatus, ClusterStreamResource, kafka_protocol_name}
use streaming_runtime_go.Controllers.Helper.{get_metadata_string_values}
use streaming_runtime_go.Controllers.ClusterStream.{status_of}

-- A Go map has each key once.
abbrev pub DistinctKeys : Dict Text → Type 0
DistinctKeys [] = Unit
DistinctKeys ((k, v) ∷ m) = All (λ (e : Text × Text). e.0 ≢ k) m × DistinctKeys m

abbrev pub values_of : Option Text → List Text
values_of none = []
values_of (some v) = v ∷ []

no_values :
    (key : Text) (m : Dict Text)
    → All (λ (e : Text × Text). e.0 ≢ key) m
    → get_metadata_string_values key m ≡ []
unfolding get_metadata_string_values
no_values key [] h = refl
no_values key ((k, v) ∷ m) (hk, hm) = ground (arith, no_values key m hm, text_eq_iff k key)

-- Of a map with distinct keys the function returns the value of the key alone, or nothing if the key
-- is missing.
pub get_metadata_string_values-lookup :
    (key : Text) (m : Dict Text)
    → DistinctKeys m
    → get_metadata_string_values key m ≡ values_of (lookup key m)
unfolding get_metadata_string_values lookup
get_metadata_string_values-lookup key [] h = refl
get_metadata_string_values-lookup key ((k, v) ∷ m) (hk, hm) = elim (Bool-cases (text_eq k key)) [
  | inl e ↦
      let same = (text_eq_iff k key).0 e in
      rw e (
        ap (λ (l : List Text). v ∷ l)
          (no_values key m (subst (λ (j : Text). All (λ (p : Text × Text). p.0 ≢ j) m) same hk)))
  | inr e ↦ rw e (get_metadata_string_values-lookup key m hm)
]

-- The status by the property "brokers".
abbrev pub status_by : ClusterStreamStatus → Option Text → ClusterStreamStatus
status_by old none = record old { provider = kafka_protocol_name; status = codes "Error" }
status_by old (some brokers) = record old {
  provider = kafka_protocol_name;
  status = codes "Ready";
  servers = brokers;
}

-- With distinct property names, a cluster stream is "Ready" exactly if it has the property "brokers", whose value becomes its
-- servers; without the property it is in "Error" and keeps its servers. The provider is "kafka",
-- whatever the protocol.
pub status_of_lem :
    (cs : ClusterStreamResource)
    → DistinctKeys cs.spec.properties
    → status_of cs ≡ status_by cs.status (lookup (codes "brokers") cs.spec.properties)
unfolding status_of
status_of_lem cs h =
    by_values (lookup (codes "brokers") cs.spec.properties)
      (get_metadata_string_values-lookup (codes "brokers") cs.spec.properties h)
  where
    by_values :
        (o : Option Text)
        → get_metadata_string_values (codes "brokers") cs.spec.properties ≡ values_of o
        → status_of cs ≡ status_by cs.status o
    by_values none e = rw (e, status_of)
    by_values (some v) e = rw (e, status_of) (unfold join in refl)
