-- ===== src/DeepCopy/ListShapes.antt =====
-- What a list of objects reaches, and that copy_list makes a deep copy of it.
use streaming_runtime_go.Prelude.{ℕ, List, Option, none, some, ◌≡◌, refl, sym, subst}
use streaming_runtime_go.Memory.Shapes.{
  Shape, Copier, IsCopy, IsDeep, pair_shape, copy_pair, copy_pair-IsDeep,
}
use streaming_runtime_go.Memory.Pointers.{
  pointer_shape, copy_pointer, copy_pointer-IsDeep, struct_shape, struct-IsDeep,
}
use streaming_runtime_go.Memory.Lists.{copy_items, items_shape, copy_items-IsDeep}
use streaming_runtime_go.DeepCopy.Structs.{ListOf}
use streaming_runtime_go.DeepCopy.Types.{Foreign, Cell, Items}
use streaming_runtime_go.DeepCopy.Lists.{as_object, copy_list}

pub as_object-IsDeep :
    {C V : Type 0} (s : Shape C (Option ℕ) V) (copy : Copier C (Option ℕ))
    → IsDeep s copy
    → IsDeep s (as_object copy)
as_object-IsDeep {C = C} s copy deep h p w =
    subst (λ (q : Option ℕ × List C). IsCopy s h p q.1 q.0) (sym (same (copy p h))) (deep h p w)
  where
    same : (q : Option ℕ × List C) → elim q.0 [ none ↦ (none, q.1) | some r ↦ (some r, q.1) ] ≡ q
    same (none, k) = refl
    same (some r, k) = refl

module _ (f : Foreign) {LV : Type 0} (list_meta_shape : Shape (Cell f) f.ListMeta LV) where
  abbrev pub list_of_refs :
      {V : Type 0} → Items f → LV × Option (List V) → ListOf LV (Option (List V))
  list_of_refs l v = record { type_meta = l.type_meta; meta = v.0; items = v.1 }

  -- A list whose objects have this shape.
  abbrev pub list_shape :
      {O V : Type 0}
      → (List O → Cell f)
      → (Cell f → Option (List O))
      → Shape (Cell f) O V
      → Shape (Cell f) (Items f) (ListOf LV (Option (List V)))
  list_shape array content s =
      struct_shape (pair_shape list_meta_shape (pointer_shape array content (items_shape s)))
        (λ l. (l.meta, l.items)) list_of_refs

  pub copy_list-IsDeep :
      {O V : Type 0} (copy_list_meta : Copier (Cell f) f.ListMeta) (array : List O → Cell f)
      (content : Cell f → Option (List O)) (s : Shape (Cell f) O V) (copy : Copier (Cell f) O)
      → IsDeep list_meta_shape copy_list_meta
      → ((l : List O) → content (array l) ≡ some l)
      → IsDeep s copy
      → IsDeep (list_shape array content s) (copy_list f copy_list_meta array content copy)
  copy_list-IsDeep copy_list_meta array content s copy meta_deep back deep =
      struct-IsDeep (pair_shape list_meta_shape (pointer_shape array content (items_shape s)))
        (λ l. (l.meta, l.items)) list_of_refs
        (copy_pair copy_list_meta (copy_pointer array content (copy_items copy)))
        (λ l p. record l { meta = p.0; items = p.1 }) (λ l p. refl) (λ l p v. refl)
        (copy_pair-IsDeep list_meta_shape (pointer_shape array content (items_shape s))
          copy_list_meta (copy_pointer array content (copy_items copy)) meta_deep
          (copy_pointer-IsDeep array content (items_shape s) back (copy_items copy)
            (copy_items-IsDeep s copy deep)))
