-- ===== src/Memory/Pointers.antt =====
-- Deep copies behind pointers, and of structs.
use streaming_runtime_go.Prelude.{
  ℕ, ◌+◌, ◌≤◌, ◌<◌, List, [], ◌∷◌, ◌++◌, append_assoc, append-nil, length, length-append, Option,
  none, some, ◌≡◌, refl, sym, ap, ◌∙◌, subst, arith,
}
use streaming_runtime_go.Memory.{read, alloc, AgreesOn, append-AgreesOn, read_last}
use streaming_runtime_go.Memory.Shapes.{Shape, Copier, IsCopy, IsDeep}

module _ {C A : Type 0} (inject : A → C) (content : C → Option A) where
  -- `*p`; `none` if the cell is of another type
  abbrev pub deref : List C → ℕ → Option A
  deref h r = elim (read h r) [ none ↦ none | some cell ↦ content cell ]

  -- `if p != nil { *out = new(T); (*p).DeepCopyInto(*out) }`; the new cell is written once, with the
  -- copy in it
  abbrev pub copy_pointer : Copier C A → Copier C (Option ℕ)
  copy_pointer c none h = (none, h)
  copy_pointer c (some r) h = elim (deref h r) [
    | none ↦ (none, h)
    | some a ↦ let (a', h1) = c a h in let (r', h2) = alloc (inject a') h1 in (some r', h2)
  ]

  module _ {V : Type 0} (s : Shape C A V) where
    abbrev pub WithinPointer : ℕ → ℕ → List C → Option ℕ → Type 0
    WithinPointer lo hi h none = Unit
    WithinPointer lo hi h (some r) =
        (lo ≤ r) × (r < hi) × ((a : A) × (deref h r ≡ some a) × s.within lo hi h a)

    abbrev pub view_content : List C → Option A → Option V
    view_content h none = none
    view_content h (some a) = some (s.view h a)

    abbrev pub view_pointer : List C → Option ℕ → Option V
    view_pointer h none = none
    view_pointer h (some r) = view_content h (deref h r)

    pub weaken_pointer :
        (lo hi lo' hi' : ℕ) (h : List C) (p : Option ℕ)
        → lo' ≤ lo
        → hi ≤ hi'
        → WithinPointer lo hi h p
        → WithinPointer lo' hi' h p
    weaken_pointer lo hi lo' hi' h none p q w = tt
    weaken_pointer lo hi lo' hi' h (some r) p q (x, y, (a, e, w)) =
        (omega (arith, p, x), omega (arith, q, y), (a, e, s.weaken lo hi lo' hi' h a p q w))

    pub frame_pointer :
        (lo hi : ℕ) (h k : List C) (p : Option ℕ)
        → AgreesOn lo hi h k
        → WithinPointer lo hi h p
        → WithinPointer lo hi k p × (view_pointer k p ≡ view_pointer h p)
    frame_pointer lo hi h k none g w = (tt, refl)
    frame_pointer lo hi h k (some r) g (x, y, (a, e, w)) =
        let (w', v) = s.frame lo hi h k a g w in
        let e' : deref k r ≡ some a =
          ap (λ (o : Option C). elim o [ none ↦ none | some cell ↦ content cell ]) (sym (g r x y))
          ∙ e in
        ((x, y, (a, e', w')), ap (view_content k) e' ∙ ap some v ∙ ap (view_content h) (sym e))

    abbrev pub pointer_shape : Shape C (Option ℕ) (Option V)
    pointer_shape = record {
      within = WithinPointer;
      view = view_pointer;
      weaken = weaken_pointer;
      frame = frame_pointer;
    }

    module _ (back : (a : A) → content (inject a) ≡ some a) (c : Copier C A) where
      pointer_lem :
          (h h1 : List C) (r : ℕ) (a a' : A)
          → deref h r ≡ some a
          → IsCopy s h a h1 a'
          → IsCopy pointer_shape h (some r) (h1 ++ inject a' ∷ []) (some (length h1))
      pointer_lem h h1 r a a' e p =
          let h2 : List C = h1 ++ inject a' ∷ [] in
          let grown1 : length h1 ≡ length h + length p.added =
            ap (λ l. length l) p.grown ∙ length-append h p.added in
          let grown2 : length h2 ≡ length h1 + 1 = length-append h1 (inject a' ∷ []) in
          let (w, v) =
            s.frame (length h) (length h1) h1 h2 a' (append-AgreesOn (length h) h1 (inject a' ∷ []))
              p.fresh in
          let e' : deref h2 (length h1) ≡ some a' =
            ap (λ (o : Option C). elim o [ none ↦ none | some cell ↦ content cell ])
              (read_last (inject a') h1)
            ∙ back a' in
          record {
            added = p.added ++ inject a' ∷ [];
            grown = ap (λ l. l ++ inject a' ∷ []) p.grown ∙ append_assoc h p.added (inject a' ∷ []);
            fresh = (
              omega (arith, grown1),
              omega (arith, grown2),
              (
                a',
                e',
                s.weaken (length h) (length h1) (length h) (length h2) h2 a' (omega arith)
                    (omega (arith, grown2)) w,
              ),
            );
            same = ap (view_content h2) e' ∙ ap some (v ∙ p.same) ∙ ap (view_content h) (sym e);
          }

      pub copy_pointer-IsDeep : IsDeep s c → IsDeep pointer_shape (copy_pointer c)
      copy_pointer-IsDeep deep h none w = record {
        added = [];
        grown = sym (append-nil h);
        fresh = tt;
        same = refl;
      }
      copy_pointer-IsDeep deep h (some r) (x, y, (a, e, w)) =
          subst (λ (q : Option ℕ × List C). IsCopy pointer_shape h (some r) q.1 q.0)
            (sym (
              ap
                (λ (o : Option A). elim o [
                  | none ↦ (none, h)
                  | some b ↦ (some (length (c b h).1), (c b h).1 ++ inject (c b h).0 ∷ [])
                ])
                e))
            (pointer_lem h (c a h).1 r a (c a h).0 e (deep h a w))

-- A struct whose references are those of `refs`.
module _ {C S X A V : Type 0} (s : Shape C A V) (refs : S → A) (seen : S → V → X) where
  abbrev pub struct_shape : Shape C S X
  struct_shape = record {
    within = λ lo hi h a. s.within lo hi h (refs a);
    view = λ h a. seen a (s.view h (refs a));
    weaken = λ lo hi lo' hi' h a. s.weaken lo hi lo' hi' h (refs a);
    frame = λ lo hi h k a g w. let (w', v) = s.frame lo hi h k (refs a) g w in (w', ap (seen a) v);
  }

  -- `*out = *in`, and then the references, which `put` sets
  pub struct-IsDeep :
      (c : Copier C A) (put : S → A → S)
      → ((a : S) (p : A) → refs (put a p) ≡ p)
      → ((a : S) (p : A) (v : V) → seen (put a p) v ≡ seen a v)
      → IsDeep s c
      → IsDeep struct_shape (λ a h. (put a (c (refs a) h).0, (c (refs a) h).1))
  struct-IsDeep c put refs-put seen-put deep h a w =
      let p = deep h (refs a) w in
      let k : List C = (c (refs a) h).1 in
      let new : A = (c (refs a) h).0 in
      record {
        added = p.added;
        grown = p.grown;
        fresh = subst (s.within (length h) (length k) k) (sym (refs-put a new)) p.fresh;
        same =
            seen-put a new _ ∙ ap (λ q. seen a (s.view k q)) (refs-put a new) ∙ ap (seen a) p.same;
      }
