-- ===== src/Memory/Shapes.antt =====
-- What a value in memory reaches and denotes, and what a deep copy of it is.
use streaming_runtime_go.Prelude.{
  ℕ, ◌+◌, ◌≤◌, List, [], ◌++◌, append_assoc, append-nil, length, length-append, ◌≡◌, refl, sym, ap,
  ◌∙◌, subst, arith,
}
use streaming_runtime_go.Memory.{AgreesOn, append-AgreesOn}

-- `within lo hi h a`: every address that a reaches in h lies from lo up to hi, and holds a cell of
-- its type. `view` is the value without addresses.
pub record Shape (C A V : Type 0) : Type 1 where
  pub within : ℕ → ℕ → List C → A → Type 0
  pub view : List C → A → V
  pub weaken :
      (lo hi lo' hi' : ℕ) (h : List C) (a : A)
      → lo' ≤ lo
      → hi ≤ hi'
      → within lo hi h a
      → within lo' hi' h a
  pub frame :
      (lo hi : ℕ) (h k : List C) (a : A)
      → AgreesOn lo hi h k
      → within lo hi h a
      → within lo hi k a × (view k a ≡ view h a)

-- `DeepCopyInto`
abbrev pub Copier : Type 0 → Type 0 → Type 0
Copier C A = A → List C → A × List C

module _ {C : Type 0} where
  -- In k, b is a deep copy of what a is in h: the memory has grown, b reaches new addresses alone, and
  -- both are the same value.
  pub record IsCopy {A V : Type 0} (s : Shape C A V) (h : List C) (a : A) (k : List C) (b : A)
      : Type 0 where
    pub added : List C
    pub grown : k ≡ h ++ added
    pub fresh : s.within (length h) (length k) k b
    pub same : s.view k b ≡ s.view h a

  abbrev pub IsDeep : {A V : Type 0} → Shape C A V → Copier C A → Type 0
  IsDeep s c = (h : List C) (a : _) → s.within 0 (length h) h a → IsCopy s h a (c a h).1 (c a h).0

  -- What is written into old cells leaves a copy as it is, and what is written into new cells leaves
  -- the original as it is.
  pub isolated :
      {A V : Type 0} (s : Shape C A V) (c : Copier C A) (h old new : List C) (a : A)
      → IsDeep s c
      → s.within 0 (length h) h a
      → AgreesOn (length h) (length (c a h).1) (c a h).1 old
      → AgreesOn 0 (length h) h new
      → IsCopy s h a (c a h).1 (c a h).0
        × (s.view old (c a h).0 ≡ s.view h a)
        × (s.view new a ≡ s.view h a)
  isolated s c h old new a deep w e e' =
      let p = deep h a w in
      (
        p,
        (s.frame (length h) (length (c a h).1) (c a h).1 old (c a h).0 e p.fresh).1 ∙ p.same,
        (s.frame 0 (length h) h new a e' w).1,
      )

  -- A value without addresses.
  abbrev pub value_shape : (A : Type 0) → Shape C A A
  value_shape A = record {
    within = λ lo hi h a. Unit;
    view = λ h a. a;
    weaken = λ lo hi lo' hi' h a p q w. tt;
    frame = λ lo hi h k a e w. (tt, refl);
  }

  abbrev pub copy_value : {A : Type 0} → Copier C A
  copy_value a h = (a, h)

  pub copy_value-IsDeep : {A : Type 0} → IsDeep (value_shape A) copy_value
  copy_value-IsDeep h a w = record {
    added = [];
    grown = sym (append-nil h);
    fresh = tt;
    same = refl;
  }

  -- one field after the other
  abbrev pub copy_pair : {A B : Type 0} → Copier C A → Copier C B → Copier C (A × B)
  copy_pair c d p h = let (a, h1) = c p.0 h in let (b, h2) = d p.1 h1 in ((a, b), h2)

  module _ {A B V W : Type 0} (s : Shape C A V) (t : Shape C B W) where
    abbrev pub pair_shape : Shape C (A × B) (V × W)
    pair_shape = record {
      within = λ lo hi h p. s.within lo hi h p.0 × t.within lo hi h p.1;
      view = λ h p. (s.view h p.0, t.view h p.1);
      weaken = λ lo hi lo' hi' h p a b w.
          (s.weaken lo hi lo' hi' h p.0 a b w.0, t.weaken lo hi lo' hi' h p.1 a b w.1);
      frame = λ lo hi h k p e w.
          let (w0, v0) = s.frame lo hi h k p.0 e w.0 in
          let (w1, v1) = t.frame lo hi h k p.1 e w.1 in
          ((w0, w1), ap (λ v. (v, t.view k p.1)) v0 ∙ ap (λ v. (s.view h p.0, v)) v1);
    }

    pub pair_lem :
        (h h1 h2 : List C) (a a' : A) (b b' : B)
        → t.within 0 (length h) h b
        → IsCopy s h a h1 a'
        → (t.within 0 (length h1) h1 b → IsCopy t h1 b h2 b')
        → IsCopy pair_shape h (a, b) h2 (a', b')
    pair_lem h h1 h2 a a' b b' w p f =
        let agree : AgreesOn 0 (length h) h h1 =
          subst (AgreesOn 0 (length h) h) (sym p.grown) (append-AgreesOn 0 h p.added) in
        let grown1 : length h1 ≡ length h + length p.added =
          ap (λ l. length l) p.grown ∙ length-append h p.added in
        let (w1, v1) = t.frame 0 (length h) h h1 b agree w in
        let q = f (t.weaken 0 (length h) 0 (length h1) h1 b (omega arith) (omega arith) w1) in
        let agree2 : AgreesOn (length h) (length h1) h1 h2 =
          subst (AgreesOn (length h) (length h1) h1) (sym q.grown)
            (append-AgreesOn (length h) h1 q.added) in
        let grown2 : length h2 ≡ length h1 + length q.added =
          ap (λ l. length l) q.grown ∙ length-append h1 q.added in
        let (w2, v2) = s.frame (length h) (length h1) h1 h2 a' agree2 p.fresh in
        record {
          added = p.added ++ q.added;
          grown = q.grown ∙ ap (λ l. l ++ q.added) p.grown ∙ append_assoc h p.added q.added;
          fresh = (
            s.weaken (length h) (length h1) (length h) (length h2) h2 a' (omega arith) (omega arith)
                w2,
            t.weaken (length h1) (length h2) (length h) (length h2) h2 b' (omega arith)
                (omega arith) q.fresh,
          );
          same =
              ap (λ v. (v, t.view h2 b')) (v2 ∙ p.same) ∙ ap (λ v. (s.view h a, v)) (q.same ∙ v1);
        }

    pub copy_pair-IsDeep :
        (c : Copier C A) (d : Copier C B)
        → IsDeep s c
        → IsDeep t d
        → IsDeep pair_shape (copy_pair c d)
    copy_pair-IsDeep c d p q h (a, b) (wa, wb) =
        pair_lem h (c a h).1 (d b (c a h).1).1 a (c a h).0 b (d b (c a h).1).0 wb (p h a wa)
          (q (c a h).1 b)
