-- ===== src/Memory/Lists.antt =====
-- Deep copies of the values in an array, one after the other.
use streaming_runtime_go.Prelude.{ℕ, ◌≤◌, List, [], ◌∷◌, append-nil, ◌≡◌, refl, sym, ap, ◌∙◌}
use streaming_runtime_go.Memory.{AgreesOn}
use streaming_runtime_go.Memory.Shapes.{Shape, Copier, IsDeep, pair_lem}

module _ {C A : Type 0} where
  -- `for i := range *in { (*in)[i].DeepCopyInto(&(*out)[i]) }`
  abbrev pub copy_items : Copier C A → Copier C (List A)
  copy_items c [] h = ([], h)
  copy_items c (a ∷ l) h = let (b, h1) = c a h in let (m, h2) = copy_items c l h1 in (b ∷ m, h2)

  module _ {V : Type 0} (s : Shape C A V) where
    abbrev pub WithinItems : ℕ → ℕ → List C → List A → Type 0
    WithinItems lo hi h [] = Unit
    WithinItems lo hi h (a ∷ l) = s.within lo hi h a × WithinItems lo hi h l

    abbrev pub view_items : List C → List A → List V
    view_items h [] = []
    view_items h (a ∷ l) = s.view h a ∷ view_items h l

    pub weaken_items :
        (lo hi lo' hi' : ℕ) (h : List C) (l : List A)
        → lo' ≤ lo
        → hi ≤ hi'
        → WithinItems lo hi h l
        → WithinItems lo' hi' h l
    weaken_items lo hi lo' hi' h [] p q w = tt
    weaken_items lo hi lo' hi' h (a ∷ l) p q w =
        (s.weaken lo hi lo' hi' h a p q w.0, weaken_items lo hi lo' hi' h l p q w.1)

    pub frame_items :
        (lo hi : ℕ) (h k : List C) (l : List A)
        → AgreesOn lo hi h k
        → WithinItems lo hi h l
        → WithinItems lo hi k l × (view_items k l ≡ view_items h l)
    frame_items lo hi h k [] e w = (tt, refl)
    frame_items lo hi h k (a ∷ l) e w =
        let (w0, v0) = s.frame lo hi h k a e w.0 in
        let (w1, v1) = frame_items lo hi h k l e w.1 in
        ((w0, w1), ap (λ v. v ∷ view_items k l) v0 ∙ ap (λ m. s.view h a ∷ m) v1)

    abbrev pub items_shape : Shape C (List A) (List V)
    items_shape = record {
      within = WithinItems;
      view = view_items;
      weaken = weaken_items;
      frame = frame_items;
    }

    pub copy_items-IsDeep : (c : Copier C A) → IsDeep s c → IsDeep items_shape (copy_items c)
    copy_items-IsDeep c deep h [] w = record {
      added = [];
      grown = sym (append-nil h);
      fresh = tt;
      same = refl;
    }
    copy_items-IsDeep c deep h (a ∷ l) w =
        let (b, h1) = c a h in
        let (m, h2) = copy_items c l h1 in
        let p =
          pair_lem s items_shape h h1 h2 a b l m w.1 (deep h a w.0)
            (copy_items-IsDeep c deep h1 l) in
        record {
          added = p.added;
          grown = p.grown;
          fresh = p.fresh;
          same = ap (λ (v : V × List V). v.0 ∷ v.1) p.same;
        }
