-- ===== src/Prelude/Splitting.antt =====
-- Laws of `split` and of the other functions of the package `strings`.
use Prim.Native.Nat.{ℕ, suc, ◌≤◌}
use mathlib.Core.Path.{◌≡◌, refl, ap}
use mathlib.Core.Logic.{◌≢◌, ◌⊎◌, inl, inr}
use mathlib.Core.Bool.{false}
use mathlib.Core.Option.{none, some}
use mathlib.Core.List.{List, [], ◌∷◌, ◌++◌}
use native.Mathlib.Omega.{arith}
use streaming_runtime_go.Prelude.Tests.{◌==◌, is_empty, ==_self, ==_ne, Bool-cases}
use streaming_runtime_go.Prelude.Lists.{length}
use streaming_runtime_go.Prelude.Strings.{
  Text, Lacks, split, push_head, join, index_byte, replace_all, count_byte,
}

length-push_head : (c : ℕ) (ps : List Text) → 1 ≤ length ps → length (push_head c ps) ≡ length ps
unfolding push_head
length-push_head c [] h = omega arith
length-push_head c (p ∷ ps) h = refl

-- One part more than separators.
pub length-split : (s : Text) (sep : ℕ) → length (split s sep) ≡ suc (count_byte s sep)
unfolding split count_byte
length-split [] sep = refl
length-split (c ∷ s) sep = ground (arith, length-split s sep, length-push_head c (split s sep))

-- A text without the separator is one part.
pub split-Lacks : (s : Text) (sep : ℕ) → Lacks sep s → split s sep ≡ s ∷ []
unfolding split push_head
split-Lacks [] sep h = refl
split-Lacks (c ∷ s) sep (hc, hs) = rw (split-Lacks s sep hs, ==_ne c sep hc)

-- The first separator ends the first part.
pub split-append :
    (p rest : Text) (sep : ℕ) → Lacks sep p → split (p ++ sep ∷ rest) sep ≡ p ∷ split rest sep
unfolding split push_head
split-append [] rest sep h = rw (==_self sep)
split-append (c ∷ p) rest sep (hc, hs) = rw (split-append p rest sep hs, ==_ne c sep hc)

pub is_empty-append : (p rest : Text) (c : ℕ) → is_empty (p ++ c ∷ rest) ≡ false
is_empty-append [] rest c = refl
is_empty-append (d ∷ p) rest c = refl

-- A split has a first part.
pub split-cons : (s : Text) (sep : ℕ) → (p : Text) × (ps : List Text) × (split s sep ≡ p ∷ ps)
unfolding split
split-cons [] sep = ([], [], refl)
split-cons (c ∷ s) sep =
    let (p, ps, e) = split-cons s sep in
    elim (Bool-cases (c == sep)) [
      | inl h ↦ ([], split s sep, rw h)
      | inr h ↦ (c ∷ p, ps, rw (h, e) (unfold push_head in refl))
    ]

join-push_head :
    (c : ℕ) (p : Text) (ps : List Text) (sep : Text)
    → join (push_head c (p ∷ ps)) sep ≡ c ∷ join (p ∷ ps) sep
unfolding join push_head
join-push_head c p [] sep = refl
join-push_head c p (q ∷ ps) sep = refl

join_empty_first :
    (p : Text) (ps : List Text) (sep : Text) → join ([] ∷ p ∷ ps) sep ≡ sep ++ join (p ∷ ps) sep
unfolding join
join_empty_first p ps sep = refl

-- Joining the parts of a split gives the text back.
pub join-split : (s : Text) (sep : ℕ) → join (split s sep) (sep ∷ []) ≡ s
unfolding split
join-split [] sep = unfold join in refl
join-split (c ∷ s) sep =
    let (p, ps, e) = split-cons s sep in
    let ih = join-split s sep in
    elim (Bool-cases (c == sep)) [
      | inl h ↦ rw (h, e) (ground (arith, join_empty_first p ps (sep ∷ []), ih, e))
      | inr h ↦ rw (h, e) (ground (arith, join-push_head c p ps (sep ∷ []), ih, e))
    ]

pub index_byte-Lacks : (s : Text) (sep : ℕ) → index_byte s sep ≡ none → Lacks sep s
unfolding index_byte
index_byte-Lacks [] sep h = tt
index_byte-Lacks (c ∷ s) sep h = ground (arith, index_byte-Lacks s sep)

pub Lacks-index_byte : (s : Text) (sep : ℕ) → Lacks sep s → index_byte s sep ≡ none
unfolding index_byte
Lacks-index_byte [] sep h = refl
Lacks-index_byte (c ∷ s) sep (hc, hs) = rw (==_ne c sep hc, Lacks-index_byte s sep hs)

-- A separator after a text without it is found.
pub index_byte-append :
    (p rest : Text) (sep : ℕ) → Lacks sep p → (i : ℕ) × (index_byte (p ++ sep ∷ rest) sep ≡ some i)
unfolding index_byte
index_byte-append [] rest sep h = (0, rw (==_self sep))
index_byte-append (c ∷ p) rest sep (hc, hs) =
    let (i, e) = index_byte-append p rest sep hs in (suc i, rw (==_ne c sep hc, e))

-- Either a text lacks the byte, or it is cut at the first one.
pub first_byte :
    (s : Text) (sep : ℕ)
    → Lacks sep s ⊎ ((p : Text) × (rest : Text) × (s ≡ p ++ sep ∷ rest) × Lacks sep p)
first_byte [] sep = inl tt
first_byte (c ∷ s) sep = elim (Bool-cases (c == sep)) [
  | inl e ↦ inr ([], s, ground arith, tt)
  | inr e ↦ elim (first_byte s sep) [
    | inl l ↦ inl (ground arith, l)
    | inr (p, rest, e', l) ↦ inr (c ∷ p, rest, ap (λ t. c ∷ t) e', (ground arith, l))
  ]
]

pub replace_all-Lacks : (s : Text) (old new : ℕ) → old ≢ new → Lacks old (replace_all s old new)
unfolding replace_all
replace_all-Lacks [] old new h = tt
replace_all-Lacks (c ∷ s) old new h = (ground arith, replace_all-Lacks s old new h)

-- A replacement by another byte keeps a text free of what it was free of.
pub replace_all-keeps_Lacks :
    (b : ℕ) (s : Text) (old new : ℕ) → b ≢ new → Lacks b s → Lacks b (replace_all s old new)
unfolding replace_all
replace_all-keeps_Lacks b [] old new h l = tt
replace_all-keeps_Lacks b (c ∷ s) old new h (hc, hs) =
    (ground arith, replace_all-keeps_Lacks b s old new h hs)

pub replace_all_of_Lacks : (s : Text) (old new : ℕ) → Lacks old s → replace_all s old new ≡ s
unfolding replace_all
replace_all_of_Lacks [] old new h = refl
replace_all_of_Lacks (c ∷ s) old new (hc, hs) =
    rw (==_ne c old hc, replace_all_of_Lacks s old new hs)

pub length-replace_all : (s : Text) (old new : ℕ) → length (replace_all s old new) ≡ length s
unfolding replace_all
length-replace_all [] old new = refl
length-replace_all (c ∷ s) old new = ap suc (length-replace_all s old new)
