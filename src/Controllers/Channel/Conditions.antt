-- ===== src/Controllers/Channel/Conditions.antt =====
-- For which channels a container is made.
use streaming_runtime_go.Prelude.{
  Text, codes, text_eq, text_eq_iff, List, [], ◌∷◌, ok, index, is_empty, Bool, true, false, not,
  ◌&&◌, ◌||◌, Bool-cases, >>=-eq-ok, fail-ne-ok, ok-injective, subst, if◌then◌else◌, ◌≡◌, ◌≢◌, ◌⊎◌,
  ◌↔◌, inl, inr, refl, sym, ap, ◌∙◌,
}
use streaming_runtime_go.Api.{OutputTarget, ChannelSpec, ChannelResource, Container}
use streaming_runtime_go.Controllers.Channel.{channel_mode, channel_container}

-- A specification with a first target that names a stream or a component, with a first source, and, in
-- the aggregate mode, with a trigger.
pub record IsDeployable (spec : ChannelSpec) : Type 0 where
  pub to : OutputTarget
  pub others : List OutputTarget
  pub targets : spec.stream.to ≡ to ∷ others
  pub named : (to.stream ≢ []) ⊎ (to.component ≢ [])
  pub source : Text
  pub more : List Text
  pub sources : spec.stream.sources ≡ source ∷ more
  pub triggered : (spec.mode ≢ codes "aggregate") ⊎ (spec.trigger ≢ [])

is_empty-false : (s : Text) → is_empty s ≡ false → s ≢ []
is_empty-false [] h = cc
is_empty-false (c ∷ s) h = λ e. cc

is_empty_of_ne : (s : Text) → s ≢ [] → is_empty s ≡ false
is_empty_of_ne [] h = absurd (h refl)
is_empty_of_ne (c ∷ s) h = refl

both_empty_iff : (s t : Text) → ((is_empty s && is_empty t) ≡ false) ↔ ((s ≢ []) ⊎ (t ≢ []))
both_empty_iff [] [] = (λ h. cc, λ h. elim h [ inl n ↦ absurd (n refl) | inr n ↦ absurd (n refl) ])
both_empty_iff [] (d ∷ t) = (λ h. inr (λ e. cc), λ h. refl)
both_empty_iff (c ∷ s) t = (λ h. inl (λ e. cc), λ h. refl)

not_aggregate :
    (mode : Text) (b : Bool)
    → text_eq mode (codes "aggregate") ≡ false
    → text_eq (if b then codes "stream" else mode) (codes "aggregate") ≡ false
unfolding text_eq
not_aggregate mode true e = refl
not_aggregate mode false e = e

channel_mode-aggregate :
    (mode : Text)
    → text_eq (channel_mode mode) (codes "aggregate") ≡ text_eq mode (codes "aggregate")
unfolding channel_mode text_eq
channel_mode-aggregate mode = elim (Bool-cases (text_eq mode (codes "aggregate"))) [
  | inl e ↦
      subst
        (λ (m : Text). text_eq (channel_mode m) (codes "aggregate") ≡ text_eq m (codes "aggregate"))
        (sym ((text_eq_iff mode (codes "aggregate")).0 e)) refl
  | inr e ↦
      not_aggregate mode
        (is_empty mode
          || (not (text_eq mode (codes "stream")) && not (text_eq mode (codes "aggregate"))))
        e
      ∙ sym e
]

triggered_iff :
    (mode trigger : Text)
    → ((text_eq (channel_mode mode) (codes "aggregate") && is_empty trigger) ≡ false)
      ↔ ((mode ≢ codes "aggregate") ⊎ (trigger ≢ []))
triggered_iff mode trigger =
    subst
      (λ (b : Bool).
        ((b && is_empty trigger) ≡ false) ↔ ((mode ≢ codes "aggregate") ⊎ (trigger ≢ [])))
      (sym (channel_mode-aggregate mode))
      (elim (Bool-cases (text_eq mode (codes "aggregate"))) [
        | inl e ↦ rw e (
          λ h. inr (is_empty-false trigger h),
          λ h. elim h [
            | inl n ↦ absurd (n ((text_eq_iff mode (codes "aggregate")).0 e))
            | inr n ↦ is_empty_of_ne trigger n
          ],
        )
        | inr e ↦
            rw e
              (λ h. inl (λ same. cc (e, (text_eq_iff mode (codes "aggregate")).1 same)), λ h. refl)
      ])

first_of : {A : Type 0} (l : List A) (a : A) → index l 0 ≡ ok a → (more : List A) × (l ≡ a ∷ more)
first_of [] a h = cc
first_of (b ∷ l) a h = (l, ap (λ c. c ∷ l) (ok-injective h))

-- The controller makes a container for a channel exactly if its specification has a first target that
-- names a stream or a component, a first source, and, in the aggregate mode, a trigger.
pub channel_container-iff-IsDeployable :
    (channel : ChannelResource)
    → ((container : Container) × (channel_container channel ≡ ok container))
      ↔ IsDeployable channel.spec
unfolding channel_container
channel_container-iff-IsDeployable channel = (
  λ (container, h).
      let (to, t, h1) = >>=-eq-ok (index channel.spec.stream.to 0) _ h in
      elim (Bool-cases (is_empty to.stream && is_empty to.component)) [
        | inl e ↦ absurd (fail-ne-ok (rw e at h1))
        | inr e ↦
            elim (Bool-cases (
              text_eq (channel_mode channel.spec.mode) (codes "aggregate")
              && is_empty channel.spec.trigger)) [
                | inl f ↦ absurd (fail-ne-ok (rw f at (rw e at h1)))
                | inr f ↦
                    let (source, s, h2) =
                      >>=-eq-ok (index channel.spec.stream.sources 0) _ (rw f at (rw e at h1)) in
                    let (others, ts) = first_of channel.spec.stream.to to t in
                    let (more, ss) = first_of channel.spec.stream.sources source s in
                    record {
                      to = to;
                      others = others;
                      targets = ts;
                      named = (both_empty_iff to.stream to.component).0 e;
                      source = source;
                      more = more;
                      sources = ss;
                      triggered = (triggered_iff channel.spec.mode channel.spec.trigger).0 f;
                    }
              ]
      ],
  λ v.
      let e = (both_empty_iff v.to.stream v.to.component).1 v.named in
      let f = (triggered_iff channel.spec.mode channel.spec.trigger).1 v.triggered in
      rw v.targets (rw e (rw f (rw v.sources (_, refl)))),
)
